-- ===== src/HttpAgent/Pieces.antt =====
-- agents/http_agent.go: the frames do not depend on how the stream is cut into pieces.
use quic_tracker.Base.{
  ℕ, ◌+◌, ◌-◌, ◌*◌, ◌%◌, ◌^◌, ◌/◌, ◌≤◌, ◌≡◌, ◌≢◌, refl, ap, sym, ◌∙◌, ◌==◌, ltb, Bool-cases, true,
  false, inl, inr, bit_and, [], ◌∷◌, ◌++◌, Bytes, length, length-append, take, Option, none, some,
  done, panic, arith,
}
use quic_tracker.VarInt.{read_var_int_value}
use quic_tracker.VarInt.Value.{VarInt}
use quic_tracker.HttpAgent.{peeked, size_of, peek_var_int}

abbrev peek_four : ℕ → ℕ → ℕ → ℕ → Option VarInt
peek_four a b c d = peeked (read_var_int_value (a ∷ b ∷ c ∷ d ∷ []))

abbrev len_of : ℕ → ℕ
len_of a = 2 ^ (bit_and a 0xc0 / 2 ^ 6)

-- What is read from four bytes depends on those alone that belong to the number.
record IsPeeked (a b c d : ℕ) (l : VarInt) : Type 0 where
  takes : 1 ≤ l.length
  first_two : (c' d' : ℕ) → l.length ≤ 2 → peek_four a b c' d' ≡ some l
  first_one : (b' c' d' : ℕ) → l.length ≤ 1 → peek_four a b' c' d' ≡ some l

one_byte :
    (a b c d : ℕ)
    → (len_of a == 1) ≡ true
    → peek_four a b c d ≡ some (record { value = bit_and a (0xff - 0xc0); length = 1 })
unfolding read_var_int_value
one_byte a b c d h = rw h refl

first_two_bytes :
    (a b c d : ℕ)
    → (len_of a == 1) ≡ false
    → (len_of a == 2) ≡ true
    → peek_four a b c d
      ≡ some (record { value = (b + bit_and a (0xff - 0xc0) * 2 ^ 8) % 2 ^ 64; length = 2 })
unfolding read_var_int_value
first_two_bytes a b c d h h' = rw (h, h') refl

four_or_none :
    (a b c d : ℕ) (l : VarInt)
    → (len_of a == 1) ≡ false
    → (len_of a == 2) ≡ false
    → peek_four a b c d ≡ some l
    → 4 ≤ l.length
unfolding read_var_int_value
four_or_none a b c d l h h' e = elim (Bool-cases (len_of a == 4)) [
  | inl h'' ↦ length_of (rw (h, h', h'') at e)
  | inr h'' ↦ none_some (rw (h, h', h'') at e)
]
  where
    length_of : {v : ℕ} → some (record { value = v; length = 4 }) ≡ some l → 4 ≤ l.length
    length_of {v} p =
        let same : record { value = v; length = 4 } ≡ l = cc in
        let n : 4 ≡ l.length = ap (λ (x : VarInt). x.length) same in omega (arith, n)

    none_some : none ≡ some l → 4 ≤ l.length
    none_some p = cc

IsPeeked-by :
    (a b c d : ℕ) (l l' : VarInt)
    → peek_four a b c d ≡ some l
    → peek_four a b c d ≡ some l'
    → IsPeeked a b c d l'
    → IsPeeked a b c d l
IsPeeked-by a b c d l l' e e' i = let same : l' ≡ l = cc in rw same at i

peek_four-IsPeeked : (a b c d : ℕ) (l : VarInt) → peek_four a b c d ≡ some l → IsPeeked a b c d l
peek_four-IsPeeked a b c d l e = elim (Bool-cases (len_of a == 1)) [
  | inl h ↦ IsPeeked-by a b c d l _ e (one_byte a b c d h) (record {
    takes = omega arith;
    first_two = λ c' d' le. one_byte a b c' d' h;
    first_one = λ b' c' d' le. one_byte a b' c' d' h;
  })
  | inr h ↦ elim (Bool-cases (len_of a == 2)) [
    | inl h' ↦ IsPeeked-by a b c d l _ e (first_two_bytes a b c d h h') (record {
      takes = omega arith;
      first_two = λ c' d' le. first_two_bytes a b c' d' h h';
      first_one = λ b' c' d' le. absurd (omega (arith, le));
    })
    | inr h' ↦
        let four = four_or_none a b c d l h h' e in
        record {
          takes = omega (arith, four);
          first_two = λ c' d' le. absurd (omega (arith, le, four));
          first_one = λ b' c' d' le. absurd (omega (arith, le, four));
        }
  ]
]

three_bytes : (w : Bytes) → 3 ≤ length w → (p : ℕ) × (q : ℕ) × (r : ℕ) × (take 3 w ≡ p ∷ q ∷ r ∷ [])
three_bytes [] le = absurd (omega (arith, le))
three_bytes (p ∷ []) le = absurd (omega (arith, le))
three_bytes (p ∷ q ∷ []) le = absurd (omega (arith, le))
three_bytes (p ∷ q ∷ r ∷ w) le = (p, q, r, refl)

one_more : (w : Bytes) → 1 ≤ length w → (p : ℕ) × (take 1 w ≡ p ∷ [])
one_more [] le = absurd (omega (arith, le))
one_more (p ∷ w) le = (p, refl)

two_bytes : (w : Bytes) → 2 ≤ length w → (p : ℕ) × (q : ℕ) × (take 2 w ≡ p ∷ q ∷ [])
two_bytes [] le = absurd (omega (arith, le))
two_bytes (p ∷ []) le = absurd (omega (arith, le))
two_bytes (p ∷ q ∷ w) le = (p, q, refl)

module _ (behind : Bytes → Bytes) (room : (bs : Bytes) → 3 ≤ length (behind bs)) where
  peek_read :
      (x : ℕ) (bs : Bytes) (a b c d : ℕ)
      → take 4 ((x ∷ bs) ++ behind (x ∷ bs)) ≡ a ∷ b ∷ c ∷ d ∷ []
      → peek_var_int behind (x ∷ bs) ≡ done (peek_four a b c d)
  unfolding peek_var_int
  peek_read x bs a b c d e =
      let long_enough : ltb (length ((x ∷ bs) ++ behind (x ∷ bs))) 4 ≡ false =
        ground (arith, length-append (x ∷ bs) (behind (x ∷ bs)), room (x ∷ bs)) in
      rw (long_enough, e) refl

  pub peek-returns : (bs : Bytes) → peek_var_int behind bs ≢ panic
  unfolding peek_var_int
  peek-returns [] p = cc
  peek-returns (x ∷ bs) p =
      let long_enough : ltb (length ((x ∷ bs) ++ behind (x ∷ bs))) 4 ≡ false =
        ground (arith, length-append (x ∷ bs) (behind (x ∷ bs)), room (x ∷ bs)) in
      let q = rw long_enough at p in cc

  there :
      (x : ℕ) (bs : Bytes) (a b c d : ℕ) (l : VarInt)
      → take 4 ((x ∷ bs) ++ behind (x ∷ bs)) ≡ a ∷ b ∷ c ∷ d ∷ []
      → peek_var_int behind (x ∷ bs) ≡ done (some l)
      → peek_four a b c d ≡ some l
  there x bs a b c d l t e =
      let p : done (peek_four a b c d) ≡ done (some l) = sym (peek_read x bs a b c d t) ∙ e in cc

  room_behind : (bs more : Bytes) → 3 ≤ length (more ++ behind bs)
  room_behind bs more = omega (arith, room bs, length-append more (behind bs))

module _ (behind behind' : Bytes → Bytes) (room : (bs : Bytes) → 3 ≤ length (behind bs))
    (room' : (bs : Bytes) → 3 ≤ length (behind' bs)) where
  -- A number that lies in the buffer with the frame it measures is read again when more has come,
  -- whatever lies behind the data then.
  pub peek-append :
      (bs more : Bytes) (l : VarInt)
      → peek_var_int behind bs ≡ done (some l)
      → size_of l ≤ length bs
      → peek_var_int behind' (bs ++ more) ≡ done (some l)
  peek-append [] more l e le = absurd (omega (arith, le))
  peek-append (x ∷ []) more l e le =
      let (p, q, r, t) = three_bytes (behind (x ∷ [])) (room (x ∷ [])) in
      let i = peek_four-IsPeeked x p q r l (there behind room x [] x p q r l (ap (◌∷◌ x) t) e) in
      absurd (omega (arith, le, i.takes))
  peek-append (x ∷ y ∷ []) more l e le =
      let (p, q, t) = two_bytes (behind (x ∷ y ∷ [])) (omega (arith, room (x ∷ y ∷ []))) in
      let i =
        peek_four-IsPeeked x y p q l
          (there behind room x (y ∷ []) x y p q l (ap (λ (w : Bytes). x ∷ y ∷ w) t) e) in
      let (p', q', t') =
        two_bytes (more ++ behind' (x ∷ y ∷ more))
          (omega (arith, room_behind behind' room' (x ∷ y ∷ more) more)) in
      peek_read behind' room' x (y ∷ more) x y p' q' (ap (λ (w : Bytes). x ∷ y ∷ w) t')
      ∙ ap done (i.first_two p' q' (omega (arith, le)))
  peek-append (x ∷ y ∷ z ∷ []) more l e le =
      let (p, t) = one_more (behind (x ∷ y ∷ z ∷ [])) (omega (arith, room (x ∷ y ∷ z ∷ []))) in
      let i =
        peek_four-IsPeeked x y z p l
          (there behind room x (y ∷ z ∷ []) x y z p l (ap (λ (w : Bytes). x ∷ y ∷ z ∷ w) t) e) in
      let (p', t') =
        one_more (more ++ behind' (x ∷ y ∷ z ∷ more))
          (omega (arith, room_behind behind' room' (x ∷ y ∷ z ∷ more) more)) in
      peek_read behind' room' x (y ∷ z ∷ more) x y z p' (ap (λ (w : Bytes). x ∷ y ∷ z ∷ w) t')
      ∙ ap done (i.first_two z p' (omega (arith, le)))
  peek-append (x ∷ y ∷ z ∷ w ∷ bs) more l e le =
      peek_read behind' room' x (y ∷ z ∷ w ∷ (bs ++ more)) x y z w refl
      ∙ (sym (peek_read behind room x (y ∷ z ∷ w ∷ bs) x y z w refl) ∙ e)
