-- ===== src/HttpAgent/Cuts.antt =====
-- agents/http_agent.go: attemptDecoding when the bytes of a stream come in two pieces.
use quic_tracker.Base.{
  ℕ, zero, suc, ◌≤◌, ◌<◌, ◌≡◌, ◌≢◌, refl, ap, sym, ◌∙◌, leb, ◌⊎◌, Bool-cases, true, inl, inr, List,
  [], ◌∷◌, ◌++◌, Bytes, length, length-append, length-drop, append-nil, take, drop, take-inside,
  drop-inside, Option, none, some, Outcome, Outcome-cases, done, panic, arith,
}
use quic_tracker.VarInt.Value.{VarInt}
use quic_tracker.Http3.{HttpFrame}
use quic_tracker.Http3.Read.{read_http_frame}
use quic_tracker.HttpAgent.{
  Decoded, prepend, size_of, peek_var_int, decode_frame, decode_from, attempt_decoding,
}
use quic_tracker.HttpAgent.Pieces.{peek-append, peek-returns}

-- A round that takes a frame out.
record Takes (go : Bytes → Decoded) (bs : Bytes) (p : Outcome (Option VarInt)) (fs : List HttpFrame)
    (left : Bytes) : Type 0 where
  size : VarInt
  first : HttpFrame
  rest : Bytes
  following : List HttpFrame
  measured : p ≡ done (some size)
  fits : size_of size ≤ length bs
  reads : read_http_frame [] (take (size_of size) bs) ≡ done (first, rest)
  goes_on : go (drop (size_of size) bs) ≡ some (done (following, left))
  same : first ∷ following ≡ fs

abbrev Stops : Bytes → List HttpFrame → Bytes → Type 0
Stops bs fs left = ([] ≡ fs) × (bs ≡ left)

prepend-cases :
    (f : HttpFrame) (d : Decoded) (fs : List HttpFrame) (left : Bytes)
    → prepend f d ≡ some (done (fs, left))
    → (gs : List HttpFrame) × (d ≡ some (done (gs, left))) × (f ∷ gs ≡ fs)
prepend-cases f none fs left e = absurd cc
prepend-cases f (some panic) fs left e = absurd cc
prepend-cases f (some (done (gs, l))) fs left e =
    let same : l ≡ left = cc in
    let front : f ∷ gs ≡ fs = cc in (gs, ap (λ (w : Bytes). some (done (gs, w))) same, front)

decode_frame-cases :
    (go : Bytes → Decoded) (bs : Bytes) (p : Outcome (Option VarInt)) (fs : List HttpFrame)
    (left : Bytes)
    → decode_frame go bs p ≡ some (done (fs, left))
    → Stops bs fs left ⊎ Takes go bs p fs left
unfolding decode_frame
decode_frame-cases go bs panic fs left e = absurd cc
decode_frame-cases go bs (done none) fs left e = inl (cc, cc)
decode_frame-cases go bs (done (some l)) fs left e =
    elim (Bool-cases (leb (size_of l) (length bs))) [
      | inr h ↦ let p = rw h at e in inl (cc, cc)
      | inl h ↦ elim (Outcome-cases (read_http_frame [] (take (size_of l) bs))) [
        | inl r ↦ let p = rw (h, r) at e in absurd cc
        | inr ((f, rest), r) ↦
            let p : prepend f (go (drop (size_of l) bs)) ≡ some (done (fs, left)) =
              rw (h, r) at e in
            let (gs, g, c) = prepend-cases f (go (drop (size_of l) bs)) fs left p in
            inr (record {
              size = l;
              first = f;
              rest = rest;
              following = gs;
              measured = refl;
              fits = ground (arith, h);
              reads = r;
              goes_on = g;
              same = c;
            })
      ]
    ]

Takes-decode_frame :
    (go : Bytes → Decoded) (bs : Bytes) (p : Outcome (Option VarInt)) (fs : List HttpFrame)
    (left : Bytes)
    → Takes go bs p fs left
    → decode_frame go bs p ≡ some (done (fs, left))
unfolding decode_frame
Takes-decode_frame go bs p fs left t =
    let h : leb (size_of t.size) (length bs) ≡ true = ground (arith, t.fits) in
    rw (t.measured, h, t.reads, t.goes_on, sym t.same) refl

drop-AtMost :
    (l : VarInt) (bs : Bytes) → size_of l ≤ length bs → length (drop (size_of l) bs) < length bs
drop-AtMost l bs le = omega (arith, le, length-drop (size_of l) bs)

takes_again :
    (go go' : Bytes → Decoded) (bs : Bytes) (p : Outcome (Option VarInt))
    → ((w : Bytes) → length w < length bs → go w ≡ go' w)
    → decode_frame go bs p ≡ decode_frame go' bs p
unfolding decode_frame
takes_again go go' bs panic h = refl
takes_again go go' bs (done none) h = refl
takes_again go go' bs (done (some l)) h = elim (Bool-cases (leb (size_of l) (length bs))) [
  | inr b ↦ rw b refl
  | inl b ↦ elim (Outcome-cases (read_http_frame [] (take (size_of l) bs))) [
    | inl r ↦ rw (b, r) refl
    | inr (f, r) ↦
        let e = h (drop (size_of l) bs) (drop-AtMost l bs (ground (arith, b))) in rw (b, r, e) refl
  ]
]

Lies : Bytes → Outcome (Option VarInt) → Type 0
Lies bs p = (l : VarInt) × (p ≡ done (some l)) × (size_of l ≤ length bs)

Halts : Bytes → Outcome (Option VarInt) → Type 0
Halts bs p = (go : Bytes → Decoded) → decode_frame go bs p ≡ some (done ([], bs))

frame-cases : (bs : Bytes) (p : Outcome (Option VarInt)) → p ≢ panic → Lies bs p ⊎ Halts bs p
unfolding decode_frame Lies Halts
frame-cases bs panic h = absurd (h refl)
frame-cases bs (done none) h = inr (λ go. refl)
frame-cases bs (done (some l)) h = elim (Bool-cases (leb (size_of l) (length bs))) [
  | inl b ↦ inl (l, refl, ground (arith, b))
  | inr b ↦ inr (λ go. rw b refl)
]

module _ (behind behind' : Bytes → Bytes) (room : (bs : Bytes) → 3 ≤ length (behind bs))
    (room' : (bs : Bytes) → 3 ≤ length (behind' bs)) where
  same_peek :
      (bs : Bytes)
      → Lies bs (peek_var_int behind bs)
      → peek_var_int behind' bs ≡ peek_var_int behind bs
  unfolding Lies
  same_peek bs (l, e, le) =
      let p = peek-append behind behind' room room' bs [] l e le in
      (rw (append-nil bs) at p) ∙ sym e

module _ (behind behind' : Bytes → Bytes) (room : (bs : Bytes) → 3 ≤ length (behind bs))
    (room' : (bs : Bytes) → 3 ≤ length (behind' bs)) where
  -- Every fuel above the number of bytes gives the same.
  enough_fuel :
      (n m : ℕ) (bs : Bytes)
      → length bs < n
      → length bs < m
      → decode_from behind n bs ≡ decode_from behind' m bs
  unfolding decode_from Halts
  enough_fuel zero m bs ln lm = absurd (omega (arith, ln))
  enough_fuel (suc n) zero bs ln lm = absurd (omega (arith, lm))
  enough_fuel (suc n) (suc m) bs ln lm =
      let go = decode_from behind n in
      let go' = decode_from behind' m in
      let p = peek_var_int behind bs in
      let p' = peek_var_int behind' bs in
      let again : (q : Outcome (Option VarInt)) → decode_frame go bs q ≡ decode_frame go' bs q =
        λ q.
          takes_again go go' bs q
            (λ w lt. enough_fuel n m w (omega (arith, ln, lt)) (omega (arith, lm, lt))) in
      elim (frame-cases bs p (peek-returns behind room bs)) [
        | inl l ↦
            again p ∙ ap (decode_frame go' bs) (sym (same_peek behind behind' room room' bs l))
        | inr h ↦ elim (frame-cases bs p' (peek-returns behind' room' bs)) [
          | inl l ↦ ap (decode_frame go bs) (same_peek behind' behind room' room bs l) ∙ again p'
          | inr h' ↦ h go ∙ sym (h' go')
        ]
      ]

module _ (b1 b2 b3 : Bytes → Bytes) (room1 : (bs : Bytes) → 3 ≤ length (b1 bs))
    (room2 : (bs : Bytes) → 3 ≤ length (b2 bs)) (room3 : (bs : Bytes) → 3 ≤ length (b3 bs)) where
  decode_from-append :
      (n m k : ℕ) (bs more left rest : Bytes) (fs gs : List HttpFrame)
      → decode_from b1 n bs ≡ some (done (fs, left))
      → decode_from b2 m (left ++ more) ≡ some (done (gs, rest))
      → length (left ++ more) < m
      → length (bs ++ more) < k
      → decode_from b3 k (bs ++ more) ≡ some (done (fs ++ gs, rest))
  unfolding decode_from
  decode_from-append zero m k bs more left rest fs gs e e' lm lk = absurd cc
  decode_from-append (suc n) m zero bs more left rest fs gs e e' lm lk = absurd (omega (arith, lk))
  decode_from-append (suc n) m (suc k) bs more left rest fs gs e e' lm lk =
      elim (decode_frame-cases (decode_from b1 n) bs (peek_var_int b1 bs) fs left e) [
        | inl (f, l) ↦
            let same : left ++ more ≡ bs ++ more = ap (λ (w : Bytes). w ++ more) (sym l) in
            let short : length (bs ++ more) < m = rw same at lm in
            rw (enough_fuel b3 b2 room3 room2 (suc k) m (bs ++ more) lk short, sym same, e', sym f)
              refl
        | inr t ↦
            let n' = size_of t.size in
            let fits : n' ≤ length (bs ++ more) = omega (arith, t.fits, length-append bs more) in
            let cut = drop-inside n' bs more t.fits in
            let fewer : length (drop n' bs ++ more) < k = omega (
              arith,
              lk,
              t.fits,
              length-append bs more,
              length-append (drop n' bs) more,
              drop-AtMost t.size bs t.fits,
            ) in
            let following =
              decode_from-append n m k (drop n' bs) more left rest t.following gs t.goes_on e' lm
                fewer in
            Takes-decode_frame (decode_from b3 k) (bs ++ more) (peek_var_int b3 (bs ++ more))
              (fs ++ gs) rest
              (record {
                size = t.size;
                first = t.first;
                rest = t.rest;
                following = t.following ++ gs;
                measured = peek-append b1 b3 room1 room3 bs more t.size t.measured t.fits;
                fits = fits;
                reads = ap (read_http_frame []) (take-inside n' bs more t.fits) ∙ t.reads;
                goes_on = ap (decode_from b3 k) cut ∙ following;
                same = ap (λ (w : List HttpFrame). w ++ gs) t.same;
              })
      ]

  -- Frames taken out of a piece of the stream, and then of what was left of it together with the
  -- next piece, are the frames taken out of the two pieces at once, and as many bytes are left,
  -- when the array
  -- has three bytes or more behind the data each time, whatever they are.
  pub attempt_decoding-append :
      (bs more left rest : Bytes) (fs gs : List HttpFrame)
      → attempt_decoding b1 bs ≡ some (done (fs, left))
      → attempt_decoding b2 (left ++ more) ≡ some (done (gs, rest))
      → attempt_decoding b3 (bs ++ more) ≡ some (done (fs ++ gs, rest))
  unfolding attempt_decoding
  attempt_decoding-append bs more left rest fs gs e e' =
      decode_from-append (suc (length bs)) (suc (length (left ++ more))) (suc (length (bs ++ more)))
        bs more left rest fs gs e e' (omega arith) (omega arith)

module _ (behind : Bytes → Bytes) where
  prepend-returns : (f : HttpFrame) (d : Decoded) → d ≢ none → prepend f d ≢ none
  prepend-returns f none h = absurd (h refl)
  prepend-returns f (some panic) h = λ p. cc
  prepend-returns f (some (done (fs, left))) h = λ p. cc

  decode_frame-returns :
      (go : Bytes → Decoded) (bs : Bytes) (p : Outcome (Option VarInt))
      → ((w : Bytes) → length w < length bs → go w ≢ none)
      → decode_frame go bs p ≢ none
  unfolding decode_frame
  decode_frame-returns go bs panic h = λ q. cc
  decode_frame-returns go bs (done none) h = λ q. cc
  decode_frame-returns go bs (done (some l)) h = elim (Bool-cases (leb (size_of l) (length bs))) [
    | inr b ↦ rw b (λ q. cc)
    | inl b ↦ elim (Outcome-cases (read_http_frame [] (take (size_of l) bs))) [
      | inl r ↦ rw (b, r) (λ q. cc)
      | inr ((f, rest), r) ↦
          let w = drop (size_of l) bs in
          rw (b, r) (prepend-returns f (go w) (h w (drop-AtMost l bs (ground (arith, b)))))
    ]
  ]

  decode_from-returns : (n : ℕ) (bs : Bytes) → length bs < n → decode_from behind n bs ≢ none
  unfolding decode_from
  decode_from-returns zero bs lt = absurd (omega (arith, lt))
  decode_from-returns (suc n) bs lt =
      decode_frame-returns (decode_from behind n) bs (peek_var_int behind bs)
        (λ w le. decode_from-returns n w (omega (arith, lt, le)))

  -- The loop ends on any bytes, whatever the array holds behind them.
  pub attempt_decoding-ends : (bs : Bytes) → attempt_decoding behind bs ≢ none
  unfolding attempt_decoding
  attempt_decoding-ends bs = decode_from-returns (suc (length bs)) bs (omega arith)
