-- ===== src/Protection/Mask.antt =====
-- connection.go: SendPacket, agents/parse_agent.go: the bytes that masking leaves, when the packet
-- is given as its first byte, the bytes up to the packet number, and the bytes from there on.
use quic_tracker.Base.{
  ℕ, zero, suc, ◌+◌, ◌-◌, ◌≤◌, ◌<◌, ◌≡◌, refl, ap, ◌∙◌, bit_and, bit_xor, Bool, [], ◌∷◌, ◌++◌,
  Bytes, length, take, drop, take-inside, drop-inside, length-take, length-drop, append_assoc,
  append-nil, replicate, All, ◌==◌, done, arith,
}
use quic_tracker.Base.Bits.{xor_twice, xor_below}
use quic_tracker.Protection.{
  packet_sample, mask_at, put_first, masked_first, masked_first_twice, masked_first_top,
  number_mask, first_of, protect, unprotect, take-All,
}

abbrev pub xor_with : Bytes → Bytes → Bytes
xor_with [] bs = bs
xor_with (m ∷ ms) [] = []
xor_with (m ∷ ms) (b ∷ bs) = bit_xor b m ∷ xor_with ms bs

abbrev pub AreBytes : Bytes → Type 0
AreBytes = All (λ b. b < 256)

mask_at-xor_with :
    (before ms bs rest : Bytes)
    → length ms ≤ length bs
    → mask_at (length before) ms (before ++ (bs ++ rest))
      ≡ done (before ++ (xor_with ms bs ++ rest))
unfolding mask_at
mask_at-xor_with (x ∷ before) ms bs rest le =
    ap (put_first x) (mask_at-xor_with before ms bs rest le)
mask_at-xor_with [] [] [] [] le = refl
mask_at-xor_with [] [] [] (r ∷ rest) le = refl
mask_at-xor_with [] [] (b ∷ bs) rest le = refl
mask_at-xor_with [] (m ∷ ms) [] rest le = absurd (omega (arith, le))
mask_at-xor_with [] (m ∷ ms) (b ∷ bs) rest le =
    ap (put_first (bit_xor b m)) (mask_at-xor_with [] ms bs rest (omega (arith, le)))

xor_with-twice : (ms bs : Bytes) → AreBytes ms → AreBytes bs → xor_with ms (xor_with ms bs) ≡ bs
xor_with-twice [] bs hm hb = refl
xor_with-twice (m ∷ ms) [] hm hb = refl
xor_with-twice (m ∷ ms) (b ∷ bs) (hm, hms) (hb, hbs) =
    rw (xor_twice m b hm hb, xor_with-twice ms bs hms hbs) refl

pub xor_with-AreBytes : (ms bs : Bytes) → AreBytes ms → AreBytes bs → AreBytes (xor_with ms bs)
xor_with-AreBytes [] bs hm hb = hb
xor_with-AreBytes (m ∷ ms) [] hm hb = tt
xor_with-AreBytes (m ∷ ms) (b ∷ bs) (hm, hms) (hb, hbs) =
    (xor_below m b hm hb, xor_with-AreBytes ms bs hms hbs)

pub length-xor_with : (ms bs : Bytes) → length (xor_with ms bs) ≡ length bs
length-xor_with [] bs = refl
length-xor_with (m ∷ ms) [] = refl
length-xor_with (m ∷ ms) (b ∷ bs) = ap suc (length-xor_with ms bs)

drop-xor_with : (n : ℕ) (ms bs : Bytes) → length ms ≤ n → drop n (xor_with ms bs) ≡ drop n bs
drop-xor_with n [] bs le = refl
drop-xor_with zero (m ∷ ms) bs le = absurd (omega (arith, le))
drop-xor_with (suc n) (m ∷ ms) [] le = refl
drop-xor_with (suc n) (m ∷ ms) (b ∷ bs) le = drop-xor_with n ms bs (omega (arith, le))

drop-behind : (d n : ℕ) (xs ys : Bytes) → d ≡ length xs + n → drop d (xs ++ ys) ≡ drop n ys
drop-behind d n [] ys e = let same : d ≡ n = omega (arith, e) in rw same refl
drop-behind zero n (x ∷ xs) ys e = absurd (omega (arith, e))
drop-behind (suc d) n (x ∷ xs) ys e = drop-behind d n xs ys (omega (arith, e))

-- A sample that lies in the packet.
sample-inside :
    (b : ℕ) (before bs rest : Bytes)
    → 20 ≤ length bs
    → packet_sample (suc (length before)) (b ∷ (before ++ (bs ++ rest))) ≡ take 16 (drop 4 bs)
unfolding packet_sample
sample-inside b before bs rest le =
    let zs : Bytes =
      replicate (suc (length before) + 20 - length (b ∷ (before ++ (bs ++ rest)))) 0 in
    let d : suc (length before) + 4 ≡ suc (length before + 4) = omega arith in
    let four : 4 ≤ length bs = omega (arith, le) in
    let room : 16 ≤ length (drop 4 bs) = omega (arith, length-drop 4 bs) in
    let e : drop (length before + 4) (before ++ (bs ++ (rest ++ zs))) ≡ drop 4 bs ++ (rest ++ zs) =
      drop-behind (length before + 4) 4 before (bs ++ (rest ++ zs)) refl
      ∙ drop-inside 4 bs (rest ++ zs) four in
    rw (d, append_assoc before (bs ++ rest) zs, append_assoc bs rest zs, e)
      (take-inside 16 (drop 4 bs) (rest ++ zs) room)

-- What a cipher makes of every sample.
abbrev pub MakesMasks : (Bytes → Bytes) → Type 0
MakesMasks cipher = (s : Bytes) → (length (cipher s) ≡ 5) × AreBytes (cipher s)

first_of-below : (ms : Bytes) → AreBytes ms → first_of ms < 256
first_of-below [] h = omega arith
first_of-below (m ∷ ms) h = h.0

number_mask-AreBytes : (n : ℕ) (mask : Bytes) → AreBytes mask → AreBytes (number_mask n mask)
number_mask-AreBytes n [] h = take-All n [] tt
number_mask-AreBytes n (m ∷ ms) h = take-All n ms h.1

length-number_mask : (n : ℕ) (mask : Bytes) → n ≤ 4 → length (number_mask n mask) ≤ 4
length-number_mask n mask le = omega (arith, length-take n (drop 1 mask))

-- The mask of the packet, and the packet when it is on.
abbrev pub mask_of : (Bytes → Bytes) → Bytes → Bytes
mask_of cipher bs = cipher (take 16 (drop 4 bs))

abbrev pub masked_byte : (Bytes → Bytes) → Bool → ℕ → Bytes → ℕ
masked_byte cipher l b bs = masked_first l b (first_of (mask_of cipher bs))

abbrev pub masked_bytes : (Bytes → Bytes) → ℕ → Bytes → Bytes
masked_bytes cipher n bs = xor_with (number_mask n (mask_of cipher bs)) bs

pub masked_bytes-AreBytes :
    (cipher : Bytes → Bytes) (n : ℕ) (bs : Bytes)
    → MakesMasks cipher
    → AreBytes bs
    → AreBytes (masked_bytes cipher n bs)
masked_bytes-AreBytes cipher n bs makes h =
    xor_with-AreBytes (number_mask n (mask_of cipher bs)) bs
      (number_mask-AreBytes n (mask_of cipher bs) (makes (take 16 (drop 4 bs))).1) h

pub first_mask-below :
    (cipher : Bytes → Bytes) (bs : Bytes) → MakesMasks cipher → first_of (mask_of cipher bs) < 256
first_mask-below cipher bs makes =
    first_of-below (mask_of cipher bs) (makes (take 16 (drop 4 bs))).1

module _ (cipher : Bytes → Bytes) (makes : MakesMasks cipher) (l : Bool) (b n : ℕ)
    (before bs : Bytes) (hb : b < 256) (hbs : AreBytes bs) (le : n ≤ 4)
    (room : 20 ≤ length bs) where
  fits_in : length (number_mask n (mask_of cipher bs)) ≤ length bs
  fits_in = omega (arith, length-number_mask n (mask_of cipher bs) le, room)

  pub protect-masked :
      protect cipher l (suc (length before)) n (b ∷ (before ++ bs))
      ≡ done (masked_byte cipher l b bs ∷ (before ++ (masked_bytes cipher n bs)))
  unfolding protect
  protect-masked =
      let s = rw (append-nil bs) at (sample-inside b before bs [] room) in
      let e =
        rw (append-nil bs, append-nil (masked_bytes cipher n bs)) at
          (mask_at-xor_with before (number_mask n (mask_of cipher bs)) bs [] fits_in) in
      let k : suc (length before) - 1 ≡ length before = omega arith in rw (s, k, e) refl

  pub unprotect-masked :
      (rest : Bytes)
      → (bit_and b 0x80 == 0x80) ≡ l
      → bit_and b 0x3 + 1 ≡ n
      → unprotect cipher
          (suc (length before))
          (masked_byte cipher l b bs ∷ (before ++ (masked_bytes cipher n bs ++ rest)))
        ≡ done (b ∷ (before ++ (bs ++ rest)))
  unfolding unprotect
  unprotect-masked rest top low =
      let small = (makes (take 16 (drop 4 bs))).1 in
      let hm = first_of-below (mask_of cipher bs) small in
      let four = length-number_mask n (mask_of cipher bs) le in
      let long_enough : 20 ≤ length (masked_bytes cipher n bs) =
        omega (arith, room, length-xor_with (number_mask n (mask_of cipher bs)) bs) in
      let s =
        sample-inside (masked_byte cipher l b bs) before (masked_bytes cipher n bs) rest
          long_enough in
      let same = drop-xor_with 4 (number_mask n (mask_of cipher bs)) bs four in
      let top' : (bit_and (masked_byte cipher l b bs) 0x80 == 0x80) ≡ l =
        rw (masked_first_top l b (first_of (mask_of cipher bs)) hb hm) top in
      let back = masked_first_twice l b (first_of (mask_of cipher bs)) hb hm in
      let k : suc (length before) - 1 ≡ length before = omega arith in
      let fits : length (number_mask n (mask_of cipher bs)) ≤ length (masked_bytes cipher n bs) =
        omega (arith, four, long_enough) in
      let e =
        mask_at-xor_with before (number_mask n (mask_of cipher bs)) (masked_bytes cipher n bs) rest
          fits in
      let twice =
        xor_with-twice (number_mask n (mask_of cipher bs)) bs
          (number_mask-AreBytes n (mask_of cipher bs) small) hbs in
      rw (s, same, top', back, low, k, e, twice) refl
