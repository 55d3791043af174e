-- ===== src/PacketNumber/Recovered.antt =====
-- common.go: a packet number that is truncated, written, read and joined again.
use quic_tracker.Base.{
  ℕ, ◌+◌, ◌-◌, ◌*◌, ◌/◌, ◌%◌, ◌^◌, ◌≤◌, ◌<◌, ◌≡◌, replicate, ◌⊎◌, inl, inr, refl, [], ◌∷◌, ◌++◌,
  Bytes, length, ltb, arith, done, Bool-cases,
}
use mathlib.Core.Logic.{◌↔◌}
use quic_tracker.Reader.{read-append, big_endian}
use quic_tracker.PacketNumber.{
  TruncatedPn, truncate, truncated_length, encode, read_truncated_pn, join, low_bytes,
  uint16_to_be_bytes, uint24_to_be_bytes, uint32_to_be_bytes,
}

abbrev pub IsLength : ℕ → Type 0
IsLength n = ((n ≡ 1) ⊎ (n ≡ 2)) ⊎ ((n ≡ 3) ⊎ (n ≡ 4))

truncated_length_lem : (n : ℕ) → n < 2 ^ 32 → (k : ℕ) × (truncated_length n ≡ done k) × IsLength k
unfolding truncated_length
truncated_length_lem n h = elim (Bool-cases (ltb n (2 ^ 8))) [
  | inl e ↦ (1, rw e refl, inl (inl refl))
  | inr e ↦ elim (Bool-cases (ltb n (2 ^ 16))) [
    | inl e' ↦ (2, rw (e, e') refl, inl (inr refl))
    | inr e' ↦ elim (Bool-cases (ltb n (2 ^ 24))) [
      | inl e'' ↦ (3, rw (e, e', e'') refl, inr (inl refl))
      | inr e'' ↦ (4, ground arith, inr (inr refl))
    ]
  ]
]

read_bytes :
    (n v : ℕ) (bs rest : Bytes)
    → length bs ≡ n
    → big_endian 0 (replicate (4 - n) 0 ++ bs) ≡ v
    → read_truncated_pn n (bs ++ rest) ≡ done (record { value = v; length = n }, rest)
unfolding read_truncated_pn
read_bytes n v bs rest h e = ground (arith, read-append n bs rest h, e)

pub read_encoded :
    (p n : ℕ) (rest : Bytes)
    → IsLength n
    → read_truncated_pn n (encode (low_bytes p n) ++ rest) ≡ done (low_bytes p n, rest)
unfolding encode uint16_to_be_bytes uint24_to_be_bytes uint32_to_be_bytes
read_encoded p n rest (inl (inl e)) =
    rw e (read_bytes 1 (p % 2 ^ 8) (p % 2 ^ 8 % 256 ∷ []) rest refl (omega arith))
read_encoded p n rest (inl (inr e)) =
    let v = p % 2 ^ 16 in
    rw e (read_bytes 2 v (v / 2 ^ 8 % 256 ∷ v % 256 ∷ []) rest refl (omega arith))
read_encoded p n rest (inr (inl e)) =
    let v = p % 2 ^ 24 in
    rw e
      (read_bytes 3 v (v / 2 ^ 16 % 256 ∷ v / 2 ^ 8 % 256 ∷ v % 256 ∷ []) rest refl (omega arith))
read_encoded p n rest (inr (inr e)) =
    let v = p % 2 ^ 32 in
    rw e (
      read_bytes 4 v (v / 2 ^ 24 % 256 ∷ v / 2 ^ 16 % 256 ∷ v / 2 ^ 8 % 256 ∷ v % 256 ∷ []) rest
        refl (omega arith))

same_above : (p q n : ℕ) → IsLength n → p / 256 ≡ q / 256 → p / 2 ^ (8 * n) ≡ q / 2 ^ (8 * n)
same_above p q n (inl (inl e)) h = rw e (omega (arith, h))
same_above p q n (inl (inr e)) h = rw e (omega (arith, h))
same_above p q n (inr (inl e)) h = rw e (omega (arith, h))
same_above p q n (inr (inr e)) h = rw e (omega (arith, h))

-- Join gives the packet number back from its low bytes exactly when the largest number received
-- has the same higher bytes: it looks for no closer number on the other side of that boundary.
pub join-low_bytes :
    (p q n : ℕ) → IsLength n → (join (low_bytes p n) q ≡ p) ↔ (p / 2 ^ (8 * n) ≡ q / 2 ^ (8 * n))
unfolding join
join-low_bytes p q n (inl (inl e)) = rw e ((λ h. omega (arith, h)), (λ h. omega (arith, h)))
join-low_bytes p q n (inl (inr e)) = rw e ((λ h. omega (arith, h)), (λ h. omega (arith, h)))
join-low_bytes p q n (inr (inl e)) = rw e ((λ h. omega (arith, h)), (λ h. omega (arith, h)))
join-low_bytes p q n (inr (inr e)) = rw e ((λ h. omega (arith, h)), (λ h. omega (arith, h)))

-- A packet number less than 2 ^ 32 - 1 above the largest acknowledged one, in the same block of 256
-- as the largest that the other end received: Truncate does not panic, ReadTruncatedPN reads back
-- what it writes and leaves the rest, and Join gives the packet number.
pub join-truncate :
    (p acknowledged received : ℕ) (rest : Bytes)
    → acknowledged ≤ p
    → p < acknowledged + (2 ^ 32 - 1)
    → p / 256 ≡ received / 256
    → (t : TruncatedPn) × (truncate p acknowledged ≡ done t)
      × (read_truncated_pn t.length (encode t ++ rest) ≡ done (t, rest))
      × (join t received ≡ p)
unfolding truncate
join-truncate p acknowledged received rest h lt same =
    let (n, e, l) = truncated_length_lem (p - acknowledged + 1) (omega arith) in
    (
      low_bytes p n,
      ground (arith, e),
      read_encoded p n rest l,
      (join-low_bytes p received n l).1 (same_above p received n l same),
    )
