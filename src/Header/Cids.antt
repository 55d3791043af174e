-- ===== src/Header/Cids.antt =====
-- headers.go, packets.go: the byte with the lengths of two connection ids.
use quic_tracker.Base.{ℕ, ◌+◌, ◌-◌, ◌*◌, ◌/◌, ◌%◌, ◌^◌, ◌≤◌, ◌≡◌, Bytes, length, bit_or, arith}
use quic_tracker.Base.Bits.{bit_or_nibbles}
use quic_tracker.Header.{cidl}

abbrev pub IsCid : Bytes → Type 0
IsCid c = (3 ≤ length c) × (length c ≤ 18)

pub cidl_lem : (c : Bytes) → IsCid c → cidl c ≡ length c - 3
unfolding cidl
cidl_lem c h = ground arith

-- The byte of the two lengths.
abbrev pub lengths : (c d : Bytes) → ℕ
lengths c d = bit_or (cidl c * 2 ^ 4 % 256) (cidl d)

pub lengths_lem :
    (c d : Bytes) → IsCid c → IsCid d → lengths c d ≡ (length c - 3) * 16 + (length d - 3)
lengths_lem c d hc hd =
    let b = (length c - 3) * 16 + (length d - 3) in
    let high : b / 16 * 16 ≡ cidl c * 2 ^ 4 % 256 = omega (arith, cidl_lem c hc) in
    let low : b % 16 ≡ cidl d = omega (arith, cidl_lem d hd) in
    rw (← high, ← low) (bit_or_nibbles b (omega arith))
