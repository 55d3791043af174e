-- ===== src/VarInt/RoundTrip.antt =====
-- lib/varint.go: ReadVarIntValue on the bytes that EncodeVarInt returns.
use quic_tracker.Base.{
  ℕ, ◌+◌, ◌*◌, ◌/◌, ◌%◌, ◌^◌, ◌≤◌, ◌<◌, ◌≡◌, [], ◌∷◌, ◌++◌, Bytes, length, All, leb, if◌then◌else◌,
  some, done, arith,
}
use quic_tracker.Base.Bits.{bit_and_3f, bit_or_40, bit_or_80, bit_or_c0, top_bits_len}
use quic_tracker.VarInt.{
  max_var_int1, max_var_int2, max_var_int4, max_var_int8, byte_at, read_var_int_value,
  read_var_int_or_zero, encode_var_int, var_int_len,
}

-- The encoding in plain arithmetic; the two top bits of the first byte are its length's logarithm.
unfoldable pub encoding : ℕ → Bytes
encoding i =
    if leb i max_var_int1
    then i ∷ []
    else if leb i max_var_int2
    then (i / 2 ^ 8 + 64) ∷ byte_at i 0 ∷ []
    else if leb i max_var_int4
    then (i / 2 ^ 24 + 128) ∷ byte_at i 16 ∷ byte_at i 8 ∷ byte_at i 0 ∷ []
    else (i / 2 ^ 56 + 192)
      ∷ byte_at i 48
      ∷ byte_at i 40
      ∷ byte_at i 32
      ∷ byte_at i 24
      ∷ byte_at i 16
      ∷ byte_at i 8
      ∷ byte_at i 0
      ∷ []

unfoldable pub encoding_len : ℕ → ℕ
encoding_len i =
    if leb i max_var_int1
    then 1
    else if leb i max_var_int2
    then 2
    else if leb i max_var_int4
    then 4
    else 8

pub encode_var_int-encoding : (i : ℕ) → i ≤ max_var_int8 → encode_var_int i ≡ done (encoding i)
unfolding encode_var_int encoding
encode_var_int-encoding i h =
    ground (arith, bit_or_40 (byte_at i 8), bit_or_80 (byte_at i 24), bit_or_c0 (byte_at i 56))

pub encoding_len-le : (i : ℕ) → encoding_len i ≤ 8
unfolding encoding_len
encoding_len-le i = ground arith

pub length-encoding : (i : ℕ) → length (encoding i) ≡ encoding_len i
unfolding encoding encoding_len
length-encoding i = ground arith

pub var_int_len-encoding_len : (i : ℕ) → i ≤ max_var_int8 → var_int_len i ≡ done (encoding_len i)
unfolding var_int_len encoding_len
var_int_len-encoding_len i h = ground arith

read_one : (b : ℕ) (rest : Bytes) → b < 64 → read_var_int_value (b ∷ rest) ≡ (some b, rest)
unfolding read_var_int_value
read_one b rest h = ground (arith, top_bits_len b, bit_and_3f b)

read_two :
    (b c : ℕ) (rest : Bytes)
    → b < 64
    → c < 256
    → read_var_int_value ((b + 64) ∷ c ∷ rest) ≡ (some (c + b * 2 ^ 8), rest)
unfolding read_var_int_value
read_two b c rest h hc = ground (arith, top_bits_len (b + 64), bit_and_3f (b + 64))

read_four :
    (b c d e : ℕ) (rest : Bytes)
    → b < 64
    → c < 256
    → d < 256
    → e < 256
    → read_var_int_value ((b + 128) ∷ c ∷ d ∷ e ∷ rest)
      ≡ (some (e + d * 2 ^ 8 + c * 2 ^ 16 + b * 2 ^ 24), rest)
unfolding read_var_int_value
read_four b c d e rest h hc hd he = ground (arith, top_bits_len (b + 128), bit_and_3f (b + 128))

read_eight :
    (b c d e f g k l : ℕ) (rest : Bytes)
    → b < 64
    → All (λ x. x < 256) (c ∷ d ∷ e ∷ f ∷ g ∷ k ∷ l ∷ [])
    → read_var_int_value ((b + 192) ∷ c ∷ d ∷ e ∷ f ∷ g ∷ k ∷ l ∷ rest) ≡ (
      some (
          l
          + k * 2 ^ 8
          + g * 2 ^ 16
          + f * 2 ^ 24
          + e * 2 ^ 32
          + d * 2 ^ 40
          + c * 2 ^ 48
          + b * 2 ^ 56),
      rest,
    )
unfolding read_var_int_value
read_eight b c d e f g k l rest h hs = ground (arith, top_bits_len (b + 192), bit_and_3f (b + 192))

step_down : (i k : ℕ) → i / 2 ^ k / 256 * 256 + i / 2 ^ k % 256 ≡ i / 2 ^ k
step_down i k = omega arith

eight_bytes :
    (i : ℕ)
    → byte_at i 0
        + byte_at i 8 * 2 ^ 8
        + byte_at i 16 * 2 ^ 16
        + byte_at i 24 * 2 ^ 24
        + byte_at i 32 * 2 ^ 32
        + byte_at i 40 * 2 ^ 40
        + byte_at i 48 * 2 ^ 48
        + i / 2 ^ 56 * 2 ^ 56
      ≡ i
eight_bytes i = omega arith

four_bytes :
    (i : ℕ) → byte_at i 0 + byte_at i 8 * 2 ^ 8 + byte_at i 16 * 2 ^ 16 + i / 2 ^ 24 * 2 ^ 24 ≡ i
four_bytes i = omega arith

pub read_var_int_value-encoding :
    (i : ℕ) (rest : Bytes)
    → i ≤ max_var_int8
    → read_var_int_value (encoding i ++ rest) ≡ (some i, rest)
unfolding encoding
read_var_int_value-encoding i rest h = ground (
  arith,
  read_one i rest,
  read_two (i / 2 ^ 8) (byte_at i 0) rest,
  read_four (i / 2 ^ 24) (byte_at i 16) (byte_at i 8) (byte_at i 0) rest,
  four_bytes i,
  read_eight (i / 2 ^ 56) (byte_at i 48) (byte_at i 40) (byte_at i 32) (byte_at i 24) (byte_at i 16)
      (byte_at i 8) (byte_at i 0) rest,
  eight_bytes i,
)

pub encode_var_int-small : (i : ℕ) → i ≤ max_var_int1 → encode_var_int i ≡ done (i ∷ [])
unfolding encode_var_int
encode_var_int-small i h = ground arith

pub read_var_int_or_zero-encoding :
    (i : ℕ) (rest : Bytes)
    → i ≤ max_var_int8
    → read_var_int_or_zero (encoding i ++ rest) ≡ done (i, rest)
unfolding read_var_int_or_zero
read_var_int_or_zero-encoding i rest h = rw (read_var_int_value-encoding i rest h)

pub read_var_int_or_zero-small :
    (i : ℕ) (rest : Bytes) → i ≤ max_var_int1 → read_var_int_or_zero (i ∷ rest) ≡ done (i, rest)
unfolding read_var_int_or_zero
read_var_int_or_zero-small i rest h = rw (read_one i rest (omega arith))

-- A number of up to 62 bits: EncodeVarInt returns bytes, ReadVarIntValue reads the number back from
-- them whatever follows and leaves the rest in the reader, and VarIntLen is their number.
pub read_var_int_value-encode_var_int :
    (i : ℕ) (rest : Bytes)
    → i ≤ max_var_int8
    → (bs : Bytes) × (encode_var_int i ≡ done bs)
      × (read_var_int_value (bs ++ rest) ≡ (some i, rest))
      × (var_int_len i ≡ done (length bs))
read_var_int_value-encode_var_int i rest h = (
  encoding i,
  encode_var_int-encoding i h,
  read_var_int_value-encoding i rest h,
  rw (length-encoding i) (var_int_len-encoding_len i h),
)
