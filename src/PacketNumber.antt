-- ===== src/PacketNumber.antt =====
-- common.go: packet numbers, which are uint64, and their truncated form in a header.
pub mod Recovered
use quic_tracker.Base.{
  ℕ, ◌+◌, ◌-◌, ◌*◌, ◌/◌, ◌%◌, ◌^◌, List, [], ◌∷◌, ◌++◌, Bytes, length, take, drop, replicate, ltb,
  leb, ◌==◌, if◌then◌else◌, Outcome, done, panic,
}
use quic_tracker.Reader.{Parser, return, ◌>>=◌, big_endian, read}
use quic_tracker.VarInt.{read_var_int_or_zero}

pub record TruncatedPn : Type 0 where
  pub value : ℕ
  pub length : ℕ

abbrev pub read_packet_number : Parser ℕ
read_packet_number = read_var_int_or_zero

-- `int(math.Log2(float64(n))) / 8 + 1`, which the float64 gives exactly for n up to 2 ^ 32; past
-- that it is more than 4, and the source panics.
unfoldable pub truncated_length : ℕ → Outcome ℕ
truncated_length n =
    if ltb n (2 ^ 8)
    then done 1
    else if ltb n (2 ^ 16)
    then done 2
    else if ltb n (2 ^ 24)
    then done 3
    else if ltb n (2 ^ 32)
    then done 4
    else panic

abbrev pub low_bytes : ℕ → ℕ → TruncatedPn
low_bytes p n = record { value = p % 2 ^ (8 * n); length = n }

abbrev with_length : ℕ → Outcome ℕ → Outcome TruncatedPn
with_length p (done n) = done (low_bytes p n)
with_length p panic = panic

unfoldable pub truncate : ℕ → ℕ → Outcome TruncatedPn
truncate p largest_acknowledged =
    if ltb p largest_acknowledged
    then panic
    else with_length p (truncated_length (p - largest_acknowledged + 1))

unfoldable pub uint16_to_be_bytes : ℕ → Bytes
uint16_to_be_bytes v = v / 2 ^ 8 % 256 ∷ v % 256 ∷ []

unfoldable pub uint24_to_be_bytes : ℕ → Bytes
uint24_to_be_bytes v = v / 2 ^ 16 % 256 ∷ v / 2 ^ 8 % 256 ∷ v % 256 ∷ []

unfoldable pub uint32_to_be_bytes : ℕ → Bytes
uint32_to_be_bytes v = v / 2 ^ 24 % 256 ∷ v / 2 ^ 16 % 256 ∷ v / 2 ^ 8 % 256 ∷ v % 256 ∷ []

-- Nothing is written for another length.
unfoldable pub encode : TruncatedPn → Bytes
unfolding uint16_to_be_bytes uint24_to_be_bytes uint32_to_be_bytes
encode t =
    if t.length == 1
    then t.value % 256 ∷ []
    else if t.length == 2
    then uint16_to_be_bytes t.value
    else if t.length == 3
    then uint24_to_be_bytes t.value
    else if t.length == 4
    then uint32_to_be_bytes t.value
    else []

-- `length` is from 1 to 4. Missing bytes are zeros at the end.
unfoldable pub read_truncated_pn : ℕ → Parser TruncatedPn
read_truncated_pn n = do
  bs ← read n
  return (record { value = big_endian 0 (replicate (4 - n) 0 ++ bs); length = n })

-- `p & (0xFFFFFFFFFFFFFFFF << (8 * length)) | value`, for a value of `length` bytes
unfoldable pub join : TruncatedPn → ℕ → ℕ
join t p = p / 2 ^ (8 * t.length) * 2 ^ (8 * t.length) + t.value
