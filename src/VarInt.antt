-- ===== src/VarInt.antt =====
-- lib/varint.go: the QUIC variable-length integers.
pub mod RoundTrip
pub mod Value
pub mod Shrinks
use quic_tracker.Base.{
  ℕ, ◌+◌, ◌-◌, ◌*◌, ◌/◌, ◌%◌, ◌^◌, bit_and, bit_or, List, [], ◌∷◌, ◌++◌, Bytes, length, leb, ◌==◌,
  if◌then◌else◌, Option, none, some, Outcome, done, panic,
}
use quic_tracker.Base.Outcomes.{◌>>=◌}
use quic_tracker.Reader.{Parser, or_zero}

abbrev pub max_var_int1 : ℕ
max_var_int1 = 63

abbrev pub max_var_int2 : ℕ
max_var_int2 = 16383

abbrev pub max_var_int4 : ℕ
max_var_int4 = 1073741823

abbrev pub max_var_int8 : ℕ
max_var_int8 = 4611686018427387903

-- `uint8(i >> k)`
abbrev pub byte_at : ℕ → ℕ → ℕ
byte_at i k = i / 2 ^ k % 256

-- After b1 to b4.
abbrev pub read_last_four : ℕ → ℕ → ℕ → ℕ → Bytes → Option ℕ × Bytes
read_last_four b1 b2 b3 b4 (b5 ∷ b6 ∷ b7 ∷ b8 ∷ rest) = (
  some (
      (b8
        + b7 * 2 ^ 8
        + b6 * 2 ^ 16
        + b5 * 2 ^ 24
        + b4 * 2 ^ 32
        + b3 * 2 ^ 40
        + b2 * 2 ^ 48
        + b1 * 2 ^ 56)
      % 2 ^ 64),
  rest,
)
read_last_four b1 b2 b3 b4 _ = (none, [])

abbrev pub read_third_and_fourth : ℕ → ℕ → ℕ → Bytes → Option ℕ × Bytes
read_third_and_fourth len b1 b2 (b3 ∷ b4 ∷ rest) =
    if len == 4
    then (some ((b4 + b3 * 2 ^ 8 + b2 * 2 ^ 16 + b1 * 2 ^ 24) % 2 ^ 64), rest)
    else read_last_four b1 b2 b3 b4 rest
read_third_and_fourth len b1 b2 _ = (none, [])

abbrev pub read_second : ℕ → ℕ → Bytes → Option ℕ × Bytes
read_second len b1 [] = (none, [])
read_second len b1 (b2 ∷ rest) =
    if len == 2
    then (some ((b2 + b1 * 2 ^ 8) % 2 ^ 64), rest)
    else read_third_and_fourth len b1 b2 rest

-- `none` is the error io.EOF, beside which the source returns 0; the reader is then used up.
unfoldable pub read_var_int_value : Bytes → Option ℕ × Bytes
read_var_int_value [] = (none, [])
read_var_int_value (first ∷ rest) =
    let len = 2 ^ (bit_and first 0xc0 / 2 ^ 6) in
    let b1 = bit_and first (0xff - 0xc0) in
    if len == 1 then (some b1, rest) else read_second len b1 rest

-- `x, _ := ReadVarIntValue(buffer)`
unfoldable pub read_var_int_or_zero : Parser ℕ
unfolding read_var_int_value
read_var_int_or_zero bs = or_zero (read_var_int_value bs)

unfoldable pub encode_var_int : ℕ → Outcome Bytes
encode_var_int i =
    if leb i max_var_int1
    then done (i % 256 ∷ [])
    else if leb i max_var_int2
    then done (bit_or (byte_at i 8) 0x40 ∷ i % 256 ∷ [])
    else if leb i max_var_int4
    then done (bit_or (byte_at i 24) 0x80 ∷ byte_at i 16 ∷ byte_at i 8 ∷ i % 256 ∷ [])
    else if leb i max_var_int8
    then done (
        bit_or (byte_at i 56) 0xc0
        ∷ byte_at i 48
        ∷ byte_at i 40
        ∷ byte_at i 32
        ∷ byte_at i 24
        ∷ byte_at i 16
        ∷ byte_at i 8
        ∷ i % 256
        ∷ [])
    else panic

unfoldable pub var_int_len : ℕ → Outcome ℕ
var_int_len i =
    if leb i max_var_int1
    then done 1
    else if leb i max_var_int2
    then done 2
    else if leb i max_var_int4
    then done 4
    else if leb i max_var_int8
    then done 8
    else panic
