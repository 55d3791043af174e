-- ===== src/VarInt/Value.antt =====
-- common.go: the type VarInt, a number with the length of its encoding.
use quic_tracker.Base.{
  ℕ, ◌-◌, ◌≤◌, ◌≡◌, ap, ◌++◌, Bytes, length, arith, length-append, Option, none, some, Outcome,
  done, panic,
}
use quic_tracker.Reader.{Parser}
use quic_tracker.VarInt.{max_var_int8, read_var_int_value, var_int_len}
use quic_tracker.VarInt.RoundTrip.{encoding, read_var_int_value-encoding}

pub record VarInt : Type 0 where
  pub value : ℕ
  pub length : ℕ

abbrev with_len : ℕ → Outcome ℕ → Outcome VarInt
with_len i (done n) = done (record { value = i; length = n })
with_len i panic = panic

unfoldable pub new_var_int : ℕ → Outcome VarInt
new_var_int i = with_len i (var_int_len i)

abbrev pub var_int_of : ℕ → Option ℕ × Bytes → Outcome (VarInt × Bytes)
var_int_of before (some i, rest) = done (record { value = i; length = before - length rest }, rest)
var_int_of before (none, rest) = done (record { value = 0; length = 0 }, rest)

-- `v, _ := ReadVarInt(buffer)`
unfoldable pub read_var_int : Parser VarInt
read_var_int bs = var_int_of (length bs) (read_var_int_value bs)

abbrev pub no_var_int : VarInt
no_var_int = record { value = 0; length = 0 }

-- The length field is that of the encoding of the value.
abbrev pub IsEncoded : VarInt → Type 0
IsEncoded v = (v.value ≤ max_var_int8) × (v.length ≡ length (encoding v.value))

pub read_var_int-encoding :
    (v : VarInt) (rest : Bytes)
    → IsEncoded v
    → read_var_int (encoding v.value ++ rest) ≡ done (v, rest)
unfolding read_var_int
read_var_int-encoding v rest (le, e) = rw (read_var_int_value-encoding v.value rest le) (
    ap (λ (n : ℕ). done (record { value = v.value; length = n }, rest))
      (omega (arith, e, length-append (encoding v.value) rest)))
