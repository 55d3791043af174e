-- ===== src/VarInt/Shrinks.antt =====
-- varint.go: ReadVarIntValue takes at least a byte from a reader that has one.
use quic_tracker.Base.{
  ℕ, suc, ◌-◌, ◌/◌, ◌^◌, bit_and, ◌≤◌, [], ◌∷◌, Bytes, length, ◌==◌, if◌then◌else◌, Bool, true,
  false, Option, none, some, arith,
}
use quic_tracker.Reader.{or_zero}
use quic_tracker.Reader.Shrinks.{AtMost, AtMost-le, Shrinks}
use quic_tracker.VarInt.{
  read_last_four, read_third_and_fourth, read_second, read_var_int_value, read_var_int_or_zero,
}
use quic_tracker.VarInt.Value.{var_int_of, read_var_int}

if-le :
    (c : Bool) (x y : Option ℕ × Bytes) (n : ℕ)
    → length x.1 ≤ n
    → length y.1 ≤ n
    → length (if c then x else y).1 ≤ n
if-le true x y n hx hy = hx
if-le false x y n hx hy = hy

read_last_four-le :
    (b1 b2 b3 b4 : ℕ) (bs : Bytes) → length (read_last_four b1 b2 b3 b4 bs).1 ≤ length bs
read_last_four-le b1 b2 b3 b4 (b5 ∷ b6 ∷ b7 ∷ b8 ∷ rest) = omega arith
read_last_four-le b1 b2 b3 b4 [] = omega arith
read_last_four-le b1 b2 b3 b4 (b5 ∷ []) = omega arith
read_last_four-le b1 b2 b3 b4 (b5 ∷ b6 ∷ []) = omega arith
read_last_four-le b1 b2 b3 b4 (b5 ∷ b6 ∷ b7 ∷ []) = omega arith

read_third-le :
    (len b1 b2 : ℕ) (bs : Bytes) → length (read_third_and_fourth len b1 b2 bs).1 ≤ length bs
read_third-le len b1 b2 [] = omega arith
read_third-le len b1 b2 (b3 ∷ []) = omega arith
read_third-le len b1 b2 (b3 ∷ b4 ∷ rest) =
    if-le (len == 4) _ _ (suc (suc (length rest))) (omega arith)
      (omega (arith, read_last_four-le b1 b2 b3 b4 rest))

read_second-le : (len b1 : ℕ) (bs : Bytes) → length (read_second len b1 bs).1 ≤ length bs
read_second-le len b1 [] = omega arith
read_second-le len b1 (b2 ∷ rest) =
    if-le (len == 2) _ _ (suc (length rest)) (omega arith)
      (omega (arith, read_third-le len b1 b2 rest))

pub read_var_int_value-le :
    (b : ℕ) (bs : Bytes) → length (read_var_int_value (b ∷ bs)).1 ≤ length bs
unfolding read_var_int_value
read_var_int_value-le b bs =
    if-le (2 ^ (bit_and b 0xc0 / 2 ^ 6) == 1) _ _ (length bs) (omega arith)
      (read_second-le (2 ^ (bit_and b 0xc0 / 2 ^ 6)) (bit_and b (0xff - 0xc0)) bs)

or_zero-AtMost : (o : Option ℕ × Bytes) (n : ℕ) → length o.1 ≤ n → AtMost n (or_zero o)
or_zero-AtMost (none, bs) n h = h
or_zero-AtMost (some v, bs) n h = h

pub var_int-AtMost : (b : ℕ) (bs : Bytes) → AtMost (length bs) (read_var_int_or_zero (b ∷ bs))
unfolding read_var_int_or_zero
var_int-AtMost b bs =
    or_zero-AtMost (read_var_int_value (b ∷ bs)) (length bs) (read_var_int_value-le b bs)

var_int-AtMost_all : (bs : Bytes) → AtMost (length bs) (read_var_int_or_zero bs)
var_int-AtMost_all [] = unfold read_var_int_or_zero in (unfold read_var_int_value in omega arith)
var_int-AtMost_all (b ∷ bs) =
    AtMost-le (length bs) (suc (length bs)) (read_var_int_or_zero (b ∷ bs)) (var_int-AtMost b bs)
      (omega arith)

pub var_int-Shrinks : Shrinks read_var_int_or_zero
var_int-Shrinks = record { at = var_int-AtMost_all }

var_int_of-AtMost :
    (before : ℕ) (o : Option ℕ × Bytes) (n : ℕ) → length o.1 ≤ n → AtMost n (var_int_of before o)
var_int_of-AtMost before (none, bs) n h = h
var_int_of-AtMost before (some v, bs) n h = h

pub read_var_int-AtMost : (b : ℕ) (bs : Bytes) → AtMost (length bs) (read_var_int (b ∷ bs))
unfolding read_var_int
read_var_int-AtMost b bs =
    var_int_of-AtMost (length (b ∷ bs)) (read_var_int_value (b ∷ bs)) (length bs)
      (read_var_int_value-le b bs)

read_var_int-AtMost_all : (bs : Bytes) → AtMost (length bs) (read_var_int bs)
read_var_int-AtMost_all [] = unfold read_var_int in (unfold read_var_int_value in omega arith)
read_var_int-AtMost_all (b ∷ bs) =
    AtMost-le (length bs) (suc (length bs)) (read_var_int (b ∷ bs)) (read_var_int-AtMost b bs)
      (omega arith)

pub read_var_int-Shrinks : Shrinks read_var_int
read_var_int-Shrinks = record { at = read_var_int-AtMost_all }
