-- ===== src/Reader.antt =====
-- Go's bytes.Reader, as the sources use it: a reader is the list of the bytes that are left. A
-- call that the source makes for its value alone (`x, _ := f(buffer)`) is modelled with the zero
-- value that Go returns beside an error.
pub mod Shrinks
use quic_tracker.Base.{
  ℕ, ◌+◌, ◌-◌, ◌*◌, ◌≤◌, ◌≡◌, refl, [], ◌∷◌, ◌++◌, Bytes, length, take, drop, replicate, leb,
  le→leb, if◌then◌else◌, Option, none, some, max_alloc, Outcome, done, panic, arith, take-append,
  drop-append, length-append, append-nil,
}

-- A function that takes its bytes from the reader and may panic.
abbrev pub Parser {ℓ} : Type ℓ → Type ℓ
Parser A = Bytes → Outcome (A × Bytes)

abbrev pub return {ℓ} : {A : Type ℓ} → A → Parser A
return a b = done (a, b)

infixl 5 ◌>>=◌
abbrev pub ◌>>=◌ {ℓ κ} : {A : Type ℓ} {B : Type κ} → Parser A → (A → Parser B) → Parser B
◌>>=◌ m f b = elim (m b) [ done (a, rest) ↦ f a rest | panic ↦ panic ]

-- `Reader.ReadByte`; none is io.EOF.
abbrev pub read_byte? : Bytes → Option ℕ × Bytes
read_byte? [] = (none, [])
read_byte? (b ∷ bs) = (some b, bs)

-- The value of a call whose error is discarded.
abbrev pub or_zero : Option ℕ × Bytes → Outcome (ℕ × Bytes)
or_zero (none, bs) = done (0, bs)
or_zero (some v, bs) = done (v, bs)

abbrev pub read_byte : Parser ℕ
read_byte bs = or_zero (read_byte? bs)

-- `Reader.Read` into a fresh slice of n bytes: what is missing stays zero.
unfoldable pub read : ℕ → Parser Bytes
read n bs = done (take n bs ++ replicate (n - length bs) 0, drop n bs)

-- `binary.Read` of n bytes: all of them or none, and too short an input is used up.
unfoldable pub read_full? : ℕ → Bytes → Option Bytes × Bytes
read_full? n bs = if leb n (length bs) then (some (take n bs), drop n bs) else (none, [])

abbrev or_zeros : ℕ → Option Bytes × Bytes → Outcome (Bytes × Bytes)
or_zeros n (none, rest) = done (replicate n 0, rest)
or_zeros n (some v, rest) = done (v, rest)

-- Its target keeps its zero value on an error.
unfoldable pub read_full : ℕ → Parser Bytes
unfolding read_full?
read_full n bs = or_zeros n (read_full? n bs)

-- `make([]byte, n)` panics on a length past it. The bytes are zero.
unfoldable pub make_then_read : ℕ → (ℕ → Parser Bytes) → Parser Bytes
make_then_read n fill bs = if leb n max_alloc then fill n bs else panic

-- The big-endian value of some bytes, as binary.BigEndian.Uint16 and Uint32 read it.
abbrev pub big_endian : ℕ → Bytes → ℕ
big_endian acc [] = acc
big_endian acc (b ∷ bs) = big_endian (acc * 256 + b) bs

short_pad : (xs ys : Bytes) → replicate {A = ℕ} (length xs - length (xs ++ ys)) 0 ≡ []
short_pad xs ys =
    let e : length xs - length (xs ++ ys) ≡ 0 = omega (arith, length-append xs ys) in rw e

pub read-append : (n : ℕ) (xs rest : Bytes) → length xs ≡ n → read n (xs ++ rest) ≡ done (xs, rest)
unfolding read
read-append n xs rest e =
    rw (← e) (rw (short_pad xs rest, take-append xs rest, drop-append xs rest, append-nil xs))

pub read_full-append :
    (n : ℕ) (xs rest : Bytes) → length xs ≡ n → read_full n (xs ++ rest) ≡ done (xs, rest)
unfolding read_full
read_full-append n xs rest e = rw (← e) (
    rw (
      le→leb (length xs) (length (xs ++ rest)) (omega (arith, length-append xs rest)),
      take-append xs rest,
      drop-append xs rest,
    ))

-- A slice of n bytes is made and filled, by `read` or by `read_full`.
pub make_then_read-append :
    (xs rest : Bytes)
    → length xs ≤ max_alloc
    → make_then_read (length xs) read (xs ++ rest) ≡ done (xs, rest)
unfolding make_then_read
make_then_read-append xs rest h = rw (le→leb _ _ h) (read-append (length xs) xs rest refl)

pub make_then_read_full-append :
    (xs rest : Bytes)
    → length xs ≤ max_alloc
    → make_then_read (length xs) read_full (xs ++ rest) ≡ done (xs, rest)
unfolding make_then_read
make_then_read_full-append xs rest h = rw (le→leb _ _ h) (read_full-append (length xs) xs rest refl)
