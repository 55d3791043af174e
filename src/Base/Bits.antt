-- ===== src/Base/Bits.antt =====
-- Masks on one byte as arithmetic; each is a table checked by evaluation.
use Prim.Native.Nat.{ℕ, zero, suc, ◌+◌, ◌*◌, ◌/◌, ◌%◌, ◌^◌, ◌<◌, bit_and, bit_or, bit_xor}
use mathlib.Core.Path.{◌≡◌, refl}
use mathlib.Core.Bool.{Bool, true, ◌&&◌}
use native.Mathlib.Omega.{arith}
use quic_tracker.Base.Tests.{ltb, ◌==◌, if◌then◌else◌}

same_below : ℕ → (ℕ → ℕ) → (ℕ → ℕ) → Bool
same_below zero f g = true
same_below (suc n) f g = f n == g n && same_below n f g

same_below→eq : (n : ℕ) (f g : ℕ → ℕ) → same_below n f g ≡ true → (i : ℕ) → i < n → f i ≡ g i
unfolding same_below
same_below→eq zero f g e i h = absurd (omega arith)
same_below→eq (suc n) f g e i h = ground (arith, same_below→eq n f g (ground arith) i)

pub bit_and_c0 : (b : ℕ) → b < 256 → bit_and b 0xc0 ≡ b / 64 * 64
unfolding same_below
bit_and_c0 = same_below→eq 256 (λ b. bit_and b 0xc0) (λ b. b / 64 * 64) refl

pub bit_and_3f : (b : ℕ) → b < 256 → bit_and b 0x3f ≡ b % 64
unfolding same_below
bit_and_3f = same_below→eq 256 (λ b. bit_and b 0x3f) (λ b. b % 64) refl

pub bit_or_40 : (b : ℕ) → b < 64 → bit_or b 0x40 ≡ b + 64
unfolding same_below
bit_or_40 = same_below→eq 64 (λ b. bit_or b 0x40) (λ b. b + 64) refl

pub bit_or_80 : (b : ℕ) → b < 64 → bit_or b 0x80 ≡ b + 128
unfolding same_below
bit_or_80 = same_below→eq 64 (λ b. bit_or b 0x80) (λ b. b + 128) refl

pub bit_or_c0 : (b : ℕ) → b < 64 → bit_or b 0xc0 ≡ b + 192
unfolding same_below
bit_or_c0 = same_below→eq 64 (λ b. bit_or b 0xc0) (λ b. b + 192) refl

-- The length that the two top bits of a variable-length integer stand for.
pub top_bits_len :
    (b : ℕ)
    → b < 256
    → 2 ^ (bit_and b 0xc0 / 2 ^ 6)
      ≡ (if ltb b 64 then 1 else if ltb b 128 then 2 else if ltb b 192 then 4 else 8)
unfolding same_below
top_bits_len =
    same_below→eq 256 (λ b. 2 ^ (bit_and b 0xc0 / 2 ^ 6))
      (λ b. if ltb b 64 then 1 else if ltb b 128 then 2 else if ltb b 192 then 4 else 8) refl

pub bit_or_nibbles : (b : ℕ) → b < 256 → bit_or (b / 16 * 16) (b % 16) ≡ b
unfolding same_below
bit_or_nibbles = same_below→eq 256 (λ b. bit_or (b / 16 * 16) (b % 16)) (λ b. b) refl

pub bit_and_f0 : (b : ℕ) → b < 256 → bit_and b 0xf0 / 2 ^ 4 ≡ b / 16
unfolding same_below
bit_and_f0 = same_below→eq 256 (λ b. bit_and b 0xf0 / 2 ^ 4) (λ b. b / 16) refl

pub bit_and_0f : (b : ℕ) → b < 256 → bit_and b 0x0f ≡ b % 16
unfolding same_below
bit_and_0f = same_below→eq 256 (λ b. bit_and b 0x0f) (λ b. b % 16) refl

pub bit_and_03 : (b : ℕ) → b < 256 → bit_and b 0x03 ≡ b % 4
unfolding same_below
bit_and_03 = same_below→eq 256 (λ b. bit_and b 0x03) (λ b. b % 4) refl

-- The first byte of a long header, for a type and a length below 4.
pub bit_or_long :
    (b : ℕ) → b < 16 → bit_or (bit_or 0xc0 (b / 4 * 2 ^ 4 % 256)) (b % 4) ≡ 192 + b / 4 * 16 + b % 4
unfolding same_below
bit_or_long =
    same_below→eq 16 (λ b. bit_or (bit_or 0xc0 (b / 4 * 2 ^ 4 % 256)) (b % 4))
      (λ b. 192 + b / 4 * 16 + b % 4) refl

pub bit_and_30 : (b : ℕ) → b < 256 → bit_and b 0x30 / 2 ^ 4 ≡ b / 16 % 4
unfolding same_below
bit_and_30 = same_below→eq 256 (λ b. bit_and b 0x30 / 2 ^ 4) (λ b. b / 16 % 4) refl

pub bit_and_0e : (b : ℕ) → b < 256 → bit_and b 0xe / 2 ≡ b / 2 % 8
unfolding same_below
bit_and_0e = same_below→eq 256 (λ b. bit_and b 0xe / 2) (λ b. b / 2 % 8) refl

pub bit_and_01 : (b : ℕ) → b < 256 → bit_and b 0x1 ≡ b % 2
unfolding same_below
bit_and_01 = same_below→eq 256 (λ b. bit_and b 0x1) (λ b. b % 2) refl

-- Three fields of a byte, of two, two and three bits, above its lowest bit.
pub bit_or_fields :
    (b : ℕ)
    → b < 256
    → bit_or (bit_or (b / 64 * 2 ^ 6 % 256) (b / 16 % 4 * 2 ^ 4 % 256)) (b / 2 % 8 * 2 % 256)
      ≡ b / 2 * 2
unfolding same_below
bit_or_fields =
    same_below→eq 256
      (λ b. bit_or (bit_or (b / 64 * 2 ^ 6 % 256) (b / 16 % 4 * 2 ^ 4 % 256)) (b / 2 % 8 * 2 % 256))
      (λ b. b / 2 * 2) refl

pub bit_or_01 : (b : ℕ) → b < 128 → bit_or (b * 2) 0x1 ≡ b * 2 + 1
unfolding same_below
bit_or_01 = same_below→eq 128 (λ b. bit_or (b * 2) 0x1) (λ b. b * 2 + 1) refl

-- The top bit is not among the seven others.
pub bit_and_80_7f : (b : ℕ) → b < 256 → bit_and (bit_and b 0x80) 0x7f ≡ 0
unfolding same_below
bit_and_80_7f = same_below→eq 256 (λ b. bit_and (bit_and b 0x80) 0x7f) (λ b. 0) refl

all_below : ℕ → (ℕ → Bool) → Bool
all_below zero f = true
all_below (suc n) f = f n && all_below n f

all_below→true : (n : ℕ) (f : ℕ → Bool) → all_below n f ≡ true → (i : ℕ) → i < n → f i ≡ true
unfolding all_below
all_below→true zero f e i h = absurd (omega arith)
all_below→true (suc n) f e i h = ground (arith, all_below→true n f (ground arith) i)

-- Two masks with the same byte are none.
pub xor_twice : (m a : ℕ) → m < 256 → a < 256 → bit_xor (bit_xor a m) m ≡ a
unfolding same_below all_below
xor_twice m a hm ha =
    same_below→eq 256 (λ a. bit_xor (bit_xor a m) m) (λ a. a)
      (all_below→true 256 (λ m. same_below 256 (λ a. bit_xor (bit_xor a m) m) (λ a. a)) refl m hm) a
      ha

byte_table :
    (f g : ℕ → ℕ → ℕ)
    → all_below 256 (λ m. same_below 256 (f m) (g m)) ≡ true
    → (m a : ℕ) → m < 256
    → a < 256
    → f m a ≡ g m a
byte_table f g e m a hm ha =
    same_below→eq 256 (f m) (g m) (all_below→true 256 (λ m. same_below 256 (f m) (g m)) e m hm) a ha

-- The two masks of a first byte leave its top bit alone.
pub xor_0f_top :
    (m a : ℕ) → m < 256 → a < 256 → bit_and (bit_xor a (bit_and m 0x0f)) 0x80 ≡ bit_and a 0x80
unfolding same_below all_below
xor_0f_top =
    byte_table (λ m a. bit_and (bit_xor a (bit_and m 0x0f)) 0x80) (λ m a. bit_and a 0x80) refl

pub xor_1f_top :
    (m a : ℕ) → m < 256 → a < 256 → bit_and (bit_xor a (bit_and m 0x1f)) 0x80 ≡ bit_and a 0x80
unfolding same_below all_below
xor_1f_top =
    byte_table (λ m a. bit_and (bit_xor a (bit_and m 0x1f)) 0x80) (λ m a. bit_and a 0x80) refl

pub xor_0f_twice :
    (m a : ℕ) → m < 256 → a < 256 → bit_xor (bit_xor a (bit_and m 0x0f)) (bit_and m 0x0f) ≡ a
unfolding same_below all_below
xor_0f_twice =
    byte_table (λ m a. bit_xor (bit_xor a (bit_and m 0x0f)) (bit_and m 0x0f)) (λ m a. a) refl

pub xor_1f_twice :
    (m a : ℕ) → m < 256 → a < 256 → bit_xor (bit_xor a (bit_and m 0x1f)) (bit_and m 0x1f) ≡ a
unfolding same_below all_below
xor_1f_twice =
    byte_table (λ m a. bit_xor (bit_xor a (bit_and m 0x1f)) (bit_and m 0x1f)) (λ m a. a) refl

xor_high : (m a : ℕ) → m < 256 → a < 256 → bit_xor a m / 256 ≡ 0
unfolding same_below all_below
xor_high = byte_table (λ m a. bit_xor a m / 256) (λ m a. 0) refl

pub xor_below : (m a : ℕ) → m < 256 → a < 256 → bit_xor a m < 256
xor_below m a hm ha = omega (arith, xor_high m a hm ha)

-- What the masks of a first byte leave alone.
pub xor_0f_high : (m a : ℕ) → m < 256 → a < 256 → bit_xor a (bit_and m 0x0f) / 16 ≡ a / 16
unfolding same_below all_below
xor_0f_high = byte_table (λ m a. bit_xor a (bit_and m 0x0f) / 16) (λ m a. a / 16) refl

pub xor_1f_high : (m a : ℕ) → m < 256 → a < 256 → bit_xor a (bit_and m 0x1f) / 32 ≡ a / 32
unfolding same_below all_below
xor_1f_high = byte_table (λ m a. bit_xor a (bit_and m 0x1f) / 32) (λ m a. a / 32) refl

pub bit_and_80 : (b : ℕ) → b < 256 → bit_and b 0x80 ≡ b / 128 * 128
unfolding same_below
bit_and_80 = same_below→eq 256 (λ b. bit_and b 0x80) (λ b. b / 128 * 128) refl
