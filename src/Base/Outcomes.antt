-- ===== src/Base/Outcomes.antt =====
-- A call of Go code: it returns, or it panics.
use Prim.Native.Nat.{ℕ, ◌^◌}
use quic_tracker.Base.Tests.{leb, if◌then◌else◌}
use quic_tracker.Base.Lists.{Bytes, replicate}
use mathlib.Core.Bool.{Bool, true, false}
use mathlib.Core.Path.{◌≡◌, refl}
use mathlib.Core.Logic.{◌⊎◌, inl, inr}

pub data Outcome {ℓ} (A : Type ℓ) : Type ℓ where
  done : A → Outcome A
  panic : Outcome A

-- The largest allocation of Go's runtime on a 64-bit machine.
abbrev pub max_alloc : ℕ
max_alloc = 2 ^ 48

-- `make([]byte, n)`: zeros, or a panic on a length past that.
abbrev pub make_bytes : ℕ → Outcome Bytes
make_bytes n = if leb n max_alloc then done (replicate n 0) else panic

infixl 5 ◌>>=◌
abbrev pub ◌>>=◌ {ℓ κ} : {A : Type ℓ} {B : Type κ} → Outcome A → (A → Outcome B) → Outcome B
done a >>= f = f a
panic >>= f = panic

pub Outcome-cases {ℓ} : {A : Type ℓ} (o : Outcome A) → (o ≡ panic) ⊎ ((a : A) × (o ≡ done a))
Outcome-cases panic = inl refl
Outcome-cases (done a) = inr (a, refl)

pub >>=-eq-done {ℓ κ} :
    {A : Type ℓ} {B : Type κ} (m : Outcome A) (f : A → Outcome B) {b : B}
    → (m >>= f) ≡ done b
    → (a : A) × (m ≡ done a) × (f a ≡ done b)
>>=-eq-done (done a) f h = (a, refl, h)
>>=-eq-done panic f h = cc

-- What is returned, if the call returns, satisfies P.
abbrev pub Returns {ℓ κ} : {A : Type ℓ} → (A → Type κ) → Outcome A → Type κ
Returns P (done a) = P a
Returns P panic = Unit

pub bind-Returns {ℓ κ μ ν} :
    {A : Type ℓ} {B : Type κ} (P : A → Type μ) (Q : B → Type ν) (m : Outcome A) (f : A → Outcome B)
    → Returns P m
    → ((a : A) → P a → Returns Q (f a))
    → Returns Q (m >>= f)
bind-Returns P Q (done a) f h k = k a h
bind-Returns P Q panic f h k = tt

pub Returns-any {ℓ} : {A : Type ℓ} (m : Outcome A) → Returns (λ a. Unit {0}) m
Returns-any (done a) = tt
Returns-any panic = tt

pub Returns-map {ℓ κ μ} :
    {A : Type ℓ} (P : A → Type κ) (Q : A → Type μ) (o : Outcome A)
    → Returns P o
    → ((a : A) → P a → Q a)
    → Returns Q o
Returns-map P Q (done a) h k = k a h
Returns-map P Q panic h k = tt

pub if-Returns {ℓ κ} :
    {A : Type ℓ} (Q : A → Type κ) (b : Bool) (x y : Outcome A)
    → Returns Q x
    → Returns Q y
    → Returns Q (if b then x else y)
if-Returns Q true x y h k = h
if-Returns Q false x y h k = k
