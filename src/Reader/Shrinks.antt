-- ===== src/Reader/Shrinks.antt =====
-- Go's bytes.Reader: a reader never has more bytes after a call than before it.
use quic_tracker.Base.{
  ℕ, ◌≤◌, [], ◌∷◌, Bytes, length, drop, leb, max_alloc, Outcome, done, panic, arith, Outcome-cases,
  inl, inr, Bool-cases, zero, suc,
}
use quic_tracker.Reader.{
  Parser, return, ◌>>=◌, read_byte, read, read_full?, read_full, make_then_read,
}

-- What is left after a call has at most n bytes.
abbrev pub AtMost {ℓ} : {A : Type ℓ} → ℕ → Outcome (A × Bytes) → Type 0
AtMost n (done (a, rest)) = length rest ≤ n
AtMost n panic = Unit {0}

pub record Shrinks {ℓ} {A : Type ℓ} (p : Parser A) : Type 0 where
  pub at : (bs : Bytes) → AtMost (length bs) (p bs)

pub AtMost-le {ℓ} :
    {A : Type ℓ} (n m : ℕ) (o : Outcome (A × Bytes)) → AtMost n o → n ≤ m → AtMost m o
AtMost-le n m (done (a, rest)) h le = omega (arith, h, le)
AtMost-le n m panic h le = tt

-- Two readers in turn.
pub AtMost-bind {ℓ κ} :
    {A : Type ℓ} {B : Type κ} (m : Parser A) (f : A → Parser B) (n : ℕ) (bs : Bytes)
    → AtMost n (m bs)
    → ((a : A) → Shrinks (f a))
    → AtMost n ((m >>= f) bs)
AtMost-bind m f n bs h k = elim (Outcome-cases (m bs)) [
  | inl e ↦ rw (◌>>=◌, e) tt
  | inr ((a, rest), e) ↦
      let le : length rest ≤ n = rw e at h in
      rw (◌>>=◌, e) (AtMost-le (length rest) n (f a rest) ((k a).at rest) le)
]

pub bind-Shrinks {ℓ κ} :
    {A : Type ℓ} {B : Type κ} (m : Parser A) (f : A → Parser B)
    → Shrinks m
    → ((a : A) → Shrinks (f a))
    → Shrinks (m >>= f)
bind-Shrinks m f h k = record { at = λ bs. AtMost-bind m f (length bs) bs (h.at bs) k }

pub return-Shrinks {ℓ} : {A : Type ℓ} (a : A) → Shrinks (return a)
return-Shrinks a = record { at = λ bs. omega arith }

length-drop-le : (n : ℕ) (bs : Bytes) → length (drop n bs) ≤ length bs
length-drop-le zero bs = omega arith
length-drop-le (suc n) [] = omega arith
length-drop-le (suc n) (b ∷ bs) = omega (arith, length-drop-le n bs)

pub read-Shrinks : (n : ℕ) → Shrinks (read n)
unfolding read
read-Shrinks n = record { at = length-drop-le n }

read_byte-AtMost : (bs : Bytes) → AtMost (length bs) (read_byte bs)
read_byte-AtMost [] = omega arith
read_byte-AtMost (b ∷ bs) = omega arith

pub read_byte-Shrinks : Shrinks read_byte
read_byte-Shrinks = record { at = read_byte-AtMost }

pub read_full-Shrinks : (n : ℕ) → Shrinks (read_full n)
unfolding read_full read_full?
read_full-Shrinks n = record {
  at = λ bs. elim (Bool-cases (leb n (length bs))) [
    | inl e ↦ rw e (length-drop-le n bs)
    | inr e ↦ rw e (omega arith)
  ];
}

pub make_then_read-Shrinks :
    (n : ℕ) (fill : ℕ → Parser Bytes) → Shrinks (fill n) → Shrinks (make_then_read n fill)
unfolding make_then_read
make_then_read-Shrinks n fill h = record {
  at = λ bs. elim (Bool-cases (leb n max_alloc)) [ inl e ↦ rw e (h.at bs) | inr e ↦ rw e tt ];
}
