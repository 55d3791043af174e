-- ===== src/Ack/Sort.antt =====
-- `sort.Sort(PacketNumberQueue(...))`: largest first. On numbers every sort gives one result.
use quic_tracker.Base.{
  ℕ, ◌<◌, ◌≤◌, ◌≢◌, sym, List, [], ◌∷◌, All, ltb, if◌then◌else◌, arith, Bool-cases, inl, inr,
}
use mathlib.Core.List.{Perm}
use mathlib.Core.List.Perm

unfoldable pub insert : ℕ → List ℕ → List ℕ
insert x [] = x ∷ []
insert x (y ∷ ys) = if ltb y x then x ∷ y ∷ ys else y ∷ insert x ys

unfoldable pub sort : List ℕ → List ℕ
unfolding insert
sort [] = []
sort (x ∷ xs) = insert x (sort xs)

-- Every number is below the one before it, and the first below `n`.
abbrev pub Below : ℕ → List ℕ → Type 0
Below n [] = Unit {0}
Below n (x ∷ xs) = (x < n) × Below x xs

abbrev pub IsDescending : List ℕ → Type 0
IsDescending [] = Unit {0}
IsDescending (x ∷ xs) = Below x xs

abbrev pub Distinct : List ℕ → Type 0
Distinct [] = Unit {0}
Distinct (x ∷ xs) = All (λ y. x ≢ y) xs × Distinct xs

insert-perm : (x : ℕ) (xs : List ℕ) → Perm (insert x xs) (x ∷ xs)
unfolding insert
insert-perm x [] = Perm.refl _
insert-perm x (y ∷ ys) = elim (Bool-cases (ltb y x)) [
  | inl e ↦ rw e (Perm.refl _)
  | inr e ↦ rw e (Perm.trans (Perm.cons y (insert-perm x ys)) (Perm.swap x y ys))
]

pub sort-perm : (xs : List ℕ) → Perm (sort xs) xs
unfolding sort
sort-perm [] = Perm.refl []
sort-perm (x ∷ xs) = Perm.trans (insert-perm x (sort xs)) (Perm.cons x (sort-perm xs))

insert-Below :
    (n x : ℕ) (xs : List ℕ) → x < n → Below n xs → All (λ y. x ≢ y) xs → Below n (insert x xs)
unfolding insert
insert-Below n x [] h b d = (h, tt)
insert-Below n x (y ∷ ys) h b d = ground (arith, insert-Below y x ys)

pub insert-All : (P : ℕ → Type 0) (x : ℕ) (xs : List ℕ) → P x → All P xs → All P (insert x xs)
unfolding insert
insert-All P x [] h hs = (h, tt)
insert-All P x (y ∷ ys) h hs = elim (Bool-cases (ltb y x)) [
  | inl e ↦ rw e (h, hs)
  | inr e ↦ rw e (hs.0, insert-All P x ys h hs.1)
]

pub sort-All : (P : ℕ → Type 0) (xs : List ℕ) → All P xs → All P (sort xs)
unfolding sort
sort-All P [] h = tt
sort-All P (x ∷ xs) (h, hs) = insert-All P x (sort xs) h (sort-All P xs hs)

insert-IsDescending :
    (x : ℕ) (xs : List ℕ) → IsDescending xs → All (λ y. x ≢ y) xs → IsDescending (insert x xs)
unfolding insert
insert-IsDescending x [] b d = tt
insert-IsDescending x (y ∷ ys) b d = ground (arith, insert-Below y x ys)

pub sort-IsDescending : (xs : List ℕ) → Distinct xs → IsDescending (sort xs)
unfolding sort
sort-IsDescending [] d = tt
sort-IsDescending (x ∷ xs) (d, ds) =
    insert-IsDescending x (sort xs) (sort-IsDescending xs ds) (sort-All (λ y. x ≢ y) xs d)

insert-All⁻ : (P : ℕ → Type 0) (x : ℕ) (xs : List ℕ) → All P (insert x xs) → P x × All P xs
unfolding insert
insert-All⁻ P x [] h = h
insert-All⁻ P x (y ∷ ys) h = elim (Bool-cases (ltb y x)) [
  | inl e ↦ rw (e, insert) at h
  | inr e ↦
      let (hy, hs) = rw (e, insert) at h in let (hx, hys) = insert-All⁻ P x ys hs in (hx, (hy, hys))
]

sort-All⁻ : (P : ℕ → Type 0) (xs : List ℕ) → All P (sort xs) → All P xs
unfolding sort
sort-All⁻ P [] h = tt
sort-All⁻ P (x ∷ xs) h = let (hx, hs) = insert-All⁻ P x (sort xs) h in (hx, sort-All⁻ P xs hs)

insert-Distinct : (x : ℕ) (xs : List ℕ) → Distinct (insert x xs) → All (λ y. x ≢ y) xs × Distinct xs
unfolding insert
insert-Distinct x [] h = (tt, tt)
insert-Distinct x (y ∷ ys) h = elim (Bool-cases (ltb y x)) [
  | inl e ↦ rw (e, insert) at h
  | inr e ↦
      let (hy, hs) = rw (e, insert) at h in
      let (nx, nys) = insert-All⁻ (λ z. y ≢ z) x ys hy in
      let (dx, ds) = insert-Distinct x ys hs in ((λ q. nx (sym q), dx), (nys, ds))
]

pub sort-Distinct : (xs : List ℕ) → Distinct (sort xs) → Distinct xs
unfolding sort
sort-Distinct [] h = tt
sort-Distinct (x ∷ xs) h =
    let (hx, hs) = insert-Distinct x (sort xs) h in
    (sort-All⁻ (λ y. x ≢ y) xs hx, sort-Distinct xs hs)

Below-All : (n p : ℕ) (ns : List ℕ) → p ≤ n → Below p ns → All (λ y. n ≢ y) ns
Below-All n p [] le h = tt
Below-All n p (m ∷ ns) le (h, hs) = (λ q. omega (arith, q, h), Below-All n m ns (omega arith) hs)

pub Below-Distinct : (p : ℕ) (ns : List ℕ) → Below p ns → Distinct ns
Below-Distinct p [] h = tt
Below-Distinct p (n ∷ ns) (h, hs) = (Below-All n n ns (omega arith) hs, Below-Distinct n ns hs)
