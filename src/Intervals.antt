-- ===== src/Intervals.antt =====
-- streams.go: byteInterval, and the ordered list of byteIntervals as the sequence of its values.
pub mod Bounds
use quic_tracker.Base.{
  ℕ, ◌+◌, ◌-◌, Bool, true, false, ◌&&◌, ◌||◌, List, [], ◌∷◌, ◌++◌, leb, ltb, if◌then◌else◌,
}

pub record ByteInterval : Type 0 where
  pub start : ℕ
  pub end : ℕ

abbrev pub interval : ℕ → ℕ → ByteInterval
interval s e = record { start = s; end = e }

-- min and max of common.go
abbrev pub min : ℕ → ℕ → ℕ
min a b = if ltb a b then a else b

abbrev pub max : ℕ → ℕ → ℕ
max a b = if ltb b a then a else b

pub contains : ByteInterval → ℕ → Bool
contains b offset = leb b.start offset && leb offset b.end

unfoldable pub is_before : ByteInterval → ByteInterval → Bool
is_before b o = leb b.end o.start

unfoldable pub overlap : ByteInterval → ByteInterval → Bool
overlap b o =
    (leb o.start b.end && leb b.end o.end)
    || (leb b.start o.end && leb o.end b.end)
    || (leb b.start o.start && leb o.end b.end)
    || (leb o.start b.start && leb b.end o.end)

unfoldable pub merge : ByteInterval → ByteInterval → ByteInterval
merge b o = interval (min b.start o.start) (max b.end o.end)

-- The subtraction and the addition cannot wrap where their branch is taken.
unfoldable pub exclude : ByteInterval → ByteInterval → List ByteInterval
exclude b o =
    if ltb b.start o.start && ltb o.end b.end
    then interval b.start (o.start - 1) ∷ interval (o.end + 1) b.end ∷ []
    else if leb o.start b.start && ltb o.end b.end
    then interval o.end b.end ∷ []
    else if ltb b.end o.end
    then interval b.start o.start ∷ []
    else []

-- The rest of `ensureConsistency`'s loop, where `p` is the element before it.
unfoldable pub merge_onto : ByteInterval → List ByteInterval → List ByteInterval
merge_onto p [] = p ∷ []
merge_onto p (n ∷ ns) = elim (overlap p n) [
  | true ↦ merge_onto (merge p n) ns
  | false ↦ p ∷ merge_onto n ns
]

unfoldable pub ensure_consistency : List ByteInterval → List ByteInterval
unfolding merge_onto
ensure_consistency [] = []
ensure_consistency (n ∷ ns) = merge_onto n ns

-- `Add` puts the value before the first element that it ends before, or at the back.
unfoldable pub insert_before : ByteInterval → List ByteInterval → List ByteInterval
insert_before b [] = b ∷ []
insert_before b (n ∷ ns) = if is_before b n then b ∷ n ∷ ns else n ∷ insert_before b ns

unfoldable pub add : ByteInterval → List ByteInterval → List ByteInterval
unfolding insert_before ensure_consistency is_before overlap merge
add b l = ensure_consistency (insert_before b l)

unfoldable pub exclude_each : ByteInterval → List ByteInterval → List ByteInterval
exclude_each b [] = []
exclude_each b (n ∷ ns) = (if overlap b n then exclude n b else n ∷ []) ++ exclude_each b ns

unfoldable pub fill : ByteInterval → List ByteInterval → List ByteInterval
unfolding exclude_each ensure_consistency overlap merge exclude
fill b l = ensure_consistency (exclude_each b l)
