-- ===== src/Intervals/Bounds.antt =====
-- streams.go, byteIntervalList: the starts and ends of the gaps against a limit.
use quic_tracker.Base.{ℕ, ◌≤◌, List, [], ◌∷◌, All, All-append, Bool-cases, inl, inr, arith}
use quic_tracker.Intervals.{
  ByteInterval, overlap, merge, exclude, merge_onto, ensure_consistency, insert_before,
  exclude_each, add, fill,
}

-- Every gap starts at `m` or before, and ends there or before.
abbrev pub Within : ℕ → ByteInterval → Type 0
Within m b = (b.start ≤ m) × (b.end ≤ m)

module _ (m : ℕ) where
  merge_onto-Within :
      (p : ByteInterval) (l : List ByteInterval)
      → Within m p
      → All (Within m) l
      → All (Within m) (merge_onto p l)
  unfolding merge_onto merge
  merge_onto-Within p [] hp h = (hp, tt)
  merge_onto-Within p (n ∷ ns) hp (hn, hs) = elim (Bool-cases (overlap p n)) [
    | inl e ↦ rw (e, merge_onto) (merge_onto-Within (merge p n) ns (ground arith) hs)
    | inr e ↦ rw (e, merge_onto) (hp, merge_onto-Within n ns hn hs)
  ]

  ensure_consistency-Within :
      (l : List ByteInterval) → All (Within m) l → All (Within m) (ensure_consistency l)
  unfolding ensure_consistency
  ensure_consistency-Within [] h = tt
  ensure_consistency-Within (n ∷ ns) (hn, hs) = merge_onto-Within n ns hn hs

  insert_before-Within :
      (b : ByteInterval) (l : List ByteInterval)
      → Within m b
      → All (Within m) l
      → All (Within m) (insert_before b l)
  unfolding insert_before
  insert_before-Within b [] hb h = (hb, tt)
  insert_before-Within b (n ∷ ns) hb (hn, hs) = ground (arith, insert_before-Within b ns hb hs)

  pub add-Within :
      (b : ByteInterval) (l : List ByteInterval)
      → Within m b
      → All (Within m) l
      → All (Within m) (add b l)
  unfolding add
  add-Within b l hb h =
      ensure_consistency-Within (insert_before b l) (insert_before-Within b l hb h)

  exclude-Within : (b o : ByteInterval) → Within m b → Within m o → All (Within m) (exclude b o)
  unfolding exclude
  exclude-Within b o hb ho = ground arith

  exclude_each-Within :
      (o : ByteInterval) (l : List ByteInterval)
      → Within m o
      → All (Within m) l
      → All (Within m) (exclude_each o l)
  unfolding exclude_each
  exclude_each-Within o [] ho h = tt
  exclude_each-Within o (n ∷ ns) ho (hn, hs) =
      let rest = exclude_each-Within o ns ho hs in
      elim (Bool-cases (overlap o n)) [
        | inl e ↦ rw (e) (All-append (Within m) (exclude n o) _ (exclude-Within n o hn ho) rest)
        | inr e ↦ rw (e) (hn, rest)
      ]

  pub fill-Within :
      (o : ByteInterval) (l : List ByteInterval)
      → Within m o
      → All (Within m) l
      → All (Within m) (fill o l)
  unfolding fill
  fill-Within o l ho h = ensure_consistency-Within (exclude_each o l) (exclude_each-Within o l ho h)
