-- ===== src/RttAgent/Bounds.antt =====
-- agents/rtt_agent.go: what UpdateRTT makes of a run of samples.
use quic_tracker.Base.{
  ℕ, ◌^◌, ◌≤◌, ◌<◌, ◌≡◌, refl, ◌==◌, ltb, Bool, Bool-cases, if◌then◌else◌, not, ◌&&◌, ◌⊎◌, inl, inr,
  List, [], ◌∷◌, All, arith,
}
use quic_tracker.RttAgent.{Agent, new_agent, adjusted, difference, smaller, smoothed, update_rtt}

-- A time, with the delay that the peer reports and whether the packet held ACK frames only.
pub record Sample : Type 0 where
  pub time : ℕ
  pub delay : ℕ
  pub ack_only : Bool

abbrev pub sampled : Agent → Sample → Agent
sampled a x = update_rtt x.delay x.ack_only (record a { latest_rtt = x.time })

abbrev pub run : Agent → List Sample → Agent
run a [] = a
run a (x ∷ xs) = run (sampled a x) xs

-- The estimates lie between the least time and a bound of all times.
abbrev pub IsEstimate : ℕ → Agent → Type 0
IsEstimate m a = (a.min_rtt ≤ a.smoothed_rtt) × (a.smoothed_rtt ≤ m) × (a.rtt_var ≤ m)

-- As before the first sample, or with estimates.
abbrev IsStarted : ℕ → Agent → Type 0
IsStarted m a = (a.smoothed_rtt ≡ 0) ⊎ IsEstimate m a

adjusted-within :
    (latest least delay m : ℕ)
    → least ≤ latest
    → latest ≤ m
    → (least ≤ adjusted latest least delay) × (adjusted latest least delay ≤ m)
adjusted-within latest least delay m le le' = ground arith

smaller-le : (a b : ℕ) → (smaller a b ≤ a) × (smaller a b ≤ b)
smaller-le a b = ground arith

difference-le : (a b m : ℕ) → a ≤ m → b ≤ m → difference a b ≤ m
difference-le a b m la lb = ground arith

smoothed-IsEstimate :
    (m : ℕ) (a : Agent)
    → a.min_rtt ≤ a.latest_rtt
    → a.latest_rtt ≤ m
    → (a.smoothed_rtt ≡ 0) ⊎ IsEstimate m a
    → IsEstimate m (smoothed a)
smoothed-IsEstimate m a le le' i = elim (Bool-cases (a.smoothed_rtt == 0)) [
  | inl e ↦ rw e (le, le', omega (arith, le'))
  | inr e ↦ elim i [
    | inl z ↦ absurd (ground (arith, e, z))
    | inr (low, high, var) ↦ rw e (
      omega (arith, low, le),
      omega (arith, high, le'),
      omega (arith, var, difference-le a.smoothed_rtt a.latest_rtt m high le'),
    )
  ]
]

update_rtt-IsEstimate :
    (m : ℕ) (a : Agent) (x : Sample)
    → x.time ≤ m
    → IsStarted m a
    → IsEstimate m (sampled a x)
      × ((sampled a x).min_rtt ≤ x.time)
      × ((sampled a x).min_rtt ≤ a.min_rtt)
unfolding update_rtt
update_rtt-IsEstimate m a x le i =
    let least = smaller x.time a.min_rtt in
    let (le_time, le_min) = smaller-le x.time a.min_rtt in
    let (low, high) = adjusted-within x.time least x.delay m le_time le in
    let b : Agent = record a {
      min_rtt = least;
      latest_rtt = adjusted x.time least x.delay;
      max_ack_delay =
          if not x.ack_only && ltb a.max_ack_delay x.delay then x.delay else a.max_ack_delay;
    } in
    let started : (b.smoothed_rtt ≡ 0) ⊎ IsEstimate m b = elim i [
      | inl z ↦ inl z
      | inr (l, h, v) ↦ inr (omega (arith, l, le_min), h, v)
    ] in
    (smoothed-IsEstimate m b low high started, min_kept b le_time, min_kept b le_min)
  where
    min_kept : {n : ℕ} (b : Agent) → b.min_rtt ≤ n → (smoothed b).min_rtt ≤ n
    min_kept b le = elim (Bool-cases (b.smoothed_rtt == 0)) [ inl e ↦ rw e le | inr e ↦ rw e le ]

run-IsEstimate :
    (m : ℕ) (xs : List Sample) (a : Agent)
    → All (λ x. x.time ≤ m) xs
    → IsEstimate m a
    → IsEstimate m (run a xs)
      × All (λ x. (run a xs).min_rtt ≤ x.time) xs
      × ((run a xs).min_rtt ≤ a.min_rtt)
run-IsEstimate m [] a h i = (i, tt, omega arith)
run-IsEstimate m (x ∷ xs) a (h, hs) i =
    let (j, le_time, le_min) = update_rtt-IsEstimate m a x h (inr i) in
    let (k, all, le) = run-IsEstimate m xs (sampled a x) hs j in
    (k, (omega (arith, le, le_time), all), omega (arith, le, le_min))

-- One sample or more, none above a bound that is below 2 ^ 50 microseconds: from a new agent, the
-- minimum is at most every sample; the smoothed time lies between the minimum and the bound, also
-- where reported delays are taken off; and the variation is at most the bound.
pub run-bounds :
    (m : ℕ) (x : Sample) (xs : List Sample)
    → m < 2 ^ 50
    → All (λ y. y.time ≤ m) (x ∷ xs)
    → All (λ y. (run new_agent (x ∷ xs)).min_rtt ≤ y.time) (x ∷ xs)
      × ((run new_agent (x ∷ xs)).min_rtt ≤ (run new_agent (x ∷ xs)).smoothed_rtt)
      × ((run new_agent (x ∷ xs)).smoothed_rtt ≤ m)
      × ((run new_agent (x ∷ xs)).rtt_var ≤ m)
run-bounds m x xs small (h, hs) =
    let (j, le_time, le_min) = update_rtt-IsEstimate m new_agent x h (inl refl) in
    let ((low, high, var), all, le) = run-IsEstimate m xs (sampled new_agent x) hs j in
    ((omega (arith, le, le_time), all), low, high, var)
