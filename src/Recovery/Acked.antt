-- ===== src/Recovery/Acked.antt =====
-- agents/recovery_agent.go, ProcessAck: what it takes out of the buffer and what it hands on.
use quic_tracker.Base.{
  ℕ, zero, suc, ◌+◌, ◌-◌, ◌^◌, ◌<◌, ◌≤◌, ◌≡◌, refl, List, [], ◌∷◌, ltb, leb, ◌==◌, Bool, false,
  if◌then◌else◌, Option, none, done, arith, ap, ◌∙◌,
}
use quic_tracker.Frame.{AckFrame, AckBlock}
use quic_tracker.Recovery.{
  RetransmittableFrames, Buffer, Progress, delete, find, step_down, found, acked_rounds, gap_rounds,
  rounds_below, process_blocks, process_ack,
}
use quic_tracker.Ack.{sub64}

-- a ≤ m < b
abbrev pub between : ℕ → ℕ → ℕ → Bool
between a b m = if leb a m then ltb m b else false

-- What a buffer holds under `m` once the numbers from `a` to below `b` are taken out.
abbrev pub find_outside : ℕ → ℕ → ℕ → Buffer → Option RetransmittableFrames
find_outside a b m buffer = if between a b m then none else find m buffer

find-delete : (n m : ℕ) (b : Buffer) → find m (delete n b) ≡ (if n == m then none else find m b)
unfolding find delete
find-delete n m [] = ground arith
find-delete n m ((i, f) ∷ rest) = ground (arith, find-delete n m rest)

-- Nothing is added to the batch, and `k` numbers below the current one are taken out.
abbrev Sweeps : ℕ → Progress → Progress → Type 0
Sweeps k p q =
    (q.batch ≡ p.batch)
    × (q.current ≡ p.current - k)
    × ((m : ℕ) → find m q.buffer ≡ find_outside (p.current - k) p.current m p.buffer)

abbrev IsClear : Progress → Type 0
IsClear p = find p.current p.buffer ≡ none

Sweeps-zero : (p : Progress) → Sweeps 0 p p
Sweeps-zero p = (refl, omega arith, λ m. ground arith)

Sweeps-trans :
    (a b : ℕ) (p q r : Progress)
    → a + b ≤ p.current
    → Sweeps a p q
    → Sweeps b q r
    → Sweeps (a + b) p r
Sweeps-trans a b p q r h (e, c, s) (e', c', s') =
    (e' ∙ e, omega (arith, c, c'), λ m. ground (arith, s m, s' m, c, c'))

step_down-Sweeps : (p : Progress) → 1 ≤ p.current → p.current < 2 ^ 64 → Sweeps 1 p (step_down p)
step_down-Sweeps p h lt =
    (refl, omega arith, λ m. ground (arith, find-delete (sub64 p.current 1) m p.buffer))

step_down-IsClear : (p : Progress) → IsClear (step_down p)
step_down-IsClear p = find-delete (sub64 p.current 1) (sub64 p.current 1) p.buffer ∙ ground arith

-- `k` rounds from a state whose current number is not in the buffer.
abbrev Rounds : ℕ → Progress → Progress → Type 0
Rounds k p q = Sweeps k p q × IsClear q

next :
    (k : ℕ) (p r : Progress)
    → suc k ≤ p.current
    → p.current < 2 ^ 64
    → Rounds k (step_down p) r
    → Rounds (suc k) p r
next k p r h lt (s, clear) =
    let e : 1 + k ≡ suc k = omega arith in
    (
      rw e at (
          Sweeps-trans 1 k p (step_down p) r (omega arith) (step_down-Sweeps p (omega arith) lt) s),
      clear,
    )

acked_rounds-Rounds :
    (k : ℕ) (p : Progress)
    → k ≤ p.current
    → p.current < 2 ^ 64
    → IsClear p
    → Rounds k p (acked_rounds k p)
unfolding acked_rounds
acked_rounds-Rounds zero p h lt clear = (Sweeps-zero p, clear)
acked_rounds-Rounds (suc k) p h lt clear =
    next k p (acked_rounds k (step_down p)) h lt
      (acked_rounds-Rounds k (step_down p) (omega arith) (omega arith) (step_down-IsClear p))

gap_rounds-suc :
    (k : ℕ) (p : Progress) → IsClear p → gap_rounds (suc k) p ≡ gap_rounds k (step_down p)
unfolding gap_rounds
gap_rounds-suc k p clear =
    ap (λ (o : Option RetransmittableFrames). gap_rounds k (step_down (found o p))) clear

gap_rounds-Rounds :
    (k : ℕ) (p : Progress)
    → k ≤ p.current
    → p.current < 2 ^ 64
    → IsClear p
    → Rounds k p (gap_rounds k p)
gap_rounds-Rounds zero p h lt clear = unfold gap_rounds in (Sweeps-zero p, clear)
gap_rounds-Rounds (suc k) p h lt clear = rw (gap_rounds-suc k p clear) (
    next k p (gap_rounds k (step_down p)) h lt
      (gap_rounds-Rounds k (step_down p) (omega arith) (omega arith) (step_down-IsClear p)))

-- The rounds of the blocks after the first, no loop of more than the threshold.
abbrev pub swept : List AckBlock → ℕ
swept [] = 0
swept (b ∷ rest) = rounds_below (b.gap + 1) + (rounds_below b.block + swept rest)

Rounds-trans :
    (a b : ℕ) (p q r : Progress)
    → a + b ≤ p.current
    → Rounds a p q
    → (IsClear q → Rounds b q r)
    → Rounds (a + b) p r
Rounds-trans a b p q r h (s, clear) more =
    (Sweeps-trans a b p q r h s (more clear).0, (more clear).1)

process_blocks-Rounds :
    (bs : List AckBlock) (p : Progress)
    → swept bs ≤ p.current
    → p.current < 2 ^ 64
    → IsClear p
    → Rounds (swept bs) p (process_blocks bs p)
unfolding process_blocks
process_blocks-Rounds [] p h lt clear = (Sweeps-zero p, clear)
process_blocks-Rounds (b ∷ rest) p h lt clear =
    let g = rounds_below (b.gap + 1) in
    let k = rounds_below b.block in
    let q = gap_rounds g p in
    let first = gap_rounds-Rounds g p (omega arith) lt clear in
    Rounds-trans g (k + swept rest) p q (process_blocks rest (acked_rounds k q)) h first (λ c.
      Rounds-trans k (swept rest) q (acked_rounds k q) (process_blocks rest (acked_rounds k q))
        (omega (arith, first.0.1))
        (acked_rounds-Rounds k q (omega (arith, first.0.1)) (omega (arith, first.0.1)) c)
        (λ c'.
          let second =
            acked_rounds-Rounds k q (omega (arith, first.0.1)) (omega (arith, first.0.1)) c in
          process_blocks-Rounds rest (acked_rounds k q) (omega (arith, first.0.1, second.0.1))
            (omega (arith, first.0.1, second.0.1)) c'))

-- The numbers that the blocks count are not below 0.
abbrev pub IsBetween : AckFrame → AckBlock → List AckBlock → Type 0
IsBetween f b rest =
    (f.ack_blocks ≡ b ∷ rest)
    × (rounds_below b.block + swept rest ≤ f.largest_acknowledged)
    × (f.largest_acknowledged < 2 ^ 64)

-- What the buffer holds after the call: nothing from the largest number down to the last that the
-- loops reach, and elsewhere what it held.
abbrev pub IsSwept : AckFrame → AckBlock → List AckBlock → Buffer → Buffer → Type 0
IsSwept f b rest before after =
    (m : ℕ)
    → find m after
      ≡ find_outside (f.largest_acknowledged - (rounds_below b.block + swept rest))
          (f.largest_acknowledged + 1) m before

-- On an ACK frame whose blocks and gaps stay above 0, ProcessAck hands on no frame to be sent
-- again. It takes out of the buffer every number from the largest acknowledged one down to the
-- last one that its loops reach, those in the gaps included, and leaves the others as they were.
pub process_ack-IsSwept :
    (f : AckFrame) (b : AckBlock) (rest : List AckBlock) (buffer : Buffer)
    → IsBetween f b rest
    → (after : Buffer) × (process_ack f buffer ≡ done ([], after)) × IsSwept f b rest buffer after
unfolding process_ack
process_ack-IsSwept f b rest buffer (e, h, lt) =
    let l = f.largest_acknowledged in
    let start : Progress = record { batch = []; current = l; buffer = delete l buffer } in
    let k = rounds_below b.block in
    let q = acked_rounds k start in
    let clear : IsClear start = find-delete l l buffer ∙ ground arith in
    let first = acked_rounds-Rounds k start (omega arith) lt clear in
    let (s, c) =
      Rounds-trans k (swept rest) start q (process_blocks rest q) h first
        (process_blocks-Rounds rest q (omega (arith, first.0.1)) (omega (arith, first.0.1))) in
    (
      (process_blocks rest q).buffer,
      rw e (ap (λ (l : List RetransmittableFrames). done (l, (process_blocks rest q).buffer)) s.0),
      λ m. ground (arith, s.2 m, find-delete l m buffer),
    )
