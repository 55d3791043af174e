-- ===== src/Ack/Covered.antt =====
-- frames.go, GetAckedPackets: which packet numbers it returns.
use quic_tracker.Base.{
  ℕ, zero, suc, ◌+◌, ◌-◌, ◌%◌, ◌^◌, ◌<◌, ◌≤◌, ◌≡◌, refl, sym, ap, ◌∙◌, List, [], ◌∷◌, ◌++◌, arith,
  done,
}
use quic_tracker.Frame.{AckFrame, AckBlock}
use quic_tracker.Ack.{sub64, count_down, acked_in_blocks, get_acked_packets}
use quic_tracker.Ack.Correct.{run_down}

-- The rounds of the loops over the blocks after the first.
abbrev pub rounds : List AckBlock → ℕ
rounds [] = 0
rounds (b ∷ rest) = b.gap + 1 + (b.block + rounds rest)

count_down-add :
    (c a b : ℕ)
    → a + b ≤ c
    → c < 2 ^ 64
    → count_down c (a + b) ≡ count_down c a ++ count_down (c - a) b
unfolding count_down
count_down-add c zero b h lt =
    let e : c - 0 ≡ c = omega arith in let z : 0 + b ≡ b = omega arith in rw (e, z) refl
count_down-add c (suc a) b h lt =
    let one : sub64 c 1 ≡ c - 1 = omega arith in
    let more : c - suc a ≡ c - 1 - a = omega arith in
    let sum : suc a + b ≡ suc (a + b) = omega arith in
    rw (sum, one, more)
      (ap (λ (l : List ℕ). (c - 1) ∷ l) (count_down-add (c - 1) a b (omega arith) (omega arith)))

run_down-count_down : (n k : ℕ) → k ≤ n → n < 2 ^ 64 → n ∷ count_down n k ≡ run_down n k
unfolding count_down run_down
run_down-count_down n zero h lt = refl
run_down-count_down n (suc k) h lt =
    let one : sub64 n 1 ≡ n - 1 = omega arith in
    rw one (ap (λ (l : List ℕ). n ∷ l) (run_down-count_down (n - 1) k (omega arith) (omega arith)))

acked_in_blocks-count_down :
    (c : ℕ) (bs : List AckBlock)
    → rounds bs ≤ c
    → c < 2 ^ 64
    → acked_in_blocks c bs ≡ count_down c (rounds bs)
unfolding acked_in_blocks
acked_in_blocks-count_down c [] h lt = unfold count_down in refl
acked_in_blocks-count_down c (b ∷ rest) h lt =
    let s : sub64 c ((b.gap + 1) % 2 ^ 64) ≡ c - (b.gap + 1) = omega arith in
    let t : sub64 (c - (b.gap + 1)) (b.block % 2 ^ 64) ≡ c - (b.gap + 1) - b.block = omega arith in
    rw (
      s,
      t,
      acked_in_blocks-count_down (c - (b.gap + 1) - b.block) rest (omega arith) (omega arith),
      count_down-add c (b.gap + 1) (b.block + rounds rest) h lt,
      count_down-add (c - (b.gap + 1)) b.block (rounds rest) (omega arith) (omega arith),
    )

-- The first block covers `block + 1` numbers, and the numbers after it descend without a break.
abbrev pub IsBetween : AckFrame → AckBlock → List AckBlock → Type 0
IsBetween f b rest =
    (f.ack_blocks ≡ b ∷ rest)
    × (b.block + rounds rest ≤ f.largest_acknowledged)
    × (f.largest_acknowledged < 2 ^ 64)

-- On a frame with a block, whose blocks and gaps stay above 0, GetAckedPackets returns every number
-- from the largest down, without a break, for as many rounds as the blocks and the gaps count: the
-- numbers in the gaps too, which the frame reports missing.
pub get_acked_packets-run_down :
    (f : AckFrame) (b : AckBlock) (rest : List AckBlock)
    → IsBetween f b rest
    → get_acked_packets f ≡ done (run_down f.largest_acknowledged (b.block + rounds rest))
unfolding get_acked_packets
get_acked_packets-run_down f b rest (e, h, lt) =
    let l = f.largest_acknowledged in
    let s : sub64 l (b.block % 2 ^ 64) ≡ l - b.block = omega arith in
    rw (e, s, acked_in_blocks-count_down (l - b.block) rest (omega arith) (omega arith))
      (ap done (
        ap (λ (ns : List ℕ). l ∷ ns) (sym (count_down-add l b.block (rounds rest) h lt))
        ∙ run_down-count_down l (b.block + rounds rest) h lt))
