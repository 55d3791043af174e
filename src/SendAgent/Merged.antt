-- ===== src/SendAgent/Merged.antt =====
-- agents/send_agent.go, mergeAckFrames: what the merged frame acknowledges.
use quic_tracker.Base.{ℕ, ◌+◌, ◌-◌, ◌^◌, ◌≡◌, ◌<◌, refl, ap, false, [], ◌∷◌, ◌==◌, done, arith}
use quic_tracker.Frame.{AckFrame}
use quic_tracker.Ack.{sub64}
use quic_tracker.Ack.Sort.{insert, sort}
use quic_tracker.Ack.Correct.{acked, acked_runs, run_down}
use quic_tracker.SendAgent.Merge.{
  is_key, add_number, add_run, add_frame_numbers, numbers_of, merged_blocks, merge_ack_frames,
  largest_of,
}

-- An ACK frame of one packet number.
abbrev pub ack_of : ℕ → AckFrame
ack_of n = record {
  largest_acknowledged = n;
  ack_delay = 0;
  ack_block_count = 0;
  ack_blocks = record { gap = 0; block = 0 } ∷ [];
}

abbrev pub merged_two : ℕ → ℕ → AckFrame
merged_two n m = record {
  largest_acknowledged = n;
  ack_delay = 0;
  ack_block_count = 1;
  ack_blocks = record { gap = 0; block = 0 } ∷ record { gap = n - m - 1; block = 0 } ∷ [];
}

numbers_lem : (n m : ℕ) → m < n → sort (numbers_of (ack_of n ∷ ack_of m ∷ []) []) ≡ n ∷ m ∷ []
unfolding sort insert numbers_of add_frame_numbers add_run add_number is_key
numbers_lem n m lt = ground arith

largest_lem : (n m : ℕ) → m < n → largest_of 0 (ack_of n ∷ ack_of m ∷ []) ≡ n
unfolding largest_of
largest_lem n m lt = ground arith

blocks_lem :
    (n m : ℕ)
    → m + 1 < n
    → n < 2 ^ 64
    → merged_blocks n (record { gap = 0; block = 0 }) (m ∷ [])
      ≡ record { gap = 0; block = 0 } ∷ record { gap = n - m - 1; block = 0 } ∷ []
unfolding merged_blocks
blocks_lem n m lt small =
    let d : sub64 n m ≡ n - m = omega arith in
    let apart : (sub64 n m == 1) ≡ false = ground arith in
    let g : sub64 (n - m) 1 ≡ n - m - 1 = omega arith in rw (merged_blocks, apart, d, g) refl

-- Two ACK frames of one packet number each, n and m, that are not next to each other: the frame
-- that they are merged into acknowledges n and m - 1, which neither of the two does, and not m.
pub merge_ack_frames-acked :
    (n m : ℕ)
    → 0 < m
    → m + 1 < n
    → n < 2 ^ 64
    → (f : AckFrame) × (merge_ack_frames (ack_of n ∷ ack_of m ∷ []) ≡ done f)
      × (acked f ≡ n ∷ (m - 1) ∷ [])
unfolding merge_ack_frames acked acked_runs run_down
merge_ack_frames-acked n m pos lt small =
    let below : m < n = omega (arith, lt) in
    (
      merged_two n m,
      rw (numbers_lem n m below, largest_lem n m below, blocks_lem n m lt small) refl,
      ap (λ (k : ℕ). n ∷ k ∷ []) (omega (arith, pos, lt)),
    )
