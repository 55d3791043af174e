-- ===== src/SendAgent/Merge.antt =====
-- agents/send_agent.go: mergeAckFrames.
use quic_tracker.Base.{
  ℕ, zero, suc, ◌+◌, ◌-◌, ◌%◌, ◌^◌, Bool, true, false, List, [], ◌∷◌, length, ltb, ◌==◌,
  if◌then◌else◌, Outcome, done, panic,
}
use quic_tracker.Frame.{AckFrame, AckBlock}
use quic_tracker.Ack.{sub64}
use quic_tracker.Ack.Sort.{sort}

unfoldable pub largest_of : ℕ → List AckFrame → ℕ
largest_of acc [] = acc
largest_of acc (f ∷ rest) =
    largest_of (if ltb acc f.largest_acknowledged then f.largest_acknowledged else acc) rest

-- A key of the map numbersAcknowledged, whose keys are kept as a list with no repetition.
unfoldable pub is_key : ℕ → List ℕ → Bool
is_key n [] = false
is_key n (m ∷ rest) = if m == n then true else is_key n rest

unfoldable pub add_number : ℕ → List ℕ → List ℕ
unfolding is_key
add_number n keys = if is_key n keys then keys else n ∷ keys

-- `for i := 0; i < b.Block; i++`, for the i from k - 1 down.
unfoldable pub add_run : ℕ → ℕ → ℕ → List ℕ → List ℕ
add_run largest offset zero keys = keys
add_run largest offset (suc i) keys =
    add_number (sub64 (sub64 largest i) offset) (add_run largest offset i keys)

-- The offset grows by `gap + 1` after every block but the first.
unfoldable pub add_blocks : ℕ → ℕ → List AckBlock → List ℕ → List ℕ
unfolding add_run
add_blocks largest offset [] keys = keys
add_blocks largest offset (b ∷ rest) keys =
    add_blocks largest ((offset + b.gap + 1) % 2 ^ 64) rest
      (add_run largest offset (b.block % 2 ^ 64) keys)

-- The blocks of one frame: the first has no gap.
unfoldable pub add_frame_numbers : AckFrame → List ℕ → List ℕ
unfolding add_blocks
add_frame_numbers f keys =
    let keys' = add_number f.largest_acknowledged keys in
    elim f.ack_blocks [
      | [] ↦ keys'
      | b ∷ rest ↦
          add_blocks f.largest_acknowledged 0 rest
            (add_run f.largest_acknowledged 0 (b.block % 2 ^ 64) keys')
    ]

unfoldable pub numbers_of : List AckFrame → List ℕ → List ℕ
unfolding add_frame_numbers
numbers_of [] keys = keys
numbers_of (f ∷ rest) keys = numbers_of rest (add_frame_numbers f keys)

-- The loop over the sorted numbers after the first.
unfoldable pub merged_blocks : ℕ → AckBlock → List ℕ → List AckBlock
merged_blocks previous block [] = block ∷ []
merged_blocks previous block (n ∷ rest) = elim (sub64 previous n == 1) [
  | true ↦ merged_blocks n (record block { block = block.block + 1 }) rest
  | false ↦ block ∷ merged_blocks n (record { gap = sub64 (sub64 previous n) 1; block = 0 }) rest
]

abbrev pub merged : ℕ → List ℕ → Outcome AckFrame
merged largest [] = panic
merged largest (first ∷ rest) =
    let blocks = merged_blocks largest (record { gap = 0; block = 0 }) rest in
    done (record {
      largest_acknowledged = largest;
      ack_delay = 0;
      ack_block_count = length blocks - 1;
      ack_blocks = blocks;
    })

-- It panics on an empty list of frames.
unfoldable pub merge_ack_frames : List AckFrame → Outcome AckFrame
unfolding largest_of numbers_of merged_blocks
merge_ack_frames fs = merged (largest_of 0 fs) (sort (numbers_of fs []))
