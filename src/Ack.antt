-- ===== src/Ack.antt =====
-- connection.go: GetAckFrame; frames.go: GetAckedPackets. Packet numbers are uint64.
pub mod Sort
pub mod Correct
pub mod Covered
pub mod Duplicates
use quic_tracker.Base.{
  ℕ, zero, suc, ◌+◌, ◌-◌, ◌%◌, ◌^◌, Bool, true, false, List, [], ◌∷◌, ◌++◌, length, ltb, ◌==◌,
  if◌then◌else◌, Option, none, some, Outcome, done, panic,
}
use quic_tracker.Frame.{AckFrame, AckBlock}
use Sort.{sort}

abbrev pub sub64 : ℕ → ℕ → ℕ
sub64 a b = (a + 2 ^ 64 - b) % 2 ^ 64

-- The loop of GetAckFrame over the numbers after the first; `block` is `ackBlock`.
unfoldable pub blocks_from : ℕ → AckBlock → List ℕ → List AckBlock
blocks_from previous block [] = block ∷ []
blocks_from previous block (number ∷ rest) = elim (sub64 previous number == 1) [
  | true ↦ blocks_from number (record block { block = block.block + 1 }) rest
  | false ↦
      block ∷ blocks_from number (record { gap = sub64 (sub64 previous number) 2; block = 0 }) rest
]

unfoldable pub ack_frame_of : List ℕ → Option AckFrame
ack_frame_of [] = none
ack_frame_of (first ∷ rest) =
    let blocks = blocks_from first (record { gap = 0; block = 0 }) rest in
    some (record {
      largest_acknowledged = first;
      ack_delay = 0;
      ack_block_count = length blocks - 1;
      ack_blocks = blocks;
    })

-- `GetAckFrame` sorts the queue where it stands; the second component is the queue after it.
unfoldable pub get_ack_frame : List ℕ → Option AckFrame × List ℕ
unfolding ack_frame_of
get_ack_frame queue = let sorted = sort queue in (ack_frame_of sorted, sorted)

-- n rounds of `currentPacketNumber--; packets = append(packets, currentPacketNumber)`
unfoldable pub count_down : ℕ → ℕ → List ℕ
count_down current zero = []
count_down current (suc n) = sub64 current 1 ∷ count_down (sub64 current 1) n

abbrev after_rounds : ℕ → ℕ → ℕ
after_rounds current n = sub64 current (n % 2 ^ 64)

-- The loop over the blocks after the first.
unfoldable pub acked_in_blocks : ℕ → List AckBlock → List ℕ
acked_in_blocks current [] = []
acked_in_blocks current (b ∷ rest) =
    let skipped = after_rounds current (b.gap + 1) in
    count_down current (b.gap + 1)
    ++ (count_down skipped b.block ++ acked_in_blocks (after_rounds skipped b.block) rest)

-- It panics on a frame with no block.
unfoldable pub get_acked_packets : AckFrame → Outcome (List ℕ)
unfolding count_down acked_in_blocks
get_acked_packets f = elim f.ack_blocks [
  | [] ↦ panic
  | b ∷ rest ↦ done (
      f.largest_acknowledged
      ∷ (count_down f.largest_acknowledged b.block
          ++ acked_in_blocks (after_rounds f.largest_acknowledged b.block) rest))
]
