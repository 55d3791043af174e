-- ===== src/Recovery.antt =====
-- agents/recovery_agent.go: the retransmission buffers and ProcessAck.
pub mod Acked
pub mod Agent
pub mod Retransmit
use quic_tracker.Base.{
  ℕ, zero, suc, ◌+◌, ◌-◌, ◌%◌, ◌^◌, ◌<◌, ◌≤◌, ◌≡◌, List, [], ◌∷◌, ◌++◌, ltb, ◌==◌, Bool, true,
  false, if◌then◌else◌, Option, none, some, Outcome, done, panic,
}
use quic_tracker.Frame.{Frame, AckFrame, AckBlock}
use quic_tracker.Ack.{sub64}
use quic_tracker.Packet.{Kind, get_retransmittable_frames}

-- `RetransmittableFrames`; the time and the level are numbers.
pub record RetransmittableFrames : Type 0 where
  pub frames : List Frame
  pub timestamp : ℕ
  pub level : ℕ

-- `map[PacketNumber]RetransmittableFrames`
abbrev pub Buffer : Type 0
Buffer = List (ℕ × RetransmittableFrames)

unfoldable pub delete : ℕ → Buffer → Buffer
delete n [] = []
delete n ((m, f) ∷ rest) = let kept = delete n rest in if m == n then kept else (m, f) ∷ kept

unfoldable pub find : ℕ → Buffer → Option RetransmittableFrames
find n [] = none
find n ((m, f) ∷ rest) = if m == n then some f else find n rest

-- Assignment to a key of the map.
unfoldable pub assign : ℕ → RetransmittableFrames → Buffer → Buffer
assign n f buffer = (n, f) ∷ delete n buffer

-- An outgoing packet with something to retransmit is kept under its number.
unfoldable pub outgoing_packet : ℕ → ℕ → Kind → ℕ → List Frame → Buffer → Buffer
outgoing_packet now level kind number sent buffer = elim (get_retransmittable_frames kind sent) [
  | [] ↦ buffer
  | f ∷ fs ↦ assign number (record { frames = f ∷ fs; timestamp = now; level = level }) buffer
]

abbrev threshold : ℕ
threshold = 1000

-- `i < n && i < threshold` for i from 0
abbrev rounds_below : ℕ → ℕ
rounds_below n = if ltb n threshold then n else threshold

-- The loops' variables: `frames`, `currentPacketNumber` and `buffer`.
pub record Progress : Type 0 where
  pub batch : List RetransmittableFrames
  pub current : ℕ
  pub buffer : Buffer

abbrev step_down : Progress → Progress
step_down p = record p { current = sub64 p.current 1; buffer = delete (sub64 p.current 1) p.buffer }

abbrev found : Option RetransmittableFrames → Progress → Progress
found none p = p
found (some f) p = record p { batch = p.batch ++ f ∷ [] }

-- A round in an acknowledged block.
unfoldable pub acked_rounds : ℕ → Progress → Progress
unfolding delete
acked_rounds zero p = p
acked_rounds (suc n) p = acked_rounds n (step_down p)

-- A round in a gap.
unfoldable pub gap_rounds : ℕ → Progress → Progress
unfolding delete find
gap_rounds zero p = p
gap_rounds (suc n) p = gap_rounds n (step_down (found (find p.current p.buffer) p))

unfoldable pub process_blocks : List AckBlock → Progress → Progress
process_blocks [] p = p
process_blocks (b ∷ rest) p =
    process_blocks rest
      (acked_rounds (rounds_below b.block) (gap_rounds (rounds_below (b.gap + 1)) p))

-- It panics on a frame with no block.
unfoldable pub process_ack : AckFrame → Buffer → Outcome (List RetransmittableFrames × Buffer)
process_ack f buffer = elim f.ack_blocks [
  | [] ↦ panic
  | b ∷ rest ↦
      let start : Progress = record {
        batch = [];
        current = f.largest_acknowledged;
        buffer = delete f.largest_acknowledged buffer;
      } in
      let end = process_blocks rest (acked_rounds (rounds_below b.block) start) in
      done (end.batch, end.buffer)
]

-- The ticker: what was sent longer than `timer` ago is taken out and sent again. The map is ranged
-- over in any order, here that of the list.
unfoldable pub expired : ℕ → ℕ → Buffer → List RetransmittableFrames × Buffer
expired now timer [] = ([], [])
expired now timer ((n, f) ∷ rest) =
    let (batch, kept) = expired now timer rest in
    if ltb timer (now - f.timestamp) then (f ∷ batch, kept) else (batch, (n, f) ∷ kept)
