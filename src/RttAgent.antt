-- ===== src/RttAgent.antt =====
-- agents/rtt_agent.go: the loop of Run and UpdateRTT. Times are in nanoseconds of a clock that does
-- not go back, and round-trip times in microseconds.
pub mod Bounds
use quic_tracker.Base.{
  ℕ, ◌+◌, ◌-◌, ◌*◌, ◌/◌, ◌%◌, ◌^◌, ◌==◌, not, ◌&&◌, ltb, Bool, true, false, if◌then◌else◌, List, [],
  ◌∷◌, ◌++◌, length, Option, none, some, Outcome, done,
}
use quic_tracker.Base.Outcomes.{◌>>=◌}
use quic_tracker.Frame.{Frame, AckFrame, ack, ack_type}
use quic_tracker.Header.Methods.{packet_number, encode}
use quic_tracker.Packet.{PnSpace, pn_space, get_all, only_contains, encode_payload}
use quic_tracker.Packet.Make.{FramePacket}
use quic_tracker.Recovery.Agent.{set_space}

pub record SentPacket : Type 0 where
  pub sent : ℕ
  pub ack_only : Bool
  pub size : ℕ

pub record Agent : Type 0 where
  pub min_rtt : ℕ
  pub latest_rtt : ℕ
  pub smoothed_rtt : ℕ
  pub rtt_var : ℕ
  pub max_ack_delay : ℕ
  pub sent_packets : PnSpace → ℕ → Option SentPacket
  pub largest_sent_packets : PnSpace → ℕ

abbrev pub new_agent : Agent
new_agent = record {
  min_rtt = 2 ^ 64 - 1;
  latest_rtt = 0;
  smoothed_rtt = 0;
  rtt_var = 0;
  max_ack_delay = 0;
  sent_packets = λ space number. none;
  largest_sent_packets = λ space. 0;
}

abbrev pub smaller : ℕ → ℕ → ℕ
smaller a b = if ltb a b then a else b

-- `LatestRTT` once the delay is taken off, where the minimum is updated already.
abbrev pub adjusted : ℕ → ℕ → ℕ → ℕ
adjusted latest least delay = if ltb delay (latest - least) then latest - delay else latest

abbrev pub difference : ℕ → ℕ → ℕ
difference a b = if ltb a b then b - a else a - b

-- The products and sums of float64 are exact below 2 ^ 50, and are rounded down.
abbrev pub new_var : ℕ → ℕ → ℕ
new_var v sample = (3 * v + sample) / 4

abbrev pub new_smoothed : ℕ → ℕ → ℕ
new_smoothed s latest = (7 * s + latest) / 8

-- What is made of the latest time; a smoothed time of 0 stands for none.
abbrev pub smoothed : Agent → Agent
smoothed a =
    if a.smoothed_rtt == 0
    then (record a { smoothed_rtt = a.latest_rtt; rtt_var = a.latest_rtt / 2 })
    else (record a {
      rtt_var = new_var a.rtt_var (difference a.smoothed_rtt a.latest_rtt);
      smoothed_rtt = new_smoothed a.smoothed_rtt a.latest_rtt;
    })

unfoldable pub update_rtt : ℕ → Bool → Agent → Agent
update_rtt delay ack_only a =
    let least = smaller a.latest_rtt a.min_rtt in
    smoothed (record a {
      min_rtt = least;
      latest_rtt = adjusted a.latest_rtt least delay;
      max_ack_delay = if not ack_only && ltb a.max_ack_delay delay then delay else a.max_ack_delay;
    })

-- A map of maps.
abbrev set_packet : PnSpace → ℕ → SentPacket → Agent → Agent
set_packet space number p a = record a {
  sent_packets =
      set_space space (λ n. if n == number then some p else a.sent_packets space n) a.sent_packets;
}

abbrev note_largest : PnSpace → ℕ → Agent → Agent
note_largest space number a = record a {
  largest_sent_packets =
      if ltb (a.largest_sent_packets space) number
      then set_space space number a.largest_sent_packets
      else a.largest_sent_packets;
}

-- The size is that of the packet without its encryption.
unfoldable pub outgoing : ℕ → FramePacket → Agent → Outcome Agent
outgoing now p a =
    let space = pn_space p.kind in
    let number = packet_number p.header in
    do
      payload ← encode_payload p.frames
      header ← encode p.header
      done (
          set_packet space number
            (record {
              sent = now;
              ack_only = only_contains ack_type p.frames;
              size = length header + length payload;
            })
            (note_largest space number a))

-- `2 << (ackDelayExponent - 1)`, where an exponent of 0 is 3; in a uint64.
abbrev ack_delay : ℕ → ℕ → ℕ
ack_delay exponent delay = delay * 2 ^ (if exponent == 0 then 3 else exponent) % 2 ^ 64

-- `exponent` is that of the parameters received, or 0.
abbrev acknowledged : ℕ → ℕ → PnSpace → Frame → Agent → Agent
acknowledged now exponent space (ack f) a = elim (a.sent_packets space f.largest_acknowledged) [
  | none ↦ a
  | some p ↦
      update_rtt (ack_delay exponent f.ack_delay) p.ack_only
        (record a { latest_rtt = (now - p.sent) / 1000 })
]
acknowledged now exponent space _ a = a

unfoldable pub acknowledge_all : ℕ → ℕ → PnSpace → List Frame → Agent → Agent
unfolding update_rtt
acknowledge_all now exponent space [] a = a
acknowledge_all now exponent space (f ∷ rest) a =
    acknowledge_all now exponent space rest (acknowledged now exponent space f a)

unfoldable pub incoming : ℕ → ℕ → FramePacket → Agent → Agent
unfolding acknowledge_all
incoming now exponent p a =
    acknowledge_all now exponent (pn_space p.kind) (get_all ack_type p.frames) a
