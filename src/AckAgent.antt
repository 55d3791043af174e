-- ===== src/AckAgent.antt =====
-- agents/ack_agent.go: the loop of Run, for the packets that hold frames. Version Negotiation and
-- Retry packets have no packet number space, and the agent does nothing with them.
pub mod Answers
pub mod Acked
use quic_tracker.Base.{
  ℕ, ◌+◌, ◌%◌, ◌^◌, Bool, true, false, List, [], ◌∷◌, ◌++◌, Bytes, length, if◌then◌else◌, Option,
  some, none, Outcome, done, panic,
}
use quic_tracker.Base.Outcomes.{◌>>=◌}
use quic_tracker.Frame.{Frame, ack, path_challenge, path_response, path_challenge_type}
use quic_tracker.Frame.Write.{◌then_write◌}
use quic_tracker.Header.{Header, long, short, encode_long, encode_short}
use quic_tracker.Level.{Level}
use quic_tracker.Ack.{get_ack_frame}
use quic_tracker.Frame.{AckFrame}
use quic_tracker.Recovery.Agent.{set_space}
use quic_tracker.Packet.{PnSpace, pn_space, get_first, should_be_acknowledged, encode_payload}
use quic_tracker.Packet.Make.{FramePacket, encryption_level}

-- The options and the counter of the agent, `conn.AckQueue`, and what was submitted to FrameQueue.
pub record Agent : Type 0 where
  pub disable_acks : PnSpace → Bool
  pub disable_path_response : Bool
  pub total_data_acked : PnSpace → ℕ
  pub ack_queue : PnSpace → List ℕ
  pub queued : List (Frame × Level)

abbrev pub packet_number : Header → ℕ
packet_number (long h) = h.packet_number
packet_number (short h) = h.packet_number

unfoldable pub encode_header : Header → Outcome Bytes
encode_header (long h) = encode_long h
encode_header (short h) = done (encode_short h)

-- `p.Encode(p.EncodePayload())`
unfoldable pub encode : FramePacket → Outcome Bytes
unfolding encode_header
encode p = encode_payload p.frames >>= λ payload.
    encode_header p.header >>= λ header. done (header ++ payload)

-- The first PATH_CHALLENGE frame of a packet is answered.
abbrev pub answer : Option Frame → Level → List (Frame × Level)
answer (some (path_challenge d)) l = (path_response d, l) ∷ []
answer _ l = []

abbrev pub answer_path : FramePacket → Agent → Agent
answer_path p s =
    let f = get_first path_challenge_type p.frames in
    record s {
      queued =
          s.queued ++ (if s.disable_path_response then [] else answer f (encryption_level p.kind));
    }

abbrev pub append_number : FramePacket → Agent → Agent
append_number p s =
    let space = pn_space p.kind in
    record s {
      ack_queue = set_space space (s.ack_queue space ++ (packet_number p.header ∷ [])) s.ack_queue;
    }

-- No frame is built from an empty queue.
abbrev pub ack_answer : Option AckFrame → Level → List (Frame × Level)
ack_answer (some f) l = (ack f, l) ∷ []
ack_answer none l = []

-- GetAckFrame sorts the queue where it stands.
unfoldable pub send_ack : FramePacket → Agent → Outcome Agent
unfolding encode
send_ack p s =
    let space = pn_space p.kind in
    let (f, sorted) = get_ack_frame (s.ack_queue space) in
    encode p >>= λ bytes. done (record s {
      queued = s.queued ++ ack_answer f (encryption_level p.kind);
      ack_queue = set_space space sorted s.ack_queue;
      total_data_acked =
          set_space space ((s.total_data_acked space + length bytes) % 2 ^ 64) s.total_data_acked;
    })

abbrev pub is_acknowledged : FramePacket → Agent → Bool
is_acknowledged p s =
    if s.disable_acks (pn_space p.kind) then false else should_be_acknowledged p.frames

unfoldable pub handle : FramePacket → Agent → Outcome Agent
unfolding send_ack
handle p s =
    let t = answer_path p (append_number p s) in
    if is_acknowledged p s then send_ack p t else done t

unfoldable pub handle_all : List FramePacket → Agent → Outcome Agent
unfolding handle
handle_all [] s = done s
handle_all (p ∷ rest) s = handle p s >>= handle_all rest
