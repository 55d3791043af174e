-- ===== src/Packet/Incoming.antt =====
-- packets.go: the packets that are read; the readers of packets with frames.
use quic_tracker.Base.{ℕ, Bytes, Option, none, some, Outcome, done, panic}
use quic_tracker.Base.Outcomes.{◌>>=◌}
use quic_tracker.Stream.{Stream}
use quic_tracker.Streams.{Streams}
use quic_tracker.Header.{Header, long, read_header, read_long_header}
use quic_tracker.Packet.{PnSpace, Kind, protected, pn_space, Payload, read_payload}
use quic_tracker.Packet.Make.{FramePacket}
use quic_tracker.Packet.Negotiation.{VersionNegotiation}
use quic_tracker.Packet.Retry.{RetryPacket}
use quic_tracker.Recovery.Agent.{set_space}

pub data Packet : Type 0 where
  framed : FramePacket → Packet
  retried : RetryPacket → Packet
  negotiated : VersionNegotiation → Packet

-- The fields of the connection that the readers use.
pub record Receiver : Type 0 where
  pub source_cid_length : ℕ
  pub largest_pns_received : PnSpace → ℕ
  pub streams : Streams
  pub crypto_streams : PnSpace → Stream

-- Initial and Handshake packets have a long header; a 1-RTT packet is read with either form.
unfoldable pub read_header_of : Kind → Receiver → Bytes → Outcome (Header × Bytes)
read_header_of protected r bs = read_header r.source_cid_length r.largest_pns_received bs
read_header_of _ r bs = do
  (h, rest) ← read_long_header r.largest_pns_received bs
  done (long h, rest)

-- The fuel of the loop is never used up, so that the case of `none` is not reached.
abbrev pub payload_or_panic : Option (Outcome Payload) → Outcome Payload
payload_or_panic (some o) = o
payload_or_panic none = panic

abbrev pub with_payload : Kind → Header → Receiver → Payload → FramePacket × Receiver
with_payload k h r p = (
  record { kind = k; header = h; frames = p.0 },
  record r { streams = p.1; crypto_streams = set_space (pn_space k) p.2 r.crypto_streams },
)

-- `ReadInitialPacket`, `ReadHandshakePacket` and `ReadProtectedPacket`. There is no reader of 0-RTT
-- packets, which no caller asks for.
unfoldable pub read_frame_packet : Kind → Receiver → Bytes → Outcome (FramePacket × Receiver)
unfolding read_header_of
read_frame_packet k r bs = do
  (h, rest) ← read_header_of k r bs
  p ← payload_or_panic (read_payload r.streams (r.crypto_streams (pn_space k)) rest)
  done (with_payload k h r p)
