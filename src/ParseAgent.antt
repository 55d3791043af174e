-- ===== src/ParseAgent.antt =====
-- agents/parse_agent.go: a datagram is taken apart into packets, which are decrypted and read. The
-- handler of received packets and the log are left out.
pub mod Ends
pub mod Opened
pub mod RoundTrip
use quic_tracker.Base.{
  ℕ, zero, suc, ◌+◌, ◌-◌, ◌==◌, ltb, if◌then◌else◌, Bool, true, false, ◌||◌, List, [], ◌∷◌, ◌++◌,
  Bytes, length, take, drop, Option, none, some, Outcome, done, panic,
}
use quic_tracker.Base.Outcomes.{◌>>=◌}
use quic_tracker.Level.{Level}
use quic_tracker.Crypto.{Aead, CryptoState}
use quic_tracker.Header.{Header, LongHeader, long, short, read_header}
use quic_tracker.Header
use quic_tracker.Header.Methods.{
  packet_type, packet_number, length_of, level_of, short_header_packet,
}
use quic_tracker.Packet.{Kind, initial, handshake, protected, pn_space}
use quic_tracker.Packet.Make.{FramePacket}
use quic_tracker.Packet.Negotiation.{read_version_negotiation}
use quic_tracker.Packet.Retry.{read_retry_packet}
use quic_tracker.Packet.Incoming.{Packet, framed, retried, negotiated, Receiver, read_frame_packet}
use quic_tracker.Protection.{number_offset, unprotect}
use quic_tracker.Recovery.Agent.{set_space}

-- What was submitted to IncomingPackets and to UnprocessedPayloads is kept in lists.
pub record Agent : Type 0 where
  pub receiver : Receiver
  pub crypto_states : Level → Option CryptoState
  pub incoming_packets : List Packet
  pub unprocessed_payloads : List (Level × Bytes)

-- What a round leaves of the datagram; `none` when it breaks out of the loop.
abbrev pub Round : Type 0
Round = Option Bytes × Agent

abbrev pub submit : Packet → Agent → Agent
submit p s = record s { incoming_packets = s.incoming_packets ++ (p ∷ []) }

abbrev pub larger : ℕ → ℕ → ℕ
larger old n = if ltb old n then n else old

-- The largest packet number of the space is updated.
abbrev pub note_number : FramePacket → Receiver → Receiver
note_number p r =
    let space = pn_space p.kind in
    record r {
      largest_pns_received =
          set_space space (larger (r.largest_pns_received space) (packet_number p.header))
            r.largest_pns_received;
    }

abbrev pub receive : Agent → FramePacket × Receiver → Agent
receive s (p, r) = submit (framed p) (record s { receiver = note_number p r })

-- A payload that is decrypted is read behind its header.
unfoldable pub read_cleartext : Kind → Bytes → Bytes → Option Bytes → Agent → Outcome Round
read_cleartext k header rest none s = done (none, s)
read_cleartext k header rest (some payload) s = do
  r ← read_frame_packet k s.receiver (header ++ payload)
  done (some rest, receive s r)

-- `total` is `hLen + pLen`. A payload length below that of the packet number, which counts to it,
-- makes the bounds of the slice cross.
unfoldable pub open_long : Aead → Kind → LongHeader → Bytes → Agent → Outcome Round
unfolding read_cleartext
open_long aead k h bs s =
    let n = length_of (long h) in
    let total = n + h.payload_length.value - h.truncated_pn.length in
    if ltb (length bs) total
    then done (none, s)
    else if ltb h.payload_length.value h.truncated_pn.length
    then panic
    else read_cleartext k (take n bs) (drop total bs)
        (aead.decrypt (take (total - n) (drop n bs)) h.packet_number (take n bs)) s

-- A header that is longer than the packet makes the bounds of the slice cross.
unfoldable pub open_short : Aead → Header → Bytes → Agent → Outcome Round
unfolding read_cleartext
open_short aead h bs s =
    let n = length_of h in
    if ltb (length bs) n
    then panic
    else read_cleartext protected (take n bs) []
        (aead.decrypt (drop n bs) (packet_number h) (take n bs)) s

unfoldable pub open_retry : Bytes → Agent → Outcome Round
open_retry bs s = do
  (p, rest) ← read_retry_packet s.receiver.largest_pns_received bs
  done (some [], submit (retried p) s)

-- The second switch. Only the types whose packet numbers are masked use the keys; `none` is a nil
-- pointer.
unfoldable pub open_packet : Option Aead → Header → Bytes → Agent → Outcome Round
unfolding open_long open_short open_retry
open_packet aead (long h) bs s = elim aead [
  | some a ↦
      if h.packet_type == Header.initial
      then open_long a initial h bs s
      else if h.packet_type == Header.handshake
      then open_long a handshake h bs s
      else if h.packet_type == Header.retry
      then open_retry bs s
      else done (none, s)
  | none ↦
      if (h.packet_type == Header.initial) || (h.packet_type == Header.handshake)
      then panic
      else if h.packet_type == Header.retry
      then open_retry bs s
      else done (none, s)
]
open_packet aead (short h) bs s = elim aead [ some a ↦ open_short a (short h) bs s | none ↦ panic ]

-- The first switch, with the keys that are there.
unfoldable pub open_protected :
    Option Aead → Option (Bytes → Bytes) → Header → Bytes → Agent → Outcome Round
unfolding open_packet
open_protected (some aead) (some cipher) h bs s = do
  clear ← unprotect cipher (number_offset h) bs
  (h', rest) ← read_header s.receiver.source_cid_length s.receiver.largest_pns_received clear
  open_packet (some aead) h' clear s
open_protected _ _ h bs s = done (
  none,
  record s {
    unprocessed_payloads = s.unprocessed_payloads ++ ((level_of (packet_type h), bs) ∷ []);
  },
)

abbrev pub read_keys : Option CryptoState → Option Aead × Option (Bytes → Bytes)
read_keys (some c) = (c.read, c.header_read)
read_keys none = (none, none)

abbrev pub is_masked_type : ℕ → Bool
is_masked_type t =
    (t == Header.initial)
    || (t == Header.handshake)
    || (t == Header.zero_rtt_protected)
    || (t == short_header_packet)

abbrev pub is_negotiation : Header → Bool
is_negotiation (long h) = h.version == 0
is_negotiation (short h) = false

unfoldable pub open_negotiation : Bytes → Agent → Outcome Round
open_negotiation bs s = do
  (p, rest) ← read_version_negotiation bs
  done (none, submit (negotiated p) s)

-- One round of the loop, with its header read.
unfoldable pub open_with : Header → Bytes → Agent → Outcome Round
unfolding open_negotiation open_protected open_packet
open_with h bs s =
    let keys = read_keys (s.crypto_states (level_of (packet_type h))) in
    if is_negotiation h
    then open_negotiation bs s
    else if is_masked_type (packet_type h)
    then open_protected keys.0 keys.1 h bs s
    else open_packet keys.0 h bs s

unfoldable pub round : Bytes → Agent → Outcome Round
unfolding open_with
round bs s = do
  (h, rest) ← read_header s.receiver.source_cid_length s.receiver.largest_pns_received bs
  open_with h bs s

-- What comes after a round, where `go` does the rounds that follow.
unfoldable pub after_round :
    (Bytes → Agent → Option (Outcome Agent)) → Outcome Round → Option (Outcome Agent)
after_round go panic = some panic
after_round go (done (none, s)) = some (done s)
after_round go (done (some rest, s)) = go rest s

-- `for off < len(udpPayload)`; `none` when the fuel is used up.
unfoldable pub parse_from : ℕ → Bytes → Agent → Option (Outcome Agent)
unfolding round after_round
parse_from n [] s = some (done s)
parse_from zero (b ∷ bs) s = none
parse_from (suc n) (b ∷ bs) s = after_round (parse_from n) (round (b ∷ bs) s)

-- A round that goes on takes a byte or more.
unfoldable pub parse_datagram : Bytes → Agent → Option (Outcome Agent)
unfolding parse_from
parse_datagram bs s = parse_from (length bs) bs s
