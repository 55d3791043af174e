-- ===== src/ParseAgent/Opened.antt =====
-- agents/parse_agent.go: a packet that is not masked any more is decrypted and read.
use quic_tracker.Base.{
  ◌+◌, ◌-◌, ◌≡◌, refl, ◌∙◌, sym, ◌==◌, ltb, false, true, ◌⊎◌, inl, inr, List, ◌++◌, Bytes, length,
  length-append, drop, take-append, drop-append, append_assoc, some, Outcome, done, arith,
  Outcome-cases,
}
use quic_tracker.Base.Outcomes.{◌>>=◌}
use quic_tracker.Frame.{Frame}
use quic_tracker.Crypto.{Aead}
use quic_tracker.Header.{LongHeader, Header, header_length, long, short, read_long_header}
use quic_tracker.Header
use quic_tracker.Header.Methods.{length_of}
use quic_tracker.Header.Wire.{header_bytes, header_length-length, IsWritableHeader, received}
use quic_tracker.Header.Masked.{header_length-received}
use quic_tracker.Header.Long.{read_long_header-header_bytes}
use quic_tracker.Packet.{Kind, initial, handshake, pn_space}
use quic_tracker.Packet.Payload.{wire_all, IsPayload, given, read_payload-wire_all}
use quic_tracker.Packet.Incoming.{Receiver, with_payload, read_header_of, read_frame_packet}
use quic_tracker.ParseAgent.{Agent, Round, receive, read_cleartext, open_long, open_packet}

-- The two kinds of packets with a long header that the agent reads.
abbrev pub IsLongKind : Kind → LongHeader → Type 0
IsLongKind k h =
    ((k ≡ initial) × (h.packet_type ≡ Header.initial))
    ⊎ ((k ≡ handshake) × (h.packet_type ≡ Header.handshake))

open_long-sealed :
    (aead : Aead) (k : Kind) (h : LongHeader) (header sealed rest payload : Bytes) (s : Agent)
    → length_of (long h) ≡ length header
    → h.payload_length.value ≡ h.truncated_pn.length + length sealed
    → aead.decrypt sealed h.packet_number header ≡ some payload
    → open_long aead k h (header ++ (sealed ++ rest)) s
      ≡ read_cleartext k header rest (some payload) s
unfolding open_long
open_long-sealed aead k h header sealed rest payload s n v opens =
    let total : length header + h.payload_length.value - h.truncated_pn.length
        ≡ length (header ++ sealed) =
      omega (arith, v, length-append header sealed) in
    let all : header ++ (sealed ++ rest) ≡ (header ++ sealed) ++ rest =
      sym (append_assoc header sealed rest) in
    let fits : ltb (length (header ++ (sealed ++ rest))) (length (header ++ sealed)) ≡ false =
      ground (
        arith,
        length-append header (sealed ++ rest),
        length-append sealed rest,
        length-append header sealed,
      ) in
    let long_enough : ltb h.payload_length.value h.truncated_pn.length ≡ false =
      ground (arith, v) in
    let after : drop (length (header ++ sealed)) (header ++ (sealed ++ rest)) ≡ rest =
      rw all (drop-append (header ++ sealed) rest) in
    let inner : length (header ++ sealed) - length header ≡ length sealed =
      omega (arith, length-append header sealed) in
    rw
      (
        n,
        total,
        fits,
        long_enough,
        after,
        take-append header (sealed ++ rest),
        drop-append header (sealed ++ rest),
        inner,
        take-append sealed rest,
        opens,
      )
      refl

-- What a packet that is read leaves behind.
abbrev pub taken : Kind → Header → List Frame → Bytes → Agent → Outcome Round
taken k h fs rest s = given fs s.receiver.streams (s.receiver.crypto_streams (pn_space k)) >>= λ p.
    done (some rest, receive s (with_payload k h s.receiver p))

read_header_of-long :
    (k : Kind) (h : LongHeader) (r : Receiver) (rest : Bytes)
    → IsLongKind k h
    → IsWritableHeader h
    → read_header_of k r (header_bytes h ++ rest)
      ≡ done (long (received r.largest_pns_received h), rest)
unfolding read_header_of
read_header_of-long k h r rest (inl (e, t)) v =
    rw (e, read_long_header-header_bytes h r.largest_pns_received rest v) refl
read_header_of-long k h r rest (inr (e, t)) v =
    rw (e, read_long_header-header_bytes h r.largest_pns_received rest v) refl

read_frame_packet-given :
    (k : Kind) (h : Header) (fs : List Frame) (r : Receiver) (bs : Bytes)
    → read_header_of k r bs ≡ done (h, wire_all fs)
    → IsPayload fs
    → read_frame_packet k r bs
      ≡ (given fs r.streams (r.crypto_streams (pn_space k)) >>= λ p. done (with_payload k h r p))
unfolding read_frame_packet
read_frame_packet-given k h fs r bs e ok =
    rw (e, read_payload-wire_all fs r.streams (r.crypto_streams (pn_space k)) ok) refl

pub read_cleartext-taken :
    (k : Kind) (h : Header) (fs : List Frame) (header rest : Bytes) (s : Agent)
    → read_header_of k s.receiver (header ++ wire_all fs) ≡ done (h, wire_all fs)
    → IsPayload fs
    → read_cleartext k header rest (some (wire_all fs)) s ≡ taken k h fs rest s
unfolding read_cleartext
read_cleartext-taken k h fs header rest s e ok =
    let g = given fs s.receiver.streams (s.receiver.crypto_streams (pn_space k)) in
    let r = read_frame_packet-given k h fs s.receiver (header ++ wire_all fs) e ok in
    elim (Outcome-cases g) [ inl q ↦ rw (r, q) refl | inr (p, q) ↦ rw (r, q) refl ]

open_packet-open_long :
    (aead : Aead) (k : Kind) (h : LongHeader) (bs : Bytes) (s : Agent)
    → IsLongKind k h
    → open_packet (some aead) (long h) bs s ≡ open_long aead k h bs s
unfolding open_packet
open_packet-open_long aead k h bs s (inl (e, t)) =
    let test : (h.packet_type == Header.initial) ≡ true = rw t refl in rw (e, test) refl
open_packet-open_long aead k h bs s (inr (e, t)) =
    let test : (h.packet_type == Header.initial) ≡ false = rw t refl in
    let test' : (h.packet_type == Header.handshake) ≡ true = rw t refl in rw (e, test, test') refl

-- A packet with a long header whose payload the keys open.
pub open_packet-taken :
    (aead : Aead) (k : Kind) (h : LongHeader) (sealed rest : Bytes) (fs : List Frame) (s : Agent)
    → IsLongKind k h
    → IsWritableHeader h
    → IsPayload fs
    → h.payload_length.value ≡ h.truncated_pn.length + length sealed
    → aead.decrypt sealed
        (received s.receiver.largest_pns_received h).packet_number
        (header_bytes h)
      ≡ some (wire_all fs)
    → open_packet
        (some aead)
        (long (received s.receiver.largest_pns_received h))
        (header_bytes h ++ (sealed ++ rest))
        s
      ≡ taken k (long (received s.receiver.largest_pns_received h)) fs rest s
unfolding length_of
open_packet-taken aead k h sealed rest fs s kind v ok len opens =
    let r = received s.receiver.largest_pns_received h in
    let n : header_length r ≡ length (header_bytes h) =
      header_length-received h s.receiver.largest_pns_received ∙ header_length-length h v in
    let e = open_long-sealed aead k r (header_bytes h) sealed rest (wire_all fs) s n len opens in
    let e' =
      read_cleartext-taken k (long r) fs (header_bytes h) rest s
        (read_header_of-long k h s.receiver (wire_all fs) kind v) ok in
    open_packet-open_long aead k r (header_bytes h ++ (sealed ++ rest)) s kind ∙ (e ∙ e')
