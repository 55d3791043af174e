-- ===== src/Header/Methods.antt =====
-- headers.go: the methods that both forms of header have; crypto.go: packetTypeToEncryptionLevel.
use quic_tracker.Base.{ℕ, ◌+◌, ◌==◌, if◌then◌else◌, Bytes, length, Outcome, done}
use quic_tracker.Level.{Level, level_none, level_initial, level_0rtt, level_handshake, level_1rtt}
use quic_tracker.PacketNumber.{TruncatedPn}
use quic_tracker.Header.{Header, long, short, encode_long, encode_short, header_length}
use quic_tracker.Header

abbrev pub short_header_packet : ℕ
short_header_packet = 0xff

abbrev pub packet_type : Header → ℕ
packet_type (long h) = h.packet_type
packet_type (short h) = short_header_packet

abbrev pub packet_number : Header → ℕ
packet_number (long h) = h.packet_number
packet_number (short h) = h.packet_number

abbrev pub truncated_pn : Header → TruncatedPn
truncated_pn (long h) = h.truncated_pn
truncated_pn (short h) = h.truncated_pn

unfoldable pub encode : Header → Outcome Bytes
encode (long h) = encode_long h
encode (short h) = done (encode_short h)

unfoldable pub length_of : Header → ℕ
length_of (long h) = header_length h
length_of (short h) = 1 + length h.destination_cid + h.truncated_pn.length

-- A type that the map does not hold gives its zero value.
abbrev pub level_of : ℕ → Level
level_of t =
    if t == Header.initial
    then level_initial
    else if t == Header.handshake
    then level_handshake
    else if t == Header.zero_rtt_protected
    then level_0rtt
    else if t == short_header_packet
    then level_1rtt
    else level_none
