-- ===== src/Connection/Send.antt =====
-- connection.go: SendPacket. The connection id, the log and the handler of sent packets are left out.
use quic_tracker.Base.{
  ℕ, ◌+◌, ◌==◌, not, Bool, Bytes, ◌++◌, length, Option, none, some, Outcome, done, panic,
}
use quic_tracker.Base.Outcomes.{◌>>=◌}
use quic_tracker.VarInt.Value.{new_var_int}
use quic_tracker.Level.{Level}
use quic_tracker.Crypto.{Aead, CryptoState}
use quic_tracker.Header.{Header, long, short}
use quic_tracker.Header.Methods.{
  packet_type, packet_number, truncated_pn, encode, short_header_packet,
}
use quic_tracker.Packet.{encode_payload}
use quic_tracker.Packet.Make.{FramePacket}
use quic_tracker.Protection.{number_offset, protect}

-- The length field of a long header.
unfoldable pub with_length : ℕ → Header → Outcome Header
with_length n (long h) = do
  l ← new_var_int (h.truncated_pn.length + n)
  done (long (record h { payload_length = l }))
with_length n (short h) = done (short h)

abbrev pub has_long_mask : Header → Bool
has_long_mask h = not (packet_type h == short_header_packet)

-- The datagram that is written, and the packet with its length.
unfoldable pub seal : Aead → (Bytes → Bytes) → FramePacket → Outcome (Bytes × FramePacket)
unfolding with_length
seal aead cipher p = do
  payload ← encode_payload p.frames
  h ← with_length (length payload + aead.overhead) p.header
  header ← encode h
  datagram ←
      protect cipher (has_long_mask h) (number_offset h) (truncated_pn h).length
        (header ++ aead.encrypt payload (packet_number h) header)
  done (datagram, record p { header = h })

abbrev with_keys :
    Option Aead → Option (Bytes → Bytes) → FramePacket → Outcome (Bytes × FramePacket)
with_keys (some aead) (some cipher) p = seal aead cipher p
with_keys _ _ p = panic

-- It panics on a level without keys for writing. A packet of frames is never in the other branch
-- of the switch.
unfoldable pub send_packet :
    (Level → Option CryptoState) → FramePacket → Level → Outcome (Bytes × FramePacket)
unfolding seal
send_packet states p level = elim (states level) [
  | some c ↦ with_keys c.write c.header_write p
  | none ↦ panic
]
