-- ===== src/ParseAgent/RoundTrip.antt =====
-- connection.go: SendPacket; agents/parse_agent.go: the packets with a long header that the one
-- writes and the other reads.
use quic_tracker.Base.{
  ℕ, ◌+◌, ◌-◌, ◌*◌, ◌/◌, ◌≤◌, ◌<◌, ◌≡◌, refl, ap, ◌∙◌, sym, ◌==◌, true, bit_and, List, ◌∷◌, ◌++◌,
  Bytes, length, append_assoc, Option, some, done, arith,
}
use quic_tracker.Base.Bits.{xor_0f_high, bit_and_80}
use quic_tracker.Frame.{Frame}
use quic_tracker.PacketNumber.{TruncatedPn, encode, join}
use quic_tracker.Level.{Level}
use quic_tracker.Crypto.{Aead, CryptoState}
use quic_tracker.Header.{LongHeader, long, type_byte, read_header, pn_space}
use quic_tracker.Header.Methods.{level_of}
use quic_tracker.Header.Wire.{header_bytes, received, type_byte-IsTypeByte}
use quic_tracker.Header.Long.{read_header-long, read_long_header-header_bytes}
use quic_tracker.Header.Masked.{
  before_number, header_bytes-before_number, number_offset-before_number, number_offset-masked,
  read_long_header-masked, renumbered,
}
use quic_tracker.Packet.{PnSpace, Kind}
use quic_tracker.Packet.Payload.{wire_all}
use quic_tracker.Protection.{number_offset, number_mask, unprotect, first_of}
use quic_tracker.Protection.Mask.{
  AreBytes, MakesMasks, masked_byte, masked_bytes, first_mask-below, masked_bytes-AreBytes, mask_of,
  unprotect-masked, length-xor_with,
}
use quic_tracker.Connection.Send.{send_packet}
use quic_tracker.ParseAgent.{
  is_masked_type, Agent, read_keys, open_protected, open_with, open_packet, round,
}
use quic_tracker.ParseAgent.Opened.{taken, open_packet-taken}
use quic_tracker.Connection.Sealed.{
  IsAead, IsSendable, full, sealed, tail, datagram, number-le, tail-AreBytes, length-sealed,
  tail-room, first_lem, first-lt, seal-datagram,
}

module _ (aead : Aead) (cipher : Bytes → Bytes) (k : Kind) (h : LongHeader) (fs : List Frame)
    (ia : IsAead aead) (makes : MakesMasks cipher) (ok : IsSendable aead k h fs) where
  abbrev g : LongHeader
  g = full aead h fs

  abbrev bs : Bytes
  bs = tail aead h fs

  room : 20 ≤ length bs
  room = tail-room aead cipher k h fs ia makes ok

  small_tail : AreBytes bs
  small_tail = tail-AreBytes aead cipher k h fs ia makes ok

  first_type : type_byte g ≡ 192 + h.packet_type * 16 + (h.truncated_pn.length - 1)
  first_type = first_lem aead cipher k h fs ia makes ok

  below : type_byte g < 256
  below = first-lt aead cipher k h fs ia makes ok

  abbrev first : ℕ
  first = masked_byte cipher true (type_byte g) bs

  mask_below : first_of (mask_of cipher bs) < 256
  mask_below = first_mask-below cipher bs makes

  first_high : first / 16 ≡ type_byte g / 16
  first_high = xor_0f_high (first_of (mask_of cipher bs)) (type_byte g) mask_below below

  masked_first-lt : first < 256
  masked_first-lt = omega (arith, first_high, below)

  is_long_first : (b : ℕ) → b < 256 → b / 16 ≡ type_byte g / 16 → (bit_and b 0x80 == 0x80) ≡ true
  is_long_first b lt e = ground (arith, bit_and_80 b lt, first_type)

  masked_small : AreBytes (masked_bytes cipher h.truncated_pn.length bs)
  masked_small = masked_bytes-AreBytes cipher h.truncated_pn.length bs makes small_tail

  masked_room : 4 ≤ length (masked_bytes cipher h.truncated_pn.length bs)
  masked_room =
      omega
        (arith, room, length-xor_with (number_mask h.truncated_pn.length (mask_of cipher bs)) bs)

  datagram-append :
      (rest : Bytes)
      → datagram aead cipher h fs ++ rest
        ≡ first ∷ (before_number g ++ (masked_bytes cipher h.truncated_pn.length bs ++ rest))
  datagram-append rest =
      ap (◌∷◌ first)
        (append_assoc (before_number g) (masked_bytes cipher h.truncated_pn.length bs) rest)

  whole-append :
      (rest : Bytes)
      → header_bytes g ++ (sealed aead h fs ++ rest)
        ≡ type_byte g ∷ (before_number g ++ (bs ++ rest))
  whole-append rest =
      header_bytes-before_number g (sealed aead h fs ++ rest)
      ∙ ap (λ (l : Bytes). type_byte g ∷ (before_number g ++ l))
          (sym (append_assoc (encode h.truncated_pn) (sealed aead h fs) rest))

  -- The header that is read first.
  read_masked :
      (n : ℕ) (largest : PnSpace → ℕ) (rest : Bytes)
      → (t : TruncatedPn) × (low : ℕ) × (left : Bytes) × (read_header n largest
            (datagram aead cipher h fs ++ rest)
          ≡ done (long (record (received largest (renumbered g t)) { lower_bits = low }), left))
  read_masked n largest rest =
      let masked = masked_bytes cipher h.truncated_pn.length bs in
      let (t, low, left, e) =
        read_long_header-masked g largest first masked rest ok.header masked_first-lt first_high
          masked_room masked_small in
      (
        t,
        low,
        left,
        rw (datagram-append rest) (
            read_header-long n largest first (before_number g ++ (masked ++ rest))
              (is_long_first first masked_first-lt first_high) e),
      )

  unmasked :
      (n : ℕ) (rest : Bytes)
      → n ≡ number_offset (long g)
      → unprotect cipher n (datagram aead cipher h fs ++ rest)
        ≡ done (header_bytes g ++ (sealed aead h fs ++ rest))
  unmasked n rest e =
      rw (e, number_offset-before_number g ok.header, datagram-append rest, whole-append rest)
        (unprotect-masked cipher makes true (type_byte g) h.truncated_pn.length (before_number g) bs
          below small_tail (number-le aead cipher k h fs ia makes ok) room rest
          (is_long_first (type_byte g) below refl) (type_byte-IsTypeByte g ok.header).1)

  read_unmasked :
      (n : ℕ) (largest : PnSpace → ℕ) (rest : Bytes)
      → read_header n largest (header_bytes g ++ rest) ≡ done (long (received largest g), rest)
  read_unmasked n largest rest =
      let shape = header_bytes-before_number g rest in
      let e = rw shape at (read_long_header-header_bytes g largest rest ok.header) in
      rw shape (
        read_header-long n largest (type_byte g)
          (before_number g ++ (encode h.truncated_pn ++ rest))
          (is_long_first (type_byte g) below refl) e)

  payload-length : g.payload_length.value ≡ h.truncated_pn.length + length (sealed aead h fs)
  payload-length = omega (arith, length-sealed aead cipher k h fs ia makes ok)

  number_received :
      (largest : PnSpace → ℕ)
      → join h.truncated_pn (largest (pn_space h.packet_type)) ≡ h.packet_number
      → (received largest g).packet_number ≡ h.packet_number
  number_received largest e = ground (arith, ok.header.kind, e)

  opened :
      (s : Agent) (rest : Bytes)
      → join h.truncated_pn (s.receiver.largest_pns_received (pn_space h.packet_type))
        ≡ h.packet_number
      → open_packet
          (some aead)
          (long (received s.receiver.largest_pns_received g))
          (header_bytes g ++ (sealed aead h fs ++ rest))
          s
        ≡ taken k (long (received s.receiver.largest_pns_received g)) fs rest s
  opened s rest e =
      let number = number_received s.receiver.largest_pns_received e in
      open_packet-taken aead k g (sealed aead h fs) rest fs s ok.kind ok.header ok.payload
        payload-length (rw number (ia.opens (wire_all fs) (header_bytes g) h.packet_number))

  round-taken :
      (s : Agent) (rest : Bytes)
      → read_keys (s.crypto_states (level_of h.packet_type)) ≡ (some aead, some cipher)
      → join h.truncated_pn (s.receiver.largest_pns_received (pn_space h.packet_type))
        ≡ h.packet_number
      → round (datagram aead cipher h fs ++ rest) s
        ≡ taken k (long (received s.receiver.largest_pns_received g)) fs rest s
  unfolding round open_with open_protected
  round-taken s rest keys e =
      let largest = s.receiver.largest_pns_received in
      let n = s.receiver.source_cid_length in
      let (t, low, left, r) = read_masked n largest rest in
      let masked_type : is_masked_type h.packet_type ≡ true =
        ground (arith, ok.header.kind, ok.kind) in
      let u =
        unmasked
          (number_offset (long (record (received largest (renumbered g t)) { lower_bits = low })))
          rest (number_offset-masked g largest t low) in
      rw (r, ok.versioned, masked_type, keys, u, read_unmasked n largest (sealed aead h fs ++ rest))
        (opened s rest e)

-- The keys of a level write with an AEAD and a cipher.
pub record WritesWith (aead : Aead) (cipher : Bytes → Bytes) (o : Option CryptoState) : Type 0 where
  pub keys : CryptoState
  pub present : o ≡ some keys
  pub write : keys.write ≡ some aead
  pub header_write : keys.header_write ≡ some cipher

-- An AEAD that decrypts what it encrypts and a cipher that makes masks of five bytes are the keys
-- for writing of the sender and the keys for reading of the receiver. An Initial or Handshake
-- packet is given whose frames and header can be written, whose version is not 0, which is long
-- enough to be sampled, and whose packet number is the one that its truncated number and the
-- largest number received make. SendPacket writes it without a panic; and whatever follows in the
-- datagram, one round of the parsing agent's loop, which sees the masked header first, hands the
-- frames of the payload on and submits the packet with the header that was sent, updates the
-- largest number received, and goes on after the packet. The round panics only where a frame is
-- refused by its stream.
pub round-send_packet :
    (aead : Aead) (cipher : Bytes → Bytes) (k : Kind) (h : LongHeader) (fs : List Frame)
    (states : Level → Option CryptoState) (level : Level) (s : Agent) (rest : Bytes)
    → IsAead aead
    → MakesMasks cipher
    → IsSendable aead k h fs
    → WritesWith aead cipher (states level)
    → read_keys (s.crypto_states (level_of h.packet_type)) ≡ (some aead, some cipher)
    → join h.truncated_pn (s.receiver.largest_pns_received (pn_space h.packet_type))
      ≡ h.packet_number
    → (d : Bytes) × (send_packet states (record { kind = k; header = long h; frames = fs }) level
        ≡ done (d, record { kind = k; header = long (full aead h fs); frames = fs }))
      × (round (d ++ rest) s
          ≡ taken k (long (received s.receiver.largest_pns_received (full aead h fs))) fs rest s)
unfolding send_packet
round-send_packet aead cipher k h fs states level s rest ia makes ok w keys number = (
  datagram aead cipher h fs,
  rw (send_packet, w.present, w.write, w.header_write)
      (seal-datagram aead cipher k h fs ia makes ok),
  round-taken aead cipher k h fs ia makes ok s rest keys number,
)
