-- ===== src/Connection/Sealed.antt =====
-- connection.go: SendPacket: the datagram of a packet with a long header.
use quic_tracker.Base.{
  ℕ, ◌+◌, ◌-◌, ◌*◌, ◌≤◌, ◌<◌, ◌≡◌, refl, ◌==◌, not, true, false, inl, inr, List, ◌∷◌, ◌++◌, Bytes,
  length, length-append, All-append, some, done, arith,
}
use quic_tracker.Frame.{Frame}
use quic_tracker.VarInt.{max_var_int8}
use quic_tracker.VarInt.RoundTrip.{encoding_len, var_int_len-encoding_len}
use quic_tracker.VarInt.Value.{new_var_int}
use quic_tracker.PacketNumber.{
  TruncatedPn, encode, uint16_to_be_bytes, uint24_to_be_bytes, uint32_to_be_bytes,
}
use quic_tracker.Crypto.{Aead}
use quic_tracker.Header.{LongHeader, long, type_byte}
use quic_tracker.Header.Methods.{packet_type, level_of}
use quic_tracker.Header.Methods
use quic_tracker.Header.Wire.{
  header_bytes, IsWritableHeader, IsTruncated, encode_long-header_bytes, type_byte_lem, small,
  length-encode,
}
use quic_tracker.Header.Masked.{
  before_number, header_bytes-before_number, number_offset-before_number,
}
use quic_tracker.Packet.{Kind}
use quic_tracker.Packet.Payload.{wire_all, IsPayload, encode_payload-wire_all}
use quic_tracker.Protection.{number_offset, protect}
use quic_tracker.Protection.Mask.{AreBytes, MakesMasks, masked_byte, masked_bytes, protect-masked}
use quic_tracker.Connection.Send.{with_length, seal}
use quic_tracker.ParseAgent.Opened.{IsLongKind}

-- What the documentation of the AEAD says of it: what is encrypted is decrypted, and is longer by
-- the overhead.
pub record IsAead (aead : Aead) : Type 0 where
  pub opens : (p h : Bytes) (n : ℕ) → aead.decrypt (aead.encrypt p n h) n h ≡ some p
  pub grows : (p h : Bytes) (n : ℕ) → length (aead.encrypt p n h) ≡ length p + aead.overhead
  pub makes_bytes : (p h : Bytes) (n : ℕ) → AreBytes p → AreBytes (aead.encrypt p n h)

-- The header with its length field.
abbrev pub lengthened : LongHeader → ℕ → LongHeader
lengthened h n = record h { payload_length = record { value = n; length = encoding_len n } }

abbrev pub sealed_length : Aead → LongHeader → List Frame → ℕ
sealed_length aead h fs = h.truncated_pn.length + (length (wire_all fs) + aead.overhead)

-- A packet that SendPacket can write: its payload, in bytes, and its header can be written, and it is long
-- enough for the sample to lie in it.
pub record IsSendable (aead : Aead) (k : Kind) (h : LongHeader) (fs : List Frame) : Type 0 where
  pub kind : IsLongKind k h
  pub payload : IsPayload fs
  pub payload_bytes : AreBytes (wire_all fs)
  pub header : IsWritableHeader (lengthened h (sealed_length aead h fs))
  pub fits : sealed_length aead h fs ≤ max_var_int8
  pub room : 20 ≤ sealed_length aead h fs
  pub versioned : (h.version == 0) ≡ false

new_var_int-done :
    (i : ℕ)
    → i ≤ max_var_int8
    → new_var_int i ≡ done (record { value = i; length = encoding_len i })
unfolding new_var_int
new_var_int-done i le = rw (var_int_len-encoding_len i le) refl

encode-AreBytes : (t : TruncatedPn) → IsTruncated t → AreBytes (encode t)
unfolding encode uint16_to_be_bytes uint24_to_be_bytes uint32_to_be_bytes
encode-AreBytes t (inl (inl e), h) = rw e (omega arith, tt)
encode-AreBytes t (inl (inr e), h) = rw e (omega arith, (omega arith, tt))
encode-AreBytes t (inr (inl e), h) = rw e (omega arith, (omega arith, (omega arith, tt)))
encode-AreBytes t (inr (inr e), h) =
    rw e (omega arith, (omega arith, (omega arith, (omega arith, tt))))

-- The header with the length that SendPacket computes.
abbrev pub full : Aead → LongHeader → List Frame → LongHeader
full aead h fs = lengthened h (sealed_length aead h fs)

abbrev pub sealed : Aead → LongHeader → List Frame → Bytes
sealed aead h fs = aead.encrypt (wire_all fs) h.packet_number (header_bytes (full aead h fs))

-- What stands behind the bytes up to the packet number.
abbrev pub tail : Aead → LongHeader → List Frame → Bytes
tail aead h fs = encode h.truncated_pn ++ sealed aead h fs

abbrev pub datagram : Aead → (Bytes → Bytes) → LongHeader → List Frame → Bytes
datagram aead cipher h fs =
    let g = full aead h fs in
    let bs = tail aead h fs in
    masked_byte cipher true (type_byte g) bs
    ∷ (before_number g ++ masked_bytes cipher h.truncated_pn.length bs)

module _ (aead : Aead) (cipher : Bytes → Bytes) (k : Kind) (h : LongHeader) (fs : List Frame)
    (ia : IsAead aead) (makes : MakesMasks cipher) (ok : IsSendable aead k h fs) where
  abbrev pub g : LongHeader
  g = full aead h fs

  abbrev pub bs : Bytes
  bs = tail aead h fs

  pub number_ok : IsTruncated h.truncated_pn
  number_ok = (ok.header.number_length, ok.header.number_fits)

  pub number-le : h.truncated_pn.length ≤ 4
  number-le = (small h.truncated_pn.length number_ok.0).1

  pub tail-AreBytes : AreBytes bs
  tail-AreBytes =
      All-append (λ x. x < 256) (encode h.truncated_pn) (sealed aead h fs)
        (encode-AreBytes h.truncated_pn number_ok)
        (ia.makes_bytes (wire_all fs) (header_bytes g) h.packet_number ok.payload_bytes)

  pub length-sealed : length (sealed aead h fs) ≡ length (wire_all fs) + aead.overhead
  length-sealed = ia.grows (wire_all fs) (header_bytes g) h.packet_number

  pub tail-room : 20 ≤ length bs
  tail-room = omega (
    arith,
    length-append (encode h.truncated_pn) (sealed aead h fs),
    length-encode h.truncated_pn number_ok,
    length-sealed,
    ok.room,
  )

  pub first_lem : type_byte g ≡ 192 + h.packet_type * 16 + (h.truncated_pn.length - 1)
  first_lem = type_byte_lem g ok.header.kind ok.header.number_length

  pub first-lt : type_byte g < 256
  first-lt = omega (arith, first_lem, ok.header.kind, number-le)

  pub whole : header_bytes g ++ sealed aead h fs ≡ type_byte g ∷ (before_number g ++ bs)
  whole = header_bytes-before_number g (sealed aead h fs)

  protected :
      protect cipher true
        (number_offset (long g))
        h.truncated_pn.length
        (header_bytes g ++ sealed aead h fs)
      ≡ done (datagram aead cipher h fs)
  protected =
      rw (whole, number_offset-before_number g ok.header)
        (protect-masked cipher makes true (type_byte g) h.truncated_pn.length (before_number g) bs
          first-lt tail-AreBytes number-le tail-room)

  pub seal-datagram :
      seal aead cipher (record { kind = k; header = long h; frames = fs })
      ≡ done (datagram aead cipher h fs, record { kind = k; header = long g; frames = fs })
  unfolding seal with_length Methods.encode
  seal-datagram =
      let long_mask : not (h.packet_type == 255) ≡ true = ground (arith, ok.header.kind) in
      rw
        (
          encode_payload-wire_all fs ok.payload,
          new_var_int-done (sealed_length aead h fs) ok.fits,
          encode_long-header_bytes g ok.header,
          long_mask,
          protected,
        )
        refl
