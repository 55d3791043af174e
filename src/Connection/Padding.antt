-- ===== src/Connection/Padding.antt =====
-- connection.go: the padding of GetInitialPacket, and the datagram that SendPacket makes of it.
use quic_tracker.Base.{
  ℕ, zero, suc, ◌+◌, ◌-◌, ◌^◌, ◌≤◌, ◌<◌, ◌≡◌, refl, ap, sym, append_assoc, ◌==◌, false, leb,
  Bool-cases, inr, inl, List, [], ◌∷◌, ◌++◌, Bytes, length, length-append, length-replicate,
  replicate, append-nil, All-append, done, arith,
}
use quic_tracker.VarInt.{max_var_int8, max_var_int1, max_var_int2, max_var_int4}
use quic_tracker.VarInt.RoundTrip.{
  encoding, encoding_len, encoding_len-le, length-encoding, var_int_len-encoding_len,
}
use quic_tracker.Frame.{Frame, crypto, padding}
use quic_tracker.Frame.Wire.{wire}
use quic_tracker.Crypto.{Aead}
use quic_tracker.Header.{LongHeader, long, header_length, encode_long}
use quic_tracker.Header
use quic_tracker.Header.Methods.{encode}
use quic_tracker.Header.Wire.{
  small, IsWritableHeader, header_bytes, encode_long-header_bytes, header_length-length,
}
use quic_tracker.Packet.{initial, encode_payload}
use quic_tracker.Packet.Make.{FramePacket}
use quic_tracker.Packet.Payload.{wire_all, IsPayload, encode_payload-wire_all}
use quic_tracker.Header.Masked.{before_number, header_bytes-before_number}
use quic_tracker.Protection.{number_mask}
use quic_tracker.Protection.Mask.{masked_bytes, mask_of, AreBytes, MakesMasks, length-xor_with}
use quic_tracker.Connection.Send.{seal}
use quic_tracker.Connection.Sealed.{
  IsAead, IsSendable, lengthened, full, sealed_length, sealed, tail, datagram, seal-datagram,
}
use quic_tracker.Connection.Initial.{padding_length, padded}

-- The length field takes its place in the length of the header.
header_length-lengthened :
    (h : LongHeader) (m n : ℕ)
    → header_length (lengthened h m) + encoding_len n
      ≡ header_length (lengthened h n) + encoding_len m
unfolding header_length
header_length-lengthened h m n = omega arith

encode_long-lengthened :
    (h : LongHeader) → h.payload_length.value ≡ 0 → encode_long h ≡ encode_long (lengthened h 0)
unfolding encode_long
encode_long-lengthened h e = rw e refl

encoding_len_mono : (m n : ℕ) → m ≤ n → encoding_len m ≤ encoding_len n
unfolding encoding_len
encoding_len_mono m n le = ground arith

encoding_len-pos : (i : ℕ) → 1 ≤ encoding_len i
unfolding encoding_len
encoding_len-pos i = ground arith

encoding_len-zero : encoding_len 0 ≡ 1
unfolding encoding_len
encoding_len-zero = refl

-- A header that can be written can be written with any length.
relengthened :
    (h : LongHeader) (m n : ℕ)
    → n ≤ max_var_int8
    → IsWritableHeader (lengthened h m)
    → IsWritableHeader (lengthened h n)
relengthened h m n le v = record {
  kind = v.kind;
  version_fits = v.version_fits;
  destination = v.destination;
  source = v.source;
  token_fits = v.token_fits;
  token_encoded = v.token_encoded;
  payload_encoded = (le, sym (length-encoding n));
  number_length = v.number_length;
  number_fits = v.number_fits;
}

wire_all-append : (fs gs : List Frame) → wire_all (fs ++ gs) ≡ wire_all fs ++ wire_all gs
wire_all-append [] gs = refl
wire_all-append (f ∷ fs) gs =
    rw (wire_all-append fs gs) (sym (append_assoc (wire f []) (wire_all fs) (wire_all gs)))

wire_all-padding : (n : ℕ) → wire_all (replicate n padding) ≡ replicate n 0
unfolding wire
wire_all-padding zero = refl
wire_all-padding (suc n) = ap (◌∷◌ 0) (wire_all-padding n)

padding-IsPayload : (n : ℕ) → IsPayload (replicate n padding)
padding-IsPayload zero = tt
padding-IsPayload (suc n) = (tt, tt, padding-IsPayload n)

zeros-AreBytes : (n : ℕ) → AreBytes (replicate n 0)
zeros-AreBytes zero = tt
zeros-AreBytes (suc n) = (omega arith, zeros-AreBytes n)

encoding-AreBytes : (i : ℕ) → i ≤ max_var_int8 → AreBytes (encoding i)
unfolding encoding
encoding-AreBytes i le = elim (Bool-cases (leb i max_var_int1)) [
  | inl e ↦ rw e (ground (arith, e), tt)
  | inr e ↦ elim (Bool-cases (leb i max_var_int2)) [
    | inl e' ↦ rw (e, e') (ground (arith, e'), (omega arith, tt))
    | inr e' ↦ elim (Bool-cases (leb i max_var_int4)) [
      | inl e'' ↦
          rw (e, e', e'') (ground (arith, e''), (omega arith, (omega arith, (omega arith, tt))))
      | inr e'' ↦
          rw (e, e', e'')
            (
              omega (arith, le),
              (
                omega arith,
                (
                  omega arith,
                  (omega arith, (omega arith, (omega arith, (omega arith, (omega arith, tt))))),
                ),
              ),
            )
    ]
  ]
]

-- The bytes of a CRYPTO frame.
abbrev crypto_wire : ℕ → Bytes → Bytes
crypto_wire o d = wire (crypto o (length d) d) []

crypto_wire-AreBytes :
    (o : ℕ) (d : Bytes)
    → o ≤ max_var_int8
    → length d ≤ max_var_int8
    → AreBytes d
    → AreBytes (crypto_wire o d)
unfolding wire
crypto_wire-AreBytes o d lo ld h = (
  omega arith,
  All-append (λ b. b < 256) (encoding o) (encoding (length d) ++ (d ++ [])) (encoding-AreBytes o lo)
      (All-append (λ b. b < 256) (encoding (length d)) (d ++ []) (encoding-AreBytes (length d) ld)
        (All-append (λ b. b < 256) d [] h tt)),
)

length-crypto_wire :
    (o : ℕ) (d : Bytes)
    → (3 ≤ length (crypto_wire o d)) × (length (crypto_wire o d) ≤ 17 + length d)
unfolding wire
length-crypto_wire o d =
    let whole : length (crypto_wire o d)
        ≡ 1 + (encoding_len o + (encoding_len (length d) + length d)) =
      omega (
        arith,
        length-append (encoding o) (encoding (length d) ++ (d ++ [])),
        length-append (encoding (length d)) (d ++ []),
        length-append d [],
        length-encoding o,
        length-encoding (length d),
      ) in
    (
      omega (arith, whole, encoding_len-pos o, encoding_len-pos (length d)),
      omega (arith, whole, encoding_len-le o, encoding_len-le (length d)),
    )

-- What GetInitialPacket hands to SendPacket: the frame with the first message, the header before its
-- length is set, and what other libraries and the application choose, within wide bounds.
pub record IsFirst (aead : Aead) (cipher : Bytes → Bytes) (minimum : ℕ) (h : LongHeader) (o : ℕ)
    (d : Bytes) : Type 0 where
  pub aead_ok : IsAead aead
  pub cipher_ok : MakesMasks cipher
  pub small_minimum : minimum ≤ 2 ^ 16
  pub tagged : (16 ≤ aead.overhead) × (aead.overhead ≤ 2 ^ 16)
  pub is_initial : h.packet_type ≡ Header.initial
  pub versioned : (h.version == 0) ≡ false
  pub no_length : h.payload_length.value ≡ 0
  pub writable : IsWritableHeader (lengthened h 0)
  pub offset_fits : o ≤ max_var_int8
  pub message : (length d ≤ 2 ^ 16) × AreBytes d

module _ (aead : Aead) (cipher : Bytes → Bytes) (minimum : ℕ) (h : LongHeader) (o : ℕ) (d : Bytes)
    (ok : IsFirst aead cipher minimum h o d) where
  abbrev f : Frame
  f = crypto o (length d) d

  -- The number of PADDING frames.
  count : ℕ
  count =
      minimum
      - (header_length (lengthened h 0)
          + encoding_len (length (crypto_wire o d))
          + length (crypto_wire o d)
          + aead.overhead)

  abbrev frames : List Frame
  frames = (f ∷ []) ++ replicate count padding

  wire_frames : wire_all frames ≡ crypto_wire o d ++ replicate count 0
  wire_frames = rw (wire_all-padding count) refl

  length-wire_frames : length (wire_all frames) ≡ length (crypto_wire o d) + count
  length-wire_frames = rw wire_frames (
      omega (
        arith,
        length-append (crypto_wire o d) (replicate count 0),
        length-replicate {A = ℕ} count 0,
      ))

  count-le : count ≤ 2 ^ 16
  unfolding count
  count-le = omega (arith, ok.small_minimum)

  total-le : sealed_length aead h frames ≤ max_var_int8
  total-le = omega (
    arith,
    length-wire_frames,
    count-le,
    (length-crypto_wire o d).1,
    ok.message.0,
    ok.tagged.1,
    (small h.truncated_pn.length ok.writable.number_length).1,
  )

  frames-IsSendable : IsSendable aead initial h frames
  frames-IsSendable = record {
    kind = inl (refl, ok.is_initial);
    payload = ((ok.offset_fits, refl, omega (arith, ok.message.0)), tt, padding-IsPayload count);
    payload_bytes = rw wire_frames (
        All-append (λ b. b < 256) (crypto_wire o d) (replicate count 0)
          (crypto_wire-AreBytes o d ok.offset_fits (omega (arith, ok.message.0)) ok.message.1)
          (zeros-AreBytes count));
    header = relengthened h 0 (sealed_length aead h frames) total-le ok.writable;
    fits = total-le;
    room = omega (
      arith,
      length-wire_frames,
      (length-crypto_wire o d).0,
      ok.tagged.0,
      (small h.truncated_pn.length ok.writable.number_length).0,
    );
    versioned = ok.versioned;
  }

  padded-frames :
      padded minimum (record { kind = initial; header = long h; frames = f ∷ [] }) aead.overhead
      ≡ done (record { kind = initial; header = long h; frames = frames })
  unfolding padded padding_length encode count
  padded-frames =
      let payload : encode_payload (f ∷ []) ≡ done (crypto_wire o d) =
        rw (append-nil (crypto_wire o d)) at (
          encode_payload-wire_all (f ∷ [])
            ((ok.offset_fits, refl, omega (arith, ok.message.0)), tt, tt)) in
      let n =
        var_int_len-encoding_len (length (crypto_wire o d))
          (omega (arith, (length-crypto_wire o d).1, ok.message.0)) in
      rw
        (
          payload,
          encode_long-lengthened h ok.no_length,
          encode_long-header_bytes (lengthened h 0) ok.writable,
          n,
          ← header_length-length (lengthened h 0) ok.writable,
        )
        refl

  long_enough : minimum ≤ length (datagram aead cipher h frames) + 1
  unfolding count
  long_enough = omega (
    arith,
    length-wire_frames,
    ok.aead_ok.grows (wire_all frames) (header_bytes (full aead h frames)) h.packet_number,
    ap length (header_bytes-before_number (full aead h frames) (sealed aead h frames)),
    length-append (header_bytes (full aead h frames)) (sealed aead h frames),
    length-append (before_number (full aead h frames)) (tail aead h frames),
    length-append (before_number (full aead h frames))
        (masked_bytes cipher h.truncated_pn.length (tail aead h frames)),
    length-xor_with (number_mask h.truncated_pn.length (mask_of cipher (tail aead h frames)))
        (tail aead h frames),
    header_length-length (full aead h frames)
        (relengthened h 0 (sealed_length aead h frames) total-le ok.writable),
    header_length-lengthened h 0 (sealed_length aead h frames),
    encoding_len_mono (length (crypto_wire o d)) (sealed_length aead h frames)
        (omega (arith, length-wire_frames)),
    encoding_len-zero,
  )

-- The first packet of a connection: its header has no length yet, its one frame holds the first
-- message of TLS, of 2 ^ 16 bytes at most, and the AEAD adds 16 bytes or more. GetInitialPacket pads
-- the packet, and SendPacket writes it, both without a panic, in a datagram that is at most one byte
-- shorter than the minimum asked for.
pub seal-padded :
    (aead : Aead) (cipher : Bytes → Bytes) (minimum : ℕ) (h : LongHeader) (o : ℕ) (d : Bytes)
    → IsFirst aead cipher minimum h o d
    → (q : FramePacket) × (dg : Bytes) × (sent : FramePacket) × (padded minimum
          (record { kind = initial; header = long h; frames = crypto o (length d) d ∷ [] })
          aead.overhead
        ≡ done q)
      × (seal aead cipher q ≡ done (dg, sent))
      × (minimum ≤ length dg + 1)
seal-padded aead cipher minimum h o d ok =
    let fs = frames aead cipher minimum h o d ok in
    (
      record { kind = initial; header = long h; frames = fs },
      datagram aead cipher h fs,
      record { kind = initial; header = long (full aead h fs); frames = fs },
      padded-frames aead cipher minimum h o d ok,
      seal-datagram aead cipher initial h fs ok.aead_ok ok.cipher_ok
          (frames-IsSendable aead cipher minimum h o d ok),
      long_enough aead cipher minimum h o d ok,
    )
