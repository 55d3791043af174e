-- ===== src/Header/Wire.antt =====
-- headers.go: the bytes of a long header, and ReadLongHeader on them.
use quic_tracker.Base.{
  ℕ, ◌+◌, ◌-◌, ◌*◌, ◌/◌, ◌%◌, ◌^◌, ◌≤◌, ◌<◌, ◌≡◌, inl, inr, refl, ap, ◌∙◌, sym, [], ◌∷◌, ◌++◌,
  Bytes, length, ◌==◌, bit_or, bit_and, if◌then◌else◌, arith, done, max_alloc, length-append,
  append_assoc, Bool-cases,
}
use quic_tracker.Base.Bits.{bit_and_f0, bit_and_0f, bit_and_03, bit_or_long}
use quic_tracker.Reader.{◌>>=◌, big_endian, read_full-append, make_then_read-append}
use quic_tracker.VarInt.RoundTrip.{encoding, encode_var_int-encoding}
use quic_tracker.VarInt.Value.{VarInt, IsEncoded, no_var_int, read_var_int-encoding}
use quic_tracker.PacketNumber.{
  TruncatedPn, encode, read_truncated_pn, low_bytes, uint32_to_be_bytes,
}
use quic_tracker.PacketNumber.Recovered.{IsLength, read_encoded}
use quic_tracker.Packet.{PnSpace}
use quic_tracker.Header.Cids.{IsCid, lengths, lengths_lem}
use quic_tracker.Header.{
  LongHeader, initial, type_byte, token_part, number_part, encode_long, header_length, read_token,
  read_number, joined, read_long_header,
}

-- What a header of a type other than Retry must satisfy to be written.
pub record IsWritableHeader (h : LongHeader) : Type 0 where
  pub kind : h.packet_type < 3
  pub version_fits : h.version < 2 ^ 32
  pub destination : IsCid h.destination_cid
  pub source : IsCid h.source_cid
  pub token_fits : (h.token_length.value ≡ length h.token) × (length h.token ≤ max_alloc)
  pub token_encoded : IsEncoded h.token_length
  pub payload_encoded : IsEncoded h.payload_length
  pub number_length : IsLength h.truncated_pn.length
  pub number_fits : h.truncated_pn.value < 2 ^ (8 * h.truncated_pn.length)

bit_or_type :
    (b t m : ℕ)
    → t ≡ b / 4
    → m ≡ b % 4
    → b < 16
    → bit_or (bit_or 0xc0 (t * 2 ^ 4 % 256)) m ≡ 192 + t * 16 + m
bit_or_type b t m e e' lt = rw (e, e') (bit_or_long b lt)

pub small : (n : ℕ) → IsLength n → (1 ≤ n) × (n ≤ 4)
small n l = ground arith

pub type_byte_lem :
    (h : LongHeader)
    → h.packet_type < 3
    → IsLength h.truncated_pn.length
    → type_byte h ≡ 192 + h.packet_type * 16 + (h.truncated_pn.length - 1)
type_byte_lem h lt l =
    let n = h.truncated_pn.length in
    let b = h.packet_type * 4 + (n - 1) in
    let e =
      bit_or_type b h.packet_type ((n + 256 - 1) % 256) (omega (arith, small n l, lt))
        (omega (arith, small n l, lt)) (omega (arith, small n l, lt)) in
    e ∙ omega (arith, small n l)

pub fits : (v n : ℕ) → IsLength n → v < 2 ^ (8 * n) → v % 2 ^ (8 * n) ≡ v
fits v n (inl (inl e)) h = rw e (omega (arith, rw e at h))
fits v n (inl (inr e)) h = rw e (omega (arith, rw e at h))
fits v n (inr (inl e)) h = rw e (omega (arith, rw e at h))
fits v n (inr (inr e)) h = rw e (omega (arith, rw e at h))

-- A truncated packet number of some length, whose value fits it.
abbrev pub IsTruncated : TruncatedPn → Type 0
IsTruncated t = IsLength t.length × (t.value < 2 ^ (8 * t.length))

read_truncated_pn-encode :
    (t : TruncatedPn) (rest : Bytes)
    → IsTruncated t
    → read_truncated_pn t.length (encode t ++ rest) ≡ done (t, rest)
read_truncated_pn-encode t rest (l, h) =
    let same : low_bytes t.value t.length ≡ t =
      ap (λ (v : ℕ). record { value = v; length = t.length }) (fits t.value t.length l h) in
    rw same at (read_encoded t.value t.length rest l)

-- What follows the connection ids: the token of an Initial packet, the length and the number.
unfoldable pub number_wire : LongHeader → Bytes → Bytes
number_wire h k = encoding h.payload_length.value ++ (encode h.truncated_pn ++ k)

pub token_wire : LongHeader → Bytes → Bytes
token_wire h k =
    if h.packet_type == initial then encoding h.token_length.value ++ (h.token ++ k) else k

read_number-wire :
    (h : LongHeader) (rest : Bytes)
    → IsWritableHeader h
    → read_number h.packet_type h.truncated_pn.length (number_wire h rest)
      ≡ done ((h.payload_length, h.truncated_pn), rest)
unfolding number_wire
read_number-wire h rest v = ground (
  arith,
  v.kind,
  read_var_int-encoding h.payload_length (encode h.truncated_pn ++ rest) v.payload_encoded,
  read_truncated_pn-encode h.truncated_pn rest (v.number_length, v.number_fits),
)

-- What the token of a header is read as: there is none but in an Initial packet.
abbrev pub token_read : LongHeader → VarInt × Bytes
token_read h = if h.packet_type == initial then (h.token_length, h.token) else (no_var_int, [])

read_token-wire :
    (h : LongHeader) (rest : Bytes)
    → IsWritableHeader h
    → read_token h.packet_type (token_wire h rest) ≡ done (token_read h, rest)
unfolding token_wire
read_token-wire h rest v = elim (Bool-cases (h.packet_type == initial)) [
  | inl e ↦ rw e (
      ground (
        arith,
        v.token_fits,
        read_var_int-encoding h.token_length (h.token ++ rest) v.token_encoded,
        make_then_read-append h.token rest v.token_fits.1,
      ))
  | inr e ↦ rw (e, read_token) refl
]

token_at :
    (h : LongHeader) (t : ℕ) (rest : Bytes)
    → IsWritableHeader h
    → t ≡ h.packet_type
    → read_token t (token_wire h rest) ≡ done (token_read h, rest)
token_at h t rest v e = rw e (read_token-wire h rest v)

number_at :
    (h : LongHeader) (t n : ℕ) (rest : Bytes)
    → IsWritableHeader h
    → t ≡ h.packet_type
    → n ≡ h.truncated_pn.length
    → read_number t n (number_wire h rest) ≡ done ((h.payload_length, h.truncated_pn), rest)
number_at h t n rest v e e' = rw (e, e') (read_number-wire h rest v)

-- A header as the other end reads it.
abbrev pub received : (PnSpace → ℕ) → LongHeader → LongHeader
received largest h = record h {
  lower_bits = h.truncated_pn.length - 1;
  token_length = (token_read h).0;
  token = (token_read h).1;
  packet_number = joined largest h.packet_type h.truncated_pn;
}

pub big_endian-uint32 : (v : ℕ) → v < 2 ^ 32 → big_endian 0 (uint32_to_be_bytes v) ≡ v
unfolding uint32_to_be_bytes
big_endian-uint32 v h = omega arith

pub length-uint32 : (v : ℕ) → length (uint32_to_be_bytes v) ≡ 4
unfolding uint32_to_be_bytes
length-uint32 v = refl

abbrev pub IsTypeByte : LongHeader → ℕ → Type 0
IsTypeByte h b =
    ((b + 256 - 0xC0) % 256 / 2 ^ 4 ≡ h.packet_type) × (bit_and b 0x03 + 1 ≡ h.truncated_pn.length)

abbrev pub IsLengths : LongHeader → ℕ → Type 0
IsLengths h ll =
    (3 + bit_and ll 0xf0 / 2 ^ 4 ≡ length h.destination_cid)
    × (3 + bit_and ll 0x0f ≡ length h.source_cid)

unfoldable pub wire_from : LongHeader → ℕ → ℕ → Bytes → Bytes
wire_from h b ll k =
    b
    ∷ (uint32_to_be_bytes h.version
        ++ (ll ∷ (h.destination_cid ++ (h.source_cid ++ token_wire h (number_wire h k)))))

pub read_from :
    (h : LongHeader) (largest : PnSpace → ℕ) (b ll : ℕ) (k : Bytes)
    → IsWritableHeader h
    → IsTypeByte h b
    → IsLengths h ll
    → read_long_header largest (wire_from h b ll k)
      ≡ done (record (received largest h) { lower_bits = bit_and b 0x0f }, k)
unfolding read_long_header wire_from
read_from h largest b ll k v (t, n) (d, s) = rw (
  ◌>>=◌,
  read_full-append 4 (uint32_to_be_bytes h.version)
      (ll ∷ (h.destination_cid ++ (h.source_cid ++ token_wire h (number_wire h k))))
      (length-uint32 h.version),
  d,
  read_full-append (length h.destination_cid) h.destination_cid
      (h.source_cid ++ token_wire h (number_wire h k)) refl,
  s,
  read_full-append (length h.source_cid) h.source_cid (token_wire h (number_wire h k)) refl,
  token_at h ((b + 256 - 0xC0) % 256 / 2 ^ 4) (number_wire h k) v t,
  number_at h ((b + 256 - 0xC0) % 256 / 2 ^ 4) (bit_and b 0x03 + 1) k v t n,
  t,
  big_endian-uint32 h.version v.version_fits,
)

unfoldable pub token_bytes : LongHeader → Bytes
token_bytes h = if h.packet_type == initial then encoding h.token_length.value ++ h.token else []

pub number_bytes : LongHeader → Bytes
number_bytes h = encoding h.payload_length.value ++ encode h.truncated_pn

pub header_bytes : LongHeader → Bytes
header_bytes h =
    (type_byte h
      ∷ (uint32_to_be_bytes h.version
          ++ (lengths h.destination_cid h.source_cid ∷ (h.destination_cid ++ h.source_cid))))
    ++ (token_bytes h ++ number_bytes h)

token_part-done : (h : LongHeader) → IsWritableHeader h → token_part h ≡ done (token_bytes h)
unfolding token_bytes
token_part-done h v = elim (Bool-cases (h.packet_type == initial)) [
  | inl e ↦ rw (e, encode_var_int-encoding h.token_length.value v.token_encoded.0) refl
  | inr e ↦ rw e refl
]

number_part-done : (h : LongHeader) → IsWritableHeader h → number_part h ≡ done (number_bytes h)
unfolding number_bytes
number_part-done h v =
    ground (arith, v.kind, encode_var_int-encoding h.payload_length.value v.payload_encoded.0)

pub encode_long-header_bytes :
    (h : LongHeader) → IsWritableHeader h → encode_long h ≡ done (header_bytes h)
unfolding encode_long header_bytes lengths
encode_long-header_bytes h v = rw (token_part-done h v, number_part-done h v) refl

pub token_wire-append : (h : LongHeader) (k : Bytes) → token_wire h k ≡ token_bytes h ++ k
unfolding token_wire token_bytes
token_wire-append h k = elim (Bool-cases (h.packet_type == initial)) [
  | inl e ↦ rw e (sym (append_assoc (encoding h.token_length.value) h.token k))
  | inr e ↦ rw e refl
]

pub wire_from-append :
    (h : LongHeader) (k : Bytes)
    → wire_from h (type_byte h) (lengths h.destination_cid h.source_cid) k ≡ header_bytes h ++ k
unfolding wire_from header_bytes number_wire number_bytes
wire_from-append h k =
    rw (token_wire-append h (encoding h.payload_length.value ++ (encode h.truncated_pn ++ k)))
      (simp append_assoc)

pub length-encode : (t : TruncatedPn) → IsTruncated t → length (encode t) ≡ t.length
unfolding encode
length-encode t (inl (inl e), h) = rw e refl
length-encode t (inl (inr e), h) = rw e refl
length-encode t (inr (inl e), h) = rw e refl
length-encode t (inr (inr e), h) = rw e refl

pub header_length-length :
    (h : LongHeader) → IsWritableHeader h → header_length h ≡ length (header_bytes h)
unfolding header_length header_bytes token_bytes number_bytes
header_length-length h v = ground (
  arith,
  v.payload_encoded.1,
  v.token_encoded.1,
  v.token_fits.0,
  length-uint32 h.version,
  length-encode h.truncated_pn (v.number_length, v.number_fits),
  length-append (encoding h.payload_length.value) (encode h.truncated_pn),
  length-append (encoding h.token_length.value) h.token,
  length-append h.destination_cid h.source_cid,
  length-append (uint32_to_be_bytes h.version)
      (lengths h.destination_cid h.source_cid ∷ (h.destination_cid ++ h.source_cid)),
  length-append
      (type_byte h
        ∷ (uint32_to_be_bytes h.version
            ++ (lengths h.destination_cid h.source_cid ∷ (h.destination_cid ++ h.source_cid))))
      (token_bytes h ++ number_bytes h),
  length-append (token_bytes h) (number_bytes h),
)

pub type_byte-IsTypeByte : (h : LongHeader) → IsWritableHeader h → IsTypeByte h (type_byte h)
type_byte-IsTypeByte h v =
    let t = type_byte_lem h v.kind v.number_length in
    let one = small h.truncated_pn.length v.number_length in
    (
      omega (arith, t, one, v.kind),
      omega (arith, t, one, v.kind, bit_and_03 (type_byte h) (omega (arith, t, one, v.kind))),
    )

pub type_byte-low :
    (h : LongHeader) → IsWritableHeader h → bit_and (type_byte h) 0x0f ≡ h.truncated_pn.length - 1
type_byte-low h v =
    let t = type_byte_lem h v.kind v.number_length in
    let one = small h.truncated_pn.length v.number_length in
    omega (arith, t, one, v.kind, bit_and_0f (type_byte h) (omega (arith, t, one, v.kind)))

pub lengths-IsLengths :
    (h : LongHeader) → IsWritableHeader h → IsLengths h (lengths h.destination_cid h.source_cid)
lengths-IsLengths h v =
    let d = h.destination_cid in
    let s = h.source_cid in
    let ll = lengths_lem d s v.destination v.source in
    let byte : lengths d s < 256 = omega (arith, ll, v.destination, v.source) in
    (
      omega (arith, ll, v.destination, v.source, bit_and_f0 (lengths d s) byte),
      omega (arith, ll, v.destination, v.source, bit_and_0f (lengths d s) byte),
    )
