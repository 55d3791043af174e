-- ===== src/Header/Masked.antt =====
-- headers.go: ReadLongHeader on a header whose packet number is masked, as the parsing agent first
-- sees it.
use quic_tracker.Base.{
  ℕ, ◌+◌, ◌-◌, ◌*◌, ◌/◌, ◌%◌, ◌^◌, ◌≤◌, ◌<◌, ◌≡◌, refl, ap, ◌∙◌, sym, inl, inr, bit_and, [], ◌∷◌,
  ◌++◌, Bytes, length, length-append, append_assoc, append-nil, suc, Bool-cases, ◌==◌, All, arith,
  done,
}
use quic_tracker.Base.Bits.{bit_and_03}
use quic_tracker.PacketNumber.{
  TruncatedPn, encode, uint16_to_be_bytes, uint24_to_be_bytes, uint32_to_be_bytes,
}
use quic_tracker.PacketNumber.Recovered.{IsLength}
use quic_tracker.VarInt.RoundTrip.{encoding}
use quic_tracker.Packet.{PnSpace}
use quic_tracker.Header.{LongHeader, initial, long, type_byte, header_length, read_long_header}
use quic_tracker.Header.Cids.{lengths}
use quic_tracker.Header.Wire.{
  token_wire-append, IsWritableHeader, IsTruncated, received, read_from, wire_from,
  wire_from-append, token_bytes, number_wire, header_bytes, header_length-length, length-encode,
  lengths-IsLengths, type_byte_lem, small,
}
use quic_tracker.Protection.{number_offset}

-- The bytes between the first one and the packet number.
unfoldable pub before_number : LongHeader → Bytes
before_number h =
    uint32_to_be_bytes h.version
    ++ (lengths h.destination_cid h.source_cid
        ∷ (h.destination_cid
            ++ (h.source_cid ++ (token_bytes h ++ encoding h.payload_length.value))))

wire_from-before_number :
    (h : LongHeader) (b : ℕ) (k : Bytes)
    → wire_from h b (lengths h.destination_cid h.source_cid) k
      ≡ b ∷ (before_number h ++ (encode h.truncated_pn ++ k))
unfolding wire_from before_number number_wire
wire_from-before_number h b k =
    rw (token_wire-append h (encoding h.payload_length.value ++ (encode h.truncated_pn ++ k)))
      (simp append_assoc)

pub header_bytes-before_number :
    (h : LongHeader) (k : Bytes)
    → header_bytes h ++ k ≡ type_byte h ∷ (before_number h ++ (encode h.truncated_pn ++ k))
header_bytes-before_number h k =
    sym (wire_from-append h k) ∙ wire_from-before_number h (type_byte h) k

pub number_offset-before_number :
    (h : LongHeader) → IsWritableHeader h → number_offset (long h) ≡ suc (length (before_number h))
unfolding number_offset
number_offset-before_number h v =
    let whole : length (header_bytes h) ≡ suc (length (before_number h ++ encode h.truncated_pn)) =
      ap length (
        rw (append-nil (header_bytes h), append-nil (encode h.truncated_pn)) at
          (header_bytes-before_number h [])) in
    omega (
      arith,
      whole,
      header_length-length h v,
      length-encode h.truncated_pn (v.number_length, v.number_fits),
      length-append (before_number h) (encode h.truncated_pn),
    )

-- Four bytes or more begin with a number of any length, and something after it.
pub record Begins (n : ℕ) (bs : Bytes) : Type 0 where
  pub number : TruncatedPn
  pub after : Bytes
  pub same_length : number.length ≡ n
  pub valid : IsTruncated number
  pub split : bs ≡ encode number ++ after

begins :
    (n v : ℕ) (bs after : Bytes)
    → IsTruncated (record { value = v; length = n })
    → bs ≡ encode (record { value = v; length = n }) ++ after
    → Begins n bs
begins n v bs after ok e = record {
  number = record { value = v; length = n };
  after = after;
  same_length = refl;
  valid = ok;
  split = e;
}

four_bytes :
    (a b c d a' b' c' d' : ℕ) (l : Bytes)
    → a ≡ a'
    → b ≡ b'
    → c ≡ c'
    → d ≡ d'
    → (a ∷ b ∷ c ∷ d ∷ l) ≡ (a' ∷ b' ∷ c' ∷ d' ∷ l)
four_bytes a b c d a' b' c' d' l ea eb ec ed = rw (ea, eb, ec, ed) refl

number_of_bytes :
    (n a b c d : ℕ) (rest : Bytes)
    → IsLength n
    → a < 256
    → b < 256
    → c < 256
    → d < 256
    → Begins n (a ∷ b ∷ c ∷ d ∷ rest)
unfolding encode uint16_to_be_bytes uint24_to_be_bytes uint32_to_be_bytes
number_of_bytes n a b c d rest (inl (inl e)) ha hb hc hd = rw e (
    begins 1 a (a ∷ b ∷ c ∷ d ∷ rest) (b ∷ c ∷ d ∷ rest) (inl (inl refl), ha)
      (four_bytes a b c d (a % 256) b c d rest (omega (arith, ha)) refl refl refl))
number_of_bytes n a b c d rest (inl (inr e)) ha hb hc hd =
    let v = a * 256 + b in
    rw e (
      begins 2 v (a ∷ b ∷ c ∷ d ∷ rest) (c ∷ d ∷ rest) (inl (inr refl), omega (arith, ha, hb))
        (four_bytes a b c d (v / 2 ^ 8 % 256) (v % 256) c d rest (omega (arith, ha, hb))
          (omega (arith, ha, hb)) refl refl))
number_of_bytes n a b c d rest (inr (inl e)) ha hb hc hd =
    let v = (a * 256 + b) * 256 + c in
    rw e (
      begins 3 v (a ∷ b ∷ c ∷ d ∷ rest) (d ∷ rest) (inr (inl refl), omega (arith, ha, hb, hc))
        (four_bytes a b c d (v / 2 ^ 16 % 256) (v / 2 ^ 8 % 256) (v % 256) d rest
          (omega (arith, ha, hb, hc)) (omega (arith, ha, hb, hc)) (omega (arith, hb, hc)) refl))
number_of_bytes n a b c d rest (inr (inr e)) ha hb hc hd =
    let v = ((a * 256 + b) * 256 + c) * 256 + d in
    rw e (
      begins 4 v (a ∷ b ∷ c ∷ d ∷ rest) rest (inr (inr refl), omega (arith, ha, hb, hc, hd))
        (four_bytes a b c d (v / 2 ^ 24 % 256) (v / 2 ^ 16 % 256) (v / 2 ^ 8 % 256) (v % 256) rest
          (omega (arith, ha, hb, hc, hd)) (omega (arith, ha, hb, hc, hd))
          (omega (arith, hb, hc, hd)) (omega (arith, hd))))

pub number_at_start :
    (n : ℕ) (bs : Bytes) → IsLength n → 4 ≤ length bs → All (λ b. b < 256) bs → Begins n bs
number_at_start n [] l le h = absurd (omega (arith, le))
number_at_start n (a ∷ []) l le h = absurd (omega (arith, le))
number_at_start n (a ∷ b ∷ []) l le h = absurd (omega (arith, le))
number_at_start n (a ∷ b ∷ c ∷ []) l le h = absurd (omega (arith, le))
number_at_start n (a ∷ b ∷ c ∷ d ∷ rest) l le (ha, (hb, (hc, (hd, hs)))) =
    number_of_bytes n a b c d rest l ha hb hc hd

-- A header with another packet number, in bytes and in length.
abbrev pub renumbered : LongHeader → TruncatedPn → LongHeader
renumbered h t = record h { truncated_pn = t }

renumbered-IsWritableHeader :
    (h : LongHeader) (t : TruncatedPn)
    → IsWritableHeader h
    → IsTruncated t
    → IsWritableHeader (renumbered h t)
renumbered-IsWritableHeader h t v (l, fits) = record {
  kind = v.kind;
  version_fits = v.version_fits;
  destination = v.destination;
  source = v.source;
  token_fits = v.token_fits;
  token_encoded = v.token_encoded;
  payload_encoded = v.payload_encoded;
  number_length = l;
  number_fits = fits;
}

before_number-renumbered :
    (h : LongHeader) (t : TruncatedPn) → before_number (renumbered h t) ≡ before_number h
unfolding before_number token_bytes
before_number-renumbered h t = refl

length_of_low : (b : ℕ) → b < 256 → IsLength (bit_and b 0x03 + 1)
length_of_low b h = ground (arith, bit_and_03 b h)

-- Where the first byte and the bytes from the packet number on are masked, a header is read that
-- has another packet number and other lower bits.
pub read_long_header-masked :
    (h : LongHeader) (largest : PnSpace → ℕ) (b : ℕ) (bs rest : Bytes)
    → IsWritableHeader h
    → b < 256
    → b / 16 ≡ type_byte h / 16
    → 4 ≤ length bs
    → All (λ x. x < 256) bs
    → (t : TruncatedPn) × (low : ℕ) × (k : Bytes) × (read_long_header largest
          (b ∷ (before_number h ++ (bs ++ rest)))
        ≡ done (record (received largest (renumbered h t)) { lower_bits = low }, k))
read_long_header-masked h largest b bs rest v hb same le small' =
    let bg = number_at_start (bit_and b 0x03 + 1) bs (length_of_low b hb) le small' in
    let t = bg.number in
    let ll = lengths h.destination_cid h.source_cid in
    let kind : (b + 256 - 0xC0) % 256 / 2 ^ 4 ≡ h.packet_type = omega (
      arith,
      same,
      hb,
      type_byte_lem h v.kind v.number_length,
      v.kind,
      small h.truncated_pn.length v.number_length,
    ) in
    let e =
      read_from (renumbered h t) largest b ll (bg.after ++ rest)
        (renumbered-IsWritableHeader h t v bg.valid) (kind, sym bg.same_length)
        (lengths-IsLengths h v) in
    let e' : read_long_header largest (b ∷ (before_number h ++ (encode t ++ (bg.after ++ rest))))
        ≡ done (
          record (received largest (renumbered h t)) { lower_bits = bit_and b 0x0f },
          bg.after ++ rest,
        ) =
      rw
        (
          wire_from-before_number (renumbered h t) b (bg.after ++ rest),
          before_number-renumbered h t,
        )
        at e in
    let split : bs ++ rest ≡ encode t ++ (bg.after ++ rest) =
      ap (λ (l : Bytes). l ++ rest) bg.split ∙ append_assoc (encode t) bg.after rest in
    (t, bit_and b 0x0f, bg.after ++ rest, rw (← split) at e')

pub header_length-received :
    (h : LongHeader) (largest : PnSpace → ℕ) → header_length (received largest h) ≡ header_length h
unfolding header_length
header_length-received h largest = elim (Bool-cases (h.packet_type == initial)) [
  | inl e ↦ rw e refl
  | inr e ↦ rw e refl
]

-- The offset of the packet number is told by a header that has a masked number.
pub number_offset-masked :
    (h : LongHeader) (largest : PnSpace → ℕ) (t : TruncatedPn) (low : ℕ)
    → number_offset (long (record (received largest (renumbered h t)) { lower_bits = low }))
      ≡ number_offset (long h)
unfolding number_offset header_length
number_offset-masked h largest t low = elim (Bool-cases (h.packet_type == initial)) [
  | inl e ↦ rw e (omega arith)
  | inr e ↦ rw e (omega arith)
]
