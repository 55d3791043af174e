-- ===== src/Header.antt =====
-- headers.go: long and short headers; common.go: VarInt and ConnectionID. Packet types are uint8.
pub mod Cids
pub mod Wire
pub mod Long
pub mod Masked
pub mod Make
pub mod Methods
use quic_tracker.Base.{
  ℕ, ◌+◌, ◌-◌, ◌*◌, ◌/◌, ◌%◌, ◌^◌, bit_and, bit_or, Bool, true, false, List, [], ◌∷◌, ◌++◌, Bytes,
  length, ◌==◌, if◌then◌else◌, Option, none, some, Outcome, done, panic,
}
use quic_tracker.Base.Outcomes
use quic_tracker.Reader.{
  Parser, return, ◌>>=◌, big_endian, read, read_byte, read_full, make_then_read,
}
use quic_tracker.VarInt.{read_var_int_value, encode_var_int, var_int_len}
use quic_tracker.VarInt.Value.{VarInt, no_var_int, read_var_int}
use quic_tracker.PacketNumber.{TruncatedPn, encode, read_truncated_pn, join, uint32_to_be_bytes}
use quic_tracker.PacketNumber
use quic_tracker.Frame.Write.{◌then_write◌}
use quic_tracker.Packet.{PnSpace, initial_space, handshake_space, app_data_space, no_space}

abbrev pub initial : ℕ
initial = 0

abbrev pub zero_rtt_protected : ℕ
zero_rtt_protected = 1

abbrev pub handshake : ℕ
handshake = 2

abbrev pub retry : ℕ
retry = 3

-- A type that the map `packetTypeToPNSPace` does not hold gives its zero value.
unfoldable pub pn_space : ℕ → PnSpace
pn_space t =
    if t == initial
    then initial_space
    else if t == retry
    then no_space
    else if t == handshake
    then handshake_space
    else if t == zero_rtt_protected
    then app_data_space
    else if t == 0xff
    then app_data_space
    else initial_space

pub record LongHeader : Type 0 where
  pub packet_type : ℕ
  pub lower_bits : ℕ
  pub version : ℕ
  pub destination_cid : Bytes
  pub source_cid : Bytes
  pub token_length : VarInt
  pub token : Bytes
  pub payload_length : VarInt
  pub packet_number : ℕ
  pub truncated_pn : TruncatedPn

-- `ConnectionID.CIDL`, a uint8
unfoldable pub cidl : Bytes → ℕ
cidl c = if length c == 0 then 0 else (length c + 256 - 3) % 256

abbrev pub type_byte : LongHeader → ℕ
type_byte h =
    bit_or (bit_or 0xC0 (h.packet_type * 2 ^ 4 % 256)) ((h.truncated_pn.length + 256 - 1) % 256)

abbrev pub token_part : LongHeader → Outcome Bytes
token_part h =
    if h.packet_type == initial
    then encode_var_int h.token_length.value then_write done h.token
    else done []

abbrev pub number_part : LongHeader → Outcome Bytes
number_part h =
    if h.packet_type == retry
    then done []
    else encode_var_int h.payload_length.value then_write done (encode h.truncated_pn)

unfoldable pub encode_long : LongHeader → Outcome Bytes
unfolding cidl
encode_long h =
    done (
      type_byte h
      ∷ (uint32_to_be_bytes h.version
          ++ (bit_or (cidl h.destination_cid * 2 ^ 4 % 256) (cidl h.source_cid)
              ∷ (h.destination_cid ++ h.source_cid))))
    then_write token_part h
    then_write number_part h

-- An `int`, which does not get near to its bounds.
unfoldable pub header_length : LongHeader → ℕ
header_length h =
    6
    + length h.destination_cid
    + length h.source_cid
    + h.payload_length.length
    + h.truncated_pn.length
    + (if h.packet_type == initial then h.token_length.length + length h.token else 0)

abbrev read_token : ℕ → Parser (VarInt × Bytes)
read_token t = elim (t == initial) [
  | true ↦ (do n ← read_var_int; token ← make_then_read n.value read; return (n, token))
  | false ↦ return (no_var_int, [])
]

abbrev read_number : ℕ → ℕ → Parser (VarInt × TruncatedPn)
read_number t n = elim (t == retry) [
  | true ↦ return (no_var_int, record { value = 0; length = 0 })
  | false ↦ (do l ← read_var_int; pn ← read_truncated_pn n; return (l, pn))
]

-- `conn.LargestPNsReceived` is given.
abbrev joined : (PnSpace → ℕ) → ℕ → TruncatedPn → ℕ
joined largest t pn = if t == retry then 0 else join pn (largest (pn_space t))

unfoldable pub read_long_header : (PnSpace → ℕ) → Parser LongHeader
read_long_header largest = do
  b ← read_byte
  version ← read_full 4
  lengths ← read_byte
  destination ← read_full (3 + bit_and lengths 0xf0 / 2 ^ 4)
  source ← read_full (3 + bit_and lengths 0x0f)
  token ← read_token ((b + 256 - 0xC0) % 256 / 2 ^ 4)
  number ← read_number ((b + 256 - 0xC0) % 256 / 2 ^ 4) (bit_and b 0x03 + 1)
  return (record {
    packet_type = (b + 256 - 0xC0) % 256 / 2 ^ 4;
    lower_bits = bit_and b 0x0f;
    version = big_endian 0 version;
    destination_cid = destination;
    source_cid = source;
    token_length = token.0;
    token = token.1;
    payload_length = number.0;
    packet_number = joined largest ((b + 256 - 0xC0) % 256 / 2 ^ 4) number.1;
    truncated_pn = number.1;
  })

pub record ShortHeader : Type 0 where
  pub key_phase : Bool
  pub destination_cid : Bytes
  pub truncated_pn : TruncatedPn
  pub packet_number : ℕ

unfoldable pub encode_short : ShortHeader → Bytes
encode_short h =
    let with_phase = if h.key_phase then bit_or 0x40 0x04 else 0x40 in
    bit_or with_phase ((h.truncated_pn.length + 256 - 1) % 256)
    ∷ (h.destination_cid ++ encode h.truncated_pn)

-- The length of the client's own connection id is given, and the largest number received.
unfoldable pub read_short_header : ℕ → ℕ → Parser ShortHeader
read_short_header n largest = do
  b ← read_byte
  destination ← read n
  pn ← read_truncated_pn (bit_and b 0x03 + 1)
  return (record {
    key_phase = bit_and b 0x04 == 0x04;
    destination_cid = destination;
    truncated_pn = pn;
    packet_number = join pn largest;
  })

pub data Header : Type 0 where
  long : LongHeader → Header
  short : ShortHeader → Header

abbrev first_byte : Bytes → ℕ
first_byte [] = 0
first_byte (b ∷ bs) = b

-- `ReadHeader` looks at the first byte and puts it back.
unfoldable pub read_header : ℕ → (PnSpace → ℕ) → Parser Header
read_header n largest bs = elim (bit_and (first_byte bs) 0x80 == 0x80) [
  | true ↦ (do h ← read_long_header largest; return (long h)) bs
  | false ↦ (do h ← read_short_header n (largest app_data_space); return (short h)) bs
]
