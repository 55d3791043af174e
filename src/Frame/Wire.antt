-- ===== src/Frame/Wire.antt =====
-- frames.go, writeTo: the bytes of a frame, in front of what follows it.
use quic_tracker.Base.{
  ℕ, ◌+◌, ◌^◌, ◌≤◌, ◌<◌, ◌≡◌, refl, Bool, true, false, List, [], ◌∷◌, ◌++◌, Bytes, length, arith,
  done, append_assoc, append-nil, max_alloc, if◌then◌else◌, All,
}
use quic_tracker.VarInt.{max_var_int8}
use quic_tracker.VarInt.RoundTrip.{encoding, encode_var_int-encoding, encode_var_int-small}
use quic_tracker.Stream.{StreamFrame}
use quic_tracker.Frame.{
  Frame, AckFrame, AckBlock, padding, ping, ack, ack_ecn, reset_stream, stop_sending, crypto,
  new_token, stream, max_data, max_stream_data, max_streams, data_blocked, stream_data_blocked,
  streams_blocked, new_connection_id, retire_connection_id, path_challenge, path_response,
  connection_close, application_close,
}
use quic_tracker.Frame.Write.{
  write_to, write_ack_frame, write_stream_frame, write_ack_blocks, uint16_bytes, stream_type_byte,
}

-- A number that a variable-length integer can hold.
abbrev pub IsVarInt : ℕ → Type 0
IsVarInt v = v ≤ max_var_int8

abbrev pub IsUint16 : ℕ → Type 0
IsUint16 v = v < 2 ^ 16

abbrev pub IsBlock : AckBlock → Type 0
IsBlock a = IsVarInt a.gap × IsVarInt a.block

abbrev pub IsWritableAck : AckFrame → Type 0
IsWritableAck f =
    IsVarInt f.largest_acknowledged
    × IsVarInt f.ack_delay
    × IsVarInt f.ack_block_count
    × All IsBlock f.ack_blocks

-- The numbers fit, the lengths are those of the contents, and the contents can be allocated.
abbrev pub IsWritable : Frame → Type 0
IsWritable padding = Unit {0}
IsWritable ping = Unit {0}
IsWritable (ack f) = IsWritableAck f
IsWritable (ack_ecn f a b c) = IsWritableAck f × IsVarInt a × IsVarInt b × IsVarInt c
IsWritable (reset_stream id code final) = IsVarInt id × IsUint16 code × IsVarInt final
IsWritable (stop_sending id code) = IsVarInt id × IsUint16 code
IsWritable (crypto offset n d) = IsVarInt offset × (n ≡ length d) × (length d ≤ max_alloc)
IsWritable (new_token token) = length token ≤ max_alloc
IsWritable (stream f) =
    IsVarInt f.stream_id
    × IsVarInt f.offset
    × (f.length ≡ length f.stream_data)
    × (f.length ≤ max_alloc)
IsWritable (max_data m) = IsVarInt m
IsWritable (max_stream_data id m) = IsVarInt id × IsVarInt m
IsWritable (max_streams t m) = IsVarInt m
IsWritable (data_blocked l) = IsVarInt l
IsWritable (stream_data_blocked id l) = IsVarInt id × IsVarInt l
IsWritable (streams_blocked t l) = IsVarInt l
IsWritable (new_connection_id sequence n id token) =
    IsVarInt sequence × (n ≡ length id) × (n < 256) × (length token ≡ 16)
IsWritable (retire_connection_id sequence) = IsVarInt sequence
IsWritable (path_challenge d) = length d ≡ 8
IsWritable (path_response d) = length d ≡ 8
IsWritable (connection_close code t n phrase) =
    IsUint16 code × IsVarInt t × (n ≡ length phrase) × (n ≤ max_alloc)
IsWritable (application_close code n phrase) = IsUint16 code × (n ≡ length phrase) × (n ≤ max_alloc)

unfoldable pub wire_blocks : Bool → List AckBlock → Bytes → Bytes
wire_blocks first [] k = k
wire_blocks true (a ∷ rest) k = encoding a.block ++ wire_blocks false rest k
wire_blocks false (a ∷ rest) k = encoding a.gap ++ (encoding a.block ++ wire_blocks false rest k)

abbrev pub wire_ack : AckFrame → Bytes → Bytes
wire_ack f k =
    0x02
    ∷ (encoding f.largest_acknowledged
        ++ (encoding f.ack_delay
            ++ (encoding f.ack_block_count ++ wire_blocks true f.ack_blocks k)))

abbrev pub optional : Bool → ℕ → Bytes → Bytes
optional true v k = encoding v ++ k
optional false v k = k

-- The three low bits of a STREAM frame's type.
abbrev pub flag : Bool → ℕ → ℕ
flag b n = if b then n else 0

abbrev pub wire_stream : StreamFrame → Bytes → Bytes
wire_stream f k =
    (0x08 + flag f.fin_bit 1 + flag f.len_bit 2 + flag f.off_bit 4)
    ∷ (encoding f.stream_id
        ++ optional f.off_bit f.offset (optional f.len_bit f.length (f.stream_data ++ k)))

-- The bytes of a frame in front of `k`.
unfoldable pub wire : Frame → Bytes → Bytes
wire padding k = 0x00 ∷ k
wire ping k = 0x01 ∷ k
wire (ack f) k = wire_ack f k
wire (ack_ecn f a b c) k = wire_ack f (encoding a ++ (encoding b ++ (encoding c ++ k)))
wire (reset_stream id code final) k =
    0x04 ∷ (encoding id ++ (uint16_bytes code ++ (encoding final ++ k)))
wire (stop_sending id code) k = 0x05 ∷ (encoding id ++ (uint16_bytes code ++ k))
wire (crypto offset n d) k = 0x06 ∷ (encoding offset ++ (encoding n ++ (d ++ k)))
wire (new_token token) k = 0x07 ∷ (encoding (length token) ++ (token ++ k))
wire (stream f) k = wire_stream f k
wire (max_data m) k = 0x10 ∷ (encoding m ++ k)
wire (max_stream_data id m) k = 0x11 ∷ (encoding id ++ (encoding m ++ k))
wire (max_streams false m) k = 0x12 ∷ (encoding m ++ k)
wire (max_streams true m) k = 0x13 ∷ (encoding m ++ k)
wire (data_blocked l) k = 0x14 ∷ (encoding l ++ k)
wire (stream_data_blocked id l) k = 0x15 ∷ (encoding id ++ (encoding l ++ k))
wire (streams_blocked false l) k = 0x16 ∷ (encoding l ++ k)
wire (streams_blocked true l) k = 0x17 ∷ (encoding l ++ k)
wire (new_connection_id sequence n id token) k =
    0x18 ∷ (encoding sequence ++ (n ∷ (id ++ (token ++ k))))
wire (retire_connection_id sequence) k = 0x19 ∷ (encoding sequence ++ k)
wire (path_challenge d) k = 0x1a ∷ (d ++ k)
wire (path_response d) k = 0x1b ∷ (d ++ k)
wire (connection_close code t n phrase) k =
    0x1c ∷ (uint16_bytes code ++ (encoding t ++ (encoding n ++ (phrase ++ k))))
wire (application_close code n phrase) k =
    0x1d ∷ (uint16_bytes code ++ (encoding n ++ (phrase ++ k)))

wire_blocks-append :
    (first : Bool) (bs : List AckBlock) (j k : Bytes)
    → wire_blocks first bs j ++ k ≡ wire_blocks first bs (j ++ k)
unfolding wire_blocks
wire_blocks-append first [] j k = refl
wire_blocks-append true (a ∷ rest) j k = simp (append_assoc, wire_blocks-append false rest j k)
wire_blocks-append false (a ∷ rest) j k = simp (append_assoc, wire_blocks-append false rest j k)

optional-append : (b : Bool) (v : ℕ) (j k : Bytes) → optional b v j ++ k ≡ optional b v (j ++ k)
optional-append true v j k = append_assoc (encoding v) j k
optional-append false v j k = refl

pub wire-append : (f : Frame) (j k : Bytes) → wire f j ++ k ≡ wire f (j ++ k)
unfolding wire
wire-append padding j k = refl
wire-append ping j k = refl
wire-append (max_streams false m) j k = simp append_assoc
wire-append (max_streams true m) j k = simp append_assoc
wire-append (streams_blocked false m) j k = simp append_assoc
wire-append (streams_blocked true m) j k = simp append_assoc
wire-append _ j k = simp (append_assoc, wire_blocks-append, optional-append)

write_ack_blocks-wire_blocks :
    (first : Bool) (bs : List AckBlock)
    → All IsBlock bs
    → write_ack_blocks first bs ≡ done (wire_blocks first bs [])
unfolding write_ack_blocks wire_blocks
write_ack_blocks-wire_blocks first [] h = refl
write_ack_blocks-wire_blocks true (a ∷ rest) (ha, hs) =
    rw (encode_var_int-encoding a.block ha.1, write_ack_blocks-wire_blocks false rest hs)
write_ack_blocks-wire_blocks false (a ∷ rest) (ha, hs) = rw (
  encode_var_int-encoding a.gap ha.0,
  encode_var_int-encoding a.block ha.1,
  write_ack_blocks-wire_blocks false rest hs,
)

write_ack_frame-wire_ack :
    (f : AckFrame) → IsWritableAck f → write_ack_frame f ≡ done (wire_ack f [])
unfolding write_ack_frame
write_ack_frame-wire_ack f h = ground (
  arith,
  encode_var_int-small 0x02,
  encode_var_int-encoding f.largest_acknowledged,
  encode_var_int-encoding f.ack_delay,
  encode_var_int-encoding f.ack_block_count,
  write_ack_blocks-wire_blocks true f.ack_blocks,
)

write_stream_frame-wire_stream :
    (f : StreamFrame) → IsWritable (stream f) → write_stream_frame f ≡ done (wire_stream f [])
unfolding write_stream_frame
write_stream_frame-wire_stream f h = ground (
  arith,
  encode_var_int-small (stream_type_byte f),
  encode_var_int-encoding f.stream_id,
  encode_var_int-encoding f.offset,
  encode_var_int-encoding f.length,
  append-nil f.stream_data,
)

empty : (bs : Bytes) → length bs ≡ 0 → bs ≡ []
empty [] h = refl
empty (b ∷ bs) h = absurd (omega arith)

-- `writeTo` never panics on a writable frame. The type that an ACK_ECN frame is written with is the
-- one of an ACK frame.
pub write_to-wire : (f : Frame) → IsWritable f → write_to f ≡ done (wire f [])
unfolding write_to wire
write_to-wire padding h = rw (encode_var_int-small 0x00 (omega arith))
write_to-wire ping h = rw (encode_var_int-small 0x01 (omega arith))
write_to-wire (ack f) h = write_ack_frame-wire_ack f h
write_to-wire (ack_ecn f a b c) (h, ha, hb, hc) =
    rw
      (
        write_ack_frame-wire_ack f h,
        encode_var_int-encoding a ha,
        encode_var_int-encoding b hb,
        encode_var_int-encoding c hc,
      )
      (simp (append_assoc, wire_blocks-append, append-nil))
write_to-wire (reset_stream id code final) h = ground (
  arith,
  encode_var_int-small 0x04,
  encode_var_int-encoding id,
  encode_var_int-encoding final,
  append-nil (encoding final),
)
write_to-wire (stop_sending id code) h =
    ground (arith, encode_var_int-small 0x05, encode_var_int-encoding id)
write_to-wire (crypto offset n d) h = ground (
  arith,
  encode_var_int-small 0x06,
  encode_var_int-encoding offset,
  encode_var_int-encoding n,
  append-nil d,
)
write_to-wire (new_token token) h =
    ground
      (arith, encode_var_int-small 0x07, encode_var_int-encoding (length token), append-nil token)
write_to-wire (stream f) h = write_stream_frame-wire_stream f h
write_to-wire (max_data m) h =
    ground (arith, encode_var_int-small 0x10, encode_var_int-encoding m, append-nil (encoding m))
write_to-wire (max_stream_data id m) h = ground (
  arith,
  encode_var_int-small 0x11,
  encode_var_int-encoding id,
  encode_var_int-encoding m,
  append-nil (encoding m),
)
write_to-wire (max_streams false m) h =
    ground (arith, encode_var_int-small 0x12, encode_var_int-encoding m, append-nil (encoding m))
write_to-wire (max_streams true m) h =
    ground (arith, encode_var_int-small 0x13, encode_var_int-encoding m, append-nil (encoding m))
write_to-wire (data_blocked m) h =
    ground (arith, encode_var_int-small 0x14, encode_var_int-encoding m, append-nil (encoding m))
write_to-wire (stream_data_blocked id m) h = ground (
  arith,
  encode_var_int-small 0x15,
  encode_var_int-encoding id,
  encode_var_int-encoding m,
  append-nil (encoding m),
)
write_to-wire (streams_blocked false m) h =
    ground (arith, encode_var_int-small 0x16, encode_var_int-encoding m, append-nil (encoding m))
write_to-wire (streams_blocked true m) h =
    ground (arith, encode_var_int-small 0x17, encode_var_int-encoding m, append-nil (encoding m))
write_to-wire (new_connection_id sequence n id token) h =
    ground (arith, encode_var_int-small 0x18, encode_var_int-encoding sequence, append-nil token)
write_to-wire (retire_connection_id m) h =
    ground (arith, encode_var_int-small 0x19, encode_var_int-encoding m, append-nil (encoding m))
write_to-wire (path_challenge d) h = ground (arith, encode_var_int-small 0x1a, append-nil d)
write_to-wire (path_response d) h = ground (arith, encode_var_int-small 0x1b, append-nil d)
write_to-wire (connection_close code t n phrase) h = ground (
  arith,
  encode_var_int-small 0x1c,
  encode_var_int-encoding t,
  encode_var_int-encoding n,
  append-nil phrase,
  empty phrase,
)
write_to-wire (application_close code n phrase) h =
    ground
      (arith, encode_var_int-small 0x1d, encode_var_int-encoding n, append-nil phrase, empty phrase)
