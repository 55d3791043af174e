-- ===== src/Frame/Write.antt =====
-- frames.go: writeTo of each frame. The result is what is appended to the buffer; a number of more
-- than 62 bits panics.
use quic_tracker.Base.{
  ℕ, ◌/◌, ◌%◌, bit_or, Bool, true, false, List, [], ◌∷◌, ◌++◌, Bytes, length, ltb, if◌then◌else◌,
  Outcome, done,
}
use quic_tracker.Base.Outcomes.{◌>>=◌}
use quic_tracker.Stream.{StreamFrame}
use quic_tracker.VarInt.{encode_var_int}
use quic_tracker.Frame.{
  Frame, AckFrame, AckBlock, ack, ack_ecn, reset_stream, stop_sending, crypto, new_token, stream,
  max_data, max_stream_data, max_streams, data_blocked, stream_data_blocked, streams_blocked,
  new_connection_id, retire_connection_id, path_challenge, path_response, connection_close,
  application_close, frame_type, ack_type, stream_type,
}

-- One write after another.
infixr 60 ◌then_write◌
abbrev pub ◌then_write◌ : Outcome Bytes → Outcome Bytes → Outcome Bytes
m then_write k = m >>= λ xs. k >>= λ ys. done (xs ++ ys)

-- `WriteVarInt`
abbrev pub var_int : ℕ → Outcome Bytes
var_int = encode_var_int

abbrev pub bytes : Bytes → Outcome Bytes
bytes = done

-- `binary.Write` of a uint16, big-endian
abbrev pub uint16_bytes : ℕ → Bytes
uint16_bytes v = v / 256 % 256 ∷ v % 256 ∷ []

-- The gap of the first block is not written.
unfoldable pub write_ack_blocks : Bool → List AckBlock → Outcome Bytes
write_ack_blocks first [] = bytes []
write_ack_blocks first (a ∷ rest) =
    (if first then bytes [] else var_int a.gap)
    then_write var_int a.block
    then_write write_ack_blocks false rest

unfoldable pub write_ack_frame : AckFrame → Outcome Bytes
unfolding write_ack_blocks
write_ack_frame f =
    var_int ack_type
    then_write var_int f.largest_acknowledged
    then_write var_int f.ack_delay
    then_write var_int f.ack_block_count
    then_write write_ack_blocks true f.ack_blocks

abbrev pub stream_type_byte : StreamFrame → ℕ
stream_type_byte f =
    let with_fin = if f.fin_bit then bit_or stream_type 0x01 else stream_type in
    let with_len = if f.len_bit then bit_or with_fin 0x02 else with_fin in
    if f.off_bit then bit_or with_len 0x04 else with_len

unfoldable pub write_stream_frame : StreamFrame → Outcome Bytes
write_stream_frame f =
    var_int (stream_type_byte f)
    then_write var_int f.stream_id
    then_write (if f.off_bit then var_int f.offset else bytes [])
    then_write (if f.len_bit then var_int f.length else bytes [])
    then_write bytes f.stream_data

abbrev reason : ℕ → Bytes → Outcome Bytes
reason n phrase = if ltb 0 n then bytes phrase else bytes []

-- What writeTo of each frame writes after the frame's type.
abbrev write_reset_stream : ℕ → ℕ → ℕ → Outcome Bytes
write_reset_stream id code final =
    var_int id then_write bytes (uint16_bytes code) then_write var_int final

abbrev write_stop_sending : ℕ → ℕ → Outcome Bytes
write_stop_sending id code = var_int id then_write bytes (uint16_bytes code)

abbrev write_crypto : ℕ → ℕ → Bytes → Outcome Bytes
write_crypto offset n d = var_int offset then_write var_int n then_write bytes d

abbrev write_new_token : Bytes → Outcome Bytes
write_new_token token = var_int (length token) then_write bytes token

abbrev write_max_data : ℕ → Outcome Bytes
write_max_data m = var_int m

abbrev write_max_stream_data : ℕ → ℕ → Outcome Bytes
write_max_stream_data id m = var_int id then_write var_int m

abbrev write_max_streams : ℕ → Outcome Bytes
write_max_streams m = var_int m

abbrev write_data_blocked : ℕ → Outcome Bytes
write_data_blocked l = var_int l

abbrev write_stream_data_blocked : ℕ → ℕ → Outcome Bytes
write_stream_data_blocked id l = var_int id then_write var_int l

abbrev write_streams_blocked : ℕ → Outcome Bytes
write_streams_blocked l = var_int l

abbrev write_new_connection_id : ℕ → ℕ → Bytes → Bytes → Outcome Bytes
write_new_connection_id sequence n id token =
    var_int sequence then_write bytes (n ∷ []) then_write bytes id then_write bytes token

abbrev write_retire_connection_id : ℕ → Outcome Bytes
write_retire_connection_id sequence = var_int sequence

abbrev write_path_challenge : Bytes → Outcome Bytes
write_path_challenge d = bytes d

abbrev write_path_response : Bytes → Outcome Bytes
write_path_response d = bytes d

abbrev write_connection_close : ℕ → ℕ → ℕ → Bytes → Outcome Bytes
write_connection_close code t n phrase =
    bytes (uint16_bytes code) then_write var_int t then_write var_int n then_write reason n phrase

abbrev write_application_close : ℕ → ℕ → Bytes → Outcome Bytes
write_application_close code n phrase =
    bytes (uint16_bytes code) then_write var_int n then_write reason n phrase

abbrev body : Frame → Outcome Bytes
body (reset_stream id code final) = write_reset_stream id code final
body (stop_sending id code) = write_stop_sending id code
body (crypto offset n d) = write_crypto offset n d
body (new_token token) = write_new_token token
body (max_data m) = write_max_data m
body (max_stream_data id m) = write_max_stream_data id m
body (max_streams t m) = write_max_streams m
body (data_blocked l) = write_data_blocked l
body (stream_data_blocked id l) = write_stream_data_blocked id l
body (streams_blocked t l) = write_streams_blocked l
body (new_connection_id sequence n id token) = write_new_connection_id sequence n id token
body (retire_connection_id sequence) = write_retire_connection_id sequence
body (path_challenge d) = write_path_challenge d
body (path_response d) = write_path_response d
body (connection_close code t n phrase) = write_connection_close code t n phrase
body (application_close code n phrase) = write_application_close code n phrase
body _ = bytes []

-- An ACK_ECN frame calls the method of the ACK frame inside it, which writes that frame's type.
unfoldable pub write_to : Frame → Outcome Bytes
unfolding write_ack_frame write_stream_frame frame_type
write_to (ack f) = write_ack_frame f
write_to (ack_ecn f ect0 ect1 ectce) =
    write_ack_frame f then_write var_int ect0 then_write var_int ect1 then_write var_int ectce
write_to (stream f) = write_stream_frame f
write_to f = var_int (frame_type f) then_write body f
