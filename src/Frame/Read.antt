-- ===== src/Frame/Read.antt =====
-- frames.go: NewFrame and the reader of each frame. Every reader takes the type byte again, which
-- NewFrame puts back.
use quic_tracker.Base.{
  ℕ, zero, suc, bit_and, Bool, true, false, ◌&&◌, List, [], ◌∷◌, Bytes, length, leb, ltb, ◌==◌,
  if◌then◌else◌, Outcome, done, panic,
}
use quic_tracker.Reader.{
  Parser, return, ◌>>=◌, read_byte, read, read_full, make_then_read, big_endian,
}
use quic_tracker.VarInt.{read_var_int_or_zero}
use quic_tracker.Stream.{StreamFrame}
use quic_tracker.Streams.{Streams, receive}
use quic_tracker.Frame.{
  Frame, AckFrame, AckBlock, padding, ping, ack, ack_ecn, reset_stream, stop_sending, crypto,
  new_token, stream, max_data, max_stream_data, max_streams, data_blocked, stream_data_blocked,
  streams_blocked, new_connection_id, retire_connection_id, path_challenge, path_response,
  connection_close, application_close, padding_frame_type, ping_type, ack_type, ack_ecn_type,
  reset_stream_type, stop_sending_type, crypto_type, new_token_type, stream_type, max_data_type,
  max_stream_data_type, max_streams_type, data_blocked_type, stream_data_blocked_type,
  streams_blocked_type, new_connection_id_type, retire_connection_id_type, path_challenge_type,
  path_response_type, connection_close_type, application_close_type,
}

abbrev pub var_int : Parser ℕ
var_int = read_var_int_or_zero

abbrev pub read_uint16 : Parser ℕ
read_uint16 = do bs ← read_full 2; return (big_endian 0 bs)

unfoldable pub read_ack_blocks : ℕ → Parser (List AckBlock)
read_ack_blocks zero = return []
read_ack_blocks (suc n) = do
  gap ← var_int
  block ← var_int
  rest ← read_ack_blocks n
  return (record { gap = gap; block = block } ∷ rest)

unfoldable pub read_ack_frame : Parser AckFrame
unfolding read_ack_blocks
read_ack_frame = do
  _ ← read_byte
  largest ← var_int
  delay ← var_int
  count ← var_int
  first ← var_int
  blocks ← read_ack_blocks count
  return (record {
    largest_acknowledged = largest;
    ack_delay = delay;
    ack_block_count = count;
    ack_blocks = record { gap = 0; block = first } ∷ blocks;
  })

-- `buffer.Len()`
abbrev pub left : Parser ℕ
left bs = done (length bs, bs)

abbrev pub when : Bool → Parser ℕ → Parser ℕ → Parser ℕ
when true p q = p
when false p q = q

unfoldable pub read_stream_frame : Parser StreamFrame
read_stream_frame = do
  b ← read_byte
  id ← var_int
  offset ← when (bit_and b 0x04 == 0x04) var_int (return 0)
  n ← when (bit_and b 0x02 == 0x02) var_int left
  content ← make_then_read n read
  return (record {
    fin_bit = bit_and b 0x01 == 0x01;
    len_bit = bit_and b 0x02 == 0x02;
    off_bit = bit_and b 0x04 == 0x04;
    stream_id = id;
    offset = offset;
    length = n;
    stream_data = content;
  })

-- The bytes of a reason phrase are all there, or are zeros.
unfoldable pub read_reason : ℕ → Parser Bytes
read_reason n = elim (ltb 0 n) [ true ↦ make_then_read n read_full | false ↦ return [] ]

abbrev pub read_padding : Parser Frame
read_padding = do _ ← read_byte; return padding

abbrev pub read_ping : Parser Frame
read_ping = do _ ← read_byte; return ping

abbrev pub read_ack : Parser Frame
read_ack = do f ← read_ack_frame; return (ack f)

abbrev pub read_ack_ecn : Parser Frame
read_ack_ecn = do
  f ← read_ack_frame
  ect0 ← var_int
  ect1 ← var_int
  ectce ← var_int
  return (ack_ecn f ect0 ect1 ectce)

abbrev pub read_reset_stream : Parser Frame
read_reset_stream = do
  _ ← read_byte
  id ← var_int
  code ← read_uint16
  final ← var_int
  return (reset_stream id code final)

abbrev pub read_stop_sending : Parser Frame
read_stop_sending = do
  _ ← read_byte
  id ← var_int
  code ← read_uint16
  return (stop_sending id code)

abbrev pub read_crypto : Parser Frame
read_crypto = do
  _ ← var_int
  offset ← var_int
  n ← var_int
  content ← make_then_read n read
  return (crypto offset n content)

abbrev pub read_new_token : Parser Frame
read_new_token = do
  _ ← var_int
  n ← var_int
  token ← make_then_read n read
  return (new_token token)

abbrev pub read_one : (ℕ → Frame) → Parser Frame
read_one make = do _ ← read_byte; a ← var_int; return (make a)

abbrev pub read_two : (ℕ → ℕ → Frame) → Parser Frame
read_two make = do _ ← read_byte; a ← var_int; b ← var_int; return (make a b)

abbrev pub read_new_connection_id : Parser Frame
read_new_connection_id = do
  _ ← read_byte
  sequence ← var_int
  n ← read_byte
  id ← make_then_read n read
  token ← read_full 16
  return (new_connection_id sequence n id token)

abbrev pub read_connection_close : Parser Frame
read_connection_close = do
  _ ← read_byte
  code ← read_uint16
  t ← var_int
  n ← var_int
  phrase ← read_reason n
  return (connection_close code t n phrase)

abbrev pub read_application_close : Parser Frame
read_application_close = do
  _ ← read_byte
  code ← read_uint16
  n ← var_int
  phrase ← read_reason n
  return (application_close code n phrase)

-- What NewFrame returns: `nil, nil` at the end, a frame, or the error on an unknown type.
pub data NewFrame : Type 0 where
  end_of_buffer : NewFrame
  frame : Frame → NewFrame
  unknown_type : ℕ → NewFrame

abbrev pub Result : Type 0
Result = Outcome (NewFrame × Bytes × Streams)

-- A reader that leaves the streams alone.
abbrev pub plain : Parser Frame → Streams → Bytes → Result
plain p streams bs = elim (p bs) [ done (f, rest) ↦ done (frame f, rest, streams) | panic ↦ panic ]

-- The frame is given to its stream before it is returned.
unfoldable pub to_stream : Streams → Bytes → Result
to_stream streams bs = elim (read_stream_frame bs) [
  | done (f, rest) ↦ elim (receive f streams) [
    | done streams' ↦ done (frame (stream f), rest, streams')
    | panic ↦ panic
  ]
  | panic ↦ panic
]

abbrev pub late_types : ℕ → Streams → Bytes → Result
late_types t s bs =
    if t == max_data_type
    then plain (read_one max_data) s bs
    else if t == max_stream_data_type
    then plain (read_two max_stream_data) s bs
    else if bit_and t 0xFE == max_streams_type
    then plain (read_one (max_streams false)) s bs
    else if t == data_blocked_type
    then plain (read_one data_blocked) s bs
    else if t == stream_data_blocked_type
    then plain (read_two stream_data_blocked) s bs
    else if bit_and t 0xFE == streams_blocked_type
    then plain (read_one (streams_blocked false)) s bs
    else if t == new_connection_id_type
    then plain read_new_connection_id s bs
    else if t == retire_connection_id_type
    then plain (read_one retire_connection_id) s bs
    else if t == path_challenge_type
    then plain (do _ ← read_byte; d ← read 8; return (path_challenge d)) s bs
    else if t == path_response_type
    then plain (do _ ← read_byte; d ← read 8; return (path_response d)) s bs
    else if t == connection_close_type
    then plain read_connection_close s bs
    else if t == application_close_type
    then plain read_application_close s bs
    else done (unknown_type t, bs, s)

-- The switch of NewFrame, on the first byte of `bs`.
unfoldable pub frame_of_type : ℕ → Streams → Bytes → Result
unfolding read_reason to_stream
frame_of_type t s bs =
    if t == padding_frame_type
    then plain read_padding s bs
    else if t == ping_type
    then plain read_ping s bs
    else if t == ack_type
    then plain read_ack s bs
    else if t == ack_ecn_type
    then plain read_ack_ecn s bs
    else if t == reset_stream_type
    then plain read_reset_stream s bs
    else if t == stop_sending_type
    then plain read_stop_sending s bs
    else if t == crypto_type
    then plain read_crypto s bs
    else if t == new_token_type
    then plain read_new_token s bs
    else if (bit_and t stream_type == stream_type) && leb t 0x0f
    then to_stream s bs
    else late_types t s bs

unfoldable pub new_frame : Streams → Bytes → Result
unfolding frame_of_type
new_frame s [] = done (end_of_buffer, [], s)
new_frame s (t ∷ rest) = frame_of_type t s (t ∷ rest)
