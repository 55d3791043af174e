-- ===== src/Frame.antt =====
-- frames.go: the frames, their types, and which of them are sent again after a loss.
pub mod Write
pub mod Length
pub mod Read
pub mod Wire
pub mod RoundTrip
pub mod Shrinks
pub mod Progress
pub mod LengthLaw
use quic_tracker.Base.{ℕ, ◌+◌, Bool, true, false, List, Bytes}
use quic_tracker.Stream.{StreamFrame}

abbrev pub padding_frame_type : ℕ
padding_frame_type = 0x00

abbrev pub ping_type : ℕ
ping_type = 0x01

abbrev pub ack_type : ℕ
ack_type = 0x02

abbrev pub ack_ecn_type : ℕ
ack_ecn_type = 0x03

abbrev pub reset_stream_type : ℕ
reset_stream_type = 0x04

abbrev pub stop_sending_type : ℕ
stop_sending_type = 0x05

abbrev pub crypto_type : ℕ
crypto_type = 0x06

abbrev pub new_token_type : ℕ
new_token_type = 0x07

abbrev pub stream_type : ℕ
stream_type = 0x08

abbrev pub max_data_type : ℕ
max_data_type = 0x10

abbrev pub max_stream_data_type : ℕ
max_stream_data_type = 0x11

abbrev pub max_streams_type : ℕ
max_streams_type = 0x12

abbrev pub data_blocked_type : ℕ
data_blocked_type = 0x14

abbrev pub stream_data_blocked_type : ℕ
stream_data_blocked_type = 0x15

abbrev pub streams_blocked_type : ℕ
streams_blocked_type = 0x16

abbrev pub new_connection_id_type : ℕ
new_connection_id_type = 0x18

abbrev pub retire_connection_id_type : ℕ
retire_connection_id_type = 0x19

abbrev pub path_challenge_type : ℕ
path_challenge_type = 0x1a

abbrev pub path_response_type : ℕ
path_response_type = 0x1b

abbrev pub connection_close_type : ℕ
connection_close_type = 0x1c

abbrev pub application_close_type : ℕ
application_close_type = 0x1d

pub record AckBlock : Type 0 where
  pub gap : ℕ
  pub block : ℕ

pub record AckFrame : Type 0 where
  pub largest_acknowledged : ℕ
  pub ack_delay : ℕ
  pub ack_block_count : ℕ
  pub ack_blocks : List AckBlock

-- `true` is UniStreams.
abbrev pub StreamsType : Type 0
StreamsType = Bool

-- A string is the list of its bytes.
pub data Frame : Type 0 where
  padding : Frame
  ping : Frame
  ack : AckFrame → Frame
  ack_ecn : (frame : AckFrame) (ect0_count ect1_count ectce_count : ℕ) → Frame
  reset_stream : (stream_id application_error_code final_offset : ℕ) → Frame
  stop_sending : (stream_id application_error_code : ℕ) → Frame
  crypto : (offset length : ℕ) (crypto_data : Bytes) → Frame
  new_token : (token : Bytes) → Frame
  stream : StreamFrame → Frame
  max_data : (maximum_data : ℕ) → Frame
  max_stream_data : (stream_id maximum_stream_data : ℕ) → Frame
  max_streams : (streams_type : StreamsType) (maximum_streams : ℕ) → Frame
  data_blocked : (data_limit : ℕ) → Frame
  stream_data_blocked : (stream_id stream_data_limit : ℕ) → Frame
  streams_blocked : (streams_type : StreamsType) (stream_limit : ℕ) → Frame
  new_connection_id : (sequence length : ℕ) (connection_id stateless_reset_token : Bytes) → Frame
  retire_connection_id : (sequence_number : ℕ) → Frame
  path_challenge : (challenge : Bytes) → Frame
  path_response : (response : Bytes) → Frame
  connection_close :
      (error_code error_frame_type reason_phrase_length : ℕ) (reason_phrase : Bytes) → Frame
  application_close : (error_code reason_phrase_length : ℕ) (reason_phrase : Bytes) → Frame

unfoldable pub frame_type : Frame → ℕ
frame_type padding = padding_frame_type
frame_type ping = ping_type
frame_type (ack f) = ack_type
frame_type (ack_ecn f a b c) = ack_ecn_type
frame_type (reset_stream a b c) = reset_stream_type
frame_type (stop_sending a b) = stop_sending_type
frame_type (crypto a b c) = crypto_type
frame_type (new_token a) = new_token_type
frame_type (stream f) = stream_type
frame_type (max_data a) = max_data_type
frame_type (max_stream_data a b) = max_stream_data_type
frame_type (max_streams false a) = max_streams_type
frame_type (max_streams true a) = max_streams_type + 1
frame_type (data_blocked a) = data_blocked_type
frame_type (stream_data_blocked a b) = stream_data_blocked_type
frame_type (streams_blocked false a) = streams_blocked_type
frame_type (streams_blocked true a) = streams_blocked_type + 1
frame_type (new_connection_id a b c d) = new_connection_id_type
frame_type (retire_connection_id a) = retire_connection_id_type
frame_type (path_challenge a) = path_challenge_type
frame_type (path_response a) = path_response_type
frame_type (connection_close a b c d) = connection_close_type
frame_type (application_close a b c) = application_close_type

unfoldable pub should_be_retransmitted : Frame → Bool
should_be_retransmitted padding = false
should_be_retransmitted ping = false
should_be_retransmitted (ack f) = false
should_be_retransmitted (ack_ecn f a b c) = false
should_be_retransmitted (path_response a) = false
should_be_retransmitted (connection_close a b c d) = false
should_be_retransmitted (application_close a b c) = false
should_be_retransmitted _ = true
