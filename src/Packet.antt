-- ===== src/Packet.antt =====
-- packets.go: the frames of a packet, and the loop that reads them; common.go: PNSpace.
pub mod Payload
pub mod Progress
pub mod Make
pub mod Negotiation
pub mod Retry
pub mod Incoming
use quic_tracker.Base.{
  ℕ, zero, suc, Bool, true, false, List, [], ◌∷◌, ◌++◌, Bytes, length, ◌==◌, if◌then◌else◌, Option,
  none, some, Outcome, done, panic,
}
use quic_tracker.Base.Outcomes.{◌>>=◌}
use quic_tracker.Stream.{Stream, StreamFrame, add_to_read}
use quic_tracker.Streams.{Streams}
use quic_tracker.Frame.{
  Frame, crypto, frame_type, should_be_retransmitted, ack_type, padding_frame_type,
  connection_close_type, application_close_type,
}
use quic_tracker.Frame.Write.{write_to, ◌then_write◌}
use quic_tracker.Frame.Read.{NewFrame, Result, end_of_buffer, frame, unknown_type, new_frame}

pub data PnSpace : Type 0 where
  initial_space handshake_space app_data_space no_space : PnSpace

-- The packets that hold frames.
pub data Kind : Type 0 where
  initial handshake protected zero_rtt_protected : Kind

unfoldable pub pn_space : Kind → PnSpace
pn_space initial = initial_space
pn_space handshake = handshake_space
pn_space protected = app_data_space
pn_space zero_rtt_protected = app_data_space

unfoldable pub retransmittable : List Frame → List Frame
retransmittable [] = []
retransmittable (f ∷ rest) =
    let more = retransmittable rest in if should_be_retransmitted f then f ∷ more else more

-- An Initial packet keeps its padding.
unfoldable pub retransmittable_initial : List Frame → List Frame
retransmittable_initial [] = []
retransmittable_initial (f ∷ rest) =
    let more = retransmittable_initial rest in
    if should_be_retransmitted f
    then f ∷ more
    else if frame_type f == padding_frame_type
    then f ∷ more
    else more

unfoldable pub get_retransmittable_frames : Kind → List Frame → List Frame
unfolding retransmittable retransmittable_initial
get_retransmittable_frames initial fs = retransmittable_initial fs
get_retransmittable_frames _ fs = retransmittable fs

unfoldable pub contains : ℕ → List Frame → Bool
contains t [] = false
contains t (f ∷ rest) = if frame_type f == t then true else contains t rest

unfoldable pub only_contains : ℕ → List Frame → Bool
only_contains t [] = true
only_contains t (f ∷ rest) = if frame_type f == t then only_contains t rest else false

unfoldable pub get_first : ℕ → List Frame → Option Frame
get_first t [] = none
get_first t (f ∷ rest) = if frame_type f == t then some f else get_first t rest

unfoldable pub get_all : ℕ → List Frame → List Frame
get_all t [] = []
get_all t (f ∷ rest) = let more = get_all t rest in if frame_type f == t then f ∷ more else more

-- The cases of the switch in ShouldBeAcknowledged.
abbrev pub is_exempt : ℕ → Bool
is_exempt t =
    if t == ack_type
    then true
    else if t == padding_frame_type
    then true
    else if t == connection_close_type
    then true
    else t == application_close_type

unfoldable pub should_be_acknowledged : List Frame → Bool
should_be_acknowledged [] = false
should_be_acknowledged (f ∷ rest) =
    if is_exempt (frame_type f) then should_be_acknowledged rest else true

unfoldable pub encode_payload : List Frame → Outcome Bytes
encode_payload [] = done []
encode_payload (f ∷ rest) = write_to f then_write encode_payload rest

-- A CRYPTO frame is given to the crypto stream of the packet's number space.
unfoldable pub to_crypto_stream : Frame → Stream → Outcome Stream
to_crypto_stream (crypto offset n content) c = add_to_read c (record {
  fin_bit = false;
  len_bit = false;
  off_bit = false;
  stream_id = 0;
  offset = offset;
  length = n;
  stream_data = content;
})
to_crypto_stream _ c = done c

-- The frames, and the streams and the crypto stream after them.
abbrev pub Payload : Type 0
Payload = List Frame × Streams × Stream

abbrev pub append_frame : Frame → Outcome Payload → Outcome Payload
append_frame f o = o >>= λ r. done (f ∷ r.0, r.1, r.2)

-- One round after NewFrame, where `go` does the rounds that follow. An error is a panic.
unfoldable pub after_frame :
    (Streams → Stream → Bytes → Option (Outcome Payload))
    → Stream
    → Result
    → Option (Outcome Payload)
unfolding to_crypto_stream
after_frame go c panic = some panic
after_frame go c (done (end_of_buffer, rest, s)) = some (done ([], s, c))
after_frame go c (done (unknown_type t, rest, s)) = some panic
after_frame go c (done (frame f, rest, s)) = elim (to_crypto_stream f c) [
  | done c' ↦ elim (go s c' rest) [ some o ↦ some (append_frame f o) | none ↦ none ]
  | panic ↦ some panic
]

-- The loop of the four readers, after the header; `none` when the fuel is used up.
unfoldable pub read_frames : ℕ → Streams → Stream → Bytes → Option (Outcome Payload)
unfolding after_frame
read_frames zero s c bs = none
read_frames (suc n) s c bs = after_frame (read_frames n) c (new_frame s bs)

-- Every frame takes a byte or more.
unfoldable pub read_payload : Streams → Stream → Bytes → Option (Outcome Payload)
unfolding read_frames
read_payload s c bs = read_frames (suc (length bs)) s c bs
