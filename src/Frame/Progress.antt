-- ===== src/Frame/Progress.antt =====
-- frames.go: NewFrame takes at least a byte from a buffer that has one.
use quic_tracker.Base.{
  ℕ, ◌≤◌, bit_and, Bool, true, false, ◌&&◌, ◌∷◌, Bytes, length, leb, ◌==◌, if◌then◌else◌, done,
  panic, Outcome-cases, inl, inr,
}
use quic_tracker.Reader.{Parser, return, ◌>>=◌, read_byte, read}
use quic_tracker.Stream.{StreamFrame}
use quic_tracker.Streams.{Streams, receive}
use quic_tracker.Frame.{
  Frame, stream, max_data, max_stream_data, max_streams, data_blocked, stream_data_blocked,
  streams_blocked, retire_connection_id, path_challenge, path_response,
}
use quic_tracker.Frame.Read.{
  Result, frame, new_frame, frame_of_type, late_types, plain, to_stream, read_stream_frame,
  read_ack, read_ack_ecn, read_reset_stream, read_stop_sending, read_crypto, read_new_token,
  read_one, read_two, read_new_connection_id, read_connection_close, read_application_close,
  read_padding, read_ping,
}
use quic_tracker.Frame.{
  padding_frame_type, ping_type, ack_type, ack_ecn_type, reset_stream_type, stop_sending_type,
  crypto_type, new_token_type, stream_type, max_data_type, max_stream_data_type, max_streams_type,
  data_blocked_type, stream_data_blocked_type, streams_blocked_type, new_connection_id_type,
  retire_connection_id_type, path_challenge_type, path_response_type, connection_close_type,
  application_close_type,
}
use quic_tracker.Frame.Shrinks.{
  Takes, read_padding-Takes, read_ping-Takes, read_stream_frame-Takes, read_one-Takes,
  read_two-Takes, read_eight-Takes, read_ack-Takes, read_ack_ecn-Takes, read_reset_stream-Takes,
  read_stop_sending-Takes, read_crypto-Takes, read_new_token-Takes, read_new_connection_id-Takes,
  read_connection_close-Takes, read_application_close-Takes,
}

-- After a frame at most n bytes are left.
abbrev pub Leaves : ℕ → Result → Type 0
Leaves n (done (frame f, rest, s)) = length rest ≤ n
Leaves n _ = Unit {0}

plain-Leaves :
    (p : Parser Frame) (s : Streams)
    → Takes p
    → (b : ℕ) (bs : Bytes) → Leaves (length bs) (plain p s (b ∷ bs))
plain-Leaves p s h b bs = elim (Outcome-cases (p (b ∷ bs))) [
  | inl e ↦ rw (plain, e) tt
  | inr ((f, rest), e) ↦ let le : length rest ≤ length bs = (rw e at (h b bs)) in rw (plain, e) le
]

received-Leaves :
    (n : ℕ) (f : StreamFrame) (rest : Bytes) (s : Streams)
    → length rest ≤ n
    → Leaves n (elim (receive f s) [
      | done streams' ↦ done (frame (stream f), rest, streams')
      | panic ↦ panic
    ])
received-Leaves n f rest s h = elim (Outcome-cases (receive f s)) [
  | inl e ↦ rw e tt
  | inr (s', e) ↦ rw e h
]

to_stream-Leaves : (s : Streams) (b : ℕ) (bs : Bytes) → Leaves (length bs) (to_stream s (b ∷ bs))
unfolding to_stream
to_stream-Leaves s b bs = elim (Outcome-cases (read_stream_frame (b ∷ bs))) [
  | inl e ↦ rw (to_stream, e) tt
  | inr ((f, rest), e) ↦
      let le : length rest ≤ length bs = (rw e at (read_stream_frame-Takes b bs)) in
      rw (to_stream, e) (received-Leaves (length bs) f rest s le)
]

-- A test of the switch.
if-Leaves :
    (c : Bool) (x y : Result) (n : ℕ) → Leaves n x → Leaves n y → Leaves n (if c then x else y)
if-Leaves true x y n hx hy = hx
if-Leaves false x y n hx hy = hy

module _ (s : Streams) (b : ℕ) (bs : Bytes) where
  one_of : (p : Parser Frame) → Takes p → Leaves (length bs) (plain p s (b ∷ bs))
  one_of p h = plain-Leaves p s h b bs

  late_types-Leaves : (t : ℕ) → Leaves (length bs) (late_types t s (b ∷ bs))
  late_types-Leaves t =
      if-Leaves (t == max_data_type) _ _ (length bs)
        (one_of (read_one max_data) (read_one-Takes max_data))
        (if-Leaves (t == max_stream_data_type) _ _ (length bs)
          (one_of (read_two max_stream_data) (read_two-Takes max_stream_data))
          (if-Leaves (bit_and t 0xFE == max_streams_type) _ _ (length bs)
            (one_of (read_one (max_streams false)) (read_one-Takes (max_streams false)))
            (if-Leaves (t == data_blocked_type) _ _ (length bs)
              (one_of (read_one data_blocked) (read_one-Takes data_blocked))
              (if-Leaves (t == stream_data_blocked_type) _ _ (length bs)
                (one_of (read_two stream_data_blocked) (read_two-Takes stream_data_blocked))
                (if-Leaves (bit_and t 0xFE == streams_blocked_type) _ _ (length bs)
                  (one_of (read_one (streams_blocked false))
                    (read_one-Takes (streams_blocked false)))
                  (if-Leaves (t == new_connection_id_type) _ _ (length bs)
                    (one_of read_new_connection_id read_new_connection_id-Takes)
                    (if-Leaves (t == retire_connection_id_type) _ _ (length bs)
                      (one_of (read_one retire_connection_id) (read_one-Takes retire_connection_id))
                      (if-Leaves (t == path_challenge_type) _ _ (length bs)
                        (one_of (do _ ← read_byte; d ← read 8; return (path_challenge d))
                          (read_eight-Takes path_challenge))
                        (if-Leaves (t == path_response_type) _ _ (length bs)
                          (one_of (do _ ← read_byte; d ← read 8; return (path_response d))
                            (read_eight-Takes path_response))
                          (if-Leaves (t == connection_close_type) _ _ (length bs)
                            (one_of read_connection_close read_connection_close-Takes)
                            (if-Leaves (t == application_close_type) _ _ (length bs)
                              (one_of read_application_close read_application_close-Takes)
                              tt)))))))))))

  frame_of_type-Leaves : (t : ℕ) → Leaves (length bs) (frame_of_type t s (b ∷ bs))
  unfolding frame_of_type
  frame_of_type-Leaves t =
      if-Leaves (t == padding_frame_type) _ _ (length bs) (one_of read_padding read_padding-Takes) (
        if-Leaves (t == ping_type) _ _ (length bs) (one_of read_ping read_ping-Takes) (
          if-Leaves (t == ack_type) _ _ (length bs) (one_of read_ack read_ack-Takes) (
            if-Leaves (t == ack_ecn_type) _ _ (length bs) (one_of read_ack_ecn read_ack_ecn-Takes) (
              if-Leaves (t == reset_stream_type) _ _ (length bs)
                (one_of read_reset_stream read_reset_stream-Takes)
                (if-Leaves (t == stop_sending_type) _ _ (length bs)
                  (one_of read_stop_sending read_stop_sending-Takes)
                  (if-Leaves (t == crypto_type) _ _ (length bs)
                    (one_of read_crypto read_crypto-Takes)
                    (if-Leaves (t == new_token_type) _ _ (length bs)
                      (one_of read_new_token read_new_token-Takes)
                      (if-Leaves ((bit_and t stream_type == stream_type) && leb t 0x0f) _ _
                        (length bs) (to_stream-Leaves s b bs) (late_types-Leaves t)))))))))

  -- NewFrame takes a byte or more for a frame.
  pub new_frame-Leaves : Leaves (length bs) (new_frame s (b ∷ bs))
  unfolding new_frame
  new_frame-Leaves = frame_of_type-Leaves b
