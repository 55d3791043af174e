-- ===== src/Frame/Length.antt =====
-- frames.go: FrameLength of each frame, a uint16.
use quic_tracker.Base.{
  ℕ, ◌+◌, ◌%◌, ◌^◌, Bool, true, false, List, [], ◌∷◌, length, if◌then◌else◌, Outcome, done,
}
use quic_tracker.Base.Outcomes.{◌>>=◌}
use quic_tracker.Stream.{StreamFrame}
use quic_tracker.VarInt.{var_int_len}
use quic_tracker.Frame.{
  Frame, AckFrame, AckBlock, padding, ping, ack, ack_ecn, reset_stream, stop_sending, crypto,
  new_token, stream, max_data, max_stream_data, max_streams, data_blocked, stream_data_blocked,
  streams_blocked, new_connection_id, retire_connection_id, path_challenge, path_response,
  connection_close, application_close,
}

abbrev uint16 : ℕ → ℕ
uint16 n = n % 2 ^ 16

abbrev add16 : ℕ → ℕ → ℕ
add16 a b = (a + b) % 2 ^ 16

-- The sum of the lengths of some numbers, an int.
abbrev pub lens : List ℕ → Outcome ℕ
lens [] = done 0
lens (i ∷ is) = do n ← var_int_len i; m ← lens is; done (n + m)

-- The loop over the blocks, which adds to a uint16.
unfoldable pub ack_blocks_length : ℕ → Bool → List AckBlock → Outcome ℕ
ack_blocks_length n first [] = done n
ack_blocks_length n first (a ∷ rest) = do
  g ← if first then done 0 else var_int_len a.gap
  b ← var_int_len a.block
  ack_blocks_length (add16 (add16 n (uint16 g)) (uint16 b)) false rest

unfoldable pub ack_frame_length : AckFrame → Outcome ℕ
unfolding ack_blocks_length
ack_frame_length f = do
  n ← lens (f.largest_acknowledged ∷ f.ack_delay ∷ f.ack_block_count ∷ [])
  ack_blocks_length (add16 1 (uint16 n)) true f.ack_blocks

unfoldable pub stream_frame_length : StreamFrame → Outcome ℕ
stream_frame_length f = do
  id ← var_int_len f.stream_id
  offset ← if f.off_bit then var_int_len f.offset else done 0
  n ← if f.len_bit then var_int_len f.length else done 0
  done (
      add16 (add16 (add16 (add16 1 (uint16 id)) (uint16 offset)) (uint16 n))
        (uint16 (length f.stream_data)))

-- `1 + uint16(sum of the lengths of the numbers and a constant) + uint16(more)`
abbrev plain : List ℕ → ℕ → ℕ → Outcome ℕ
plain is k more = do n ← lens is; done (add16 (add16 1 (uint16 (n + k))) (uint16 more))

unfoldable pub frame_length : Frame → Outcome ℕ
unfolding ack_frame_length stream_frame_length
frame_length padding = done 1
frame_length ping = done 1
frame_length (ack f) = ack_frame_length f
frame_length (ack_ecn f ect0 ect1 ectce) = do
  n ← ack_frame_length f
  m ← lens (ect0 ∷ ect1 ∷ ectce ∷ [])
  done (add16 n (uint16 m))
frame_length (reset_stream id code final) = plain (id ∷ final ∷ []) 2 0
frame_length (stop_sending id code) = plain (id ∷ []) 0 2
frame_length (crypto offset n d) = plain (offset ∷ n ∷ []) 0 (length d)
frame_length (new_token token) = plain (length token ∷ []) 0 (length token)
frame_length (stream f) = stream_frame_length f
frame_length (max_data m) = plain (m ∷ []) 0 0
frame_length (max_stream_data id m) = plain (id ∷ m ∷ []) 0 0
frame_length (max_streams t m) = plain (m ∷ []) 0 0
frame_length (data_blocked l) = plain (l ∷ []) 0 0
frame_length (stream_data_blocked id l) = plain (id ∷ l ∷ []) 0 0
frame_length (streams_blocked t l) = plain (l ∷ []) 0 0
frame_length (new_connection_id sequence n id token) = do
  s ← var_int_len sequence
  done (add16 (add16 (add16 (add16 1 (uint16 s)) 1) (uint16 (length id))) 16)
frame_length (retire_connection_id sequence) = plain (sequence ∷ []) 0 0
frame_length (path_challenge d) = done (1 + 8)
frame_length (path_response d) = done (1 + 8)
frame_length (connection_close code t n phrase) = do
  m ← lens (t ∷ n ∷ [])
  done (add16 (add16 (1 + 2) (uint16 m)) (uint16 n))
frame_length (application_close code n phrase) = do
  m ← lens (n ∷ [])
  done (add16 (add16 (1 + 2) (uint16 m)) (uint16 n))
