-- ===== src/Frame/RoundTrip.antt =====
-- frames.go: NewFrame on the bytes that writeTo writes.
use quic_tracker.Base.{
  ℕ, ◌/◌, ◌%◌, ◌≤◌, ◌≡◌, ◌⊎◌, refl, Bool, true, false, List, [], ◌∷◌, ◌++◌, Bytes, length, arith,
  Outcome, done, All, append-nil, max_alloc, ◌∙◌,
}
use quic_tracker.Base.Outcomes.{◌>>=◌}
use quic_tracker.Reader.{
  read_full, read-append, read_full-append, make_then_read-append, make_then_read_full-append,
}
use quic_tracker.VarInt.RoundTrip.{
  encoding, read_var_int_or_zero-small, read_var_int_or_zero-encoding,
}
use quic_tracker.Stream.{StreamFrame}
use quic_tracker.Streams.{Streams, receive}
use quic_tracker.Frame.{
  Frame, AckFrame, AckBlock, padding, ping, ack, ack_ecn, reset_stream, stop_sending, crypto,
  new_token, stream, max_data, max_stream_data, max_streams, data_blocked, stream_data_blocked,
  streams_blocked, new_connection_id, retire_connection_id, path_challenge, path_response,
  connection_close, application_close,
}
use quic_tracker.Frame.Write.{write_to, uint16_bytes}
use quic_tracker.Frame.Read.{
  to_stream, new_frame, frame, read_ack_blocks, read_reason, read_ack_frame, read_stream_frame,
}
use quic_tracker.Frame.Wire.{
  IsWritable, IsWritableAck, IsBlock, wire, wire_blocks, wire_ack, wire_stream, write_to-wire,
  wire-append,
}

-- The first block has no gap, and the count is that of the other blocks.
abbrev pub IsReadableAck : AckFrame → List AckBlock → Type 0
IsReadableAck f [] = ⊥
IsReadableAck f (a ∷ rest) = (a.gap ≡ 0) × (f.ack_block_count ≡ length rest)

-- What the format says of a frame `f` that `k` follows. An ACK_ECN frame is never written as one,
-- and the two frames on a number of streams are read as those on bidirectional streams.
abbrev pub IsReadable : Frame → Bytes → Type 0
IsReadable (ack f) k = IsReadableAck f f.ack_blocks
IsReadable (ack_ecn f a b c) k = ⊥
IsReadable (stream f) k = ((f.len_bit ≡ true) ⊎ (k ≡ [])) × ((f.off_bit ≡ true) ⊎ (f.offset ≡ 0))
IsReadable (max_streams t m) k = t ≡ false
IsReadable (streams_blocked t m) k = t ≡ false
IsReadable _ k = Unit {0}

-- A STREAM frame is handed to its stream.
abbrev pub handed : Frame → Streams → Outcome Streams
handed (stream f) s = receive f s
handed _ s = done s

read_two_bytes : (a b : ℕ) (rest : Bytes) → read_full 2 (a ∷ b ∷ rest) ≡ done (a ∷ b ∷ [], rest)
read_two_bytes a b rest = read_full-append 2 (a ∷ b ∷ []) rest refl

read_ack_blocks-wire_blocks :
    (bs : List AckBlock) (k : Bytes)
    → All IsBlock bs
    → read_ack_blocks (length bs) (wire_blocks false bs k) ≡ done (bs, k)
unfolding read_ack_blocks wire_blocks
read_ack_blocks-wire_blocks [] k h = refl
read_ack_blocks-wire_blocks (a ∷ rest) k (ha, hs) = ground (
  arith,
  read_var_int_or_zero-encoding a.gap (encoding a.block ++ wire_blocks false rest k),
  read_var_int_or_zero-encoding a.block (wire_blocks false rest k),
  read_ack_blocks-wire_blocks rest k hs,
)

read_ack_frame-wire_ack :
    (f : AckFrame) (bs : List AckBlock) (k : Bytes)
    → f.ack_blocks ≡ bs
    → IsWritableAck f
    → IsReadableAck f bs
    → read_ack_frame (wire_ack f k) ≡ done (f, k)
unfolding read_ack_frame wire_blocks
read_ack_frame-wire_ack f [] k e h r = absurd r
read_ack_frame-wire_ack f (a ∷ rest) k e h r = ground (
  arith,
  read_var_int_or_zero-encoding f.largest_acknowledged (
      encoding f.ack_delay
      ++ (encoding f.ack_block_count ++ (encoding a.block ++ wire_blocks false rest k))),
  read_var_int_or_zero-encoding f.ack_delay
      (encoding f.ack_block_count ++ (encoding a.block ++ wire_blocks false rest k)),
  read_var_int_or_zero-encoding f.ack_block_count (encoding a.block ++ wire_blocks false rest k),
  read_var_int_or_zero-encoding a.block (wire_blocks false rest k),
  read_ack_blocks-wire_blocks rest k,
)

read_reason-append :
    (n : ℕ) (phrase k : Bytes)
    → n ≡ length phrase
    → n ≤ max_alloc
    → read_reason n (phrase ++ k) ≡ done (phrase, k)
unfolding read_reason
read_reason-append n [] k e h = rw (e) refl
read_reason-append n (b ∷ bs) k e h = ground (arith, make_then_read_full-append (b ∷ bs) k)

abbrev with_bits : Bool → Bool → Bool → ℕ → ℕ → ℕ → Bytes → StreamFrame
with_bits fin len off id offset n d = record {
  fin_bit = fin;
  len_bit = len;
  off_bit = off;
  stream_id = id;
  offset = offset;
  length = n;
  stream_data = d;
}

read_bits :
    (fin len off : Bool) (id offset n : ℕ) (d k : Bytes)
    → IsWritable (stream (with_bits fin len off id offset n d))
    → IsReadable (stream (with_bits fin len off id offset n d)) k
    → read_stream_frame (wire_stream (with_bits fin len off id offset n d) k)
      ≡ done (with_bits fin len off id offset n d, k)
unfolding read_stream_frame
read_bits fin true true id offset n d k h r = ground (
  arith,
  read_var_int_or_zero-encoding id (encoding offset ++ (encoding n ++ (d ++ k))),
  read_var_int_or_zero-encoding offset (encoding n ++ (d ++ k)),
  read_var_int_or_zero-encoding n (d ++ k),
  make_then_read-append d k,
)
read_bits fin true false id offset n d k h r = ground (
  arith,
  read_var_int_or_zero-encoding id (encoding n ++ (d ++ k)),
  read_var_int_or_zero-encoding n (d ++ k),
  make_then_read-append d k,
)
read_bits fin false true id offset n d k h r = ground (
  arith,
  read_var_int_or_zero-encoding id (encoding offset ++ (d ++ k)),
  read_var_int_or_zero-encoding offset (d ++ k),
  append-nil d,
  make_then_read-append d [],
)
read_bits fin false false id offset n d k h r =
    ground
      (arith, read_var_int_or_zero-encoding id (d ++ k), append-nil d, make_then_read-append d [])

read_stream_frame-wire_stream :
    (f : StreamFrame) (k : Bytes)
    → IsWritable (stream f)
    → IsReadable (stream f) k
    → read_stream_frame (wire_stream f k) ≡ done (f, k)
read_stream_frame-wire_stream f k h r =
    read_bits f.fin_bit f.len_bit f.off_bit f.stream_id f.offset f.length f.stream_data k h r

-- All eight types of a STREAM frame are dispatched to its reader.
stream_bits :
    (fin len off : Bool) (id offset n : ℕ) (d k : Bytes) (s : Streams)
    → let f = with_bits fin len off id offset n d in
      new_frame s (wire_stream f k) ≡ to_stream s (wire_stream f k)
unfolding new_frame
stream_bits false false false id offset n d k s = refl
stream_bits false false true id offset n d k s = refl
stream_bits false true false id offset n d k s = refl
stream_bits false true true id offset n d k s = refl
stream_bits true false false id offset n d k s = refl
stream_bits true false true id offset n d k s = refl
stream_bits true true false id offset n d k s = refl
stream_bits true true true id offset n d k s = refl

to_stream-wire_stream :
    (f : StreamFrame) (k : Bytes) (s : Streams)
    → IsWritable (stream f)
    → IsReadable (stream f) k
    → to_stream s (wire_stream f k) ≡ (receive f s >>= λ s'. done (frame (stream f), k, s'))
unfolding to_stream
to_stream-wire_stream f k s h r =
    rw (read_stream_frame-wire_stream f k h r, to_stream) (ground arith)

new_frame-wire_stream :
    (f : StreamFrame) (k : Bytes) (s : Streams)
    → IsWritable (stream f)
    → IsReadable (stream f) k
    → new_frame s (wire_stream f k) ≡ (receive f s >>= λ s'. done (frame (stream f), k, s'))
new_frame-wire_stream f k s h r =
    stream_bits f.fin_bit f.len_bit f.off_bit f.stream_id f.offset f.length f.stream_data k s
    ∙ to_stream-wire_stream f k s h r

abbrev Reads : Frame → Bytes → Streams → Type 0
Reads f k s = new_frame s (wire f k) ≡ (handed f s >>= λ s'. done (frame f, k, s'))

new_frame-wire : (f : Frame) (k : Bytes) (s : Streams) → IsWritable f → IsReadable f k → Reads f k s
unfolding new_frame wire
new_frame-wire padding k s h r = refl
new_frame-wire ping k s h r = refl
new_frame-wire (ack f) k s h r = ground (arith, read_ack_frame-wire_ack f f.ack_blocks k refl h r)
new_frame-wire (ack_ecn f a b c) k s h r = absurd r
new_frame-wire (reset_stream id code final) k s h r = ground (
  arith,
  read_var_int_or_zero-encoding id (uint16_bytes code ++ (encoding final ++ k)),
  read_two_bytes (code / 256 % 256) (code % 256) (encoding final ++ k),
  read_var_int_or_zero-encoding final k,
)
new_frame-wire (stop_sending id code) k s h r = ground (
  arith,
  read_var_int_or_zero-encoding id (uint16_bytes code ++ k),
  read_two_bytes (code / 256 % 256) (code % 256) k,
)
new_frame-wire (crypto offset n d) k s h r = ground (
  arith,
  read_var_int_or_zero-small 0x06 (encoding offset ++ (encoding n ++ (d ++ k))),
  read_var_int_or_zero-encoding offset (encoding n ++ (d ++ k)),
  read_var_int_or_zero-encoding n (d ++ k),
  make_then_read-append d k,
)
new_frame-wire (new_token token) k s h r = ground (
  arith,
  read_var_int_or_zero-small 0x07 (encoding (length token) ++ (token ++ k)),
  read_var_int_or_zero-encoding (length token) (token ++ k),
  make_then_read-append token k,
)
new_frame-wire (stream f) k s h r = new_frame-wire_stream f k s h r
new_frame-wire (max_data m) k s h r = ground (arith, read_var_int_or_zero-encoding m k)
new_frame-wire (max_stream_data id m) k s h r =
    ground
      (arith, read_var_int_or_zero-encoding id (encoding m ++ k), read_var_int_or_zero-encoding m k)
new_frame-wire (max_streams false m) k s h r = ground (arith, read_var_int_or_zero-encoding m k)
new_frame-wire (max_streams true m) k s h r = cc
new_frame-wire (data_blocked m) k s h r = ground (arith, read_var_int_or_zero-encoding m k)
new_frame-wire (stream_data_blocked id m) k s h r =
    ground
      (arith, read_var_int_or_zero-encoding id (encoding m ++ k), read_var_int_or_zero-encoding m k)
new_frame-wire (streams_blocked false m) k s h r = ground (arith, read_var_int_or_zero-encoding m k)
new_frame-wire (streams_blocked true m) k s h r = cc
new_frame-wire (new_connection_id sequence n id token) k s h r = ground (
  arith,
  read_var_int_or_zero-encoding sequence (n ∷ (id ++ (token ++ k))),
  make_then_read-append id (token ++ k),
  read_full-append 16 token k,
)
new_frame-wire (retire_connection_id m) k s h r = ground (arith, read_var_int_or_zero-encoding m k)
new_frame-wire (path_challenge d) k s h r = ground (arith, read-append 8 d k)
new_frame-wire (path_response d) k s h r = ground (arith, read-append 8 d k)
new_frame-wire (connection_close code t n phrase) k s h r = ground (
  arith,
  read_two_bytes (code / 256 % 256) (code % 256) (encoding t ++ (encoding n ++ (phrase ++ k))),
  read_var_int_or_zero-encoding t (encoding n ++ (phrase ++ k)),
  read_var_int_or_zero-encoding n (phrase ++ k),
  read_reason-append n phrase k,
)
new_frame-wire (application_close code n phrase) k s h r = ground (
  arith,
  read_two_bytes (code / 256 % 256) (code % 256) (encoding n ++ (phrase ++ k)),
  read_var_int_or_zero-encoding n (phrase ++ k),
  read_reason-append n phrase k,
)

-- Every writable and readable frame is written without a panic, and NewFrame reads back the same
-- frame from these bytes, whatever follows them: the rest stays in the reader. A STREAM frame is
-- also handed to its stream, and no other frame changes the streams.
pub new_frame-write_to :
    (f : Frame) (k : Bytes) (s : Streams)
    → IsWritable f
    → IsReadable f k
    → (bs : Bytes) × (write_to f ≡ done bs)
      × (new_frame s (bs ++ k) ≡ (handed f s >>= λ s'. done (frame f, k, s')))
new_frame-write_to f k s h r =
    (wire f [], write_to-wire f h, rw (wire-append f [] k) (new_frame-wire f k s h r))
