-- ===== src/Frame/LengthLaw.antt =====
-- frames.go: FrameLength of each frame against its writeTo.
use quic_tracker.Base.{
  ℕ, ◌<◌, ap, ◌+◌, ◌%◌, ◌^◌, ◌≡◌, refl, Bool, true, false, List, [], ◌∷◌, ◌++◌, Bytes, length,
  arith, Outcome, done, All, length-append,
}
use quic_tracker.VarInt.{var_int_len}
use quic_tracker.VarInt.RoundTrip.{encoding, length-encoding, var_int_len-encoding_len}
use quic_tracker.Stream.{StreamFrame}
use quic_tracker.Frame.{
  Frame, AckFrame, AckBlock, padding, ping, ack, ack_ecn, reset_stream, stop_sending, crypto,
  new_token, stream, max_data, max_stream_data, max_streams, data_blocked, stream_data_blocked,
  streams_blocked, new_connection_id, retire_connection_id, path_challenge, path_response,
  connection_close, application_close,
}
use quic_tracker.Frame.Write.{write_to, uint16_bytes}
use quic_tracker.Frame.Length.{
  frame_length, ack_blocks_length, ack_frame_length, stream_frame_length,
}
use quic_tracker.Frame.Wire.{
  IsVarInt, IsWritable, IsWritableAck, IsBlock, wire, wire_blocks, wire_ack, wire_stream, optional,
  write_to-wire,
}

-- VarIntLen is the length of the encoding.
len : (i : ℕ) → IsVarInt i → var_int_len i ≡ done (length (encoding i))
len i h = rw (length-encoding i) (var_int_len-encoding_len i h)

len_of : (i : ℕ) (k : Bytes) → length (encoding i ++ k) ≡ length (encoding i) + length k
len_of i k = length-append (encoding i) k

-- A uint16 that, with what follows, counts the bytes written.
abbrev Counts : Outcome ℕ → Bytes → ℕ → Type 0
Counts r k total =
    (m : ℕ) × (r ≡ done m) × (m < 2 ^ 16) × ((m + length k) % 2 ^ 16 ≡ total % 2 ^ 16)

ack_blocks_length-wire_blocks :
    (n : ℕ) (first : Bool) (bs : List AckBlock) (k : Bytes)
    → n < 2 ^ 16
    → All IsBlock bs
    → Counts (ack_blocks_length n first bs) k (n + length (wire_blocks first bs k))
unfolding ack_blocks_length wire_blocks
ack_blocks_length-wire_blocks n first [] k lt h = (n, refl, lt, refl)
ack_blocks_length-wire_blocks n true (a ∷ rest) k lt (ha, hs) =
    let (m, e, b, q) =
      ack_blocks_length-wire_blocks
        (((n + 0 % 2 ^ 16) % 2 ^ 16 + length (encoding a.block) % 2 ^ 16) % 2 ^ 16) false rest k
        (omega arith) hs in
    (m, rw (len a.block ha.1) e, b, omega (arith, q, len_of a.block (wire_blocks false rest k)))
ack_blocks_length-wire_blocks n false (a ∷ rest) k lt (ha, hs) =
    let (m, e, b, q) =
      ack_blocks_length-wire_blocks
        (((n + length (encoding a.gap) % 2 ^ 16) % 2 ^ 16 + length (encoding a.block) % 2 ^ 16)
          % 2 ^ 16)
        false rest k (omega arith) hs in
    (
      m,
      rw (len a.gap ha.0, len a.block ha.1) e,
      b,
      omega (
        arith,
        q,
        len_of a.gap (encoding a.block ++ wire_blocks false rest k),
        len_of a.block (wire_blocks false rest k),
      ),
    )

ack_frame_length-wire_ack :
    (f : AckFrame) (k : Bytes)
    → IsWritableAck f
    → Counts (ack_frame_length f) k (length (wire_ack f k))
unfolding ack_frame_length
ack_frame_length-wire_ack f k (hl, hd, hc, hs) =
    let l = length (encoding f.largest_acknowledged) in
    let d = length (encoding f.ack_delay) in
    let c = length (encoding f.ack_block_count) in
    let blocks = wire_blocks true f.ack_blocks k in
    let (m, e, b, q) =
      ack_blocks_length-wire_blocks ((1 + (l + (d + (c + 0))) % 2 ^ 16) % 2 ^ 16) true f.ack_blocks
        k (omega arith) hs in
    (
      m,
      rw (len f.largest_acknowledged hl, len f.ack_delay hd, len f.ack_block_count hc) e,
      b,
      omega (
        arith,
        q,
        len_of f.largest_acknowledged
            (encoding f.ack_delay ++ (encoding f.ack_block_count ++ blocks)),
        len_of f.ack_delay (encoding f.ack_block_count ++ blocks),
        len_of f.ack_block_count blocks,
      ),
    )

stream_frame_length-wire_stream :
    (f : StreamFrame)
    → IsWritable (stream f)
    → stream_frame_length f ≡ done (length (wire_stream f []) % 2 ^ 16)
unfolding stream_frame_length
stream_frame_length-wire_stream f h = ground (
  arith,
  len f.stream_id,
  len f.offset,
  len f.length,
  len_of f.stream_id
      (optional f.off_bit f.offset (optional f.len_bit f.length (f.stream_data ++ []))),
  len_of f.offset (optional f.len_bit f.length (f.stream_data ++ [])),
  len_of f.length (f.stream_data ++ []),
  length-append f.stream_data [],
)

frame_length-wire : (f : Frame) → IsWritable f → frame_length f ≡ done (length (wire f []) % 2 ^ 16)
unfolding frame_length wire
frame_length-wire padding h = refl
frame_length-wire ping h = refl
frame_length-wire (ack f) h =
    let (m, e, b, q) = ack_frame_length-wire_ack f [] h in rw e (ap done (omega (arith, q)))
frame_length-wire (ack_ecn f a b c) (h, ha, hb, hc) =
    let (m, e, lt, q) =
      ack_frame_length-wire_ack f (encoding a ++ (encoding b ++ (encoding c ++ []))) h in
    rw (e, len a ha, len b hb, len c hc)
      (ap done (
        omega (
          arith,
          q,
          len_of a (encoding b ++ (encoding c ++ [])),
          len_of b (encoding c ++ []),
          len_of c [],
        )))
frame_length-wire (reset_stream id code final) h = ground (
  arith,
  len id,
  len final,
  len_of id (uint16_bytes code ++ (encoding final ++ [])),
  len_of final [],
)
frame_length-wire (stop_sending id code) h =
    ground (arith, len id, len_of id (uint16_bytes code ++ []))
frame_length-wire (crypto offset n d) h = ground (
  arith,
  len offset,
  len n,
  len_of offset (encoding n ++ (d ++ [])),
  len_of n (d ++ []),
  length-append d [],
)
frame_length-wire (new_token token) h =
    ground (arith, len (length token), len_of (length token) (token ++ []), length-append token [])
frame_length-wire (stream f) h = stream_frame_length-wire_stream f h
frame_length-wire (max_data m) h = ground (arith, len m, len_of m [])
frame_length-wire (max_stream_data id m) h =
    ground (arith, len id, len m, len_of id (encoding m ++ []), len_of m [])
frame_length-wire (max_streams false m) h = ground (arith, len m, len_of m [])
frame_length-wire (max_streams true m) h = ground (arith, len m, len_of m [])
frame_length-wire (data_blocked m) h = ground (arith, len m, len_of m [])
frame_length-wire (stream_data_blocked id m) h =
    ground (arith, len id, len m, len_of id (encoding m ++ []), len_of m [])
frame_length-wire (streams_blocked false m) h = ground (arith, len m, len_of m [])
frame_length-wire (streams_blocked true m) h = ground (arith, len m, len_of m [])
frame_length-wire (new_connection_id sequence n id token) h = ground (
  arith,
  len sequence,
  len_of sequence (n ∷ (id ++ (token ++ []))),
  length-append id (token ++ []),
  length-append token [],
)
frame_length-wire (retire_connection_id m) h = ground (arith, len m, len_of m [])
frame_length-wire (path_challenge d) h = ground (arith, length-append d [])
frame_length-wire (path_response d) h = ground (arith, length-append d [])
frame_length-wire (connection_close code t n p) h = ground (
  arith,
  len t,
  len n,
  len_of t (encoding n ++ (p ++ [])),
  len_of n (p ++ []),
  length-append p [],
)
frame_length-wire (application_close code n p) h =
    ground (arith, len n, len_of n (p ++ []), length-append p [])

-- On every writable frame FrameLength and writeTo both return, and FrameLength is the number of
-- bytes written, modulo 2 ^ 16.
pub frame_length-write_to :
    (f : Frame)
    → IsWritable f
    → (bs : Bytes) × (write_to f ≡ done bs) × (frame_length f ≡ done (length bs % 2 ^ 16))
frame_length-write_to f h = (wire f [], write_to-wire f h, frame_length-wire f h)
