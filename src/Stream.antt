-- ===== src/Stream.antt =====
-- streams.go: a stream's receiving side. Offsets and lengths are uint64; `int(f.Offset)` is taken
-- for the same number, which it is below 2 ^ 63.
pub mod Tests
pub mod Invariant
pub mod Delivery
pub mod Zeros
pub mod Send
use quic_tracker.Base.{
  ℕ, ◌+◌, ◌-◌, ◌^◌, ◌%◌, Bool, true, false, not, ◌&&◌, List, [], ◌∷◌, ◌++◌, Bytes, length, take,
  drop, make_bytes, leb, ltb, ◌==◌, if◌then◌else◌, Outcome, done, panic,
}
use quic_tracker.Base.Outcomes.{◌>>=◌}
use quic_tracker.Intervals.{ByteInterval, interval}
use quic_tracker.Intervals

abbrev pub max_uint64 : ℕ
max_uint64 = 2 ^ 64 - 1

-- `submitted` is what was handed to ReadChan, oldest first, as it was at that time.
pub record Stream : Type 0 where
  pub read_offset : ℕ
  pub write_offset : ℕ
  pub read_data : Bytes
  pub write_data : Bytes
  pub submitted : List Bytes
  pub max_read_received : ℕ
  pub gaps : List ByteInterval
  pub read_closed : Bool
  pub read_close_offset : ℕ
  pub write_closed : Bool
  pub write_close_offset : ℕ

abbrev pub new_stream : Stream
new_stream = record {
  read_offset = 0;
  write_offset = 0;
  read_data = [];
  write_data = [];
  submitted = [];
  max_read_received = 0;
  gaps = [];
  read_closed = false;
  read_close_offset = max_uint64;
  write_closed = false;
  write_close_offset = max_uint64;
}

-- frames.go: the frame that a stream is given
pub record StreamFrame : Type 0 where
  pub fin_bit : Bool
  pub len_bit : Bool
  pub off_bit : Bool
  pub stream_id : ℕ
  pub offset : ℕ
  pub length : ℕ
  pub stream_data : Bytes

-- `f.Offset + f.Length`, which wraps.
abbrev pub frame_end : StreamFrame → ℕ
frame_end f = (f.offset + f.length) % 2 ^ 64

-- `copy(dst[at:], src)` panics if `at` is past the end, and stops at the end of `dst`.
unfoldable pub copy_at : Bytes → ℕ → Bytes → Outcome Bytes
copy_at dst at src =
    if leb at (length dst)
    then done (
        take at dst
        ++ take (length dst - at) src
        ++ drop (at + length (take (length dst - at) src)) dst)
    else panic

-- `s[low:high]`. A bound past the length is a panic here; Go allows it up to the capacity.
unfoldable pub slice : Bytes → ℕ → ℕ → Outcome Bytes
slice s low high =
    if leb low high && leb high (length s) then done (take (high - low) (drop low s)) else panic

-- The handling of the fin bit: a first one sets the offset, and another one is ignored.
unfoldable pub note_fin : Stream → StreamFrame → Stream
note_fin s f = record s {
  read_close_offset =
      if f.fin_bit
      then (if not (s.read_close_offset == max_uint64) && not (s.read_close_offset == frame_end f)
          then s.read_close_offset
          else frame_end f)
      else s.read_close_offset;
}

-- The frame continues what was read.
unfoldable pub append_next : Stream → StreamFrame → Stream
append_next s f =
    let end = (s.read_offset + f.length) % 2 ^ 64 in
    record s {
      read_offset = end;
      max_read_received = end;
      read_data = s.read_data ++ f.stream_data;
      submitted = s.submitted ++ (f.stream_data ∷ []);
    }

-- The frame reaches past what was received.
unfoldable pub extend : Stream → StreamFrame → Outcome Stream
extend s f =
    let gaps =
      if ltb s.max_read_received f.offset
      then Intervals.add (interval s.max_read_received f.offset) s.gaps
      else s.gaps in
    do
      fresh ← make_bytes (f.offset + length f.stream_data)
      copied ← copy_at fresh 0 s.read_data
      filled ← copy_at copied f.offset f.stream_data
      done (record s { gaps = gaps; max_read_received = frame_end f; read_data = filled })

abbrev pub first_gap : List ByteInterval → Bytes → ℕ
first_gap [] bs = length bs
first_gap (g ∷ gs) bs = g.start

-- What is readable up to the first gap is handed on.
unfoldable pub deliver : Stream → Outcome Stream
deliver s =
    let first = first_gap s.gaps s.read_data in
    if ltb s.read_offset first
    then (do
      bytes ← slice s.read_data s.read_offset first
      done (record s { submitted = s.submitted ++ (bytes ∷ []); read_offset = first }))
    else done s

-- The frame lies within what was received.
unfoldable pub fill_in : Stream → StreamFrame → Outcome Stream
unfolding deliver
fill_in s f = do
  data_in ← copy_at s.read_data f.offset f.stream_data
  deliver (record s {
    gaps = Intervals.fill (interval f.offset (frame_end f)) s.gaps;
    read_data = data_in;
  })

abbrev pub note_closed : Stream → Stream
note_closed s = record s {
  read_closed = if s.read_offset == s.read_close_offset then true else s.read_closed;
}

unfoldable pub store : Stream → StreamFrame → Outcome Stream
unfolding append_next extend fill_in copy_at slice
store s f =
    if (f.offset == s.read_offset) && (f.offset == s.max_read_received)
    then done (append_next s f)
    else if ltb s.max_read_received (frame_end f)
    then extend s f
    else fill_in s f

unfoldable pub add_to_read : Stream → StreamFrame → Outcome Stream
unfolding note_fin store
add_to_read s f = do s' ← store (note_fin s f) f; done (note_closed s')
