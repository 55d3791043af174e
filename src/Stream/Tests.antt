-- ===== src/Stream/Tests.antt =====
-- The runs of streams_test.go, and others at concrete inputs.
use quic_tracker.Base.{ℕ, ◌≡◌, refl, Bool, true, false, [], ◌∷◌, Bytes, length, Outcome}
use quic_tracker.Base.Outcomes.{◌>>=◌}
use quic_tracker.Intervals.{interval}
use quic_tracker.Intervals
use quic_tracker.Stream.{Stream, StreamFrame, new_stream, add_to_read}

abbrev frame : Bool → ℕ → Bytes → StreamFrame
frame fin offset bytes = record {
  fin_bit = fin;
  len_bit = true;
  off_bit = true;
  stream_id = 0;
  offset = offset;
  length = length bytes;
  stream_data = bytes;
}

add_merges : Intervals.add (interval 2 4) (interval 1 2 ∷ interval 4 5 ∷ []) ≡ interval 1 5 ∷ []
unfolding Intervals.add
add_merges = refl

fill_splits : Intervals.fill (interval 3 4) (interval 1 6 ∷ []) ≡ interval 1 2 ∷ interval 5 6 ∷ []
unfolding Intervals.fill
fill_splits = refl

run_test : Outcome Stream
unfolding add_to_read Intervals.add Intervals.fill
run_test = do
  a ← add_to_read new_stream (frame false 4 (4 ∷ 5 ∷ 6 ∷ 7 ∷ []))
  b ← add_to_read a (frame false 0 (0 ∷ 1 ∷ 2 ∷ 3 ∷ []))
  c ← add_to_read b (frame false 12 (4 ∷ 5 ∷ 6 ∷ 7 ∷ []))
  d ← add_to_read c (frame true 16 (8 ∷ 9 ∷ 10 ∷ 11 ∷ []))
  add_to_read d (frame false 8 (0 ∷ 1 ∷ 2 ∷ 3 ∷ []))
