-- ===== src/Stream/Send.antt =====
-- frames.go: NewStreamFrame and NewCryptoFrame, which take data to send from a stream's writing
-- side, and addToRead at the other end.
use quic_tracker.Base.{
  ℕ, ◌+◌, ◌%◌, ◌^◌, ◌≤◌, ◌≡◌, refl, ◌∙◌, Bool, true, false, List, [], ◌∷◌, ◌++◌, Bytes, length,
  concat, ltb, arith, done, max_alloc, length-append, append_assoc, append-nil,
}
use quic_tracker.Stream.{Stream, StreamFrame, new_stream}
use quic_tracker.Stream.Delivery.{add_all, frames_from, add_all-frames_from}
use quic_tracker.Frame.{Frame, crypto}

unfoldable pub new_stream_frame : ℕ → Stream → Bytes → Bool → StreamFrame × Stream
new_stream_frame id s content fin = (
  record {
    fin_bit = fin;
    len_bit = true;
    off_bit = ltb 0 s.write_offset;
    stream_id = id;
    offset = s.write_offset;
    length = length content;
    stream_data = content;
  },
  record s {
    write_offset = (s.write_offset + length content) % 2 ^ 64;
    write_data = s.write_data ++ content;
    write_closed = fin;
  },
)

unfoldable pub new_crypto_frame : Stream → Bytes → Frame × Stream
new_crypto_frame s content = (
  crypto s.write_offset (length content) content,
  record s {
    write_offset = (s.write_offset + length content) % 2 ^ 64;
    write_data = s.write_data ++ content;
  },
)

-- One call of NewStreamFrame after another, the last with the fin bit: the frames, and the stream.
unfoldable pub send_all : ℕ → Stream → List Bytes → List StreamFrame × Stream
send_all id s [] = ([], s)
send_all id s (d ∷ []) = let r = new_stream_frame id s d true in (r.0 ∷ [], r.1)
send_all id s (d ∷ e ∷ ds) =
    let r = new_stream_frame id s d false in
    let more = send_all id r.1 (e ∷ ds) in (r.0 ∷ more.0, more.1)

-- What the sender keeps: all that was sent, and the offset after it.
abbrev pub IsSent : ℕ → Bytes → Stream → Type 0
IsSent offset content s =
    (s.write_offset ≡ offset) × (s.write_data ≡ content) × (s.write_closed ≡ true)

abbrev SendsFrom : ℕ → ℕ → Stream → List Bytes → Type 0
SendsFrom id offset s ds =
    ((send_all id s ds).0 ≡ frames_from id offset ds)
    × IsSent (offset + length (concat ds)) (s.write_data ++ concat ds) (send_all id s ds).1

send_all-frames_from :
    (id offset : ℕ) (s : Stream) (d : Bytes) (ds : List Bytes)
    → s.write_offset ≡ offset
    → offset + length (concat (d ∷ ds)) ≤ max_alloc
    → SendsFrom id offset s (d ∷ ds)
unfolding send_all frames_from new_stream_frame
send_all-frames_from id offset s d [] e h =
    (rw e, (omega (arith, e, length-append d []), rw (append-nil d), refl))
send_all-frames_from id offset s d (c ∷ ds) e h =
    let total = length-append d (concat (c ∷ ds)) in
    let next = (new_stream_frame id s d false).1 in
    let (f, (w, b, fin)) =
      send_all-frames_from id (offset + length d) next c ds (omega (arith, e, total, h))
        (omega (arith, total, h)) in
    (rw (f, e), (omega (arith, w, total), b ∙ append_assoc s.write_data d (concat (c ∷ ds)), fin))

-- Pieces that NewStreamFrame takes from a new stream one after another, the last with the fin bit,
-- are delivered by addToRead on a new stream at the other end: the same pieces in the same order,
-- and then the stream is closed for reading. The sender keeps their concatenation and its length.
pub add_all-send_all :
    (id : ℕ) (d : Bytes) (ds : List Bytes)
    → length (concat (d ∷ ds)) ≤ max_alloc
    → (t : Stream) × (add_all new_stream (send_all id new_stream (d ∷ ds)).0 ≡ done t)
      × (t.submitted ≡ d ∷ ds)
      × (t.read_closed ≡ true)
      × IsSent (length (concat (d ∷ ds))) (concat (d ∷ ds)) (send_all id new_stream (d ∷ ds)).1
add_all-send_all id d ds h =
    let (f, (w, b, fin)) = send_all-frames_from id 0 new_stream d ds refl (omega (arith, h)) in
    let (t, e, submitted, stored, closed) = add_all-frames_from id d ds h in
    (t, rw f e, submitted, closed, (omega (arith, w), b, fin))
