-- ===== src/Stream/Delivery.antt =====
-- What a stream hands on of frames that arrive in order.
use quic_tracker.Base.{
  ℕ, ◌+◌, ◌≤◌, ◌≡◌, refl, Bool, true, false, ◌&&◌, List, [], ◌∷◌, ◌++◌, Bytes, length, arith,
  Outcome, done, max_alloc, concat, append_assoc, append-nil, length-append, ltb, ◌==◌, ◌∙◌,
}
use quic_tracker.Base.Outcomes.{◌>>=◌}
use quic_tracker.Stream.{
  Stream, StreamFrame, new_stream, add_to_read, note_fin, append_next, note_closed, max_uint64,
}

-- A frame of stream `id` that holds `d` at `offset`.
abbrev pub frame : Bool → ℕ → ℕ → Bytes → StreamFrame
frame fin id offset d = record {
  fin_bit = fin;
  len_bit = true;
  off_bit = ltb 0 offset;
  stream_id = id;
  offset = offset;
  length = length d;
  stream_data = d;
}

unfoldable pub add_all : Stream → List StreamFrame → Outcome Stream
add_all s [] = done s
add_all s (f ∷ fs) = add_to_read s f >>= λ t. add_all t fs

-- The pieces one after another from `offset` on, the last of them with the fin bit.
unfoldable pub frames_from : ℕ → ℕ → List Bytes → List StreamFrame
frames_from id offset [] = []
frames_from id offset (d ∷ []) = frame true id offset d ∷ []
frames_from id offset (d ∷ e ∷ ds) =
    frame false id offset d ∷ frames_from id (offset + length d) (e ∷ ds)

-- All that was received is handed on, up to `offset`, and the end is not known.
record IsReadyAt (offset : ℕ) (s : Stream) : Type 0 where
  at_offset : s.read_offset ≡ offset
  no_more : s.max_read_received ≡ offset
  open_ended : s.read_close_offset ≡ max_uint64

add_next :
    (fin : Bool) (id offset : ℕ) (d : Bytes) (s : Stream)
    → IsReadyAt offset s
    → add_to_read s (frame fin id offset d)
      ≡ done
          (note_closed (append_next (note_fin s (frame fin id offset d)) (frame fin id offset d)))
unfolding add_to_read
add_next fin id offset d s h =
    let both : ((offset == s.read_offset) && (offset == s.max_read_received)) ≡ true =
      ground arith in
    rw both

add_in_order :
    (id offset : ℕ) (d : Bytes) (ds : List Bytes) (s : Stream)
    → IsReadyAt offset s
    → offset + length (d ++ concat ds) ≤ max_alloc
    → (t : Stream) × (add_all s (frames_from id offset (d ∷ ds)) ≡ done t)
      × (t.submitted ≡ s.submitted ++ d ∷ ds)
      × (t.read_data ≡ s.read_data ++ (d ++ concat ds))
      × (t.read_closed ≡ true)
unfolding add_all frames_from append_next note_fin
add_in_order id offset d [] s h fits =
    let f = frame true id offset d in
    (
      note_closed (append_next (note_fin s f) f),
      rw (add_next true id offset d s h),
      refl,
      rw (append-nil d),
      ground (arith, length-append d []),
    )
add_in_order id offset d (e ∷ ds) s h fits =
    let f = frame false id offset d in
    let u : Stream = note_closed (append_next (note_fin s f) f) in
    let small : offset + length d + length (e ++ concat ds) ≤ max_alloc =
      omega (arith, length-append d (e ++ concat ds)) in
    let (t, p, q, r, c) =
      add_in_order id (offset + length d) e ds u
        (record { at_offset = omega arith; no_more = omega arith; open_ended = h.open_ended })
        small in
    (
      t,
      rw (add_next false id offset d s h) p,
      q ∙ append_assoc s.submitted (d ∷ []) (e ∷ ds),
      r ∙ append_assoc s.read_data d (e ++ concat ds),
      c,
    )

-- A new stream that receives pieces one after another from offset 0, the last with the fin bit,
-- hands on these pieces as they are, stores their concatenation, and is closed for reading.
pub add_all-frames_from :
    (id : ℕ) (d : Bytes) (ds : List Bytes)
    → length (concat (d ∷ ds)) ≤ max_alloc
    → (t : Stream) × (add_all new_stream (frames_from id 0 (d ∷ ds)) ≡ done t)
      × (t.submitted ≡ d ∷ ds)
      × (t.read_data ≡ concat (d ∷ ds))
      × (t.read_closed ≡ true)
add_all-frames_from id d ds fits =
    add_in_order id 0 d ds new_stream
      (record { at_offset = refl; no_more = refl; open_ended = refl }) (omega arith)
