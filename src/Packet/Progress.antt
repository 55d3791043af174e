-- ===== src/Packet/Progress.antt =====
-- packets.go: the readers' loop comes to an end on every payload.
use quic_tracker.Base.{
  ℕ, zero, suc, ◌≤◌, ◌<◌, ◌≡◌, refl, [], ◌∷◌, Bytes, length, some, Option, Outcome, done, panic,
  arith, Outcome-cases, inl, inr,
}
use quic_tracker.Stream.{Stream}
use quic_tracker.Streams.{Streams}
use quic_tracker.Frame.Read.{Result, frame, end_of_buffer, unknown_type, new_frame}
use quic_tracker.Frame.Progress.{Leaves, new_frame-Leaves}
use quic_tracker.Packet.{
  Payload, to_crypto_stream, append_frame, after_frame, read_frames, read_payload,
}

-- A round ends if the rounds after it end on what is left.
after_frame-ends :
    (r : Result) (go : Streams → Stream → Bytes → Option (Outcome Payload)) (c : Stream) (n : ℕ)
    → Leaves n r
    → ((s : Streams) (c' : Stream) (bs : Bytes)
        → length bs ≤ n
        → (o : Outcome Payload) × (go s c' bs ≡ some o))
    → (o : Outcome Payload) × (after_frame go c r ≡ some o)
unfolding after_frame
after_frame-ends panic go c n l h = (panic, refl)
after_frame-ends (done (end_of_buffer, rest, s)) go c n l h = (_, refl)
after_frame-ends (done (unknown_type t, rest, s)) go c n l h = (panic, refl)
after_frame-ends (done (frame f, rest, s)) go c n l h =
    elim (Outcome-cases (to_crypto_stream f c)) [
      | inl e ↦ (panic, rw (after_frame, e) refl)
      | inr (c', e) ↦ let (o, p) = h s c' rest l in (append_frame f o, rw (after_frame, e, p) refl)
    ]

read_frames-ends :
    (n : ℕ) (s : Streams) (c : Stream) (bs : Bytes)
    → length bs < n
    → (o : Outcome Payload) × (read_frames n s c bs ≡ some o)
unfolding read_frames
read_frames-ends zero s c bs lt = absurd (omega (arith, lt))
read_frames-ends (suc n) s c [] lt =
    (done ([], s, c), unfold new_frame in (unfold after_frame in refl))
read_frames-ends (suc n) s c (b ∷ bs) lt =
    after_frame-ends (new_frame s (b ∷ bs)) (read_frames n) c (length bs) (new_frame-Leaves s b bs)
      λ s' c' rest le. read_frames-ends n s' c' rest (omega (arith, le, lt))

-- On any bytes at all, whatever the streams: the loop that reads a payload ends, with the frames or
-- with a panic, since every frame takes a byte or more.
pub read_payload-ends :
    (s : Streams) (c : Stream) (bs : Bytes) → (o : Outcome Payload) × (read_payload s c bs ≡ some o)
unfolding read_payload
read_payload-ends s c bs = read_frames-ends (suc (length bs)) s c bs (omega arith)
