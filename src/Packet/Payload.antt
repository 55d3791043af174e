-- ===== src/Packet/Payload.antt =====
-- packets.go: EncodePayload, and the loop that reads frames until the buffer's end.
use quic_tracker.Base.{
  ℕ, zero, suc, ◌≤◌, ◌<◌, ◌≡◌, refl, true, false, List, [], ◌∷◌, ◌++◌, Bytes, length, some, Outcome,
  done, arith, Outcome-cases, inl, inr, length-append,
}
use quic_tracker.Base.Outcomes.{◌>>=◌}
use quic_tracker.Stream.{Stream}
use quic_tracker.Streams.{Streams}
use quic_tracker.Frame.{
  Frame, padding, ping, ack, ack_ecn, reset_stream, stop_sending, crypto, new_token, stream,
  max_data, max_stream_data, max_streams, data_blocked, stream_data_blocked, streams_blocked,
  new_connection_id, retire_connection_id, path_challenge, path_response, connection_close,
  application_close,
}
use quic_tracker.Frame.Read.{new_frame}
use quic_tracker.Frame.Wire.{IsWritable, wire, write_to-wire}
use quic_tracker.Frame.RoundTrip.{IsReadable, handed, new_frame-write_to}
use quic_tracker.Packet.{
  Payload, encode_payload, to_crypto_stream, append_frame, read_frames, read_payload, after_frame,
}

-- The bytes of a payload.
abbrev pub wire_all : List Frame → Bytes
wire_all [] = []
wire_all (f ∷ rest) = wire f [] ++ wire_all rest

-- Every frame can be written, and read back where it stands: a STREAM frame without a length is
-- the last one.
abbrev pub IsPayload : List Frame → Type 0
IsPayload [] = Unit {0}
IsPayload (f ∷ rest) = IsWritable f × IsReadable f (wire_all rest) × IsPayload rest

-- What the frames leave behind: each is handed to its stream or to the crypto stream, in order.
abbrev pub given : List Frame → Streams → Stream → Outcome Payload
given [] s c = done ([], s, c)
given (f ∷ rest) s c =
    handed f s >>= λ s'. to_crypto_stream f c >>= λ c'. append_frame f (given rest s' c')

pub encode_payload-wire_all :
    (fs : List Frame) → IsPayload fs → encode_payload fs ≡ done (wire_all fs)
unfolding encode_payload
encode_payload-wire_all [] h = refl
encode_payload-wire_all (f ∷ rest) (h, r, hs) =
    rw (write_to-wire f h, encode_payload-wire_all rest hs) refl

read_frames-wire_all :
    (n : ℕ) (fs : List Frame) (s : Streams) (c : Stream)
    → length fs < n
    → IsPayload fs
    → read_frames n s c (wire_all fs) ≡ some (given fs s c)
unfolding read_frames after_frame
read_frames-wire_all zero fs s c l h = absurd (omega (arith, l))
read_frames-wire_all (suc n) [] s c l h = unfold new_frame in refl
read_frames-wire_all (suc n) (f ∷ rest) s c l (h, r, hs) =
    let (bs, w, e) = new_frame-write_to f (wire_all rest) s h r in
    let same : wire f [] ≡ bs = cc (write_to-wire f h) in
    elim (Outcome-cases (handed f s)) [
      | inl p ↦ rw (same, e, p) refl
      | inr (s', p) ↦ elim (Outcome-cases (to_crypto_stream f c)) [
        | inl q ↦ rw (same, e, p, after_frame, q) refl
        | inr (c', q) ↦
            rw (same, e, p, after_frame, q, read_frames-wire_all n rest s' c' (omega (arith, l)) hs)
              refl
      ]
    ]

-- A frame takes a byte or more.
length-wire : (f : Frame) → 1 ≤ length (wire f [])
unfolding wire
length-wire padding = omega arith
length-wire ping = omega arith
length-wire (ack f) = omega arith
length-wire (ack_ecn f a b c) = omega arith
length-wire (reset_stream a b c) = omega arith
length-wire (stop_sending a b) = omega arith
length-wire (crypto a b d) = omega arith
length-wire (new_token d) = omega arith
length-wire (stream f) = omega arith
length-wire (max_data a) = omega arith
length-wire (max_stream_data a b) = omega arith
length-wire (max_streams false a) = omega arith
length-wire (max_streams true a) = omega arith
length-wire (data_blocked a) = omega arith
length-wire (stream_data_blocked a b) = omega arith
length-wire (streams_blocked false a) = omega arith
length-wire (streams_blocked true a) = omega arith
length-wire (new_connection_id a b d e) = omega arith
length-wire (retire_connection_id a) = omega arith
length-wire (path_challenge d) = omega arith
length-wire (path_response d) = omega arith
length-wire (connection_close a b c d) = omega arith
length-wire (application_close a b d) = omega arith

pub length-wire_all : (fs : List Frame) → length fs ≤ length (wire_all fs)
length-wire_all [] = omega arith
length-wire_all (f ∷ rest) =
    omega (arith, length-wire f, length-wire_all rest, length-append (wire f []) (wire_all rest))

pub read_payload-wire_all :
    (fs : List Frame) (s : Streams) (c : Stream)
    → IsPayload fs
    → read_payload s c (wire_all fs) ≡ some (given fs s c)
unfolding read_payload
read_payload-wire_all fs s c h =
    read_frames-wire_all (suc (length (wire_all fs))) fs s c (omega (arith, length-wire_all fs)) h

-- Frames that can be written, and read back where they stand: EncodePayload writes them without a
-- panic, and the readers' loop reads the same frames, in order and with none left out, until the
-- end of the payload. Each STREAM frame is handed to its stream and each CRYPTO frame to the crypto
-- stream, in that order.
pub read_payload-encode_payload :
    (fs : List Frame) (s : Streams) (c : Stream)
    → IsPayload fs
    → (bs : Bytes) × (encode_payload fs ≡ done bs) × (read_payload s c bs ≡ some (given fs s c))
read_payload-encode_payload fs s c h =
    (wire_all fs, encode_payload-wire_all fs h, read_payload-wire_all fs s c h)
