-- ===== src/Examples/Http.antt =====
-- The theorems on the HTTP agent at concrete inputs.
use quic_tracker.Base.{ℕ, ◌≡◌, ◌≢◌, refl, [], ◌∷◌, ◌++◌, Bytes, arith, done, some, none}
use quic_tracker.Http3.{HttpFrame, data_body}
use quic_tracker.HttpAgent.{attempt_decoding, decode_from, decode_frame, peek_var_int}
use quic_tracker.HttpAgent.Cuts.{attempt_decoding-append, attempt_decoding-ends}
use quic_tracker.VarInt.Value.{read_var_int}
use quic_tracker.VarInt.{read_var_int_value}
use quic_tracker.Http3.Read.{read_http_frame, read_http_frame_header, frame_of_kind, read_opaque}

-- The array behind the data holds zeros, then ones.
abbrev zeros : Bytes → Bytes
zeros bs = 0 ∷ 0 ∷ 0 ∷ 0 ∷ []

abbrev ones : Bytes → Bytes
ones bs = 1 ∷ 1 ∷ 1 ∷ []

-- A DATA frame and the start of another one.
abbrev first_piece : Bytes
first_piece = 1 ∷ 0 ∷ 7 ∷ 2 ∷ 0 ∷ []

abbrev second_piece : Bytes
second_piece = 8 ∷ 9 ∷ 1 ∷ []

abbrev a_data : ℕ → Bytes → HttpFrame
a_data n payload = record {
  header = record { length = record { value = n; length = 1 }; kind = 0 };
  body = data_body payload;
}

first_decoded :
    attempt_decoding zeros first_piece ≡ some (done (a_data 1 (7 ∷ []) ∷ [], 2 ∷ 0 ∷ []))
unfolding attempt_decoding decode_from decode_frame peek_var_int read_var_int_value read_var_int
    read_http_frame read_http_frame_header frame_of_kind read_opaque
    quic_tracker.Reader.make_then_read quic_tracker.Reader.read
first_decoded = refl

second_decoded :
    attempt_decoding ones (2 ∷ 0 ∷ second_piece) ≡ some (done (a_data 2 (8 ∷ 9 ∷ []) ∷ [], 1 ∷ []))
unfolding attempt_decoding decode_from decode_frame peek_var_int read_var_int_value read_var_int
    read_http_frame read_http_frame_header frame_of_kind read_opaque
    quic_tracker.Reader.make_then_read quic_tracker.Reader.read
second_decoded = refl

cut_example :
    attempt_decoding zeros (first_piece ++ second_piece)
    ≡ some (done (a_data 1 (7 ∷ []) ∷ a_data 2 (8 ∷ 9 ∷ []) ∷ [], 1 ∷ []))
cut_example =
    attempt_decoding-append zeros ones zeros (λ bs. omega arith) (λ bs. omega arith)
      (λ bs. omega arith) first_piece second_piece (2 ∷ 0 ∷ []) (1 ∷ []) (a_data 1 (7 ∷ []) ∷ [])
      (a_data 2 (8 ∷ 9 ∷ []) ∷ []) first_decoded second_decoded

ends_example : attempt_decoding ones first_piece ≢ none
ends_example = attempt_decoding-ends ones first_piece
