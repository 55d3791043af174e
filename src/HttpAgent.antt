-- ===== src/HttpAgent.antt =====
-- agents/http_agent.go: attemptDecoding and peekVarInt, which take HTTP/3 frames out of the pieces
-- of a stream. What the array of a bytes.Buffer holds behind the data is a parameter.
pub mod Pieces
pub mod Cuts
use quic_tracker.Base.{
  ℕ, zero, suc, ◌+◌, ◌-◌, leb, ltb, if◌then◌else◌, List, [], ◌∷◌, ◌++◌, Bytes, length, take, drop,
  Option, none, some, Outcome, done, panic,
}
use quic_tracker.VarInt.{read_var_int_value}
use quic_tracker.VarInt.Value.{VarInt}
use quic_tracker.Http3.{HttpFrame}
use quic_tracker.Http3.Read.{read_http_frame}

-- `ReadVarInt`, whose error is `none`.
abbrev pub peeked : Option ℕ × Bytes → Option VarInt
peeked (some v, rest) = some (record { value = v; length = 4 - length rest })
peeked (none, rest) = none

-- The frames that were taken out, and the bytes that are left in the buffer.
abbrev pub Decoded : Type 0
Decoded = Option (Outcome (List HttpFrame × Bytes))

abbrev pub prepend : HttpFrame → Decoded → Decoded
prepend f (some (done (fs, left))) = some (done (f ∷ fs, left))
prepend f (some panic) = some panic
prepend f none = none

abbrev pub size_of : VarInt → ℕ
size_of l = l.length + 1 + l.value

-- One round, where `go` does the rounds that follow. The frame is read in a reader of its own.
unfoldable pub decode_frame : (Bytes → Decoded) → Bytes → Outcome (Option VarInt) → Decoded
decode_frame go bs panic = some panic
decode_frame go bs (done none) = some (done ([], bs))
decode_frame go bs (done (some l)) =
    if leb (size_of l) (length bs)
    then (elim (read_http_frame [] (take (size_of l) bs)) [
      | panic ↦ some panic
      | done (f, rest) ↦ prepend f (go (drop (size_of l) bs))
    ])
    else some (done ([], bs))

module _ (behind : Bytes → Bytes) where
  -- `buffer.Bytes()[:4]` panics when the array is too short.
  unfoldable pub peek_var_int : Bytes → Outcome (Option VarInt)
  peek_var_int [] = done none
  peek_var_int (b ∷ bs) =
      let all = (b ∷ bs) ++ behind (b ∷ bs) in
      if ltb (length all) 4 then panic else done (peeked (read_var_int_value (take 4 all)))

  -- The loop; `none` when the fuel is used up.
  unfoldable pub decode_from : ℕ → Bytes → Decoded
  unfolding peek_var_int decode_frame
  decode_from zero bs = none
  decode_from (suc n) bs = decode_frame (decode_from n) bs (peek_var_int bs)

  -- Every frame takes a byte or more.
  unfoldable pub attempt_decoding : Bytes → Decoded
  unfolding decode_from
  attempt_decoding bs = decode_from (suc (length bs)) bs
