-- ===== src/Http3/Read.antt =====
-- http3/http3.go: ReadHTTPFrame and the readers of the frames.
use quic_tracker.Base.{
  ℕ, zero, suc, ◌+◌, ◌-◌, ◌/◌, ◌^◌, bit_and, List, [], ◌∷◌, ◌++◌, Bytes, length, drop, replicate,
  leb, ltb, ◌==◌, if◌then◌else◌, Option, none, some, Outcome, done, panic, max_alloc,
}
use quic_tracker.Reader.{
  Parser, return, ◌>>=◌, big_endian, read, read_byte, read_full, make_then_read,
}
use quic_tracker.VarInt.Value.{VarInt, read_var_int}
use quic_tracker.Http3.{
  HttpFrameHeader, Setting, Body, HttpFrame, data_body, headers, priority, cancel_push, settings,
  push_promise, goaway, max_push_id, unknown, frame_type_data, frame_type_headers,
  frame_type_priority, frame_type_cancel_push, frame_type_settings, frame_type_push_promise,
  frame_type_goaway, frame_type_max_push_id,
}

unfoldable pub read_http_frame_header : Parser HttpFrameHeader
read_http_frame_header = do
  l ← read_var_int
  t ← read_byte
  return (record { length = l; kind = t })

abbrev framed : HttpFrameHeader → Body → HttpFrame
framed h b = record { header = h; body = b }

-- A frame that is one run of bytes.
unfoldable pub read_opaque : (Bytes → Body) → Parser HttpFrame
unfolding read_http_frame_header
read_opaque make = do
  h ← read_http_frame_header
  content ← make_then_read h.length.value read
  return (framed h (make content))

-- A frame that is one number.
unfoldable pub read_number : (VarInt → Body) → Parser HttpFrame
unfolding read_http_frame_header
read_number make = do h ← read_http_frame_header; id ← read_var_int; return (framed h (make id))

unfoldable pub read_priority : Parser HttpFrame
unfolding read_http_frame_header
read_priority = do
  h ← read_http_frame_header
  first ← read_byte
  prioritized ← read_var_int
  dependency ← read_var_int
  weight ← read_byte
  return (
      framed h (
        priority (record {
          prioritized_type = bit_and first 0xc0 / 2 ^ 6;
          dependency_type = bit_and first 0x30 / 2 ^ 4;
          empty = bit_and first 0xe / 2;
          exclusive = bit_and first 0x1 == 0x1;
          prioritized_element_id = prioritized;
          element_dependency_id = dependency;
          weight = weight;
        })))

unfoldable pub read_setting : Parser Setting
read_setting = do
  id ← read_full 2
  v ← read_var_int
  return (record { identifier = big_endian 0 id; value = v })

abbrev pub prepend : Setting → Option (Outcome (List Setting)) → Option (Outcome (List Setting))
prepend s (some (done l)) = some (done (s ∷ l))
prepend s (some panic) = some panic
prepend s none = none

-- The loop `for settingsReader.Len() > 0`; `none` when the fuel is used up.
unfoldable pub read_settings_from : ℕ → Bytes → Option (Outcome (List Setting))
read_settings_from zero bs = none
read_settings_from (suc n) [] = some (done [])
read_settings_from (suc n) (b ∷ bs) = elim (read_setting (b ∷ bs)) [
  | done (s, rest) ↦ prepend s (read_settings_from n rest)
  | panic ↦ some panic
]

-- Every round takes a byte or more.
unfoldable pub settings_of : Bytes → Option (Outcome (List Setting))
settings_of bs = read_settings_from (suc (length bs)) bs

-- The fuel is never used up, so that the case of `none` is not reached.
abbrev settings_or_panic : Option (Outcome (List Setting)) → Bytes → Outcome (List Setting × Bytes)
settings_or_panic (some (done l)) rest = done (l, rest)
settings_or_panic (some panic) rest = panic
settings_or_panic none rest = panic

unfoldable pub read_settings : Parser HttpFrame
unfolding read_http_frame_header
read_settings = do
  h ← read_http_frame_header
  content ← make_then_read h.length.value read
  l ← settings_or_panic (settings_of content)
  return (framed h (settings l))

-- `make([]byte, n)` of an `int` that may be negative; no byte is read into it.
unfoldable pub make_block : ℕ → ℕ → Parser Bytes
make_block n taken bs =
    if ltb n taken
    then panic
    else if leb (n - taken) max_alloc
    then done (replicate (n - taken) 0, bs)
    else panic

unfoldable pub read_push_promise : Parser HttpFrame
unfolding read_http_frame_header make_block
read_push_promise = do
  h ← read_http_frame_header
  id ← read_var_int
  block ← make_block h.length.value id.length
  return (framed h (push_promise id block))

-- The switch on the type byte.
unfoldable pub frame_of_kind : ℕ → Parser HttpFrame
unfolding read_opaque read_number read_priority read_settings read_push_promise
frame_of_kind t =
    if t == frame_type_data
    then read_opaque data_body
    else if t == frame_type_headers
    then read_opaque headers
    else if t == frame_type_priority
    then read_priority
    else if t == frame_type_cancel_push
    then read_number cancel_push
    else if t == frame_type_settings
    then read_settings
    else if t == frame_type_push_promise
    then read_push_promise
    else if t == frame_type_goaway
    then read_number goaway
    else if t == frame_type_max_push_id
    then read_number max_push_id
    else read_opaque unknown

-- `Seek(-n, SeekCurrent)` in a buffer whose bytes up to `left` are `before ++ bs` without `left`:
-- before its start the reader stays where it is.
abbrev pub seek_back : ℕ → Bytes → Bytes → Bytes → Bytes
seek_back n before bs left =
    let position = length before + (length bs - length left) in
    if leb n position then drop (position - n) (before ++ bs) else left

-- `before` is what was already taken from the buffer. The header is peeked at.
unfoldable pub read_http_frame : Bytes → Parser HttpFrame
unfolding frame_of_kind
read_http_frame before bs =
    (do
      l ← read_var_int
      t ← read_byte
      (λ left. frame_of_kind t (seek_back (l.length + 1) before bs left)))
      bs
