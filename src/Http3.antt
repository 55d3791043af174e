-- ===== src/Http3.antt =====
-- http3/http3.go: the frames of HTTP/3, with the header that each begins with.
pub mod Read
pub mod Wire
pub mod RoundTrip
pub mod Settings
use quic_tracker.Base.{
  ℕ, ◌+◌, ◌*◌, ◌%◌, ◌^◌, bit_or, Bool, true, false, List, [], ◌∷◌, ◌++◌, Bytes, length,
  if◌then◌else◌, Outcome, done,
}
use quic_tracker.Base.Outcomes.{◌>>=◌}
use quic_tracker.VarInt.{encode_var_int, var_int_len}
use quic_tracker.VarInt.Value.{VarInt, new_var_int}
use quic_tracker.Frame.Write.{◌then_write◌, uint16_bytes}

abbrev pub frame_type_data : ℕ
frame_type_data = 0x0

abbrev pub frame_type_headers : ℕ
frame_type_headers = 0x1

abbrev pub frame_type_priority : ℕ
frame_type_priority = 0x2

abbrev pub frame_type_cancel_push : ℕ
frame_type_cancel_push = 0x3

abbrev pub frame_type_settings : ℕ
frame_type_settings = 0x4

abbrev pub frame_type_push_promise : ℕ
frame_type_push_promise = 0x5

abbrev pub frame_type_goaway : ℕ
frame_type_goaway = 0x7

abbrev pub frame_type_max_push_id : ℕ
frame_type_max_push_id = 0xd

pub record HttpFrameHeader : Type 0 where
  pub length : VarInt
  pub kind : ℕ

pub record Priority : Type 0 where
  pub prioritized_type : ℕ
  pub dependency_type : ℕ
  pub empty : ℕ
  pub exclusive : Bool
  pub prioritized_element_id : VarInt
  pub element_dependency_id : VarInt
  pub weight : ℕ

pub record Setting : Type 0 where
  pub identifier : ℕ
  pub value : VarInt

-- What follows the header.
pub data Body : Type 0 where
  data_body : (payload : Bytes) → Body
  headers : (header_block : Bytes) → Body
  priority : Priority → Body
  cancel_push : (push_id : VarInt) → Body
  settings : List Setting → Body
  push_promise : (push_id : VarInt) (header_block : Bytes) → Body
  goaway : (stream_id : VarInt) → Body
  max_push_id : (push_id : VarInt) → Body
  unknown : (opaque_payload : Bytes) → Body

pub record HttpFrame : Type 0 where
  pub header : HttpFrameHeader
  pub body : Body

unfoldable pub wire_length : HttpFrame → ℕ
wire_length f = (f.header.length.length + 1 + f.header.length.value) % 2 ^ 64

abbrev pub write_header : HttpFrameHeader → Outcome Bytes
write_header h = encode_var_int h.length.value then_write done (h.kind ∷ [])

-- Shifts of a uint8.
abbrev pub first_byte : Priority → ℕ
first_byte p =
    let fields =
      bit_or (bit_or (p.prioritized_type * 2 ^ 6 % 256) (p.dependency_type * 2 ^ 4 % 256))
        (p.empty * 2 % 256) in
    if p.exclusive then bit_or fields 0x1 else fields

unfoldable pub write_settings : List Setting → Outcome Bytes
write_settings [] = done []
write_settings (s ∷ rest) =
    done (uint16_bytes s.identifier)
    then_write encode_var_int s.value.value
    then_write write_settings rest

unfoldable pub write_body : Body → Outcome Bytes
unfolding write_settings
write_body (data_body payload) = done payload
write_body (headers block) = done block
write_body (priority p) =
    done (first_byte p ∷ [])
    then_write encode_var_int p.prioritized_element_id.value
    then_write encode_var_int p.element_dependency_id.value
    then_write done (p.weight ∷ [])
write_body (cancel_push id) = encode_var_int id.value
write_body (settings l) = write_settings l
write_body (push_promise id block) = encode_var_int id.value then_write done block
write_body (goaway id) = encode_var_int id.value
write_body (max_push_id id) = encode_var_int id.value
write_body (unknown payload) = done payload

unfoldable pub write_to : HttpFrame → Outcome Bytes
unfolding write_body
write_to f = write_header f.header then_write write_body f.body

abbrev framed : ℕ → ℕ → Body → Outcome HttpFrame
framed n kind body = do
  l ← new_var_int n
  done (record { header = record { length = l; kind = kind }; body = body })

unfoldable pub new_data : Bytes → Outcome HttpFrame
new_data payload = framed (length payload) frame_type_data (data_body payload)

unfoldable pub new_headers : Bytes → Outcome HttpFrame
new_headers block = framed (length block) frame_type_headers (headers block)

unfoldable pub new_priority :
    (prioritized_type dependency_type : ℕ) (exclusive : Bool)
    (prioritized_element_id element_dependency_id weight : ℕ)
    → Outcome HttpFrame
new_priority prioritized_type dependency_type exclusive prioritized dependency weight = do
  n ← var_int_len prioritized
  m ← var_int_len dependency
  p ← new_var_int prioritized
  d ← new_var_int dependency
  framed (1 + n + m + 1) frame_type_priority (
      priority (record {
        prioritized_type = prioritized_type;
        dependency_type = dependency_type;
        empty = 0;
        exclusive = exclusive;
        prioritized_element_id = p;
        element_dependency_id = d;
        weight = weight;
      }))

-- A frame with one number.
abbrev with_number : ℕ → (VarInt → Body) → ℕ → Outcome HttpFrame
with_number kind make i = do n ← var_int_len i; v ← new_var_int i; framed n kind (make v)

unfoldable pub new_cancel_push : ℕ → Outcome HttpFrame
new_cancel_push = with_number frame_type_cancel_push cancel_push

unfoldable pub new_goaway : ℕ → Outcome HttpFrame
new_goaway = with_number frame_type_goaway goaway

unfoldable pub new_max_push_id : ℕ → Outcome HttpFrame
new_max_push_id = with_number frame_type_max_push_id max_push_id

abbrev pub settings_length : List Setting → ℕ
settings_length [] = 0
settings_length (s ∷ rest) = s.value.length + 2 + settings_length rest

unfoldable pub new_settings : List Setting → Outcome HttpFrame
new_settings l = framed (settings_length l) frame_type_settings (settings l)

unfoldable pub new_push_promise : ℕ → Bytes → Outcome HttpFrame
new_push_promise id block = do
  n ← var_int_len id
  v ← new_var_int id
  framed (n + length block) frame_type_push_promise (push_promise v block)
