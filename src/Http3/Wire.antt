-- ===== src/Http3/Wire.antt =====
-- http3/http3.go: the bytes of a frame, and what WriteTo writes.
use quic_tracker.Base.{
  ℕ, ◌+◌, ◌*◌, ◌/◌, ◌%◌, ◌^◌, bit_or, ◌≤◌, ◌<◌, ◌≡◌, ◌≢◌, refl, ap, ◌∙◌, Bool, true, false, List,
  [], ◌∷◌, ◌++◌, Bytes, length, All, if◌then◌else◌, arith, done, max_alloc, length-append,
  append_assoc,
}
use quic_tracker.Base.Bits.{bit_or_fields, bit_or_01}
use quic_tracker.VarInt.RoundTrip.{
  encoding, encode_var_int-encoding, length-encoding, encoding_len-le,
}
use quic_tracker.VarInt.Value.{IsEncoded}
use quic_tracker.Frame.Write.{uint16_bytes}
use quic_tracker.Http3.{
  Priority, Setting, Body, HttpFrame, data_body, headers, priority, cancel_push, settings,
  push_promise, goaway, max_push_id, unknown, first_byte, write_settings, write_body, write_to,
  wire_length,
}

-- The first byte of a PRIORITY frame as a sum.
abbrev pub bit : Bool → ℕ
bit true = 1
bit false = 0

abbrev pub fields_sum : Priority → ℕ
fields_sum p = p.prioritized_type * 64 + p.dependency_type * 16 + p.empty * 2 + bit p.exclusive

abbrev pub setting_bytes : List Setting → Bytes
setting_bytes [] = []
setting_bytes (s ∷ rest) =
    uint16_bytes s.identifier ++ (encoding s.value.value ++ setting_bytes rest)

abbrev pub body_bytes : Body → Bytes
body_bytes (data_body payload) = payload
body_bytes (headers block) = block
body_bytes (priority p) =
    fields_sum p
    ∷ (encoding p.prioritized_element_id.value
        ++ (encoding p.element_dependency_id.value ++ p.weight ∷ []))
body_bytes (cancel_push id) = encoding id.value
body_bytes (settings l) = setting_bytes l
body_bytes (push_promise id block) = encoding id.value ++ block
body_bytes (goaway id) = encoding id.value
body_bytes (max_push_id id) = encoding id.value
body_bytes (unknown payload) = payload

abbrev pub frame_bytes : HttpFrame → Bytes
frame_bytes f = encoding f.header.length.value ++ (f.header.kind ∷ body_bytes f.body)

abbrev pub IsSetting : Setting → Type 0
IsSetting s = (s.identifier < 2 ^ 16) × IsEncoded s.value

-- The numbers fit their fields, and a variable-length integer has the length of its encoding.
abbrev pub IsBody : Body → Type 0
IsBody (priority p) =
    (p.prioritized_type < 4)
    × (p.dependency_type < 4)
    × (p.empty < 8)
    × IsEncoded p.prioritized_element_id
    × IsEncoded p.element_dependency_id
IsBody (cancel_push id) = IsEncoded id
IsBody (settings l) = All IsSetting l
IsBody (push_promise id block) = IsEncoded id
IsBody (goaway id) = IsEncoded id
IsBody (max_push_id id) = IsEncoded id
IsBody _ = Unit {0}

-- The type of a frame goes with its body.
abbrev pub IsKind : ℕ → Body → Type 0
IsKind k (data_body payload) = k ≡ 0
IsKind k (headers block) = k ≡ 1
IsKind k (priority p) = k ≡ 2
IsKind k (cancel_push id) = k ≡ 3
IsKind k (settings l) = k ≡ 4
IsKind k (push_promise id block) = k ≡ 5
IsKind k (goaway id) = k ≡ 7
IsKind k (max_push_id id) = k ≡ 13
IsKind k (unknown payload) =
    (k ≢ 0) × (k ≢ 1) × (k ≢ 2) × (k ≢ 3) × (k ≢ 4) × (k ≢ 5) × (k ≢ 7) × (k ≢ 13)

-- The length of the header is that of the body, which can be allocated.
pub record IsHttpFrame (f : HttpFrame) : Type 0 where
  pub encoded : IsEncoded f.header.length
  pub measured : f.header.length.value ≡ length (body_bytes f.body)
  pub allocated : length (body_bytes f.body) ≤ max_alloc
  pub kind : IsKind f.header.kind f.body
  pub body_fits : IsBody f.body

fields_lem :
    (b t d e : ℕ)
    → t ≡ b / 64
    → d ≡ b / 16 % 4
    → e ≡ b / 2 % 8
    → b < 256
    → bit_or (bit_or (t * 2 ^ 6 % 256) (d * 2 ^ 4 % 256)) (e * 2 % 256) ≡ b / 2 * 2
fields_lem b t d e ht hd he lt = rw (ht, hd, he) (bit_or_fields b lt)

with_bit :
    (x : Bool) (n m : ℕ) → n ≡ m * 2 → m < 128 → (if x then bit_or n 0x1 else n) ≡ m * 2 + bit x
with_bit true n m e lt = rw e (bit_or_01 m lt)
with_bit false n m e lt = omega (arith, e)

bit_small : (x : Bool) → bit x ≤ 1
bit_small true = omega arith
bit_small false = omega arith

first_byte_lem :
    (p : Priority)
    → p.prioritized_type < 4
    → p.dependency_type < 4
    → p.empty < 8
    → first_byte p ≡ fields_sum p
first_byte_lem p ht hd he =
    let b = fields_sum p in
    let x = bit_small p.exclusive in
    let fields =
      fields_lem b p.prioritized_type p.dependency_type p.empty (omega (arith, x))
        (omega (arith, x)) (omega (arith, x)) (omega (arith, x)) in
    with_bit p.exclusive _ (b / 2) fields (omega (arith, x)) ∙ omega (arith, x)

write_settings-setting_bytes :
    (l : List Setting) → All IsSetting l → write_settings l ≡ done (setting_bytes l)
unfolding write_settings
write_settings-setting_bytes [] h = refl
write_settings-setting_bytes (s ∷ rest) (h, hs) =
    rw (encode_var_int-encoding s.value.value h.1.0, write_settings-setting_bytes rest hs) refl

write_body-body_bytes : (b : Body) → IsBody b → write_body b ≡ done (body_bytes b)
unfolding write_body
write_body-body_bytes (data_body payload) h = refl
write_body-body_bytes (headers block) h = refl
write_body-body_bytes (priority p) (ht, hd, he, hp, hq) =
    rw
      (
        first_byte_lem p ht hd he,
        encode_var_int-encoding p.prioritized_element_id.value hp.0,
        encode_var_int-encoding p.element_dependency_id.value hq.0,
      )
      refl
write_body-body_bytes (cancel_push id) h = encode_var_int-encoding id.value h.0
write_body-body_bytes (settings l) h = write_settings-setting_bytes l h
write_body-body_bytes (push_promise id block) h = rw (encode_var_int-encoding id.value h.0) refl
write_body-body_bytes (goaway id) h = encode_var_int-encoding id.value h.0
write_body-body_bytes (max_push_id id) h = encode_var_int-encoding id.value h.0
write_body-body_bytes (unknown payload) h = refl

pub write_to-frame_bytes : (f : HttpFrame) → IsHttpFrame f → write_to f ≡ done (frame_bytes f)
unfolding write_to
write_to-frame_bytes f v =
    rw
      (
        encode_var_int-encoding f.header.length.value v.encoded.0,
        write_body-body_bytes f.body v.body_fits,
      )
      (ap done
        (append_assoc (encoding f.header.length.value) (f.header.kind ∷ []) (body_bytes f.body)))

pub wire_length-frame_bytes :
    (f : HttpFrame) → IsHttpFrame f → wire_length f ≡ length (frame_bytes f)
unfolding wire_length
wire_length-frame_bytes f v = omega (
  arith,
  v.encoded,
  v.measured,
  v.allocated,
  length-encoding f.header.length.value,
  encoding_len-le f.header.length.value,
  length-append (encoding f.header.length.value) (f.header.kind ∷ body_bytes f.body),
)
