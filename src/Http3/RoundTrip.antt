-- ===== src/Http3/RoundTrip.antt =====
-- http3/http3.go: ReadHTTPFrame on what WriteTo writes.
use quic_tracker.Base.{
  ℕ, zero, suc, ◌+◌, ◌-◌, ◌/◌, ◌^◌, ◌≤◌, ◌<◌, ◌≡◌, ◌≢◌, refl, ap, ◌∙◌, Bool, true, false, List, [],
  ◌∷◌, ◌++◌, Bytes, length, drop, replicate, All, bit_and, ◌==◌, arith, some, done, max_alloc,
  length-append, append_assoc, drop-append, ltb, le→leb,
}
use quic_tracker.Base.Bits.{bit_and_c0, bit_and_30, bit_and_0e, bit_and_01}
use quic_tracker.Reader.{◌>>=◌, read, make_then_read, read_full-append, make_then_read-append}
use quic_tracker.VarInt.RoundTrip.{encoding}
use quic_tracker.VarInt.Value.{VarInt, IsEncoded, read_var_int-encoding}
use quic_tracker.Frame.Write.{uint16_bytes}
use quic_tracker.Http3.{
  HttpFrameHeader, Priority, Setting, Body, HttpFrame, data_body, headers, priority, cancel_push,
  settings, push_promise, goaway, max_push_id, unknown, write_to, wire_length,
}
use quic_tracker.Http3.Read.{
  read_http_frame_header, read_opaque, read_number, read_priority, read_setting, read_settings_from,
  settings_of, read_settings, make_block, read_push_promise, frame_of_kind, seek_back,
  read_http_frame,
}
use quic_tracker.Http3.Wire.{
  bit, fields_sum, setting_bytes, body_bytes, frame_bytes, IsSetting, IsBody, IsHttpFrame, IsKind,
  write_to-frame_bytes, wire_length-frame_bytes,
}

-- A frame as it is read: the header block of a PUSH_PROMISE frame is not taken from the buffer, and
-- zeros stand in its place.
abbrev pub body_read : Body → Body
body_read (push_promise id block) = push_promise id (replicate (length block) 0)
body_read b = b

abbrev pub frame_read : HttpFrame → HttpFrame
frame_read f = record f { body = body_read f.body }

-- What is left of it in the buffer.
abbrev pub left_over : Body → Bytes
left_over (push_promise id block) = block
left_over _ = []

header_lem :
    (h : HttpFrameHeader) (k : Bytes)
    → IsEncoded h.length
    → read_http_frame_header (encoding h.length.value ++ (h.kind ∷ k)) ≡ done (h, k)
unfolding read_http_frame_header
header_lem h k e = rw (◌>>=◌, read_var_int-encoding h.length (h.kind ∷ k) e)

content_lem :
    (n : ℕ) (content k : Bytes)
    → n ≡ length content
    → length content ≤ max_alloc
    → make_then_read n read (content ++ k) ≡ done (content, k)
content_lem n content k e le = rw e (make_then_read-append content k le)

read_opaque_lem :
    (make : Bytes → Body) (h : HttpFrameHeader) (content k : Bytes)
    → IsEncoded h.length
    → h.length.value ≡ length content
    → length content ≤ max_alloc
    → read_opaque make (encoding h.length.value ++ (h.kind ∷ (content ++ k)))
      ≡ done (record { header = h; body = make content }, k)
unfolding read_opaque
read_opaque_lem make h content k e m le =
    rw (◌>>=◌, header_lem h (content ++ k) e, content_lem h.length.value content k m le)

read_number_lem :
    (make : VarInt → Body) (h : HttpFrameHeader) (id : VarInt) (k : Bytes)
    → IsEncoded h.length
    → IsEncoded id
    → read_number make (encoding h.length.value ++ (h.kind ∷ (encoding id.value ++ k)))
      ≡ done (record { header = h; body = make id }, k)
unfolding read_number
read_number_lem make h id k e v =
    rw (◌>>=◌, header_lem h (encoding id.value ++ k) e, read_var_int-encoding id k v)

-- Going back over all that was read.
drop-before : (before bs : Bytes) (p : ℕ) → p ≡ length before → drop p (before ++ bs) ≡ bs
drop-before before bs p e = rw e (drop-append before bs)

seek_lem :
    (before e k : Bytes) (t n : ℕ)
    → n ≡ length e
    → seek_back (n + 1) before (e ++ (t ∷ k)) k ≡ e ++ (t ∷ k)
seek_lem before e k t n h =
    let l = length-append e (t ∷ k) in
    rw (le→leb (n + 1) (length before + (length (e ++ (t ∷ k)) - length k)) (omega (arith, l, h)))
      (drop-before before (e ++ (t ∷ k)) _ (omega (arith, l, h)))

-- The header that is peeked at is put back.
read_http_frame_lem :
    (before k : Bytes) (h : HttpFrameHeader)
    → IsEncoded h.length
    → read_http_frame before (encoding h.length.value ++ (h.kind ∷ k))
      ≡ frame_of_kind h.kind (encoding h.length.value ++ (h.kind ∷ k))
unfolding read_http_frame
read_http_frame_lem before k h e =
    rw (◌>>=◌, read_var_int-encoding h.length (h.kind ∷ k) e)
      (ap (frame_of_kind h.kind)
        (seek_lem before (encoding h.length.value) k h.kind h.length.length e.1))

setting_lem :
    (s : Setting) (k : Bytes)
    → IsSetting s
    → read_setting (uint16_bytes s.identifier ++ (encoding s.value.value ++ k)) ≡ done (s, k)
unfolding read_setting
setting_lem s k h =
    rw
      (
        ◌>>=◌,
        read_full-append 2 (uint16_bytes s.identifier) (encoding s.value.value ++ k) refl,
        read_var_int-encoding s.value k h.1,
      )
      (ap (λ (i : ℕ). done (record { identifier = i; value = s.value }, k)) (omega (arith, h.0)))

settings_lem :
    (n : ℕ) (l : List Setting)
    → length (setting_bytes l) < n
    → All IsSetting l
    → read_settings_from n (setting_bytes l) ≡ some (done l)
unfolding read_settings_from
settings_lem zero l lt h = absurd (omega (arith, lt))
settings_lem (suc n) [] lt h = refl
settings_lem (suc n) (s ∷ rest) lt (h, hs) =
    let shorter : length (setting_bytes rest) < n =
      omega (arith, lt, length-append (encoding s.value.value) (setting_bytes rest)) in
    rw (read_settings_from, setting_lem s (setting_bytes rest) h, settings_lem n rest shorter hs)
      refl

read_settings_lem :
    (h : HttpFrameHeader) (l : List Setting) (k : Bytes)
    → IsEncoded h.length
    → h.length.value ≡ length (setting_bytes l)
    → length (setting_bytes l) ≤ max_alloc
    → All IsSetting l
    → read_settings (encoding h.length.value ++ (h.kind ∷ (setting_bytes l ++ k)))
      ≡ done (record { header = h; body = settings l }, k)
unfolding read_settings settings_of
read_settings_lem h l k e m le a =
    rw
      (
        ◌>>=◌,
        header_lem h (setting_bytes l ++ k) e,
        content_lem h.length.value (setting_bytes l) k m le,
        settings_lem (suc (length (setting_bytes l))) l (omega arith) a,
      )
      refl

bit_small : (x : Bool) → bit x ≤ 1
bit_small true = omega arith
bit_small false = omega arith

bit_back : (x : Bool) (n : ℕ) → n ≡ bit x → (n == 1) ≡ x
bit_back true n e = rw e
bit_back false n e = rw e

fields_back :
    (p : Priority)
    → p.prioritized_type < 4
    → p.dependency_type < 4
    → p.empty < 8
    → record {
      prioritized_type = bit_and (fields_sum p) 0xc0 / 2 ^ 6;
      dependency_type = bit_and (fields_sum p) 0x30 / 2 ^ 4;
      empty = bit_and (fields_sum p) 0xe / 2;
      exclusive = bit_and (fields_sum p) 0x1 == 0x1;
      prioritized_element_id = p.prioritized_element_id;
      element_dependency_id = p.element_dependency_id;
      weight = p.weight;
    }
      ≡ p
fields_back p ht hd he =
    let x = bit_small p.exclusive in
    let lt : fields_sum p < 256 = omega (arith, x) in
    let t : bit_and (fields_sum p) 0xc0 / 2 ^ 6 ≡ p.prioritized_type =
      rw (bit_and_c0 (fields_sum p) lt) (omega (arith, x)) in
    let d : bit_and (fields_sum p) 0x30 / 2 ^ 4 ≡ p.dependency_type =
      rw (bit_and_30 (fields_sum p) lt) (omega (arith, x)) in
    let e : bit_and (fields_sum p) 0xe / 2 ≡ p.empty =
      rw (bit_and_0e (fields_sum p) lt) (omega (arith, x)) in
    let b : (bit_and (fields_sum p) 0x1 == 0x1) ≡ p.exclusive =
      rw (bit_and_01 (fields_sum p) lt) (bit_back p.exclusive _ (omega (arith, x))) in
    rw (t, d, e, b) refl

read_priority_lem :
    (h : HttpFrameHeader) (p : Priority) (k : Bytes)
    → IsEncoded h.length
    → IsBody (priority p)
    → read_priority (encoding h.length.value ++ (h.kind ∷ (body_bytes (priority p) ++ k)))
      ≡ done (record { header = h; body = priority p }, k)
unfolding read_priority
read_priority_lem h p k e (ht, hd, he, hp, hq) =
    rw
      (
        ◌>>=◌,
        header_lem h (body_bytes (priority p) ++ k) e,
        append_assoc (encoding p.prioritized_element_id.value)
            (encoding p.element_dependency_id.value ++ p.weight ∷ []) k,
        append_assoc (encoding p.element_dependency_id.value) (p.weight ∷ []) k,
        read_var_int-encoding p.prioritized_element_id
            (encoding p.element_dependency_id.value ++ (p.weight ∷ k)) hp,
        read_var_int-encoding p.element_dependency_id (p.weight ∷ k) hq,
      )
      (ap (λ (q : Priority). done (record { header = h; body = priority q }, k))
        (fields_back p ht hd he))

ltb-false : (a b : ℕ) → b ≤ a → ltb a b ≡ false
ltb-false a b h = ground arith

make_block_lem :
    (n taken m : ℕ) (k : Bytes)
    → n ≡ taken + m
    → m ≤ max_alloc
    → make_block n taken k ≡ done (replicate m 0, k)
unfolding make_block
make_block_lem n taken m k e le =
    let same : n - taken ≡ m = omega (arith, e) in
    rw (ltb-false n taken (omega (arith, e)), same, le→leb m max_alloc le) refl

read_push_promise_lem :
    (h : HttpFrameHeader) (id : VarInt) (block k : Bytes)
    → IsEncoded h.length
    → h.length.value ≡ length (encoding id.value ++ block)
    → length (encoding id.value ++ block) ≤ max_alloc
    → IsEncoded id
    → read_push_promise (encoding h.length.value ++ (h.kind ∷ (encoding id.value ++ (block ++ k))))
      ≡ done
          (record { header = h; body = push_promise id (replicate (length block) 0) }, block ++ k)
unfolding read_push_promise
read_push_promise_lem h id block k e m le v =
    let l = length-append (encoding id.value) block in
    rw
      (
        ◌>>=◌,
        header_lem h (encoding id.value ++ (block ++ k)) e,
        read_var_int-encoding id (block ++ k) v,
        make_block_lem h.length.value id.length (length block) (block ++ k)
            (omega (arith, l, m, v.1)) (omega (arith, l, le)),
      )
      refl

==-false : (a b : ℕ) → a ≢ b → (a == b) ≡ false
==-false a b h = ground arith

-- What is read of a frame whose type byte is t.
frame_lem :
    (b : Body) (t : ℕ) (h : HttpFrameHeader) (k : Bytes)
    → IsKind t b
    → IsHttpFrame (record { header = h; body = b })
    → frame_of_kind t (encoding h.length.value ++ (h.kind ∷ (body_bytes b ++ k)))
      ≡ done (record { header = h; body = body_read b }, left_over b ++ k)
unfolding frame_of_kind
frame_lem (data_body payload) t h k e v =
    rw e (read_opaque_lem data_body h payload k v.encoded v.measured v.allocated)
frame_lem (headers block) t h k e v =
    rw e (read_opaque_lem headers h block k v.encoded v.measured v.allocated)
frame_lem (priority p) t h k e v = rw e (read_priority_lem h p k v.encoded v.body_fits)
frame_lem (cancel_push id) t h k e v =
    rw e (read_number_lem cancel_push h id k v.encoded v.body_fits)
frame_lem (settings l) t h k e v =
    rw e (read_settings_lem h l k v.encoded v.measured v.allocated v.body_fits)
frame_lem (push_promise id block) t h k e v =
    rw (e, append_assoc (encoding id.value) block k)
      (read_push_promise_lem h id block k v.encoded v.measured v.allocated v.body_fits)
frame_lem (goaway id) t h k e v = rw e (read_number_lem goaway h id k v.encoded v.body_fits)
frame_lem (max_push_id id) t h k e v =
    rw e (read_number_lem max_push_id h id k v.encoded v.body_fits)
frame_lem (unknown payload) t h k (n0, n1, n2, n3, n4, n5, n7, nd) v =
    rw
      (
        ==-false t 0 n0,
        ==-false t 1 n1,
        ==-false t 2 n2,
        ==-false t 3 n3,
        ==-false t 4 n4,
        ==-false t 5 n5,
        ==-false t 7 n7,
        ==-false t 13 nd,
      )
      (read_opaque_lem unknown h payload k v.encoded v.measured v.allocated)

-- A frame whose header goes with its body: WriteTo writes it without a panic in WireLength bytes,
-- and ReadHTTPFrame, at any place of a buffer that goes on after them, reads the same frame and
-- takes its bytes; of a PUSH_PROMISE frame the header block is left in the buffer, and the frame
-- that is read has zeros in its place.
pub read_http_frame-write_to :
    (f : HttpFrame) (before k : Bytes)
    → IsHttpFrame f
    → (bs : Bytes) × (write_to f ≡ done bs)
      × (wire_length f ≡ length bs)
      × (read_http_frame before (bs ++ k) ≡ done (frame_read f, left_over f.body ++ k))
read_http_frame-write_to f before k v = (
  frame_bytes f,
  write_to-frame_bytes f v,
  wire_length-frame_bytes f v,
  rw (append_assoc (encoding f.header.length.value) (f.header.kind ∷ body_bytes f.body) k) (
      read_http_frame_lem before (body_bytes f.body ++ k) f.header v.encoded
      ∙ frame_lem f.body f.header.kind f.header k v.kind v),
)
