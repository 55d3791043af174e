-- ===== src/Stream/Zeros.antt =====
-- Two frames in reverse order, the second of which ends where the first begins.
use quic_tracker.Base.{
  ℕ, zero, suc, ◌+◌, ◌-◌, ◌≤◌, ◌<◌, ◌≡◌, ◌≢◌, sym, ◌%◌, ◌^◌, refl, ap, false, ◌&&◌, [], ◌∷◌, ◌++◌,
  Bytes, length, take, drop, replicate, arith, done, max_alloc, append_assoc, append-nil,
  length-append, length-replicate, le→leb, ltb, lt→ltb, ◌==◌, ◌∙◌, take-append, drop-append,
}
use quic_tracker.Base.Outcomes.{◌>>=◌}
use quic_tracker.Intervals.{ByteInterval, interval}
use quic_tracker.Intervals
use quic_tracker.Stream.{
  Stream, StreamFrame, new_stream, add_to_read, copy_at, slice, note_fin, extend, fill_in,
  note_closed, frame_end,
}
use quic_tracker.Stream.Delivery.{frame, add_all}

take_all : (n : ℕ) (xs : Bytes) → length xs ≤ n → take n xs ≡ xs
take_all zero [] h = refl
take_all zero (x ∷ xs) h = absurd (omega arith)
take_all (suc n) [] h = refl
take_all (suc n) (x ∷ xs) h = ap (◌∷◌ x) (take_all n xs (omega arith))

drop-add : (a b : ℕ) (xs : Bytes) → drop (a + b) xs ≡ drop b (drop a xs)
drop-add zero b xs = let e : 0 + b ≡ b = omega arith in rw e
drop-add (suc a) b [] = let e : suc a + b ≡ suc (a + b) = omega arith in rw e (drop_none b)
  where
    drop_none : (b : ℕ) → [] ≡ drop {A = ℕ} b []
    drop_none zero = refl
    drop_none (suc b) = refl
drop-add (suc a) b (x ∷ xs) =
    let e : suc a + b ≡ suc (a + b) = omega arith in rw e (drop-add a b xs)

-- Writing over the middle of a slice, in bytes of the same number.
copy_at_middle :
    (xs old new ys : Bytes)
    → length new ≡ length old
    → copy_at (xs ++ (old ++ ys)) (length xs) new ≡ done (xs ++ (new ++ ys))
unfolding copy_at
copy_at_middle xs old new ys h =
    let total = length-append xs (old ++ ys) in
    let fits : length new ≤ length (xs ++ (old ++ ys)) - length xs =
      omega (arith, total, length-append old ys) in
    rw
      (
        le→leb (length xs) (length (xs ++ (old ++ ys))) (omega (arith, total)),
        take_all _ new fits,
        take-append xs (old ++ ys),
        drop-add (length xs) (length new) (xs ++ (old ++ ys)),
        drop-append xs (old ++ ys),
        h,
        drop-append old ys,
      )
      (ap done (append_assoc xs new ys))

replicate-add : (m n : ℕ) → replicate {A = ℕ} (m + n) 0 ≡ replicate m 0 ++ replicate n 0
replicate-add zero n = let e : 0 + n ≡ n = omega arith in rw e
replicate-add (suc m) n =
    let e : suc m + n ≡ suc (m + n) = omega arith in rw e (ap (◌∷◌ 0) (replicate-add m n))

zeros : ℕ → Bytes
zeros n = replicate n 0

-- The stream after a first frame that does not begin at 0.
held : ℕ → Bytes → Stream
held offset y = record new_stream {
  max_read_received = offset + length y;
  gaps = interval 0 offset ∷ [];
  read_data = replicate offset 0 ++ y;
}

replicated : (n : ℕ) (y : Bytes) → length y ≡ length (replicate {A = ℕ} (length y) 0)
replicated n y = sym (length-replicate {0} {A = ℕ} (length y) 0)

-- The bytes of `y` at `offset` in a fresh slice that ends with them.
copy_at_end :
    (offset : ℕ) (y : Bytes)
    → copy_at (replicate (offset + length y) 0) offset y ≡ done (replicate offset 0 ++ y)
copy_at_end offset y =
    let z = replicate {A = ℕ} offset 0 in
    let e = copy_at_middle z (replicate (length y) 0) y [] (replicated offset y) in
    let at : length z ≡ offset = length-replicate {0} {A = ℕ} offset 0 in
    rw (replicate-add offset (length y)) (rw (append-nil, append-nil, at) at e)

add_first :
    (id offset : ℕ) (y : Bytes)
    → 0 < offset
    → offset + length y ≤ max_alloc
    → extend new_stream (frame false id offset y) ≡ done (held offset y)
unfolding extend held
add_first id offset y h fits =
    let wrap : (offset + length y) % 2 ^ 64 ≡ offset + length y = omega arith in
    let size = offset + length y in
    rw
      (
        le→leb size max_alloc fits,
        copy_at_middle [] [] [] (replicate size 0) refl,
        copy_at_end offset y,
        wrap,
        lt→ltb 0 offset h,
      )
      (unfold Intervals.add in refl)

fill_suffix : (p n : ℕ) → 0 < n → Intervals.fill (interval p (p + n)) (interval 0 (p + n) ∷ []) ≡ []
unfolding Intervals.fill
fill_suffix p n h = ground arith

copy_at_gap :
    (p : ℕ) (x y : Bytes)
    → copy_at (replicate (p + length x) 0 ++ y) p x ≡ done (replicate p 0 ++ (x ++ y))
copy_at_gap p x y =
    let z = replicate {A = ℕ} p 0 in
    let e = copy_at_middle z (replicate (length x) 0) x y (replicated p x) in
    let at : length z ≡ p = length-replicate {0} {A = ℕ} p 0 in
    rw (replicate-add p (length x)) (rw append_assoc (rw at at e))

slice_all : (bs : Bytes) → slice bs 0 (length bs) ≡ done bs
unfolding slice
slice_all bs =
    rw (le→leb 0 (length bs) (omega arith), le→leb (length bs) (length bs) (omega arith))
      (ap done (take_all (length bs - 0) bs (omega arith)))

-- The stream after the second frame.
delivered : ℕ → Bytes → Bytes → Stream
delivered p x y =
    let all = replicate p 0 ++ (x ++ y) in
    record new_stream {
      read_offset = length all;
      max_read_received = p + length x + length y;
      read_data = all;
      submitted = all ∷ [];
    }

fill_gap :
    (id p : ℕ) (x y : Bytes)
    → 0 < length x
    → p + length x + length y ≤ max_alloc
    → fill_in (held (p + length x) y) (frame false id p x) ≡ done (delivered p x y)
unfolding fill_in held delivered
fill_gap id p x y h fits =
    let wrap : (p + length x) % 2 ^ 64 ≡ p + length x = omega arith in
    let some_bytes : 0 < length (replicate {A = ℕ} p 0 ++ (x ++ y)) =
      omega (arith, length-append (replicate {A = ℕ} p 0) (x ++ y), length-append x y) in
    rw (
      copy_at_gap p x y,
      wrap,
      fill_suffix p (length x) h,
      lt→ltb 0 (length (replicate {A = ℕ} p 0 ++ (x ++ y))) some_bytes,
      slice_all (replicate {A = ℕ} p 0 ++ (x ++ y)),
    )

-- The branches of `add_to_read` for a frame out of order.
add_extends :
    (s : Stream) (f : StreamFrame)
    → s.max_read_received < frame_end f
    → f.offset ≢ s.read_offset
    → add_to_read s f ≡ (extend (note_fin s f) f >>= λ t. done (note_closed t))
unfolding add_to_read
add_extends s f h ne =
    let other : ((f.offset == s.read_offset) && (f.offset == s.max_read_received)) ≡ false =
      ground arith in
    rw (other, lt→ltb s.max_read_received (frame_end f) h)

add_fills :
    (s : Stream) (f : StreamFrame)
    → frame_end f ≤ s.max_read_received
    → f.offset ≢ s.max_read_received
    → add_to_read s f ≡ (fill_in (note_fin s f) f >>= λ t. done (note_closed t))
unfolding add_to_read
add_fills s f h ne =
    let other : ((f.offset == s.read_offset) && (f.offset == s.max_read_received)) ≡ false =
      ground arith in
    let inside : ltb s.max_read_received (frame_end f) ≡ false = ground arith in rw (other, inside)

held_lem :
    (id offset : ℕ) (y : Bytes)
    → 0 < offset
    → 0 < length y
    → offset + length y ≤ max_alloc
    → add_to_read new_stream (frame false id offset y) ≡ done (held offset y)
unfolding note_fin held
held_lem id offset y h hy fits =
    add_extends new_stream (frame false id offset y) (omega arith) (omega arith)
    ∙ rw (add_first id offset y h fits)

delivered_lem :
    (id p : ℕ) (x y : Bytes)
    → 0 < length x
    → 0 < length y
    → p + length x + length y ≤ max_alloc
    → add_to_read (held (p + length x) y) (frame false id p x)
      ≡ done (note_closed (delivered p x y))
unfolding note_fin held
delivered_lem id p x y hx hy fits =
    add_fills (held (p + length x) y) (frame false id p x) (omega arith) (omega arith)
    ∙ rw (fill_gap id p x y hx fits)

-- A new stream receives the bytes `y` at offset `p + length x`, and then `x` at offset `p`. It hands
-- on everything at once, `p` zero bytes included, which no frame held: with `p` at 0 the two frames
-- are put in order, and with any other `p` the first `p` bytes handed on were never received.
pub add_all_reversed :
    (id p : ℕ) (x y : Bytes)
    → 0 < length x
    → 0 < length y
    → p + length x + length y ≤ max_alloc
    → (t : Stream) × (add_all new_stream (frame false id (p + length x) y ∷ frame false id p x ∷ [])
        ≡ done t)
      × (t.submitted ≡ (replicate p 0 ++ (x ++ y)) ∷ [])
      × (t.read_offset ≡ p + length x + length y)
      × (t.gaps ≡ [])
unfolding add_all delivered
add_all_reversed id p x y hx hy fits = (
  note_closed (delivered p x y),
  rw (held_lem id (p + length x) y (omega arith) hy fits, delivered_lem id p x y hx hy fits),
  refl,
  omega (
    arith,
    length-append (replicate {A = ℕ} p 0) (x ++ y),
    length-append x y,
    length-replicate {0} {A = ℕ} p 0,
  ),
  refl,
)
