-- ===== src/Stream/Invariant.antt =====
-- streams.go, addToRead: the bookkeeping of the receiving side.
use quic_tracker.Base.{
  ℕ, ◌+◌, ◌-◌, ◌≤◌, ◌<◌, ◌≡◌, sym, refl, ◌&&◌, List, [], ◌∷◌, ◌++◌, Bytes, length, take, drop,
  replicate, All, Bool-cases, inl, inr, arith, if◌then◌else◌, Outcome, done, max_alloc, concat,
  append_assoc, append-nil, length-append, length-take, length-drop, length-replicate, le→leb, ltb,
  ltb→lt, ◌==◌,
}
use quic_tracker.Intervals.{ByteInterval, interval}
use quic_tracker.Intervals
use quic_tracker.Intervals.Bounds.{Within, add-Within, fill-Within}
use quic_tracker.Stream.{
  Stream, StreamFrame, new_stream, add_to_read, copy_at, slice, store, note_fin, append_next,
  extend, fill_in, deliver, first_gap, note_closed, frame_end,
}

-- What is received is stored up to its end, and what is readable has been handed on, byte for byte.
pub record IsConsistent (s : Stream) : Type 0 where
  pub stored : length s.read_data ≡ s.max_read_received
  pub handed_on : length (concat s.submitted) ≡ s.read_offset
  pub readable : s.read_offset ≤ s.max_read_received
  pub gaps_within : All (Within s.max_read_received) s.gaps

-- As ReadStreamFrame makes them: the length is that of the content, and it could be allocated.
abbrev pub Fits : StreamFrame → Type 0
Fits f = (f.length ≡ length f.stream_data) × (f.offset + f.length ≤ max_alloc)

-- What was handed on stays, and the offset does not go back.
abbrev pub Grows : Stream → Stream → Type 0
Grows s t =
    ((more : List Bytes) × (t.submitted ≡ s.submitted ++ more)) × (s.read_offset ≤ t.read_offset)

abbrev pub Keeps : Stream → Outcome Stream → Type 0
Keeps s r = (t : Stream) × (r ≡ done t) × IsConsistent t × Grows s t

copy_at_lem :
    (dst src : Bytes) (at : ℕ)
    → at ≤ length dst
    → (r : Bytes) × (copy_at dst at src ≡ done r) × (length r ≡ length dst)
unfolding copy_at
copy_at_lem dst src at h =
    let part = take (length dst - at) src in
    (
      take at dst ++ part ++ drop (at + length part) dst,
      rw (le→leb at (length dst) h),
      omega (
        arith,
        length-append (take at dst) part,
        length-append (take at dst ++ part) (drop (at + length part) dst),
        length-take at dst,
        length-take (length dst - at) src,
        length-drop (at + length part) dst,
      ),
    )

concat-append {ℓ} :
    {A : Type ℓ} (xs ys : List (List A)) → concat (xs ++ ys) ≡ concat xs ++ concat ys
concat-append [] ys = refl
concat-append (x ∷ xs) ys = rw (concat-append xs ys, append_assoc)

length-concat :
    (xs : List Bytes) (b : Bytes) → length (concat (xs ++ (b ∷ []))) ≡ length (concat xs) + length b
length-concat xs b = rw (concat-append xs (b ∷ []), append-nil b) (length-append (concat xs) b)

Within-mono : {m n : ℕ} (l : List ByteInterval) → m ≤ n → All (Within m) l → All (Within n) l
Within-mono [] h w = tt
Within-mono (b ∷ bs) h (wb, ws) = ((omega arith, omega arith), Within-mono bs h ws)

new_gaps-Within :
    (m offset n : ℕ) (l : List ByteInterval)
    → m ≤ n
    → offset ≤ n
    → All (Within m) l
    → All (Within n) (if ltb m offset then Intervals.add (interval m offset) l else l)
new_gaps-Within m offset n l h ho w = elim (Bool-cases (ltb m offset)) [
  | inl e ↦ rw e (add-Within n (interval m offset) l (h, ho) (Within-mono l h w))
  | inr e ↦ rw e (Within-mono l h w)
]

append_next-Keeps :
    (s : Stream) (f : StreamFrame)
    → IsConsistent s
    → Fits f
    → f.offset ≡ s.read_offset
    → f.offset ≡ s.max_read_received
    → Keeps s (done (append_next s f))
unfolding append_next
append_next-Keeps s f v (hl, hb) e e' = (
  append_next s f,
  refl,
  record {
    stored = omega (arith, length-append s.read_data f.stream_data);
    handed_on = omega (arith, length-concat s.submitted f.stream_data);
    readable = omega arith;
    gaps_within = Within-mono s.gaps (omega arith) v.gaps_within;
  },
  ((f.stream_data ∷ [], refl), omega arith),
)

extend-Keeps :
    (s : Stream) (f : StreamFrame)
    → IsConsistent s
    → Fits f
    → s.max_read_received < frame_end f
    → Keeps s (extend s f)
unfolding extend
extend-Keeps s f v (hl, hb) h =
    let size = f.offset + length f.stream_data in
    let (copied, e, n) = copy_at_lem (replicate size 0) s.read_data 0 (omega arith) in
    let (filled, e', n') =
      copy_at_lem copied f.stream_data f.offset
        (omega (arith, length-replicate {0} {A = ℕ} size 0)) in
    (
      record s {
        gaps =
            if ltb s.max_read_received f.offset
            then Intervals.add (interval s.max_read_received f.offset) s.gaps
            else s.gaps;
        max_read_received = frame_end f;
        read_data = filled;
      },
      rw (le→leb size max_alloc (omega arith), e, e'),
      record {
        stored = omega (arith, length-replicate {0} {A = ℕ} size 0);
        handed_on = v.handed_on;
        readable = omega arith;
        gaps_within =
            new_gaps-Within s.max_read_received f.offset (frame_end f) s.gaps (omega arith)
              (omega arith) v.gaps_within;
      },
      (([], sym (append-nil s.submitted)), omega arith),
    )

slice_lem :
    (s : Bytes) (low high : ℕ)
    → low ≤ high
    → high ≤ length s
    → (r : Bytes) × (slice s low high ≡ done r) × (length r ≡ high - low)
unfolding slice
slice_lem s low high h h' = (
  take (high - low) (drop low s),
  rw (le→leb low high h, le→leb high (length s) h'),
  omega (arith, length-take (high - low) (drop low s), length-drop low s),
)

first_gap-le :
    (m : ℕ) (l : List ByteInterval) (bs : Bytes)
    → length bs ≡ m
    → All (Within m) l
    → first_gap l bs ≤ m
first_gap-le m [] bs e w = omega arith
first_gap-le m (b ∷ l) bs e (wb, ws) = wb.0

deliver-Keeps : (s : Stream) → IsConsistent s → Keeps s (deliver s)
unfolding deliver
deliver-Keeps s v =
    let first = first_gap s.gaps s.read_data in
    let bound = first_gap-le s.max_read_received s.gaps s.read_data v.stored v.gaps_within in
    elim (Bool-cases (ltb s.read_offset first)) [
      | inl e ↦
          let lt = ltb→lt s.read_offset first e in
          let (bytes, cut, n) =
            slice_lem s.read_data s.read_offset first (omega arith) (omega arith) in
          (
            record s { submitted = s.submitted ++ (bytes ∷ []); read_offset = first },
            rw (e, cut),
            record {
              stored = v.stored;
              handed_on = omega (arith, length-concat s.submitted bytes);
              readable = bound;
              gaps_within = v.gaps_within;
            },
            ((bytes ∷ [], refl), omega arith),
          )
      | inr e ↦ (s, rw e, v, (([], sym (append-nil s.submitted)), omega arith))
    ]

fill_in-Keeps :
    (s : Stream) (f : StreamFrame)
    → IsConsistent s
    → Fits f
    → frame_end f ≤ s.max_read_received
    → Keeps s (fill_in s f)
unfolding fill_in
fill_in-Keeps s f v (hl, hb) h =
    let (written, e, n) = copy_at_lem s.read_data f.stream_data f.offset (omega arith) in
    let filled : Stream = record s {
      gaps = Intervals.fill (interval f.offset (frame_end f)) s.gaps;
      read_data = written;
    } in
    let (t, e', w, g) = deliver-Keeps filled (record {
      stored = omega arith;
      handed_on = v.handed_on;
      readable = v.readable;
      gaps_within =
          fill-Within s.max_read_received (interval f.offset (frame_end f)) s.gaps (omega arith, h)
            v.gaps_within;
    }) in
    (t, rw e e', w, g)

store-Keeps : (s : Stream) (f : StreamFrame) → IsConsistent s → Fits f → Keeps s (store s f)
unfolding store
store-Keeps s f v h =
    elim (Bool-cases ((f.offset == s.read_offset) && (f.offset == s.max_read_received))) [
      | inl e ↦ rw e (append_next-Keeps s f v h (ground arith) (ground arith))
      | inr e ↦ rw e (elim (Bool-cases (ltb s.max_read_received (frame_end f))) [
        | inl past ↦ rw past (extend-Keeps s f v h (ltb→lt _ _ past))
        | inr in_range ↦ rw in_range (fill_in-Keeps s f v h (ground arith))
      ])
    ]

-- In every state that is in order, a frame as ReadStreamFrame makes them is taken in without a
-- panic, and the state after it is in order: what is stored ends at the largest offset received,
-- what was handed to ReadChan is as many bytes as ReadOffset says, and no gap lies past the end.
-- What was handed on before stays, and ReadOffset does not go back.
pub add_to_read-IsConsistent :
    (s : Stream) (f : StreamFrame)
    → IsConsistent s
    → Fits f
    → (t : Stream) × (add_to_read s f ≡ done t) × IsConsistent t × Grows s t
unfolding add_to_read
add_to_read-IsConsistent s f v h =
    let (t, e, w, g) =
      store-Keeps (note_fin s f) f
        (record {
          stored = v.stored;
          handed_on = v.handed_on;
          readable = v.readable;
          gaps_within = v.gaps_within;
        })
        h in
    (
      note_closed t,
      rw e,
      record {
        stored = w.stored;
        handed_on = w.handed_on;
        readable = w.readable;
        gaps_within = w.gaps_within;
      },
      g,
    )

pub new_stream-IsConsistent : IsConsistent new_stream
new_stream-IsConsistent = record {
  stored = refl;
  handed_on = refl;
  readable = omega arith;
  gaps_within = tt;
}
