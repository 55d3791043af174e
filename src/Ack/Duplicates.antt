-- ===== src/Ack/Duplicates.antt =====
-- The ACK frame of a queue that holds a packet number twice. Nothing keeps duplicates from the
-- queue: AckAgent reports the duplicate and appends it.
use quic_tracker.Base.{
  ℕ, ◌+◌, ◌-◌, ◌<◌, ◌≤◌, ◌≡◌, ◌≢◌, refl, Bool, true, false, List, ◌⊎◌, if◌then◌else◌, Bytes, [],
  ◌∷◌, length, All, ltb, ◌==◌, arith, some, Bool-cases, inl, inr, ==_iff, Outcome, done, panic,
}
use quic_tracker.Base.Outcomes.{◌>>=◌}
use quic_tracker.VarInt.{max_var_int8, encode_var_int, var_int_len}
use quic_tracker.Frame.{AckFrame, AckBlock, ack, ack_type}
use quic_tracker.Frame.Write.{write_to, write_ack_blocks, write_ack_frame, ◌then_write◌}
use quic_tracker.Frame.Length.{frame_length, ack_blocks_length, ack_frame_length, lens}
use quic_tracker.Ack.{sub64, blocks_from, get_ack_frame, ack_frame_of}
use quic_tracker.Ack.Correct.{next_gap, next_gap-blocks_from, blocks_from-IsCons}
use quic_tracker.Ack.Sort.{sort, Below, Distinct, sort-All, sort-Distinct, Below-Distinct}

then_panic {ℓ κ} :
    {A : Type ℓ} {B : Type κ} (m : Outcome A) (f : A → Outcome B)
    → ((a : A) → f a ≡ panic)
    → (m >>= f) ≡ panic
then_panic panic f h = refl
then_panic (done a) f h = h a

encode_var_int-panic : (i : ℕ) → max_var_int8 < i → encode_var_int i ≡ panic
unfolding encode_var_int
encode_var_int-panic i h = ground arith

var_int_len-panic : (i : ℕ) → max_var_int8 < i → var_int_len i ≡ panic
unfolding var_int_len
var_int_len-panic i h = ground arith

-- The gap of some block after the first has more than 62 bits.
abbrev Overflows : Bool → List AckBlock → Type 0
Overflows first [] = ⊥
Overflows first (a ∷ rest) = ((first ≡ false) × (max_var_int8 < a.gap)) ⊎ Overflows false rest

write_ack_blocks-Overflows :
    (first : Bool) (bs : List AckBlock) → Overflows first bs → write_ack_blocks first bs ≡ panic
unfolding write_ack_blocks
write_ack_blocks-Overflows first [] h = absurd h
write_ack_blocks-Overflows first (a ∷ rest) (inl (e, h)) = rw (e, encode_var_int-panic a.gap h) refl
write_ack_blocks-Overflows first (a ∷ rest) (inr h) = rw (write_ack_blocks-Overflows false rest h) (
    then_panic (if first then done [] else encode_var_int a.gap) _
      (λ xs. rw (then_panic (encode_var_int a.block) _ (λ ys. refl)) refl))

ack_blocks_length-Overflows :
    (first : Bool) (bs : List AckBlock)
    → Overflows first bs
    → (n : ℕ) → ack_blocks_length n first bs ≡ panic
unfolding ack_blocks_length
ack_blocks_length-Overflows first [] h n = absurd h
ack_blocks_length-Overflows first (a ∷ rest) (inl (e, h)) n = rw (e, var_int_len-panic a.gap h) refl
ack_blocks_length-Overflows first (a ∷ rest) (inr h) n =
    then_panic (if first then done 0 else var_int_len a.gap) _
      (λ g. then_panic (var_int_len a.block) _ (λ b. ack_blocks_length-Overflows false rest h _))

next_gap-Overflows :
    (bs : List AckBlock) → 1 ≤ length bs → max_var_int8 < next_gap bs → Overflows false bs
next_gap-Overflows [] l h = absurd (omega (arith, l))
next_gap-Overflows (b ∷ bs) l h = inl (refl, h)

-- Two numbers that do not descend wrap around.
blocks_from-Overflows :
    (first : Bool) (p : ℕ) (b : AckBlock) (ns : List ℕ)
    → p ≤ max_var_int8
    → All (λ n. n ≤ max_var_int8) ns
    → ¬ Below p ns
    → Overflows first (blocks_from p b ns)
unfolding blocks_from
blocks_from-Overflows first p b [] le h bad = absurd (bad tt)
blocks_from-Overflows first p b (n ∷ ns) le (h, hs) bad = elim (Bool-cases (sub64 p n == 1)) [
  | inl e ↦
      let one : p ≡ n + 1 = omega (arith, (==_iff (sub64 p n) 1).0 e) in
      rw (e, blocks_from)
        (blocks_from-Overflows first n (record b { block = b.block + 1 }) ns h hs
          (λ good. bad (omega (arith, one), good)))
  | inr e ↦
      let b' : AckBlock = record { gap = sub64 (sub64 p n) 2; block = 0 } in
      let ne : sub64 p n ≢ 1 = λ q. cc ((==_iff (sub64 p n) 1).1 q) in
      rw (e, blocks_from)
        (inr (elim (Bool-cases (ltb n p)) [
          | inl lt ↦ blocks_from-Overflows false n b' ns h hs (λ good. bad (ground arith, good))
          | inr ge ↦
              next_gap-Overflows (blocks_from n b' ns) (blocks_from-IsCons n b' ns)
                (rw (next_gap-blocks_from n b' ns) (ground arith))
        ]))
]

then_write-panic : (m k : Outcome Bytes) → k ≡ panic → (m then_write k) ≡ panic
then_write-panic m k h = rw h (then_panic m _ (λ xs. refl))

write_ack_frame-Overflows : (f : AckFrame) → Overflows true f.ack_blocks → write_ack_frame f ≡ panic
unfolding write_ack_frame
write_ack_frame-Overflows f h = then_write-panic (encode_var_int ack_type) _ (
    then_write-panic (encode_var_int f.largest_acknowledged) _ (
      then_write-panic (encode_var_int f.ack_delay) _ (
        then_write-panic (encode_var_int f.ack_block_count) _
          (write_ack_blocks-Overflows true f.ack_blocks h))))

ack_frame_length-Overflows :
    (f : AckFrame) → Overflows true f.ack_blocks → ack_frame_length f ≡ panic
unfolding ack_frame_length
ack_frame_length-Overflows f h =
    then_panic (lens (f.largest_acknowledged ∷ f.ack_delay ∷ f.ack_block_count ∷ [])) _
      (λ n. ack_blocks_length-Overflows true f.ack_blocks h _)

abbrev pub IsRefused : AckFrame → Type 0
IsRefused f = (write_to (ack f) ≡ panic) × (frame_length (ack f) ≡ panic)

ack_frame_of-IsRefused :
    (sorted : List ℕ)
    → ¬ Distinct sorted
    → All (λ n. n ≤ max_var_int8) sorted
    → (f : AckFrame) × (ack_frame_of sorted ≡ some f) × IsRefused f
unfolding ack_frame_of write_to frame_length
ack_frame_of-IsRefused [] bad h = absurd (bad tt)
ack_frame_of-IsRefused (n ∷ ns) bad (h, hs) =
    let b : AckBlock = record { gap = 0; block = 0 } in
    let blocks = blocks_from n b ns in
    let f : AckFrame = record {
      largest_acknowledged = n;
      ack_delay = 0;
      ack_block_count = length blocks - 1;
      ack_blocks = blocks;
    } in
    let over =
      blocks_from-Overflows true n b ns h hs
        (λ good. bad (Below-Distinct (n + 1) (n ∷ ns) (omega arith, good))) in
    (f, refl, (write_ack_frame-Overflows f over, ack_frame_length-Overflows f over))

-- A queue in which a packet number occurs twice, of numbers that a variable-length integer can
-- hold: GetAckFrame builds a frame, and both writeTo and FrameLength panic on it.
pub get_ack_frame-IsRefused :
    (queue : List ℕ)
    → ¬ Distinct queue
    → All (λ n. n ≤ max_var_int8) queue
    → (f : AckFrame) × ((get_ack_frame queue).0 ≡ some f) × IsRefused f
unfolding get_ack_frame
get_ack_frame-IsRefused queue bad h =
    ack_frame_of-IsRefused (sort queue) (λ good. bad (sort-Distinct queue good))
      (sort-All (λ n. n ≤ max_var_int8) queue h)
