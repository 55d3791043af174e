-- ===== src/Ack/Correct.antt =====
-- connection.go, GetAckFrame: which packet numbers its frame acknowledges, read as the draft says.
use quic_tracker.Base.{
  ℕ, zero, suc, ◌+◌, ◌-◌, ◌^◌, ◌<◌, ◌≤◌, ◌≡◌, ◌≢◌, refl, ap, ◌∙◌, List, Bytes, [], ◌∷◌, ◌++◌,
  length, All, ◌==◌, arith, some, append_assoc, Bool-cases, inl, inr, ==_iff,
}
use mathlib.Core.List.{Perm}
use mathlib.Core.List.Perm
use quic_tracker.Frame.{AckFrame, AckBlock, ack}
use quic_tracker.Frame.Wire.{IsWritable, IsVarInt, IsBlock}
use quic_tracker.Frame.RoundTrip.{IsReadable, IsReadableAck}
use quic_tracker.VarInt.{max_var_int8}
use quic_tracker.Ack.{sub64, blocks_from, get_ack_frame, ack_frame_of}
use quic_tracker.Ack.Sort.{
  sort, Below, IsDescending, Distinct, sort-perm, sort-IsDescending, sort-All,
}

-- The k + 1 numbers from n down.
unfoldable pub run_down : ℕ → ℕ → List ℕ
run_down n zero = n ∷ []
run_down n (suc k) = n ∷ run_down (n - 1) k

abbrev pub next_gap : List AckBlock → ℕ
next_gap [] = 0
next_gap (b ∷ rest) = b.gap

-- A block holds `block + 1` numbers from `top` down; the next one begins `gap + 2` below its last.
unfoldable pub acked_runs : ℕ → List AckBlock → List ℕ
acked_runs top [] = []
acked_runs top (b ∷ rest) =
    run_down top b.block ++ acked_runs (top - b.block - next_gap rest - 2) rest

-- The packet numbers that a frame acknowledges.
unfoldable pub acked : AckFrame → List ℕ
unfolding run_down acked_runs
acked f = acked_runs f.largest_acknowledged f.ack_blocks

run_down-suc : (n k : ℕ) → run_down n (suc k) ≡ run_down n k ++ (n - suc k) ∷ []
unfolding run_down
run_down-suc n zero = refl
run_down-suc n (suc k) =
    let e : n - suc (suc k) ≡ n - 1 - suc k = omega arith in
    rw e (ap (◌∷◌ n) (run_down-suc (n - 1) k))

run_down-zero : (n : ℕ) (ns : List ℕ) → run_down n 0 ++ ns ≡ n ∷ ns
unfolding run_down
run_down-zero n ns = refl

sub64_lem : (a b : ℕ) → b ≤ a → a < 2 ^ 64 → sub64 a b ≡ a - b
sub64_lem a b h lt = omega arith

pub next_gap-blocks_from :
    (p : ℕ) (b : AckBlock) (ns : List ℕ) → next_gap (blocks_from p b ns) ≡ b.gap
unfolding blocks_from
next_gap-blocks_from p b [] = refl
next_gap-blocks_from p b (n ∷ ns) = elim (Bool-cases (sub64 p n == 1)) [
  | inl e ↦ rw (e, blocks_from) (next_gap-blocks_from n (record b { block = b.block + 1 }) ns)
  | inr e ↦ rw (e, blocks_from)
]

-- The numbers from `p + k` down to `p` are in the open block.
acked_runs-blocks_from :
    (p k g : ℕ) (ns : List ℕ)
    → p < 2 ^ 64
    → Below p ns
    → acked_runs (p + k) (blocks_from p (record { gap = g; block = k }) ns)
      ≡ run_down (p + k) k ++ ns
unfolding blocks_from acked_runs
acked_runs-blocks_from p k g [] lt h = refl
acked_runs-blocks_from p k g (n ∷ ns) lt (h, hs) = elim (Bool-cases (sub64 p n == 1)) [
  | inl e ↦
      let one : p ≡ n + 1 = omega (arith, (==_iff (sub64 p n) 1).0 e) in
      let grown : k + 1 ≡ suc k = omega arith in
      let top : p + k ≡ n + suc k = omega arith in
      let last : n + suc k - suc k ≡ n = omega arith in
      rw (e, blocks_from)
        (rw (grown, top)
          (acked_runs-blocks_from n (suc k) g ns (omega arith) hs
            ∙ rw (run_down-suc (n + suc k) k, last)
                (append_assoc (run_down (n + suc k) k) (n ∷ []) ns)))
  | inr e ↦
      let ne : sub64 p n ≢ 1 = λ q. cc ((==_iff (sub64 p n) 1).1 q) in
      let g' = sub64 (sub64 p n) 2 in
      let top : p + k - k - g' - 2 ≡ n + 0 = omega arith in
      let same : n + 0 ≡ n = omega arith in
      rw (e, blocks_from, next_gap-blocks_from n (record { gap = g'; block = 0 }) ns, top)
        (ap (λ (l : List ℕ). run_down (p + k) k ++ l)
          (acked_runs-blocks_from n 0 g' ns (omega arith) hs ∙ rw same (run_down-zero n ns)))
]

blocks_from-IsBlock :
    (p : ℕ) (b : AckBlock) (ns : List ℕ)
    → p ≤ max_var_int8
    → Below p ns
    → IsVarInt b.gap
    → p + b.block ≤ max_var_int8
    → All IsBlock (blocks_from p b ns)
unfolding blocks_from
blocks_from-IsBlock p b [] hp h hg hb = ((hg, omega arith), tt)
blocks_from-IsBlock p b (n ∷ ns) hp (h, hs) hg hb = elim (Bool-cases (sub64 p n == 1)) [
  | inl e ↦
      rw (e, blocks_from)
        (blocks_from-IsBlock n (record b { block = b.block + 1 }) ns (omega arith) hs hg
          (omega (arith, (==_iff (sub64 p n) 1).0 e)))
  | inr e ↦
      let ne : sub64 p n ≢ 1 = λ q. cc ((==_iff (sub64 p n) 1).1 q) in
      let g = sub64 (sub64 p n) 2 in
      rw (e, blocks_from)
        (
          (hg, omega arith),
          blocks_from-IsBlock n (record { gap = g; block = 0 }) ns (omega arith) hs (omega arith)
              (omega arith),
        )
]

length-blocks_from :
    (p : ℕ) (b : AckBlock) (ns : List ℕ) → length (blocks_from p b ns) ≤ length ns + 1
unfolding blocks_from
length-blocks_from p b [] = omega arith
length-blocks_from p b (n ∷ ns) = ground (
  arith,
  length-blocks_from n (record b { block = b.block + 1 }) ns,
  length-blocks_from n (record { gap = sub64 (sub64 p n) 2; block = 0 }) ns,
)

length-Below : (p : ℕ) (ns : List ℕ) → Below p ns → length ns ≤ p
length-Below p [] h = omega arith
length-Below p (n ∷ ns) (h, hs) = omega (arith, length-Below n ns hs)

pub blocks_from-IsCons : (p : ℕ) (b : AckBlock) (ns : List ℕ) → 1 ≤ length (blocks_from p b ns)
unfolding blocks_from
blocks_from-IsCons p b [] = omega arith
blocks_from-IsCons p b (n ∷ ns) = ground (
  arith,
  blocks_from-IsCons n (record b { block = b.block + 1 }) ns,
  blocks_from-IsCons n (record { gap = sub64 (sub64 p n) 2; block = 0 }) ns,
)

counted :
    (f : AckFrame) (bs : List AckBlock)
    → next_gap bs ≡ 0
    → 1 ≤ length bs
    → f.ack_block_count ≡ length bs - 1
    → IsReadableAck f bs
counted f [] z l e = absurd (omega (arith, l))
counted f (b ∷ bs) z l e = (z, omega (arith, e))

-- What is asked of the frame made of a queue.
abbrev pub Acknowledges : List ℕ → AckFrame → Type 0
Acknowledges queue f =
    Perm (acked f) queue × IsWritable (ack f) × ((k : Bytes) → IsReadable (ack f) k)

abbrev built : ℕ → List ℕ → AckFrame
built first rest =
    let blocks = blocks_from first (record { gap = 0; block = 0 }) rest in
    record {
      largest_acknowledged = first;
      ack_delay = 0;
      ack_block_count = length blocks - 1;
      ack_blocks = blocks;
    }

acked-from :
    (m n : ℕ) (ns : List ℕ)
    → m ≡ n + 0
    → n < 2 ^ 64
    → Below n ns
    → acked_runs m (blocks_from n (record { gap = 0; block = 0 }) ns) ≡ m ∷ ns
acked-from m n ns e lt h = rw e (acked_runs-blocks_from n 0 0 ns lt h ∙ run_down-zero (n + 0) ns)

acked-built : (n : ℕ) (ns : List ℕ) → n < 2 ^ 64 → Below n ns → acked (built n ns) ≡ n ∷ ns
unfolding acked
acked-built n ns lt h = acked-from n n ns (omega arith) lt h

built-IsWritable :
    (n : ℕ) (ns : List ℕ) → n ≤ max_var_int8 → Below n ns → IsWritable (ack (built n ns))
built-IsWritable n ns le h =
    let short = length-blocks_from n (record { gap = 0; block = 0 }) ns in
    let few = length-Below n ns h in
    (
      le,
      omega arith,
      omega (arith, short, few),
      blocks_from-IsBlock n (record { gap = 0; block = 0 }) ns le h (omega arith) (omega arith),
    )

built-Acknowledges :
    (queue : List ℕ) (n : ℕ) (ns : List ℕ)
    → Perm (n ∷ ns) queue
    → n ≤ max_var_int8
    → Below n ns
    → Acknowledges queue (built n ns)
built-Acknowledges queue n ns p le h =
    let b : AckBlock = record { gap = 0; block = 0 } in
    (
      rw (acked-built n ns (omega arith) h) p,
      built-IsWritable n ns le h,
      λ k.
          counted (built n ns) (blocks_from n b ns) (next_gap-blocks_from n b ns)
            (blocks_from-IsCons n b ns) refl,
    )

ack_frame_of-Acknowledges :
    (queue sorted : List ℕ)
    → queue ≢ []
    → Perm sorted queue
    → IsDescending sorted
    → All (λ n. n ≤ max_var_int8) sorted
    → (f : AckFrame) × (ack_frame_of sorted ≡ some f) × Acknowledges queue f
unfolding ack_frame_of
ack_frame_of-Acknowledges queue [] ne p d h = absurd (ne (Perm.eq-nil (Perm.symm p)))
ack_frame_of-Acknowledges queue (n ∷ ns) ne p d (h, hs) =
    (built n ns, refl, built-Acknowledges queue n ns p h d)

-- A queue that is not empty, of distinct packet numbers that a variable-length integer can hold:
-- GetAckFrame builds a frame from it that acknowledges these numbers and no other. Its numbers fit
-- the wire format, its first gap is 0, and its count is that of the blocks after the first.
pub get_ack_frame-Acknowledges :
    (queue : List ℕ)
    → queue ≢ []
    → Distinct queue
    → All (λ n. n ≤ max_var_int8) queue
    → (f : AckFrame) × ((get_ack_frame queue).0 ≡ some f) × Acknowledges queue f
unfolding get_ack_frame
get_ack_frame-Acknowledges queue ne d h =
    ack_frame_of-Acknowledges queue (sort queue) ne (sort-perm queue) (sort-IsDescending queue d)
      (sort-All (λ n. n ≤ max_var_int8) queue h)
