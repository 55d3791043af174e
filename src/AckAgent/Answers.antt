-- ===== src/AckAgent/Answers.antt =====
-- agents/ack_agent.go: the queue of the packet numbers to acknowledge, and the frames queued.
use quic_tracker.Base.{
  ℕ, ◌≡◌, ◌≢◌, refl, sym, List, [], ◌∷◌, ◌++◌, All, All-append, true, ltb, ◌==◌, if◌then◌else◌,
  Bool-cases, inl, inr, append_assoc, append-nil,
}
use quic_tracker.Base.Outcomes.{Returns, bind-Returns, Returns-any, if-Returns}
use mathlib.Core.List.{Perm}
use mathlib.Core.List.Perm
use quic_tracker.Ack.{get_ack_frame}
use quic_tracker.Ack.Sort.{insert, sort, Distinct, sort-perm, sort-All, insert-All}
use quic_tracker.Recovery.Agent.{space_number}
use quic_tracker.Packet.{
  PnSpace, initial_space, handshake_space, app_data_space, no_space, pn_space,
}
use quic_tracker.Packet.Make.{FramePacket}
use quic_tracker.AckAgent.{
  Agent, packet_number, encode, answer_path, append_number, send_ack, is_acknowledged, handle,
  handle_all,
}

-- The numbers of the packets of a space, in the order of their arrival.
abbrev pub numbers : PnSpace → List FramePacket → List ℕ
numbers space [] = []
numbers space (p ∷ rest) =
    let more = numbers space rest in
    if space_number space == space_number (pn_space p.kind)
    then packet_number p.header ∷ more
    else more

-- The queue holds these numbers, in some order and none of them twice.
pub record IsQueue (queue ns : List ℕ) : Type 1 where
  pub same : Perm queue ns
  pub distinct : Distinct queue
  pub every : (P : ℕ → Type 0) → All P ns → All P queue

-- A packet of the space has a number that is none of these.
abbrev pub IsNew : PnSpace → List ℕ → FramePacket → Type 0
IsNew space ns p = space ≡ pn_space p.kind → All (λ y. y ≢ packet_number p.header) ns

-- No number of the space arrives twice, or is one of these.
abbrev pub AllNew : PnSpace → List ℕ → List FramePacket → Type 0
AllNew space ns [] = Unit {0}
AllNew space ns (p ∷ rest) = IsNew space ns p × AllNew space (ns ++ numbers space (p ∷ [])) rest

insert-Distinct : (x : ℕ) (xs : List ℕ) → All (λ y. x ≢ y) xs → Distinct xs → Distinct (insert x xs)
unfolding insert
insert-Distinct x [] h d = (tt, tt)
insert-Distinct x (y ∷ ys) (n, h) (hy, d) = elim (Bool-cases (ltb y x)) [
  | inl e ↦ rw (insert, e) ((n, h), (hy, d))
  | inr e ↦
      rw (insert, e) (insert-All (λ z. y ≢ z) x ys (λ q. n (sym q)) hy, insert-Distinct x ys h d)
]

pub sort-Distinct : (xs : List ℕ) → Distinct xs → Distinct (sort xs)
unfolding sort
sort-Distinct [] h = tt
sort-Distinct (x ∷ xs) (h, d) =
    insert-Distinct x (sort xs) (sort-All (λ y. x ≢ y) xs h) (sort-Distinct xs d)

snoc-Distinct :
    (xs : List ℕ) (n : ℕ) → Distinct xs → All (λ y. y ≢ n) xs → Distinct (xs ++ (n ∷ []))
snoc-Distinct [] n d h = (tt, tt)
snoc-Distinct (x ∷ xs) n (hx, d) (h, hs) =
    (All-append (λ y. x ≢ y) xs (n ∷ []) hx (h, tt), snoc-Distinct xs n d hs)

All-split : (P : ℕ → Type 0) (xs : List ℕ) (n : ℕ) → All P (xs ++ (n ∷ [])) → All P xs × P n
All-split P [] n (h, t) = (tt, h)
All-split P (x ∷ xs) n (h, hs) = let (r, p) = All-split P xs n hs in ((h, r), p)

snoc-IsQueue :
    (queue ns : List ℕ) (n : ℕ)
    → IsQueue queue ns
    → All (λ y. y ≢ n) ns
    → IsQueue (queue ++ (n ∷ [])) (ns ++ (n ∷ []))
snoc-IsQueue queue ns n q h = record {
  same = Perm.append_right (n ∷ []) q.same;
  distinct = snoc-Distinct queue n q.distinct (q.every (λ y. y ≢ n) h);
  every =
      λ P a. let (r, p) = All-split P ns n a in All-append P queue (n ∷ []) (q.every P r) (p, tt);
}

sort-IsQueue : (queue ns : List ℕ) → IsQueue queue ns → IsQueue (sort queue) ns
sort-IsQueue queue ns q = record {
  same = Perm.trans (sort-perm queue) q.same;
  distinct = sort-Distinct queue q.distinct;
  every = λ P a. sort-All P queue (q.every P a);
}

same_space : (a b : PnSpace) → (space_number a == space_number b) ≡ true → a ≡ b
same_space initial_space initial_space e = refl
same_space handshake_space handshake_space e = refl
same_space app_data_space app_data_space e = refl
same_space no_space no_space e = refl
same_space initial_space _ e = cc
same_space handshake_space _ e = cc
same_space app_data_space _ e = cc
same_space no_space _ e = cc

pub append_number-IsQueue :
    (p : FramePacket) (s : Agent) (space : PnSpace) (ns : List ℕ)
    → IsQueue (s.ack_queue space) ns
    → IsNew space ns p
    → IsQueue ((append_number p s).ack_queue space) (ns ++ numbers space (p ∷ []))
append_number-IsQueue p s space ns q h =
    elim (Bool-cases (space_number space == space_number (pn_space p.kind))) [
      | inl e ↦
          rw (e, ← same_space space (pn_space p.kind) e)
            (snoc-IsQueue (s.ack_queue space) ns (packet_number p.header) q
              (h (same_space space (pn_space p.kind) e)))
      | inr e ↦ rw (e, append-nil) q
    ]

pub sorted_lem : (queue : List ℕ) → (get_ack_frame queue).1 ≡ sort queue
unfolding get_ack_frame
sorted_lem queue = refl

send_ack-IsQueue :
    (p : FramePacket) (s : Agent) (space : PnSpace) (ns : List ℕ)
    → IsQueue (s.ack_queue space) ns
    → Returns (λ t. IsQueue (t.ack_queue space) ns) (send_ack p s)
unfolding send_ack
send_ack-IsQueue p s space ns q = bind-Returns _ _ (encode p) _ (Returns-any _) λ bytes _.
    elim (Bool-cases (space_number space == space_number (pn_space p.kind))) [
      | inl e ↦
          rw (e, ← same_space space (pn_space p.kind) e, sorted_lem (s.ack_queue space))
            (sort-IsQueue (s.ack_queue space) ns q)
      | inr e ↦ rw e q
    ]

pub handle-IsQueue :
    (p : FramePacket) (s : Agent) (space : PnSpace) (ns : List ℕ)
    → IsQueue (s.ack_queue space) ns
    → IsNew space ns p
    → Returns (λ t. IsQueue (t.ack_queue space) (ns ++ numbers space (p ∷ []))) (handle p s)
unfolding handle
handle-IsQueue p s space ns q h =
    let t = answer_path p (append_number p s) in
    let r : IsQueue (t.ack_queue space) (ns ++ numbers space (p ∷ [])) =
      append_number-IsQueue p s space ns q h in
    if-Returns _ (is_acknowledged p s) _ _
      (send_ack-IsQueue p t space (ns ++ numbers space (p ∷ [])) r) r

numbers-cons :
    (space : PnSpace) (p : FramePacket) (rest : List FramePacket)
    → numbers space (p ∷ rest) ≡ numbers space (p ∷ []) ++ numbers space rest
numbers-cons space p rest =
    elim (Bool-cases (space_number space == space_number (pn_space p.kind))) [
      | inl e ↦ rw e refl
      | inr e ↦ rw e refl
    ]

-- When no number of a space arrives twice, the agent's queue of the space holds the numbers that it
-- held and those of the packets that arrived, each once and in some order, whatever packets of
-- other spaces arrive between them and however often GetAckFrame sorts the queue.
pub handle_all-IsQueue :
    (ps : List FramePacket) (s : Agent) (space : PnSpace) (ns : List ℕ)
    → IsQueue (s.ack_queue space) ns
    → AllNew space ns ps
    → Returns (λ t. IsQueue (t.ack_queue space) (ns ++ numbers space ps)) (handle_all ps s)
unfolding handle_all
handle_all-IsQueue [] s space ns q h = rw append-nil q
handle_all-IsQueue (p ∷ rest) s space ns q (h, hs) =
    bind-Returns _ _ (handle p s) (handle_all rest) (handle-IsQueue p s space ns q h) λ t r.
      rw
        (numbers-cons space p rest, ← append_assoc ns (numbers space (p ∷ [])) (numbers space rest))
        (handle_all-IsQueue rest t space (ns ++ numbers space (p ∷ [])) r hs)

pub empty-IsQueue : IsQueue [] []
empty-IsQueue = record { same = Perm.refl []; distinct = tt; every = λ P h. h }
