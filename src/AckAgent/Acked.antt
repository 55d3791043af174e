-- ===== src/AckAgent/Acked.antt =====
-- agents/ack_agent.go: which packets the ACK frame acknowledges that answers a packet.
use quic_tracker.Base.{
  ℕ, ◌+◌, ◌%◌, ◌^◌, ◌≡◌, ◌≢◌, ◌≤◌, refl, ap, sym, List, [], ◌∷◌, ◌++◌, Bytes, All, true, ◌==◌,
  if◌then◌else◌, Option, some, done, length,
}
use quic_tracker.Base.Outcomes.{◌>>=◌}
use mathlib.Core.List.Perm
use quic_tracker.VarInt.{max_var_int8}
use quic_tracker.Frame.{Frame, AckFrame, ack, path_challenge_type}
use quic_tracker.Level.{Level}
use quic_tracker.Recovery.Agent.{space_number, set_space}
use quic_tracker.Base.{arith}
use quic_tracker.Ack.{get_ack_frame}
use quic_tracker.Ack.Correct.{Acknowledges, get_ack_frame-Acknowledges}
use quic_tracker.Packet.{pn_space, get_first}
use quic_tracker.Packet.Make.{FramePacket, encryption_level}
use quic_tracker.AckAgent.{
  Agent, packet_number, encode, answer, answer_path, append_number, ack_answer, send_ack,
  is_acknowledged, handle, handle_all,
}
use quic_tracker.AckAgent.Answers.{
  IsQueue, IsNew, AllNew, numbers, handle_all-IsQueue, append_number-IsQueue, empty-IsQueue,
}

-- The numbers received, and the last of them.
abbrev pub received : List FramePacket → FramePacket → List ℕ
received ps p = numbers (pn_space p.kind) ps ++ numbers (pn_space p.kind) (p ∷ [])

snoc-full : (xs ys : List ℕ) (n : ℕ) → ys ≡ n ∷ [] → xs ++ ys ≢ []
snoc-full [] ys n e h = cc
snoc-full (x ∷ xs) ys n e h = cc

own_space : (k n : ℕ) → (if k == k then n ∷ [] else []) ≡ n ∷ []
own_space k n = ground arith

full-IsQueue : (queue ns : List ℕ) → IsQueue queue ns → ns ≢ [] → queue ≢ []
full-IsQueue queue ns q full e = full (sym (Perm.nil-eq (rw e at q.same)))

-- The frame that GetAckFrame builds of a queue.
frame_of_queue :
    (queue ns : List ℕ)
    → IsQueue queue ns
    → ns ≢ []
    → All (λ n. n ≤ max_var_int8) ns
    → (f : AckFrame) × ((get_ack_frame queue).0 ≡ some f) × Acknowledges ns f
frame_of_queue queue ns q full small =
    let (f, e, (a, w, r)) =
      get_ack_frame-Acknowledges queue (full-IsQueue queue ns q full) q.distinct
        (q.every (λ n. n ≤ max_var_int8) small) in
    (f, e, (Perm.trans a q.same, w, r))

-- The frames that a packet is answered with before its ACK frame.
abbrev pub path_answers : FramePacket → Agent → List (Frame × Level)
path_answers p s =
    if s.disable_path_response
    then []
    else answer (get_first path_challenge_type p.frames) (encryption_level p.kind)

send_ack_lem :
    (p : FramePacket) (s : Agent) (f : AckFrame) (bytes : Bytes)
    → (get_ack_frame (s.ack_queue (pn_space p.kind))).0 ≡ some f
    → encode p ≡ done bytes
    → (u : Agent) × (send_ack p s ≡ done u)
      × (u.queued ≡ s.queued ++ ((ack f, encryption_level p.kind) ∷ []))
unfolding send_ack
send_ack_lem p s f bytes e b =
    let space = pn_space p.kind in
    let (g, sorted) = get_ack_frame (s.ack_queue space) in
    (
      record s {
        queued = s.queued ++ ack_answer g (encryption_level p.kind);
        ack_queue = set_space space sorted s.ack_queue;
        total_data_acked =
            set_space space ((s.total_data_acked space + length bytes) % 2 ^ 64) s.total_data_acked;
      },
      rw (b, ◌>>=◌) refl,
      ap (λ (o : Option AckFrame). s.queued ++ ack_answer o (encryption_level p.kind)) e,
    )

-- Packets arrive at an agent whose queue for the space of the last of them, p, is empty; no number
-- of that space arrives twice, and all of them fit a variable-length integer. The agent is set to
-- acknowledge p, and p can be encoded. Then the last frame that the agent queues for p is an ACK
-- frame, at the level of p and after its answer to a PATH_CHALLENGE frame, and it acknowledges the
-- numbers of that space that arrived, the one of p included, and no other.
pub handle-Acknowledges :
    (ps : List FramePacket) (p : FramePacket) (s t : Agent) (bytes : Bytes)
    → s.ack_queue (pn_space p.kind) ≡ []
    → AllNew (pn_space p.kind) [] ps
    → IsNew (pn_space p.kind) (numbers (pn_space p.kind) ps) p
    → All (λ n. n ≤ max_var_int8) (received ps p)
    → handle_all ps s ≡ done t
    → is_acknowledged p t ≡ true
    → encode p ≡ done bytes
    → (f : AckFrame) × (u : Agent) × (handle p t ≡ done u)
      × (u.queued ≡ t.queued ++ path_answers p t ++ ((ack f, encryption_level p.kind) ∷ []))
      × Acknowledges (received ps p) f
unfolding handle
handle-Acknowledges ps p s t bytes empty news new small before acked b =
    let space = pn_space p.kind in
    let start : IsQueue (s.ack_queue space) [] = rw empty empty-IsQueue in
    let q : IsQueue (t.ack_queue space) (numbers space ps) =
      (rw before at (handle_all-IsQueue ps s space [] start news)) in
    let next : IsQueue ((append_number p t).ack_queue space) (received ps p) =
      append_number-IsQueue p t space (numbers space ps) q new in
    let full =
      snoc-full (numbers space ps) (numbers space (p ∷ [])) (packet_number p.header)
        (own_space (space_number space) (packet_number p.header)) in
    let (f, e, a) =
      frame_of_queue ((append_number p t).ack_queue space) (received ps p) next full small in
    let (u, sent, answers) = send_ack_lem p (answer_path p (append_number p t)) f bytes e b in
    (f, u, rw acked sent, answers, a)
