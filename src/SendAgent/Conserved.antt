-- ===== src/SendAgent/Conserved.antt =====
-- agents/send_agent.go: no frame is lost, and none is sent twice.
use quic_tracker.Base.{
  ℕ, ◌+◌, ◌≡◌, refl, ap, ◌∙◌, Bool, true, false, ◌||◌, List, [], ◌∷◌, ◌++◌, ltb, Outcome, arith,
  Bool-cases, inl, inr,
}
use quic_tracker.Base.Outcomes.{Returns, bind-Returns, Returns-any, Returns-map, if-Returns}
use quic_tracker.Frame.{Frame, AckFrame, ack}
use quic_tracker.Frame.Length.{frame_length}
use quic_tracker.Level.{
  Level, level_none, level_initial, level_0rtt, level_handshake, level_1rtt, level_best,
  level_best_app_data, set_level,
}
use quic_tracker.Header.Make.{Connection}
use quic_tracker.Packet.{Kind, initial, handshake, protected, zero_rtt_protected}
use quic_tracker.Packet.Make.{FramePacket, encryption_level, new_packet, new_packet-frames}
use quic_tracker.SendAgent.Merge.{merge_ack_frames}
use quic_tracker.SendAgent.{
  Agent, others, acks, ack_part, empty_level, fill_with_level, send_packet, is_empty, chosen,
  is_best, packet_of, packet_for, place, overflow, reset_timer, enqueue, wait, queue_frame,
  send_frames, fill_and_send, move_frames, choose_and_move, timer_fired, disarm, send_all,
  level_available, Event, queued, fired, available_level, step, add16,
}
use quic_tracker.SendAgent.Counts.{
  one, count, in_packets, total, Adds, set-other, chosen_lem, sum-set, count-append, append_to-Adds,
  empty_level-Adds, send_packet-Adds, send_or_keep-Adds, count-others,
}

module _ (p : Frame → Bool) (h : (f : AckFrame) → p (ack f) ≡ false) where
  no_count : (f : AckFrame) → count p (ack f ∷ []) ≡ 0
  no_count f = rw (h f)

  -- The frames of the packet are counted as well.
  abbrev AddsPacket : ℕ → Agent → Outcome (FramePacket × Agent) → Type 0
  AddsPacket n s = Returns (λ r. count p r.0.frames + total p r.1 ≡ total p s + n)

  ack_part-none : (fs : List AckFrame) → Returns (λ gs. count p gs ≡ 0) (ack_part fs)
  unfolding ack_part
  ack_part-none [] = refl
  ack_part-none (f ∷ []) = no_count f
  ack_part-none (f ∷ g ∷ rest) =
      bind-Returns _ _ (merge_ack_frames (f ∷ g ∷ rest)) _ (Returns-any _) λ m _. no_count m

  fill-Adds :
      (q : FramePacket) (l : Level) (s : Agent)
      → AddsPacket (count p q.frames) s (fill_with_level q l s)
  unfolding fill_with_level
  fill-Adds q l s =
      bind-Returns _ _ (ack_part (acks (s.frame_buffer l))) _
        (ack_part-none (acks (s.frame_buffer l)))
        λ gs none. omega (
          arith,
          none,
          count-others p h (s.frame_buffer l),
          empty_level-Adds p l s,
          count-append p (q.frames ++ others (s.frame_buffer l)) gs,
          count-append p q.frames (others (s.frame_buffer l)),
          count-append p (others (s.frame_buffer l)) gs,
          count-append p q.frames (others (s.frame_buffer l) ++ gs),
        )

  new_packet-none :
      (k : Kind) (c : Connection) → Returns (λ r. count p r.0.frames ≡ 0) (new_packet k c)
  new_packet-none k c =
      Returns-map _ _ (new_packet k c) (new_packet-frames k c) λ r e. ap (count p) e

  packet_of-none :
      (k : Kind) (s : Agent)
      → Returns (λ r. (count p r.0.frames ≡ 0) × (total p r.1 ≡ total p s)) (packet_of k s)
  packet_of-none k s =
      bind-Returns _ _ (new_packet k s.connection) _ (new_packet-none k s.connection)
        λ r e. (e, refl)

  packet_of-Adds : (k : Kind) (s : Agent) → AddsPacket 0 s (packet_of k s)
  packet_of-Adds k s =
      Returns-map _ _ (packet_of k s) (packet_of-none k s) λ r (e, t). omega (arith, e, t)

  packet_for-Adds : (l : Level) (s : Agent) → AddsPacket 0 s (packet_for l s)
  unfolding packet_for
  packet_for-Adds level_none s = tt
  packet_for-Adds level_initial s = packet_of-Adds initial s
  packet_for-Adds level_0rtt s = packet_of-Adds zero_rtt_protected s
  packet_for-Adds level_handshake s = packet_of-Adds handshake s
  packet_for-Adds level_1rtt s = packet_of-Adds protected s
  packet_for-Adds level_best s = tt
  packet_for-Adds level_best_app_data s = tt

  place-Adds :
      (f : Frame) (l : Level) (q : FramePacket) (s : Agent)
      → count p (place f l q s).0.frames + total p (place f l q s).1
        ≡ count p q.frames + total p s + one (p f)
  place-Adds f l q s = elim (Bool-cases (is_empty q.frames)) [
    | inl e ↦ rw e (omega (arith, count-append p q.frames (f ∷ [])))
    | inr e ↦ rw e (omega (arith, append_to-Adds p l f s))
  ]

  overflow-Adds : (f : Frame) (l : Level) (s : Agent) → Adds p (one (p f)) s (overflow f l s)
  unfolding overflow
  overflow-Adds f l s = bind-Returns _ _ (packet_for l s) _ (packet_for-Adds l s) λ r e.
      bind-Returns _ _ (fill_with_level r.0 l r.1) _ (fill-Adds r.0 l r.1) λ t u.
        let done_with = place f l t.0 t.1 in
        omega (arith, e, u, place-Adds f l t.0 t.1, send_or_keep-Adds p l done_with.0 done_with.1)

  reset_timer-Adds : (l : Level) (s : Agent) → Adds p 0 s (reset_timer l s)
  reset_timer-Adds level_none s = tt
  reset_timer-Adds level_initial s = omega arith
  reset_timer-Adds level_0rtt s = omega arith
  reset_timer-Adds level_handshake s = omega arith
  reset_timer-Adds level_1rtt s = omega arith
  reset_timer-Adds level_best s = omega arith
  reset_timer-Adds level_best_app_data s = omega arith

  wait-Adds : (f : Frame) (l : Level) (n : ℕ) (s : Agent) → Adds p (one (p f)) s (wait f l n s)
  wait-Adds f l n s =
      let e : total p (enqueue f l n s) ≡ total p s + one (p f) = append_to-Adds p l f s in
      let with_timer : Adds p (one (p f)) s (reset_timer l (enqueue f l n s)) =
        Returns-map _ _ (reset_timer l (enqueue f l n s)) (reset_timer-Adds l (enqueue f l n s))
          λ u v. omega (arith, e, v) in
      if-Returns _ (s.available l || is_best l) _ _ with_timer e

  queue_frame-Adds : (f : Frame) (l : Level) (s : Agent) → Adds p (one (p f)) s (queue_frame f l s)
  unfolding queue_frame
  queue_frame-Adds f l s = bind-Returns _ _ (frame_length f) _ (Returns-any _) λ n _.
      if-Returns _ (ltb s.mtu (add16 (s.frame_buffer_length l) n)) _ _
        (overflow-Adds f (chosen l s) s) (wait-Adds f l n s)

  send_frames-Adds :
      (q : FramePacket) (l : Level) (s : Agent) → Adds p (count p q.frames) s (send_frames q l s)
  unfolding send_frames
  send_frames-Adds q l s =
      bind-Returns _ _ (fill_with_level q l s) _ (fill-Adds q l s)
        λ r e. omega (arith, e, send_packet-Adds p r.0 l r.1)

  fill_and_send-Adds : (k : Kind) (s : Agent) → Adds p 0 s (fill_and_send k s)
  unfolding fill_and_send
  fill_and_send-Adds k s = bind-Returns _ _ (packet_of k s) _ (packet_of-none k s) λ r (e, t).
      let l = encryption_level k in
      let kept : total p r.1 ≡ total p s + 0 = omega (arith, t) in
      let sent : Adds p 0 s (send_frames r.0 l r.1) =
        Returns-map _ _ (send_frames r.0 l r.1) (send_frames-Adds r.0 l r.1)
          λ u v. omega (arith, e, t, v) in
      if-Returns _ (is_empty (r.1.frame_buffer l)) _ _ kept
        (if-Returns _ (r.1.available l) _ _ sent kept)

  -- The frames of the buffer of the level `best` are moved to that of l.
  move_frames-Adds :
      (best l : Level) (fs : List Frame) (s : Agent)
      → is_best best ≡ true
      → is_best l ≡ false
      → Returns
          (λ t. (total p t ≡ total p s + count p fs) × (t.frame_buffer best ≡ s.frame_buffer best))
          (move_frames l fs s)
  unfolding move_frames
  move_frames-Adds best l [] s hb hl = (omega arith, refl)
  move_frames-Adds best l (f ∷ rest) s hb hl =
      bind-Returns _ _ (frame_length f) _ (Returns-any _) λ n _.
        Returns-map _ _ (move_frames l rest (enqueue f l n s))
          (move_frames-Adds best l rest (enqueue f l n s) hb hl)
          λ t (e, b). (
            omega (arith, e, append_to-Adds p l f s),
            b ∙ set-other best l (s.frame_buffer l ++ (f ∷ [])) s.frame_buffer hb hl,
          )

  choose_and_move-Adds :
      (best : Level) (s : Agent) → is_best best ≡ true → Adds p 0 s (choose_and_move best s)
  unfolding choose_and_move
  choose_and_move-Adds best s hb =
      let l = chosen best s in
      let moved = move_frames-Adds best l (s.frame_buffer best) s hb (chosen_lem best s hb) in
      bind-Returns _ _ (move_frames l (s.frame_buffer best) s) _ moved λ t (e, b).
        Returns-map _ _ (reset_timer l (empty_level best t))
          (reset_timer-Adds l (empty_level best t))
          λ u v. omega (arith, e, v, empty_level-Adds p best t, ap (count p) b)

  timer_fired-Adds : (l : Level) (s : Agent) → Adds p 0 s (timer_fired l s)
  unfolding timer_fired
  timer_fired-Adds level_none s = omega arith
  timer_fired-Adds level_initial s = fill_and_send-Adds initial (disarm level_initial s)
  timer_fired-Adds level_0rtt s = fill_and_send-Adds zero_rtt_protected (disarm level_0rtt s)
  timer_fired-Adds level_handshake s = fill_and_send-Adds handshake (disarm level_handshake s)
  timer_fired-Adds level_1rtt s = fill_and_send-Adds protected (disarm level_1rtt s)
  timer_fired-Adds level_best s = choose_and_move-Adds level_best (disarm level_best s) refl
  timer_fired-Adds level_best_app_data s =
      choose_and_move-Adds level_best_app_data (disarm level_best_app_data s) refl

  send_all-Adds :
      (qs : List FramePacket) (l : Level) (s : Agent)
      → (total p (send_all qs l s) ≡ total p s + in_packets p qs)
        × ((send_all qs l s).packet_buffer ≡ s.packet_buffer)
  send_all-Adds [] l s = (omega arith, refl)
  send_all-Adds (q ∷ rest) l s =
      let (e, b) = send_all-Adds rest l (send_packet q l s) in
      (omega (arith, e, send_packet-Adds p q l s), b)

  level_available-Adds :
      (read : Bool) (l : Level) (s : Agent) → Adds p 0 s (level_available read l s)
  unfolding level_available
  level_available-Adds true l s = omega arith
  level_available-Adds false l s =
      let t = record s { available = set_level l true s.available } in
      let u = send_all (t.packet_buffer l) l t in
      let (e, b) = send_all-Adds (t.packet_buffer l) l t in
      let left : in_packets p (u.packet_buffer l) ≡ in_packets p (s.packet_buffer l) =
        ap (λ (m : Level → List FramePacket). in_packets p (m l)) b in
      Returns-map _ _ (reset_timer l (record u { packet_buffer = set_level l [] u.packet_buffer }))
        (reset_timer-Adds l (record u { packet_buffer = set_level l [] u.packet_buffer }))
        λ v w. omega (arith, e, w, left, sum-set (in_packets p) l [] u.packet_buffer)

-- How many of the frames that an event queues satisfy the test.
abbrev pub queued_by : (Frame → Bool) → Event → ℕ
queued_by p (queued f l) = one (p f)
queued_by p _ = 0

-- Whatever frames are counted, as long as no ACK frame is: after a round that does not panic the
-- agent's buffers, the packets that wait and the packets sent hold together as many of them as
-- before, and the one that was queued.
pub step-Adds :
    (p : Frame → Bool) (s : Agent) (e : Event)
    → ((f : AckFrame) → p (ack f) ≡ false)
    → Returns (λ t. total p t ≡ total p s + queued_by p e) (step s e)
unfolding step
step-Adds p s (queued f l) h = queue_frame-Adds p h f l s
step-Adds p s (fired l) h = timer_fired-Adds p h l s
step-Adds p s (available_level read l) h = level_available-Adds p h read l s
