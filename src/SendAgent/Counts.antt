-- ===== src/SendAgent/Counts.antt =====
-- agents/send_agent.go: counting the frames that the agent holds.
use quic_tracker.Base.{
  ℕ, ◌+◌, ◌≡◌, refl, Bool, true, false, List, [], ◌∷◌, ◌++◌, Outcome, arith, Bool-cases, inl, inr,
}
use quic_tracker.Base.Outcomes.{Returns}
use quic_tracker.Frame.{
  Frame, AckFrame, padding, ping, ack, ack_ecn, reset_stream, stop_sending, crypto, new_token,
  stream, max_data, max_stream_data, max_streams, data_blocked, stream_data_blocked,
  streams_blocked, new_connection_id, retire_connection_id, path_challenge, path_response,
  connection_close, application_close,
}
use quic_tracker.Level.{
  Level, level_none, level_initial, level_0rtt, level_handshake, level_1rtt, level_best,
  level_best_app_data, same_level, set_level,
}
use quic_tracker.Packet.Make.{FramePacket, encryption_level}
use quic_tracker.SendAgent.{
  choose_best_encryption_level, Agent, others, empty_level, send_packet, chosen, is_best, append_to,
  keep_packet, send_or_keep,
}

abbrev pub one : Bool → ℕ
one true = 1
one false = 0

-- How many of the frames satisfy the test.
abbrev pub count : (Frame → Bool) → List Frame → ℕ
count p [] = 0
count p (f ∷ rest) = one (p f) + count p rest

abbrev pub in_packets : (Frame → Bool) → List FramePacket → ℕ
in_packets p [] = 0
in_packets p (q ∷ rest) = count p q.frames + in_packets p rest

abbrev pub in_sent : (Frame → Bool) → List (FramePacket × Level) → ℕ
in_sent p [] = 0
in_sent p (q ∷ rest) = count p q.0.frames + in_sent p rest

abbrev pub sum : (Level → ℕ) → ℕ
sum g =
    g level_none
    + g level_initial
    + g level_0rtt
    + g level_handshake
    + g level_1rtt
    + g level_best
    + g level_best_app_data

-- The frames in the buffers, in the packets that wait and in the packets sent.
abbrev pub total : (Frame → Bool) → Agent → ℕ
total p s =
    sum (λ l. count p (s.frame_buffer l))
    + sum (λ l. in_packets p (s.packet_buffer l))
    + in_sent p s.sent

-- The total is n more after the call.
abbrev pub Adds : (Frame → Bool) → ℕ → Agent → Outcome Agent → Type 0
Adds p n s = Returns (λ t. total p t ≡ total p s + n)

pub sum-set {ℓ} :
    {A : Type ℓ} (w : A → ℕ) (l : Level) (a : A) (m : Level → A)
    → sum (λ i. w (set_level l a m i)) + w (m l) ≡ sum (λ i. w (m i)) + w a
sum-set w level_none a m = omega arith
sum-set w level_initial a m = omega arith
sum-set w level_0rtt a m = omega arith
sum-set w level_handshake a m = omega arith
sum-set w level_1rtt a m = omega arith
sum-set w level_best a m = omega arith
sum-set w level_best_app_data a m = omega arith

pub count-append :
    (p : Frame → Bool) (fs gs : List Frame) → count p (fs ++ gs) ≡ count p fs + count p gs
count-append p [] gs = omega arith
count-append p (f ∷ fs) gs = omega (arith, count-append p fs gs)

in_packets-append :
    (p : Frame → Bool) (fs gs : List FramePacket)
    → in_packets p (fs ++ gs) ≡ in_packets p fs + in_packets p gs
in_packets-append p [] gs = omega arith
in_packets-append p (f ∷ fs) gs = omega (arith, in_packets-append p fs gs)

in_sent-append :
    (p : Frame → Bool) (fs gs : List (FramePacket × Level))
    → in_sent p (fs ++ gs) ≡ in_sent p fs + in_sent p gs
in_sent-append p [] gs = omega arith
in_sent-append p (f ∷ fs) gs = omega (arith, in_sent-append p fs gs)

-- A map at one of the two levels that stand for others, after an assignment elsewhere.
pub set-other {ℓ} :
    {A : Type ℓ} (best l : Level) (a : A) (m : Level → A)
    → is_best best ≡ true
    → is_best l ≡ false
    → set_level l a m best ≡ m best
set-other level_best level_none a m hb hl = refl
set-other level_best level_initial a m hb hl = refl
set-other level_best level_0rtt a m hb hl = refl
set-other level_best level_handshake a m hb hl = refl
set-other level_best level_1rtt a m hb hl = refl
set-other level_best level_best a m hb hl = cc
set-other level_best level_best_app_data a m hb hl = cc
set-other level_best_app_data level_none a m hb hl = refl
set-other level_best_app_data level_initial a m hb hl = refl
set-other level_best_app_data level_0rtt a m hb hl = refl
set-other level_best_app_data level_handshake a m hb hl = refl
set-other level_best_app_data level_1rtt a m hb hl = refl
set-other level_best_app_data level_best a m hb hl = cc
set-other level_best_app_data level_best_app_data a m hb hl = cc
set-other level_none l a m hb hl = cc
set-other level_initial l a m hb hl = cc
set-other level_0rtt l a m hb hl = cc
set-other level_handshake l a m hb hl = cc
set-other level_1rtt l a m hb hl = cc

pub chosen_level_lem :
    (available : Level → Bool) (r : Bool)
    → is_best (choose_best_encryption_level available r) ≡ false
chosen_level_lem available r = elim (Bool-cases (available level_1rtt)) [
  | inl e ↦ rw e refl
  | inr e ↦ elim (Bool-cases (available level_0rtt)) [
    | inl d ↦ rw (e, d) refl
    | inr d ↦ elim (Bool-cases r) [
      | inl c ↦ rw (e, d, c) refl
      | inr c ↦ elim (Bool-cases (available level_handshake)) [
        | inl b ↦ rw (e, d, c, b) refl
        | inr b ↦ rw (e, d, c, b) refl
      ]
    ]
  ]
]

pub chosen_lem : (best : Level) (s : Agent) → is_best best ≡ true → is_best (chosen best s) ≡ false
chosen_lem best s h = rw h (chosen_level_lem s.available (same_level best level_best_app_data))

module _ (p : Frame → Bool) where
  pub append_to-Adds :
      (l : Level) (f : Frame) (s : Agent) → total p (append_to l f s) ≡ total p s + one (p f)
  append_to-Adds l f s = omega (
    arith,
    sum-set (count p) l (s.frame_buffer l ++ (f ∷ [])) s.frame_buffer,
    count-append p (s.frame_buffer l) (f ∷ []),
  )

  pub empty_level-Adds :
      (l : Level) (s : Agent) → total p (empty_level l s) + count p (s.frame_buffer l) ≡ total p s
  empty_level-Adds l s = omega (arith, sum-set (count p) l [] s.frame_buffer)

  pub send_packet-Adds :
      (q : FramePacket) (l : Level) (s : Agent)
      → total p (send_packet q l s) ≡ total p s + count p q.frames
  send_packet-Adds q l s = omega (arith, in_sent-append p s.sent ((q, l) ∷ []))

  pub keep_packet-Adds :
      (q : FramePacket) (s : Agent) → total p (keep_packet q s) ≡ total p s + count p q.frames
  keep_packet-Adds q s =
      let l = encryption_level q.kind in
      omega (
        arith,
        sum-set (in_packets p) l (s.packet_buffer l ++ (q ∷ [])) s.packet_buffer,
        in_packets-append p (s.packet_buffer l) (q ∷ []),
      )

  pub send_or_keep-Adds :
      (l : Level) (q : FramePacket) (s : Agent)
      → total p (send_or_keep l q s) ≡ total p s + count p q.frames
  send_or_keep-Adds l q s = elim (Bool-cases (s.available l)) [
    | inl e ↦ rw e (send_packet-Adds q l s)
    | inr e ↦ rw e (keep_packet-Adds q s)
  ]

  pub count-others :
      ((f : AckFrame) → p (ack f) ≡ false) → (fs : List Frame) → count p (others fs) ≡ count p fs
  unfolding others
  count-others h [] = refl
  count-others h (ack f ∷ rest) = rw (h f) (omega (arith, count-others h rest))
  count-others h (padding ∷ rest) = omega (arith, count-others h rest)
  count-others h (ping ∷ rest) = omega (arith, count-others h rest)
  count-others h (ack_ecn a b c d ∷ rest) = omega (arith, count-others h rest)
  count-others h (reset_stream a b c ∷ rest) = omega (arith, count-others h rest)
  count-others h (stop_sending a b ∷ rest) = omega (arith, count-others h rest)
  count-others h (crypto a b c ∷ rest) = omega (arith, count-others h rest)
  count-others h (new_token a ∷ rest) = omega (arith, count-others h rest)
  count-others h (stream a ∷ rest) = omega (arith, count-others h rest)
  count-others h (max_data a ∷ rest) = omega (arith, count-others h rest)
  count-others h (max_stream_data a b ∷ rest) = omega (arith, count-others h rest)
  count-others h (max_streams a b ∷ rest) = omega (arith, count-others h rest)
  count-others h (data_blocked a ∷ rest) = omega (arith, count-others h rest)
  count-others h (stream_data_blocked a b ∷ rest) = omega (arith, count-others h rest)
  count-others h (streams_blocked a b ∷ rest) = omega (arith, count-others h rest)
  count-others h (new_connection_id a b c d ∷ rest) = omega (arith, count-others h rest)
  count-others h (retire_connection_id a ∷ rest) = omega (arith, count-others h rest)
  count-others h (path_challenge a ∷ rest) = omega (arith, count-others h rest)
  count-others h (path_response a ∷ rest) = omega (arith, count-others h rest)
  count-others h (connection_close a b c d ∷ rest) = omega (arith, count-others h rest)
  count-others h (application_close a b c ∷ rest) = omega (arith, count-others h rest)
