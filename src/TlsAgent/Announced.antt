-- ===== src/TlsAgent/Announced.antt =====
-- agents/tls_agent.go: which encryption levels the agent announces.
use quic_tracker.Base.{
  ℕ, ◌+◌, ◌≡◌, refl, ap, sym, ◌∙◌, not, ◌&&◌, Bool, true, false, Bool-cases, ltb, if◌then◌else◌,
  inl, inr, List, [], ◌∷◌, ◌++◌, Bytes, length, concat, Option, none, some, ◌==◌, arith,
}
use quic_tracker.Level.{
  Level, number, same_level, level_none, level_initial, level_0rtt, level_handshake, level_1rtt,
  level_best, level_best_app_data,
}
use quic_tracker.Crypto.{CryptoState}
use quic_tracker.TransportParameters.{QuicTransportParameters}
use quic_tracker.Packet.{pn_space}
use quic_tracker.Packet.Make.{FramePacket}
use quic_tracker.Packet.Incoming.{framed, retried, negotiated}
use quic_tracker.TlsAgent.{
  Agent, TlsLibrary, Event, Reply, Epoch, incoming, crypto_data, is_some, has_keys, same_bool,
  set_state, announce, announce_all, queue_messages, note_error, with_read, with_write,
  install_handshake, complete, after_reply, feed, drained, epoch_of_space, receive_packet, step,
  run, or_new, protected_state, receive_parameters, init_read, init_write,
}

-- How often a level is among those announced.
abbrev pub count : Level → Bool → List (Level × Bool) → ℕ
count l r [] = 0
count l r ((i, q) ∷ rest) = (if same_level l i && same_bool r q then 1 else 0) + count l r rest

count-append :
    (l : Level) (r : Bool) (xs : List (Level × Bool)) (i : Level) (q : Bool)
    → count l r (xs ++ ((i, q) ∷ []))
      ≡ count l r xs + (if same_level l i && same_bool r q then 1 else 0)
count-append l r [] i q = omega arith
count-append l r ((j, p) ∷ xs) i q = omega (arith, count-append l r xs i q)

level_of_number : ℕ → Level
level_of_number n =
    if n == 0
    then level_none
    else if n == 1
    then level_initial
    else if n == 2
    then level_0rtt
    else if n == 3
    then level_handshake
    else if n == 4
    then level_1rtt
    else if n == 5
    then level_best
    else level_best_app_data

level_of_number-number : (l : Level) → level_of_number (number l) ≡ l
unfolding level_of_number
level_of_number-number level_none = refl
level_of_number-number level_initial = refl
level_of_number-number level_0rtt = refl
level_of_number-number level_handshake = refl
level_of_number-number level_1rtt = refl
level_of_number-number level_best = refl
level_of_number-number level_best_app_data = refl

==→≡ : (m n : ℕ) → (m == n) ≡ true → m ≡ n
==→≡ m n h = ground arith

same_level→≡ : (i l : Level) → same_level i l ≡ true → i ≡ l
same_level→≡ i l h =
    sym (level_of_number-number i)
    ∙ ap level_of_number (==→≡ (number i) (number l) h)
    ∙ level_of_number-number l

same_bool→≡ : (p q : Bool) → same_bool p q ≡ true → p ≡ q
same_bool→≡ true true h = refl
same_bool→≡ false false h = refl
same_bool→≡ true false h = sym h
same_bool→≡ false true h = h

and_true : (a b : Bool) → (a && b) ≡ true → (a ≡ true) × (b ≡ true)
and_true true b h = (refl, h)
and_true false b h = (h, cc)

must_be_false : (a : Bool) → not a ≡ true → a ≡ false
must_be_false false h = refl
must_be_false true h = sym h

both_same :
    (l i : Level) (r q : Bool) → (same_level l i && same_bool r q) ≡ true → (l ≡ i) × (r ≡ q)
both_same l i r q h =
    let (e, e') = and_true (same_level l i) (same_bool r q) h in
    (same_level→≡ l i e, same_bool→≡ r q e')

module _ {T : Type 0} where
  -- A level is announced once when its keys are there, and not before.
  pub record IsAnnounced (s : Agent T) : Type 0 where
    pub once :
        (l : Level) (r : Bool) → count l r s.levels_available ≡ (if s.announced l r then 1 else 0)
    pub with_keys :
        (l : Level) (r : Bool) → s.announced l r ≡ true → has_keys (s.crypto_states l) r ≡ true

  -- Keys are not taken away, and nothing is announced.
  record Grows (s s' : Agent T) : Type 0 where
    same_announced : s'.announced ≡ s.announced
    same_available : s'.levels_available ≡ s.levels_available
    keeps :
        (l : Level) (r : Bool)
        → has_keys (s.crypto_states l) r ≡ true
        → has_keys (s'.crypto_states l) r ≡ true

  grown : (s s' : Agent T) → Grows s s' → IsAnnounced s → IsAnnounced s'
  grown s s' g i = record {
    once = λ l r. rw (g.same_announced, g.same_available) (i.once l r);
    with_keys = λ l r e. g.keeps l r (i.with_keys l r (rw g.same_announced at e));
  }

  announce-IsAnnounced :
      (i : Level) (q : Bool) (s : Agent T) → IsAnnounced s → IsAnnounced (announce i q s)
  unfolding announce
  announce-IsAnnounced i q s a =
      decided (not (s.announced i q) && has_keys (s.crypto_states i) q) refl
    where
      first_time :
          (l : Level) (r : Bool)
          → s.announced i q ≡ false
          → count l r (s.levels_available ++ ((i, q) ∷ []))
            ≡ (if (if same_level l i && same_bool r q then true else s.announced l r) then 1 else 0)
      first_time l r e = elim (Bool-cases (same_level l i && same_bool r q)) [
        | inl t ↦
            let (el, er) = both_same l i r q t in
            let none_before : s.announced l r ≡ false = rw (el, er) e in
            let zero : count l r s.levels_available ≡ 0 = rw none_before at (a.once l r) in
            rw (count-append l r s.levels_available i q, t) (omega (arith, zero))
        | inr t ↦ rw (count-append l r s.levels_available i q, t) (omega (arith, a.once l r))
      ]

      known :
          (l : Level) (r : Bool)
          → (if same_level l i && same_bool r q then true else s.announced l r) ≡ true
          → has_keys (s.crypto_states i) q ≡ true
          → has_keys (s.crypto_states l) r ≡ true
      known l r e keys = elim (Bool-cases (same_level l i && same_bool r q)) [
        | inl t ↦ (let (el, er) = both_same l i r q t in rw (el, er) keys)
        | inr t ↦ a.with_keys l r (rw t at e)
      ]

      decided :
          (b : Bool)
          → (not (s.announced i q) && has_keys (s.crypto_states i) q) ≡ b
          → IsAnnounced (
              if b
              then (record s {
                announced =
                    λ i' r. if same_level i' i && same_bool r q then true else s.announced i' r;
                levels_available = s.levels_available ++ ((i, q) ∷ []);
              })
              else s)
      decided false h = a
      decided true h = record {
        once = λ l r. first_time l r (
            must_be_false (s.announced i q)
              (and_true (not (s.announced i q)) (has_keys (s.crypto_states i) q) h).0);
        with_keys = λ l r e.
            known l r e (and_true (not (s.announced i q)) (has_keys (s.crypto_states i) q) h).1;
      }

  announce_all-IsAnnounced : (s : Agent T) → IsAnnounced s → IsAnnounced (announce_all s)
  unfolding announce_all
  announce_all-IsAnnounced s a = announce-IsAnnounced level_1rtt true _ (
      announce-IsAnnounced level_1rtt false _ (
        announce-IsAnnounced level_handshake true _
          (announce-IsAnnounced level_handshake false s a)))

  same-IsAnnounced :
      (s s' : Agent T)
      → s'.announced ≡ s.announced
      → s'.levels_available ≡ s.levels_available
      → s'.crypto_states ≡ s.crypto_states
      → IsAnnounced s
      → IsAnnounced s'
  same-IsAnnounced s s' e e' e'' =
      grown s s' (record { same_announced = e; same_available = e'; keeps = λ l r h. rw e'' h })

  queue_messages-IsAnnounced :
      (ms : List (Epoch × Bytes)) (s : Agent T) → IsAnnounced s → IsAnnounced (queue_messages ms s)
  unfolding queue_messages
  queue_messages-IsAnnounced [] s a = a
  queue_messages-IsAnnounced ((e, content) ∷ rest) s a =
      queue_messages-IsAnnounced rest _ (same-IsAnnounced s _ refl refl refl a)

  note_error-IsAnnounced :
      (p : FramePacket) (e : Option Bytes) (s : Agent T)
      → IsAnnounced s
      → IsAnnounced (note_error p e s)
  note_error-IsAnnounced p none s a = a
  note_error-IsAnnounced p (some e) s a = same-IsAnnounced s _ refl refl refl a

  -- New keys of a level.
  set_state-IsAnnounced :
      (l : Level) (c : CryptoState) (s : Agent T)
      → ((r : Bool) → has_keys (s.crypto_states l) r ≡ true → has_keys (some c) r ≡ true)
      → IsAnnounced s
      → IsAnnounced (set_state l c s)
  set_state-IsAnnounced l c s h =
      grown s _ (record { same_announced = refl; same_available = refl; keeps = kept })
    where
      kept :
          (i : Level) (r : Bool)
          → has_keys (s.crypto_states i) r ≡ true
          → has_keys (if same_level i l then some c else s.crypto_states i) r ≡ true
      kept i r k = elim (Bool-cases (same_level i l)) [
        | inl e ↦ rw e (h r (rw (same_level→≡ i l e) at k))
        | inr e ↦ rw e k
      ]

-- A nil state has no keys.
nil_has_none :
    (o : Option CryptoState) (r b : Bool) → is_some o ≡ false → has_keys o r ≡ true → b ≡ true
nil_has_none none true b e h = cc
nil_has_none none false b e h = cc
nil_has_none (some c) r b e h = cc

module _ {T : Type 0} (lib : TlsLibrary T) where
  with_read-keeps :
      (c : CryptoState) (t : T) (r : Bool)
      → has_keys (some c) r ≡ true
      → has_keys (some (with_read lib c t)) r ≡ true
  with_read-keeps c t r h =
      elim (Bool-cases
        (not (is_some c.header_read) && ltb 0 (length (lib.handshake_read_secret t)))) [
          | inl e ↦ rw e (kept r h)
          | inr e ↦ rw e h
        ]
    where
      kept :
          (r : Bool)
          → has_keys (some c) r ≡ true
          → has_keys (some (init_read lib t (lib.handshake_read_secret t) c)) r ≡ true
      kept true h = refl
      kept false h = h

  with_write-keeps :
      (c : CryptoState) (t : T) (r : Bool)
      → has_keys (some c) r ≡ true
      → has_keys (some (with_write lib c t)) r ≡ true
  with_write-keeps c t r h =
      elim (Bool-cases
        (not (is_some c.header_write) && ltb 0 (length (lib.handshake_write_secret t)))) [
          | inl e ↦ rw e (kept r h)
          | inr e ↦ rw e h
        ]
    where
      kept :
          (r : Bool)
          → has_keys (some c) r ≡ true
          → has_keys (some (init_write lib t (lib.handshake_write_secret t) c)) r ≡ true
      kept true h = h
      kept false h = refl

  or_new-keeps :
      (o : Option CryptoState) (r : Bool)
      → has_keys o r ≡ true
      → has_keys (some (or_new lib o)) r ≡ true
  or_new-keeps none r h = nil_has_none none r _ refl h
  or_new-keeps (some c) r h = h

  install_handshake-IsAnnounced :
      (s : Agent T) → IsAnnounced s → IsAnnounced (install_handshake lib s)
  unfolding install_handshake
  install_handshake-IsAnnounced s =
      let o = s.crypto_states level_handshake in
      set_state-IsAnnounced level_handshake _ s λ r h.
        with_write-keeps (with_read lib (or_new lib o) s.tls) s.tls r
          (with_read-keeps (or_new lib o) s.tls r (or_new-keeps o r h))

  receive_parameters-IsAnnounced :
      (p : FramePacket) (q : Option QuicTransportParameters) (s : Agent T)
      → IsAnnounced s
      → IsAnnounced (receive_parameters lib p q s)
  receive_parameters-IsAnnounced p none s a = same-IsAnnounced s _ refl refl refl a
  receive_parameters-IsAnnounced p (some q) s a = same-IsAnnounced s _ refl refl refl a

  complete-IsAnnounced :
      (p : FramePacket) (s : Agent T)
      → is_some (s.crypto_states level_1rtt) ≡ false
      → IsAnnounced s
      → IsAnnounced (complete lib p s)
  unfolding complete
  complete-IsAnnounced p s h a = receive_parameters-IsAnnounced p _ _ (
      set_state-IsAnnounced level_1rtt (protected_state lib s.tls) s
        (λ r k. nil_has_none (s.crypto_states level_1rtt) r _ h k) a)

  if-IsAnnounced :
      (b : Bool) (s s' : Agent T)
      → (b ≡ true → IsAnnounced s)
      → IsAnnounced s'
      → IsAnnounced (if b then s else s')
  if-IsAnnounced true s s' f a = f refl
  if-IsAnnounced false s s' f a = a

  after_reply-IsAnnounced :
      (p : FramePacket) (reply : Reply) (s : Agent T)
      → IsAnnounced s
      → IsAnnounced (after_reply lib p reply s)
  unfolding after_reply
  after_reply-IsAnnounced p reply s₀ a =
      let s = install_handshake lib (note_error p reply.error s₀) in
      let s-ok =
        install_handshake-IsAnnounced (note_error p reply.error s₀)
          (note_error-IsAnnounced p reply.error s₀ a) in
      let q = if s.disable_frame_sending then s else queue_messages reply.messages s in
      let q-ok : IsAnnounced q =
        if-IsAnnounced s.disable_frame_sending s (queue_messages reply.messages s) (λ e. s-ok)
          (queue_messages-IsAnnounced reply.messages s s-ok) in
      let ends = not reply.not_completed && not (is_some (q.crypto_states level_1rtt)) in
      let c = if ends then complete lib p q else q in
      let c-ok : IsAnnounced c =
        if-IsAnnounced ends (complete lib p q) q
          (λ e.
            complete-IsAnnounced p q
              (must_be_false (is_some (q.crypto_states level_1rtt))
                (and_true (not reply.not_completed) _ e).1)
              q-ok)
          q-ok in
      let d-ok = announce_all-IsAnnounced c c-ok in
      if-IsAnnounced (ltb 0 (length (lib.resumption_ticket (announce_all c).tls))) _
        (announce_all c) (λ e. same-IsAnnounced (announce_all c) _ refl refl refl d-ok) d-ok

  feed-IsAnnounced :
      (p : FramePacket) (content : Bytes) (s : Agent T)
      → IsAnnounced s
      → IsAnnounced (feed lib p content s)
  unfolding feed
  feed-IsAnnounced p content s a =
      let r = lib.handle_message content (epoch_of_space (pn_space p.kind)) s.tls in
      after_reply-IsAnnounced p r.0 (record s { tls = r.1 })
        (same-IsAnnounced s (record s { tls = r.1 }) refl refl refl a)

  step-IsAnnounced : (e : Event) (s : Agent T) → IsAnnounced s → IsAnnounced (step lib e s)
  unfolding step receive_packet
  step-IsAnnounced (incoming (framed p)) s a =
      let content = concat (s.crypto_chans (pn_space p.kind)) in
      let d = drained lib (pn_space p.kind) s in
      let d-ok = same-IsAnnounced s d refl refl refl a in
      if-IsAnnounced (ltb 0 (length content)) (feed lib p content d) d
        (λ e. feed-IsAnnounced p content d d-ok) d-ok
  step-IsAnnounced (incoming (retried p)) s a = a
  step-IsAnnounced (incoming (negotiated p)) s a = a
  step-IsAnnounced (crypto_data space content) s a = same-IsAnnounced s _ refl refl refl a

-- Whatever packets and pieces of the crypto streams arrive, in any order, and whatever the TLS
-- library answers: from a state in which it is so, every encryption level and direction that is
-- marked as available was submitted to EncryptionLevelsAvailable once, every other one not at all,
-- and each of those submitted has its keys.
pub run-IsAnnounced :
    {T : Type 0} (lib : TlsLibrary T) (es : List Event) (s : Agent T)
    → IsAnnounced s
    → IsAnnounced (run lib es s)
unfolding run
run-IsAnnounced lib [] s a = a
run-IsAnnounced lib (e ∷ es) s a =
    run-IsAnnounced lib es (step lib e s) (step-IsAnnounced lib e s a)
