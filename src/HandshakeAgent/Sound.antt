-- ===== src/HandshakeAgent/Sound.antt =====
-- agents/handshake_agent.go: what holds of the handshake agent after any run.
use quic_tracker.Base.{
  ℕ, suc, ◌+◌, ◌≡◌, refl, ap, ◌∙◌, sym, ◌==◌, not, ◌&&◌, Bool, true, false, Bool-cases,
  if◌then◌else◌, ◌⊎◌, inl, inr, List, [], ◌∷◌, ◌++◌, Bytes, Option, none, some, done, arith,
}
use quic_tracker.Base.Outcomes.{◌>>=◌, Returns, bind-Returns, Returns-any, if-Returns}
use quic_tracker.Frame.{Frame, crypto_type}
use quic_tracker.Header.{Header, long, short}
use quic_tracker.Header.Make.{Connection}
use quic_tracker.Packet.{Kind, initial, handshake, protected, zero_rtt_protected, get_all}
use quic_tracker.Packet.Make.{FramePacket}
use quic_tracker.Packet.Incoming.{Packet, framed, retried, negotiated}
use quic_tracker.Connection.{closes, process_version_negotiation}
use quic_tracker.Connection.Send.{send_packet}
use quic_tracker.Connection.Initial.{Tls, Client, get_initial_packet}
use quic_tracker.Level.{level_initial}
use quic_tracker.HandshakeAgent.{
  Error, HandshakeStatus, Agent, Event, no_version, initiate, stop, incoming, outgoing, tls_status,
  socket_status, finish, receive_frames, finish_at, crypto_data, look_for_finished, sent_out,
  note_tls, note_socket, send_initial, accept_version, accept_retry, receive, step, give,
  is_initial, switch_destination, of_handshake, is_accepted, handle,
}

-- A status of success: the handshake is complete, and there is no error.
abbrev pub is_success : HandshakeStatus → Bool
is_success x = elim x.error [ none ↦ x.completed | some e ↦ false ]

abbrev count : Bool → ℕ
count b = if b then 1 else 0

abbrev pub successes : List HandshakeStatus → ℕ
successes [] = 0
successes (x ∷ xs) = count (is_success x) + successes xs

-- Those that say that the handshake is complete, which is all that the readers of the status test.
abbrev pub completions : List HandshakeStatus → ℕ
completions [] = 0
completions (x ∷ xs) = count x.completed + completions xs

-- The TLS agent tells that the handshake is complete, and an error.
abbrev pub has_both : Event → Bool
has_both (tls_status completed p none) = false
has_both (tls_status completed p (some e)) = completed
has_both initiate = false
has_both stop = false
has_both (incoming p) = false
has_both (outgoing p) = false
has_both (socket_status refused what) = false

abbrev pub count_if : Bool → ℕ → ℕ
count_if b n = if b then suc n else n

successes-append :
    (l : List HandshakeStatus) (x : HandshakeStatus)
    → successes (l ++ (x ∷ [])) ≡ successes l + count (is_success x)
successes-append [] x = omega arith
successes-append (y ∷ l) x = omega (arith, successes-append l x)

completions-append :
    (l : List HandshakeStatus) (x : HandshakeStatus) (n : ℕ)
    → completions l ≡ n
    → completions (l ++ (x ∷ [])) ≡ count_if x.completed n
completions-append [] x n h = ground arith
completions-append (y ∷ l) x n h = ground (arith, completions-append l x (completions l) refl)

module _ {T : Type 0} where
  -- A success is the last status published: the TLS handshake is complete, the loop has returned,
  -- and all that was published before is no success, n of which say that the handshake is complete.
  pub record HasSucceeded (n : ℕ) (s : Agent T) : Type 0 where
    pub terminated : s.terminated ≡ true
    pub tls_completed : s.tls_completed ≡ true
    pub earlier : List HandshakeStatus
    pub no_other : successes earlier ≡ 0
    pub completed_before : completions earlier ≡ n
    pub last :
        s.status
        ≡ earlier ++ ((record { completed = true; packet = s.tls_packet; error = none }) ∷ [])

  -- The TLS agent is started again once at most, for a Retry packet.
  pub record IsSound (n : ℕ) (s : Agent T) : Type 0 where
    pub retried_once : s.tls_restarts ≡ count s.received_retry
    pub result : ((successes s.status ≡ 0) × (completions s.status ≡ n)) ⊎ HasSucceeded n s

  -- No success so far.
  abbrev IsOpen : ℕ → Agent T → Type 0
  IsOpen n s =
      (s.tls_restarts ≡ count s.received_retry)
      × (successes s.status ≡ 0)
      × (completions s.status ≡ n)

  open-IsSound : (n : ℕ) (s : Agent T) → IsOpen n s → IsSound n s
  open-IsSound n s (r, e, m) = record { retried_once = r; result = inl (e, m) }

  failed-IsSound :
      (n : ℕ) (s : Agent T) (x : HandshakeStatus) (t : Bool) (c : Bool) (p : Option Packet)
      → IsOpen n s
      → is_success x ≡ false
      → IsSound (count_if x.completed n) (record s {
        status = s.status ++ (x ∷ []);
        terminated = t;
        tls_completed = c;
        tls_packet = p;
      })
  failed-IsSound n s x t c p (r, e, m) f = record {
    retried_once = r;
    result = inl (rw (successes-append s.status x, e, f) refl, completions-append s.status x n m);
  }

  succeeded-IsSound :
      (n : ℕ) (s : Agent T)
      → IsOpen n s
      → s.tls_completed ≡ true
      → IsSound n (finish (record { completed = true; packet = s.tls_packet; error = none }) s)
  succeeded-IsSound n s (r, e, m) c = record {
    retried_once = r;
    result = inr (record {
      terminated = refl;
      tls_completed = c;
      earlier = s.status;
      no_other = e;
      completed_before = m;
      last = refl;
    });
  }

  receive_frames-IsSound :
      (n : ℕ) (p : FramePacket) (s : Agent T)
      → IsOpen n s
      → Returns (IsSound n) (receive_frames p s)
  unfolding receive_frames
  receive_frames-IsSound n p s o =
      if-Returns (IsSound n) (closes p.frames) _ _
        (failed-IsSound n s _ true s.tls_completed s.tls_packet o refl)
        (if-Returns (IsSound n) (is_initial p.kind && not s.first_initial_received) _ _
          (switched p.header) (open-IsSound n s o))
    where
      switched : (h : Header) → Returns (IsSound n) (switch_destination h s)
      switched (long h) = open-IsSound n _ o
      switched (short h) = tt

  look_at-IsSound :
      (n : ℕ) (content : Option Bytes) (rest : List Frame) (s : Agent T)
      → IsOpen n s
      → s.tls_completed ≡ true
      → s.terminated ≡ false
      → Returns (IsSound n) (look_for_finished rest s)
      → Returns (IsSound n) (
          finish_at content s >>= λ s'.
          if s'.terminated then done s' else look_for_finished rest s')
  look_at-IsSound n none rest s o c t ih =
      if-Returns (IsSound n) s.terminated _ _ (open-IsSound n s o) ih
  look_at-IsSound n (some []) rest s o c t ih = tt
  look_at-IsSound n (some (b ∷ bs)) rest s o c t ih = elim (Bool-cases (b == 0x14)) [
    | inl e ↦ rw e (succeeded-IsSound n s o c)
    | inr e ↦ rw e (if-Returns (IsSound n) s.terminated _ _ (open-IsSound n s o) ih)
  ]

  look-IsSound :
      (n : ℕ) (fs : List Frame) (s : Agent T)
      → IsOpen n s
      → s.tls_completed ≡ true
      → s.terminated ≡ false
      → Returns (IsSound n) (look_for_finished fs s)
  unfolding look_for_finished
  look-IsSound n [] s o c t = open-IsSound n s o
  look-IsSound n (f ∷ rest) s o c t =
      look_at-IsSound n (crypto_data f) rest s o c t (look-IsSound n rest s o c t)

  sent_out-IsSound :
      (n : ℕ) (p : FramePacket) (s : Agent T)
      → IsOpen n s
      → s.terminated ≡ false
      → Returns (IsSound n) (sent_out p s)
  unfolding sent_out
  sent_out-IsSound n p s o t = completed s.tls_completed refl
    where
      of_kind :
          (k : Kind) → s.tls_completed ≡ true → Returns (IsSound n) (of_handshake k p.frames s)
      of_kind initial c = open-IsSound n s o
      of_kind handshake c = look-IsSound n (get_all crypto_type p.frames) s o c t
      of_kind protected c = open-IsSound n s o
      of_kind zero_rtt_protected c = open-IsSound n s o

      completed :
          (b : Bool)
          → s.tls_completed ≡ b
          → Returns (IsSound n) (if b then of_handshake p.kind p.frames s else done s)
      completed true c = of_kind p.kind c
      completed false c = open-IsSound n s o

  note_tls-IsSound :
      (n : ℕ) (completed : Bool) (p : Packet) (e : Option Error) (s : Agent T)
      → IsOpen n s
      → IsSound (count_if (has_both (tls_status completed p e)) n) (note_tls completed p e s)
  unfolding note_tls
  note_tls-IsSound n completed p (some e) s o =
      failed-IsSound n s _ s.terminated completed (some p) o refl
  note_tls-IsSound n completed p none s o = open-IsSound n _ o

  note_socket-IsSound :
      (n : ℕ) (refused : Bool) (what : Bytes) (s : Agent T)
      → IsOpen n s
      → IsSound n (note_socket refused what s)
  unfolding note_socket
  note_socket-IsSound n true what s o =
      failed-IsSound n s _ s.terminated s.tls_completed s.tls_packet o refl
  note_socket-IsSound n false what s o = open-IsSound n s o

module _ {T : Type 0} (lib : Tls T) where
  send_initial-IsSound :
      (n : ℕ) (s : Agent T) → IsOpen n s → Returns (IsSound n) (send_initial lib s)
  unfolding send_initial
  send_initial-IsSound n s o =
      bind-Returns _ _ (get_initial_packet lib s.client) _ (Returns-any _) λ r _. given r
    where
      given : (r : Option (FramePacket × Client T)) → Returns (IsSound n) (give lib s r)
      given none = tt
      given (some (p, c)) =
          bind-Returns _ _ (send_packet c.crypto_states p level_initial) _ (Returns-any _)
            λ d _. open-IsSound n _ o

  -- No Retry packet was accepted before one that is.
  first_retry : (a b r : Bool) → (not a && (b && not r)) ≡ true → r ≡ false
  first_retry a b false e = refl
  first_retry true b true e = cc
  first_retry false true true e = cc
  first_retry false false true e = cc

  receive-IsSound :
      (n : ℕ) (p : Packet) (s : Agent T) → IsOpen n s → Returns (IsSound n) (receive lib p s)
  unfolding receive accept_version accept_retry
  receive-IsSound n (negotiated p) s o =
      negotiated_with (process_version_negotiation p s.client.connection)
    where
      negotiated_with :
          (r : Option Connection)
          → Returns (IsSound n) (elim r [
            | none ↦ done (
                finish
                  (record {
                    completed = false;
                    packet = some (negotiated p);
                    error = some no_version;
                  })
                  s)
            | some c ↦ accept_version lib c s
          ])
      negotiated_with none = failed-IsSound n s _ true s.tls_completed s.tls_packet o refl
      negotiated_with (some c) = send_initial-IsSound n _ o
  receive-IsSound n (retried p) s o = retried_with (is_accepted lib p s) refl
    where
      retried_with :
          (b : Bool)
          → is_accepted lib p s ≡ b
          → Returns (IsSound n) (if b then accept_retry lib p s else done s)
      retried_with false e = open-IsSound n s o
      retried_with true e =
          let none_before = first_retry s.ignore_retry _ s.received_retry e in
          let zero_before : s.tls_restarts ≡ 0 = o.0 ∙ ap count none_before in
          send_initial-IsSound n _ (rw zero_before refl, o.1, o.2)
  receive-IsSound n (framed p) s o = receive_frames-IsSound n p s o

  handle-IsSound :
      (n : ℕ) (e : Event) (s : Agent T)
      → IsOpen n s
      → s.terminated ≡ false
      → Returns (IsSound (count_if (has_both e) n)) (handle lib e s)
  handle-IsSound n initiate s o t = send_initial-IsSound n s o
  handle-IsSound n stop s o t = open-IsSound n _ o
  handle-IsSound n (incoming p) s o t = receive-IsSound n p s o
  handle-IsSound n (outgoing p) s o t = sent_out-IsSound n p s o t
  handle-IsSound n (tls_status completed p e) s o t = note_tls-IsSound n completed p e s o
  handle-IsSound n (socket_status refused what) s o t = note_socket-IsSound n refused what s o

  -- While the loop runs there has been no success.
  still-IsOpen : (n : ℕ) (s : Agent T) → IsSound n s → s.terminated ≡ false → IsOpen n s
  still-IsOpen n s i t = elim i.result [
    | inl (e, m) ↦ (i.retried_once, e, m)
    | inr d ↦ (let impossible : true ≡ false = sym d.terminated ∙ t in (i.retried_once, cc, cc))
  ]

  -- How many statuses with an error said that the handshake is complete: one more with each such
  -- report of the TLS agent that the loop takes.
  abbrev pub reported : Event → Agent T → ℕ → ℕ
  reported e s n = count_if (not s.terminated && has_both e) n

  pub step-IsSound :
      (n : ℕ) (e : Event) (s : Agent T)
      → IsSound n s
      → Returns (IsSound (reported e s n)) (step lib e s)
  unfolding step
  step-IsSound n e s i = running s.terminated refl
    where
      running :
          (b : Bool)
          → s.terminated ≡ b
          → Returns
              (IsSound (count_if (not b && has_both e) n))
              (if b then done s else handle lib e s)
      running true t = i
      running false t = handle-IsSound n e s (still-IsOpen n s i t) t

  -- The states that the loop gets to, with the number of those reports that it took.
  pub data Reaches (s₀ : Agent T) : ℕ → Agent T → Type 0 where
    start : {n : ℕ} → n ≡ 0 → Reaches s₀ n s₀
    next :
        {n m : ℕ} {s s' : Agent T} (e : Event)
        → Reaches s₀ n s
        → step lib e s ≡ done s'
        → m ≡ reported e s n
        → Reaches s₀ m s'

-- Whatever arrives and in whatever order, in every state that the handshake agent gets to from one
-- of which this holds with n at 0, such as one in which nothing was published and the TLS agent
-- was not started again, where the TLS agent reported n times, while the loop ran, that the
-- handshake is complete together with an error: the TLS agent was started again once if a Retry
-- packet was accepted and not at all otherwise. Either every status published says that the
-- handshake is not complete or has an error, and n of them say that it is complete; or the loop
-- has returned, the TLS handshake is complete, the last status published says so with no error and
-- with the packet that the TLS agent told, and what holds of all of them in the first case holds
-- of those before it.
pub Reaches-IsSound :
    {T : Type 0} (lib : Tls T) (s₀ s : Agent T) (n : ℕ)
    → IsSound 0 s₀
    → Reaches lib s₀ n s
    → IsSound n s
Reaches-IsSound lib s₀ s n i (start z) = rw z i
Reaches-IsSound lib s₀ s' m i (next {n = n} {s = s} e r step_done counted) =
    rw counted (rw step_done at (step-IsSound lib n e s (Reaches-IsSound lib s₀ s n i r)))
