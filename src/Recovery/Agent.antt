-- ===== src/Recovery/Agent.antt =====
-- agents/recovery_agent.go, Run: what each message does to the retransmission buffers.
use quic_tracker.Base.{ℕ, ltb, List, [], ◌∷◌, ◌++◌, ◌==◌, if◌then◌else◌, Outcome, done}
use quic_tracker.Base.Outcomes.{◌>>=◌}
use quic_tracker.Frame.{Frame, AckFrame, ack, ack_ecn, ack_type, ack_ecn_type}
use quic_tracker.Packet.{
  PnSpace, Kind, initial_space, handshake_space, app_data_space, no_space, pn_space, get_all,
}
use quic_tracker.Recovery.{RetransmittableFrames, Buffer, process_ack, outgoing_packet, expired}

abbrev pub space_number : PnSpace → ℕ
space_number initial_space = 0
space_number handshake_space = 1
space_number app_data_space = 2
space_number no_space = 3

abbrev pub set_space {ℓ} : {A : Type ℓ} → PnSpace → A → (PnSpace → A) → PnSpace → A
set_space space a m i = if space_number i == space_number space then a else m i

-- The buffers, `conn.LargestPNsAcknowledged`, the timer, and the batches that were given to
-- RetransmitBatch.
pub record Agent : Type 0 where
  pub retransmission_buffer : PnSpace → Buffer
  pub largest_pns_acknowledged : PnSpace → ℕ
  pub timer_value : ℕ
  pub batches : List (List RetransmittableFrames)

-- The messages; `encryption_level` 4 is that of 1-RTT packets.
pub data Message : Type 0 where
  tick : (now : ℕ) → Message
  incoming_frames : Kind → List Frame → Message
  incoming_retry : Message
  incoming_version_negotiation : Message
  outgoing_frames : (now level number : ℕ) → Kind → List Frame → Message
  level_available : (encryption_level : ℕ) → Message

abbrev ack_of : List Frame → List AckFrame
ack_of [] = []
ack_of (ack f ∷ rest) = f ∷ ack_of rest
ack_of (ack_ecn f a b c ∷ rest) = f ∷ ack_of rest
ack_of (_ ∷ rest) = ack_of rest

abbrev empty_buffer : PnSpace → Agent → Agent
empty_buffer space s = record s {
  retransmission_buffer = set_space space [] s.retransmission_buffer;
}

-- One ACK frame of a packet.
unfoldable pub handle_ack : PnSpace → AckFrame → Agent → Outcome Agent
handle_ack space f s = process_ack f (s.retransmission_buffer space) >>= λ r. done (record s {
  retransmission_buffer = set_space space r.1 s.retransmission_buffer;
  largest_pns_acknowledged =
      if ltb (s.largest_pns_acknowledged space) f.largest_acknowledged
      then set_space space f.largest_acknowledged s.largest_pns_acknowledged
      else s.largest_pns_acknowledged;
  batches = s.batches ++ (r.0 ∷ []);
})

unfoldable pub handle_acks : PnSpace → List AckFrame → Agent → Outcome Agent
unfolding handle_ack
handle_acks space [] s = done s
handle_acks space (f ∷ rest) s = handle_ack space f s >>= λ t. handle_acks space rest t

abbrev without_acks : PnSpace → Agent → Agent
without_acks initial_space s = empty_buffer initial_space s
without_acks _ s = s

-- The ticker ranges over the three buffers, in any order, here this one.
abbrev expired_all : ℕ → Agent → Agent
expired_all now s =
    let i = expired now s.timer_value (s.retransmission_buffer initial_space) in
    let h = expired now s.timer_value (s.retransmission_buffer handshake_space) in
    let a = expired now s.timer_value (s.retransmission_buffer app_data_space) in
    record s {
      retransmission_buffer =
          set_space initial_space i.1
            (set_space handshake_space h.1 (set_space app_data_space a.1 s.retransmission_buffer));
      batches = s.batches ++ ((i.0 ++ (h.0 ++ a.0)) ∷ []);
    }

unfoldable pub handle : Message → Agent → Outcome Agent
unfolding handle_acks
handle (tick now) s = done (expired_all now s)
handle (incoming_frames kind fs) s =
    elim (ack_of (get_all ack_type fs ++ get_all ack_ecn_type fs)) [
      | [] ↦ done (without_acks (pn_space kind) s)
      | f ∷ rest ↦ handle_acks (pn_space kind) (f ∷ rest) s
    ]
handle incoming_retry s = done (empty_buffer initial_space s)
handle incoming_version_negotiation s = done (empty_buffer initial_space s)
handle (outgoing_frames now level number kind fs) s = done (record s {
  retransmission_buffer =
      set_space (pn_space kind)
        (outgoing_packet now level kind number fs (s.retransmission_buffer (pn_space kind)))
        s.retransmission_buffer;
})
handle (level_available level) s =
    done (if level == 4 then empty_buffer handshake_space (empty_buffer initial_space s) else s)
