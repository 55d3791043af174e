-- ===== src/HandshakeAgent.antt =====
-- agents/handshake_agent.go: the loop of Run. Every packet that is read is of one of three sorts, so
-- that the default of the switch on its type is not reached.
pub mod Sound
use quic_tracker.Base.{
  ℕ, suc, ◌+◌, ◌==◌, not, ◌&&◌, Bool, true, false, if◌then◌else◌, List, [], ◌∷◌, ◌++◌, Bytes,
  Option, none, some, Outcome, done, panic,
}
use quic_tracker.Base.Outcomes.{◌>>=◌}
use quic_tracker.Frame.{Frame, crypto, crypto_type}
use quic_tracker.Level.{level_initial}
use quic_tracker.Header.{Header, long, short}
use quic_tracker.Header.Make.{Connection}
use quic_tracker.Packet.{Kind, initial, handshake, protected, zero_rtt_protected, get_all}
use quic_tracker.Packet.Make.{FramePacket}
use quic_tracker.Packet.Retry.{RetryPacket}
use quic_tracker.Packet.Incoming.{Packet, framed, retried, negotiated}
use quic_tracker.Connection.{closes, process_version_negotiation}
use quic_tracker.Connection.Send.{send_packet}
use quic_tracker.Connection.Initial.{Tls, Client, get_initial_packet, restart}

-- The errors of other libraries come with what they say.
pub data Error : Type 0 where
  no_version closed_early : Error
  tls_error : Bytes → Error
  socket_error : Bytes → Error

pub record HandshakeStatus : Type 0 where
  pub completed : Bool
  pub packet : Option Packet
  pub error : Option Error

-- `status` is what was published, `sent` what was given to SendPacket. The global QuicVersion is a
-- field.
pub record Agent (T : Type 0) : Type 0 where
  pub client : Client T
  pub quic_version : ℕ
  pub ignore_retry : Bool
  pub received_retry : Bool
  pub first_initial_received : Bool
  pub tls_completed : Bool
  pub tls_packet : Option Packet
  pub tls_restarts : ℕ
  pub sent : List FramePacket
  pub status : List HandshakeStatus
  pub terminated : Bool

pub data Event : Type 0 where
  initiate stop : Event
  incoming : Packet → Event
  outgoing : FramePacket → Event
  tls_status : (completed : Bool) (packet : Packet) (error : Option Error) → Event
  socket_status : (refused : Bool) (what : Bytes) → Event

abbrev same_bytes : Bytes → Bytes → Bool
same_bytes [] [] = true
same_bytes (a ∷ cs) (b ∷ bs) = (a == b) && same_bytes cs bs
same_bytes _ _ = false

abbrev pub is_initial : Kind → Bool
is_initial initial = true
is_initial _ = false

abbrev pub crypto_data : Frame → Option Bytes
crypto_data (crypto offset n content) = some content
crypto_data _ = none

module _ {T : Type 0} where
  abbrev pub publish : HandshakeStatus → Agent T → Agent T
  publish x s = record s { status = s.status ++ (x ∷ []) }

  -- A status after which the loop returns.
  abbrev pub finish : HandshakeStatus → Agent T → Agent T
  finish x s = record s { status = s.status ++ (x ∷ []); terminated = true }

  abbrev with_connection : Connection → Agent T → Agent T
  with_connection c s = record s { client = record s.client { connection = c } }

  abbrev with_destination : Bytes → Agent T → Agent T
  with_destination cid s = with_connection (record s.client.connection { destination_cid = cid }) s

  -- `p.Header().(*LongHeader)`
  abbrev pub switch_destination : Header → Agent T → Outcome (Agent T)
  switch_destination (long h) s =
      done (with_destination h.source_cid (record s { first_initial_received = true }))
  switch_destination (short h) s = panic

  unfoldable pub receive_frames : FramePacket → Agent T → Outcome (Agent T)
  receive_frames p s =
      if closes p.frames
      then done (
          finish (record { completed = false; packet = some (framed p); error = some closed_early })
            s)
      else if is_initial p.kind && not s.first_initial_received
      then switch_destination p.header s
      else done s

  -- The data of a CRYPTO frame is looked at without a test of its length.
  abbrev pub finish_at : Option Bytes → Agent T → Outcome (Agent T)
  finish_at none s = done s
  finish_at (some []) s = panic
  finish_at (some (b ∷ bs)) s =
      if b == 0x14
      then done (finish (record { completed = true; packet = s.tls_packet; error = none }) s)
      else done s

  -- The loop over the CRYPTO frames, which returns at TLS Finished.
  unfoldable pub look_for_finished : List Frame → Agent T → Outcome (Agent T)
  look_for_finished [] s = done s
  look_for_finished (f ∷ rest) s = do
    s' ← finish_at (crypto_data f) s
    if s'.terminated then done s' else look_for_finished rest s'

  abbrev pub of_handshake : Kind → List Frame → Agent T → Outcome (Agent T)
  of_handshake handshake fs s = look_for_finished (get_all crypto_type fs) s
  of_handshake _ fs s = done s

  unfoldable pub sent_out : FramePacket → Agent T → Outcome (Agent T)
  unfolding look_for_finished
  sent_out p s = if s.tls_completed then of_handshake p.kind p.frames s else done s

  -- An error is published, and the loop goes on.
  unfoldable pub note_tls : Bool → Packet → Option Error → Agent T → Agent T
  note_tls completed p (some e) s =
      record (publish (record { completed = completed; packet = some p; error = some e }) s) {
        tls_completed = completed;
        tls_packet = some p;
      }
  note_tls completed p none s = record s { tls_completed = completed; tls_packet = some p }

  unfoldable pub note_socket : Bool → Bytes → Agent T → Agent T
  note_socket true what s =
      publish (record { completed = false; packet = none; error = some (socket_error what) }) s
  note_socket false what s = s

module _ {T : Type 0} (lib : Tls T) where
  abbrev pub give : Agent T → Option (FramePacket × Client T) → Outcome (Agent T)
  give s none = panic
  give s (some (p, c)) = send_packet c.crypto_states p level_initial >>= λ d.
      done (record s { client = c; sent = s.sent ++ (d.1 ∷ []) })

  -- `conn.SendPacket(conn.GetInitialPacket(), EncryptionLevelInitial)`, where a nil packet is a panic.
  unfoldable pub send_initial : Agent T → Outcome (Agent T)
  send_initial s = get_initial_packet lib s.client >>= give s

  unfoldable pub accept_version : Connection → Agent T → Outcome (Agent T)
  unfolding send_initial
  accept_version c s =
      send_initial (record s { client = restart lib c.version s.client; quic_version = c.version })

  abbrev pub is_accepted : RetryPacket → Agent T → Bool
  is_accepted p s =
      not s.ignore_retry
      && (same_bytes s.client.connection.destination_cid p.original_destination_cid
          && not s.received_retry)

  -- The transport parameters are kept across TransitionTo.
  abbrev pub retried_client : RetryPacket → Agent T → Client T
  retried_client p s =
      let c = (with_destination p.header.source_cid s).client in
      let c' = restart lib s.quic_version c in
      record c' {
        parameters = c.parameters;
        initial_version = c.initial_version;
        connection = record c'.connection { token = p.retry_token };
      }

  unfoldable pub accept_retry : RetryPacket → Agent T → Outcome (Agent T)
  unfolding send_initial
  accept_retry p s = send_initial (record s {
    received_retry = true;
    client = retried_client p s;
    tls_restarts = suc s.tls_restarts;
  })

  unfoldable pub receive : Packet → Agent T → Outcome (Agent T)
  unfolding accept_version accept_retry receive_frames
  receive (negotiated p) s = elim (process_version_negotiation p s.client.connection) [
    | none ↦ done (
        finish (record { completed = false; packet = some (negotiated p); error = some no_version })
          s)
    | some c ↦ accept_version c s
  ]
  receive (retried p) s = if is_accepted p s then accept_retry p s else done s
  receive (framed p) s = receive_frames p s

  abbrev pub handle : Event → Agent T → Outcome (Agent T)
  handle initiate s = send_initial s
  handle stop s = done (record s { terminated = true })
  handle (incoming p) s = receive p s
  handle (outgoing p) s = sent_out p s
  handle (tls_status completed p e) s = done (note_tls completed p e s)
  handle (socket_status refused what) s = done (note_socket refused what s)

  -- A loop that has returned takes no more.
  unfoldable pub step : Event → Agent T → Outcome (Agent T)
  unfolding receive sent_out note_tls note_socket
  step e s = if s.terminated then done s else handle e s
