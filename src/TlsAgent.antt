-- ===== src/TlsAgent.antt =====
-- agents/tls_agent.go: the loop of Run. The TLS library is a parameter; keys come from it.
pub mod Announced
use quic_tracker.Base.{
  ℕ, not, ◌&&◌, Bool, true, false, ltb, if◌then◌else◌, List, [], ◌∷◌, ◌++◌, Bytes, length, concat,
  Option, none, some,
}
use quic_tracker.Stream.{Stream}
use quic_tracker.Stream.Send.{new_crypto_frame}
use quic_tracker.Frame.{Frame}
use quic_tracker.Level.{
  Level, level_initial, level_0rtt, level_handshake, level_1rtt, same_level, set_level,
}
use quic_tracker.Crypto.{Aead, CryptoState}
use quic_tracker.TransportParameters.{
  TransportParameter, QuicTransportParameters, receive_extension_data,
}
use quic_tracker.Packet.{PnSpace, initial_space, handshake_space, app_data_space, pn_space}
use quic_tracker.Packet.Make.{FramePacket}
use quic_tracker.Packet.Incoming.{Packet, framed, retried, negotiated}
use quic_tracker.Recovery.Agent.{set_space}

-- The epochs of the TLS library, and crypto.go: EpochToEncryptionLevel, EpochToPNSpace and its
-- inverse.
pub data Epoch : Type 0 where
  epoch_initial epoch_0rtt epoch_handshake epoch_1rtt : Epoch

abbrev pub level_of_epoch : Epoch → Level
level_of_epoch epoch_initial = level_initial
level_of_epoch epoch_0rtt = level_0rtt
level_of_epoch epoch_handshake = level_handshake
level_of_epoch epoch_1rtt = level_1rtt

abbrev pub space_of_epoch : Epoch → PnSpace
space_of_epoch epoch_initial = initial_space
space_of_epoch epoch_0rtt = app_data_space
space_of_epoch epoch_handshake = handshake_space
space_of_epoch epoch_1rtt = app_data_space

-- A space that the map does not hold gives its zero value, the initial epoch.
abbrev pub epoch_of_space : PnSpace → Epoch
epoch_of_space handshake_space = epoch_handshake
epoch_of_space app_data_space = epoch_1rtt
epoch_of_space _ = epoch_initial

pub record Reply : Type 0 where
  pub messages : List (Epoch × Bytes)
  pub not_completed : Bool
  pub error : Option Bytes

-- The calls of the library on its state.
pub record TlsLibrary (T : Type 0) : Type 0 where
  pub handle_message : Bytes → Epoch → T → Reply × T
  pub handshake_read_secret : T → Bytes
  pub handshake_write_secret : T → Bytes
  pub protected_read_secret : T → Bytes
  pub protected_write_secret : T → Bytes
  pub resumption_ticket : T → Bytes
  pub received_parameters : T → Bytes
  pub unmarshal : Bytes → Option (List TransportParameter)
  pub read_aead : T → Bytes → Aead
  pub write_aead : T → Bytes → Aead
  pub cipher : T → Bytes → Bytes → Bytes

-- An error of the library, or of ReceiveExtensionData.
pub data Error : Type 0 where
  of_library : Bytes → Error
  of_parameters : Error

pub record TlsStatus : Type 0 where
  pub completed : Bool
  pub packet : FramePacket
  pub error : Option Error

-- `crypto_chans` holds what the crypto streams handed on; the rest of the lists is what was
-- submitted.
pub record Agent (T : Type 0) : Type 0 where
  pub tls : T
  pub crypto_states : Level → Option CryptoState
  pub crypto_streams : PnSpace → Stream
  pub crypto_chans : PnSpace → List Bytes
  pub parameters : Option QuicTransportParameters
  pub disable_frame_sending : Bool
  pub announced : Level → Bool → Bool
  pub levels_available : List (Level × Bool)
  pub frame_queue : List (Frame × Level)
  pub status : List TlsStatus
  pub tickets : List Bytes

abbrev pub no_keys : CryptoState
no_keys = record { read = none; write = none; header_read = none; header_write = none }

abbrev pub is_some {ℓ} : {A : Type ℓ} → Option A → Bool
is_some none = false
is_some (some a) = true

abbrev pub same_bool : Bool → Bool → Bool
same_bool true b = b
same_bool false b = not b

-- `e.Read && HeaderRead != nil || !e.Read && HeaderWrite != nil`, of a state that is not nil.
abbrev pub has_keys : Option CryptoState → Bool → Bool
has_keys none read = false
has_keys (some c) true = is_some c.header_read
has_keys (some c) false = is_some c.header_write

module _ {T : Type 0} where
  abbrev pub set_state : Level → CryptoState → Agent T → Agent T
  set_state l c s = record s { crypto_states = set_level l (some c) s.crypto_states }

  -- One round of the loop over the four levels.
  unfoldable pub announce : Level → Bool → Agent T → Agent T
  announce l read s =
      if not (s.announced l read) && has_keys (s.crypto_states l) read
      then (record s {
        announced = λ i r. if same_level i l && same_bool r read then true else s.announced i r;
        levels_available = s.levels_available ++ ((l, read) ∷ []);
      })
      else s

  unfoldable pub announce_all : Agent T → Agent T
  unfolding announce
  announce_all s =
      announce level_1rtt true (
        announce level_1rtt false
          (announce level_handshake true (announce level_handshake false s)))

  unfoldable pub queue_messages : List (Epoch × Bytes) → Agent T → Agent T
  queue_messages [] s = s
  queue_messages ((e, content) ∷ rest) s =
      let (f, stream) = new_crypto_frame (s.crypto_streams (space_of_epoch e)) content in
      queue_messages rest (record s {
        crypto_streams = set_space (space_of_epoch e) stream s.crypto_streams;
        frame_queue = s.frame_queue ++ ((f, level_of_epoch e) ∷ []);
      })

  abbrev pub note_error : FramePacket → Option Bytes → Agent T → Agent T
  note_error p none s = s
  note_error p (some e) s = record s {
    status =
        s.status ++ (record { completed = false; packet = p; error = some (of_library e) } ∷ []);
  }

module _ {T : Type 0} (lib : TlsLibrary T) where
  -- `InitRead` and `InitWrite`.
  abbrev pub init_read : T → Bytes → CryptoState → CryptoState
  init_read t secret c = record c {
    read = some (lib.read_aead t secret);
    header_read = some (lib.cipher t secret);
  }

  abbrev pub init_write : T → Bytes → CryptoState → CryptoState
  init_write t secret c = record c {
    write = some (lib.write_aead t secret);
    header_write = some (lib.cipher t secret);
  }

  abbrev pub with_read : CryptoState → T → CryptoState
  with_read c t =
      if not (is_some c.header_read) && ltb 0 (length (lib.handshake_read_secret t))
      then init_read t (lib.handshake_read_secret t) c
      else c

  abbrev pub with_write : CryptoState → T → CryptoState
  with_write c t =
      if not (is_some c.header_write) && ltb 0 (length (lib.handshake_write_secret t))
      then init_write t (lib.handshake_write_secret t) c
      else c

  abbrev pub or_new : Option CryptoState → CryptoState
  or_new none = no_keys
  or_new (some c) = c

  unfoldable pub install_handshake : Agent T → Agent T
  install_handshake s =
      set_state level_handshake
        (with_write (with_read (or_new (s.crypto_states level_handshake)) s.tls) s.tls) s

  -- `NewProtectedCryptoState`
  abbrev pub protected_state : T → CryptoState
  protected_state t =
      let r =
        if ltb 0 (length (lib.protected_read_secret t))
        then init_read t (lib.protected_read_secret t) no_keys
        else no_keys in
      if ltb 0 (length (lib.protected_write_secret t))
      then init_write t (lib.protected_write_secret t) r
      else r

  -- The parameters of the peer; an error leaves those that there were.
  abbrev pub receive_parameters : FramePacket → Option QuicTransportParameters → Agent T → Agent T
  receive_parameters p (some q) s = record s {
    parameters = some q;
    status = s.status ++ (record { completed = true; packet = p; error = none } ∷ []);
  }
  receive_parameters p none s = record s {
    status = s.status ++ (record { completed = true; packet = p; error = some of_parameters } ∷ []);
  }

  unfoldable pub complete : FramePacket → Agent T → Agent T
  complete p s =
      receive_parameters p
        (receive_extension_data (λ v l. none) lib.unmarshal (lib.received_parameters s.tls))
        (set_state level_1rtt (protected_state s.tls) s)

  unfoldable pub after_reply : FramePacket → Reply → Agent T → Agent T
  unfolding install_handshake queue_messages complete announce_all
  after_reply p reply s₀ =
      let s = install_handshake (note_error p reply.error s₀) in
      let q = if s.disable_frame_sending then s else queue_messages reply.messages s in
      let c =
        if not reply.not_completed && not (is_some (q.crypto_states level_1rtt))
        then complete p q
        else q in
      let a = announce_all c in
      if ltb 0 (length (lib.resumption_ticket a.tls))
      then (record a { tickets = a.tickets ++ (lib.resumption_ticket a.tls ∷ []) })
      else a

  unfoldable pub feed : FramePacket → Bytes → Agent T → Agent T
  unfolding after_reply
  feed p handshake_data s =
      let r = lib.handle_message handshake_data (epoch_of_space (pn_space p.kind)) s.tls in
      after_reply p r.0 (record s { tls = r.1 })

  abbrev pub drained : PnSpace → Agent T → Agent T
  drained space s = record s { crypto_chans = set_space space [] s.crypto_chans }

  -- The data that waits in the packet's space, all at once.
  unfoldable pub receive_packet : FramePacket → Agent T → Agent T
  unfolding feed
  receive_packet p s =
      let handshake_data = concat (s.crypto_chans (pn_space p.kind)) in
      if ltb 0 (length handshake_data)
      then feed p handshake_data (drained (pn_space p.kind) s)
      else drained (pn_space p.kind) s

-- A packet, or a piece of a crypto stream.
pub data Event : Type 0 where
  incoming : Packet → Event
  crypto_data : PnSpace → Bytes → Event

module _ {T : Type 0} (lib : TlsLibrary T) where
  unfoldable pub step : Event → Agent T → Agent T
  unfolding receive_packet
  step (incoming (framed p)) s = receive_packet lib p s
  step (incoming (retried p)) s = s
  step (incoming (negotiated p)) s = s
  step (crypto_data space content) s = record s {
    crypto_chans = set_space space (s.crypto_chans space ++ (content ∷ [])) s.crypto_chans;
  }

  unfoldable pub run : List Event → Agent T → Agent T
  unfolding step
  run [] s = s
  run (e ∷ es) s = run es (step e s)
