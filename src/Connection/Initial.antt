-- ===== src/Connection/Initial.antt =====
-- connection.go: GetInitialPacket, with TransitionTo's effect on the crypto streams. The TLS library
-- is a parameter; its logs are left out.
use quic_tracker.Base.{
  ℕ, ◌+◌, ◌-◌, Bool, false, ltb, ◌==◌, if◌then◌else◌, List, [], ◌∷◌, ◌++◌, Bytes, length, replicate,
  Option, none, some, Outcome, done, panic,
}
use quic_tracker.Base.Outcomes.{◌>>=◌}
use quic_tracker.VarInt.{var_int_len}
use quic_tracker.Stream.{Stream, new_stream}
use quic_tracker.Stream.Send.{new_crypto_frame}
use quic_tracker.Frame.{padding}
use quic_tracker.Level.{Level, level_initial, level_0rtt, set_level}
use quic_tracker.Crypto.{Aead, CryptoState}
use quic_tracker.TransportParameters.{
  default_parameters, TransportParameter, QuicTransportParameters, get_extension_data,
}
use quic_tracker.Connection.{transition_to}
use quic_tracker.Header.Make.{Connection}
use quic_tracker.Header.Methods.{encode}
use quic_tracker.Packet.{PnSpace, initial, initial_space, encode_payload}
use quic_tracker.Packet.Make.{FramePacket, add_frame, new_packet}
use quic_tracker.Recovery.Agent.{set_space}

-- What `HandleMessage(nil, EpochInitial)` returns: an error, an end of the handshake, or messages of
-- a handshake that goes on.
pub data Hello : Type 0 where
  failed completed : Hello
  messages : List Bytes → Hello

-- The calls of the TLS library, on its state, and the functions that the library's keys come from.
pub record Tls (T : Type 0) : Type 0 where
  pub marshal : ℕ → List TransportParameter → Option Bytes
  pub set_transport_parameters : Bytes → T → T
  pub first_message : T → Hello × T
  pub zero_rtt_secret : T → Bytes
  pub write_state : Bytes → CryptoState
  pub new_connection : ℕ → T
  pub initial_state : T → Bytes → CryptoState

-- The fields of the connection that GetInitialPacket uses, and what it submitted to
-- EncryptionLevelsAvailable.
pub record Client (T : Type 0) : Type 0 where
  pub connection : Connection
  pub initial_version : ℕ
  pub parameters : QuicTransportParameters
  pub tls : T
  pub crypto_streams : PnSpace → Stream
  pub crypto_states : Level → Option CryptoState
  pub use_ipv6 : Bool
  pub levels_available : List (Level × Bool)

abbrev pub minimum_initial_length : ℕ
minimum_initial_length = 1252

abbrev pub minimum_initial_length_v6 : ℕ
minimum_initial_length_v6 = 1232

abbrev pub initial_length : Bool → ℕ
initial_length ipv6 = if ipv6 then minimum_initial_length_v6 else minimum_initial_length

abbrev overhead_of : Option Aead → Outcome ℕ
overhead_of (some a) = done a.overhead
overhead_of none = panic

abbrev write_overhead : Option CryptoState → Outcome ℕ
write_overhead (some c) = overhead_of c.write
write_overhead none = panic

-- The header is counted with a length field of the value that it has so far.
unfoldable pub padding_length : ℕ → FramePacket → ℕ → Outcome ℕ
padding_length minimum p overhead = do
  payload ← encode_payload p.frames
  header ← encode p.header
  n ← var_int_len (length payload)
  done (minimum - (length header + n + length payload + overhead))

-- The loop that appends PADDING frames.
unfoldable pub padded : ℕ → FramePacket → ℕ → Outcome FramePacket
unfolding padding_length
padded minimum p overhead = do
  n ← padding_length minimum p overhead
  done (record p { frames = p.frames ++ replicate n padding })

module _ {T : Type 0} (lib : Tls T) where
  -- TransitionTo: new streams, and the keys of Initial packets alone. The handler of transport
  -- parameters keeps the version that was tried before; a connection without one had QuicVersion,
  -- which is the version given.
  unfoldable pub restart : ℕ → Client T → Client T
  unfolding transition_to
  restart version c =
      let tls = lib.new_connection version in
      record c {
        initial_version = if c.connection.version == 0 then version else c.connection.version;
        connection = transition_to version c.connection;
        parameters = default_parameters;
        tls = tls;
        crypto_streams = λ space. new_stream;
        crypto_states =
            set_level level_initial (some (lib.initial_state tls c.connection.destination_cid))
              (λ l. none);
      }

  -- The keys for 0-RTT data, when the session has a secret for them.
  abbrev with_zero_rtt : Client T → Client T
  with_zero_rtt c =
      if ltb 0 (length (lib.zero_rtt_secret c.tls))
      then (record c {
        crypto_states =
            set_level level_0rtt (some (lib.write_state (lib.zero_rtt_secret c.tls)))
              c.crypto_states;
        levels_available = c.levels_available ++ ((level_0rtt, false) ∷ []);
      })
      else c

  unfoldable pub initial_with : Bytes → Client T → Outcome (FramePacket × Client T)
  unfolding padded
  initial_with hello c₀ =
      let (f, stream) = new_crypto_frame (c₀.crypto_streams initial_space) hello in
      let c =
        with_zero_rtt
          (record c₀ { crypto_streams = set_space initial_space stream c₀.crypto_streams }) in
      do
        (p, connection) ← new_packet initial c.connection
        overhead ← write_overhead (c.crypto_states level_initial)
        q ← padded (initial_length c.use_ipv6) (add_frame f p) overhead
        done (q, record c { connection = connection })

  -- Without an error a handshake that is complete is printed as one, which is a panic; there is no
  -- first message in an empty list.
  unfoldable pub after_message : Hello → Client T → Outcome (Option (FramePacket × Client T))
  unfolding initial_with
  after_message failed c = done none
  after_message completed c = panic
  after_message (messages []) c = panic
  after_message (messages (hello ∷ rest)) c = initial_with hello c >>= λ r. done (some r)

  abbrev with_extension_data : Option Bytes → Client T → Outcome (Option (FramePacket × Client T))
  with_extension_data none c = done none
  with_extension_data (some bs) c =
      let (message, tls) = lib.first_message (lib.set_transport_parameters bs c.tls) in
      after_message message (record c { tls = tls })

  -- `none` is a nil packet.
  unfoldable pub get_initial_packet : Client T → Outcome (Option (FramePacket × Client T))
  unfolding after_message
  get_initial_packet c = do
    e ← get_extension_data lib.marshal (λ bs. none) c.initial_version c.parameters
    with_extension_data e c
