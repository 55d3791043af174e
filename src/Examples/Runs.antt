-- ===== src/Examples/Runs.antt =====
-- The theorems on runs of the handshake agent, of the TLS agent and of the round-trip estimate at
-- concrete inputs.
use quic_tracker.Base.{◌≡◌, refl, true, false, List, [], ◌∷◌, Bytes, length, none, some, inl, arith}
use quic_tracker.Stream.{new_stream}
use quic_tracker.Frame.{crypto}
use quic_tracker.Crypto.{CryptoState}
use quic_tracker.Header.{long}
use quic_tracker.Packet.{handshake, get_all}
use quic_tracker.Frame.{frame_type}
use quic_tracker.Packet.Make.{FramePacket}
use quic_tracker.TransportParameters.{default_parameters}
use quic_tracker.Packet.Incoming.{framed}
use quic_tracker.Connection.Initial.{Tls, messages}
use quic_tracker.HandshakeAgent
use quic_tracker.HandshakeAgent.{
  outgoing, tls_status, tls_error, finish, step, note_tls, sent_out, look_for_finished,
}
use quic_tracker.HandshakeAgent.Sound.{IsSound, Reaches, start, next, Reaches-IsSound}
use quic_tracker.Base.{◌≤◌, All}
use quic_tracker.Packet.{initial}
use quic_tracker.RttAgent
use quic_tracker.RttAgent.Bounds.{Sample, run, run-bounds}
use quic_tracker.TlsAgent
use quic_tracker.TlsAgent.{TlsLibrary, Event, epoch_initial, crypto_data}
use quic_tracker.TlsAgent.Announced.{IsAnnounced, run-IsAnnounced}
use quic_tracker.Packet.{initial_space, pn_space}
use quic_tracker.TransportParameters.{receive_extension_data}
use quic_tracker.Examples.Toys.{toy_aead, toy_cipher, toy_keys, hello, hello_header, first_header}

abbrev no_keys : CryptoState
no_keys = record { read = none; write = none; header_read = none; header_write = none }

-- A TLS library that says one message.
abbrev toy_tls : Tls Bytes
toy_tls = record {
  marshal = λ v l. some [];
  set_transport_parameters = λ bs t. bs;
  first_message = λ t. (messages ((1 ∷ 2 ∷ []) ∷ []), t);
  zero_rtt_secret = λ t. [];
  write_state = λ s. no_keys;
  new_connection = λ v. [];
  initial_state = λ t cid. toy_keys;
}

abbrev a_handshake : HandshakeAgent.Agent Bytes
a_handshake = record {
  client = record {
    connection = record {
      version = 0xff000011;
      source_cid = 1 ∷ 2 ∷ 3 ∷ 4 ∷ [];
      destination_cid = 5 ∷ 6 ∷ 7 ∷ 8 ∷ [];
      original_destination_cid = 5 ∷ 6 ∷ 7 ∷ 8 ∷ [];
      token = [];
      key_phase_index = 0;
      packet_number = λ space. 0;
      largest_pns_acknowledged = λ space. 0;
    };
    initial_version = 0xff000011;
    parameters = default_parameters;
    tls = [];
    crypto_streams = λ space. new_stream;
    crypto_states = λ level. some toy_keys;
    use_ipv6 = false;
    levels_available = [];
  };
  quic_version = 0xff000011;
  ignore_retry = false;
  received_retry = false;
  first_initial_received = false;
  tls_completed = false;
  tls_packet = none;
  tls_restarts = 0;
  sent = [];
  status = [];
  terminated = false;
}

a_handshake-IsSound : IsSound 0 a_handshake
a_handshake-IsSound = record { retried_once = refl; result = inl (refl, refl) }

abbrev a_packet : FramePacket
a_packet = record { kind = handshake; header = long hello_header; frames = hello }

abbrev finished : FramePacket
finished = record {
  kind = handshake;
  header = long hello_header;
  frames = crypto 0 1 (0x14 ∷ []) ∷ [];
}

-- The states after the end of the TLS handshake, which is told with an error, and after the packet
-- sent with TLS Finished: two statuses say that the handshake is complete.
abbrev after_error : HandshakeAgent.Agent Bytes
after_error = record a_handshake {
  tls_completed = true;
  tls_packet = some (framed a_packet);
  status =
      record { completed = true; packet = some (framed a_packet); error = some (tls_error []) }
      ∷ [];
}

abbrev after_finished : HandshakeAgent.Agent Bytes
after_finished =
    finish (record { completed = true; packet = some (framed a_packet); error = none }) after_error

a_run : Reaches toy_tls a_handshake 1 after_finished
unfolding step note_tls sent_out look_for_finished get_all frame_type
a_run =
    next (outgoing finished)
      (next (tls_status true (framed a_packet) (some (tls_error []))) (start refl) refl refl) refl
      refl

handshake_example : IsSound 1 after_finished
handshake_example = Reaches-IsSound toy_tls a_handshake after_finished 1 a_handshake-IsSound a_run

-- The second sample comes with a delay that is taken off.
abbrev first_sample : Sample
first_sample = record { time = 500; delay = 0; ack_only = false }

abbrev later_samples : List Sample
later_samples =
    record { time = 900; delay = 100; ack_only = false }
    ∷ record { time = 300; delay = 25; ack_only = true }
    ∷ []

rtt_example :
    All
      (λ y. (run RttAgent.new_agent (first_sample ∷ later_samples)).min_rtt ≤ y.time)
      (first_sample ∷ later_samples)
    × ((run RttAgent.new_agent (first_sample ∷ later_samples)).min_rtt
        ≤ (run RttAgent.new_agent (first_sample ∷ later_samples)).smoothed_rtt)
    × ((run RttAgent.new_agent (first_sample ∷ later_samples)).smoothed_rtt ≤ 1000)
    × ((run RttAgent.new_agent (first_sample ∷ later_samples)).rtt_var ≤ 1000)
rtt_example =
    run-bounds 1000 first_sample later_samples (omega arith)
      (omega arith, (omega arith, (omega arith, tt)))

-- A TLS library that has all keys after the first message.
abbrev toy_library : TlsLibrary Bytes
toy_library = record {
  handle_message = λ content e t. (
    record { messages = (epoch_initial, 4 ∷ []) ∷ []; not_completed = false; error = none },
    content,
  );
  handshake_read_secret = λ t. t;
  handshake_write_secret = λ t. t;
  protected_read_secret = λ t. t;
  protected_write_secret = λ t. t;
  resumption_ticket = λ t. [];
  received_parameters = λ t. [];
  unmarshal = λ bs. some [];
  read_aead = λ t secret. toy_aead;
  write_aead = λ t secret. toy_aead;
  cipher = λ t secret. toy_cipher;
}

abbrev a_tls_agent : TlsAgent.Agent Bytes
a_tls_agent = record {
  tls = [];
  crypto_states = λ l. none;
  crypto_streams = λ space. new_stream;
  crypto_chans = λ space. [];
  parameters = none;
  disable_frame_sending = false;
  announced = λ l r. false;
  levels_available = [];
  frame_queue = [];
  status = [];
  tickets = [];
}

a_tls_agent-IsAnnounced : IsAnnounced a_tls_agent
a_tls_agent-IsAnnounced = record { once = λ l r. refl; with_keys = λ l r e. cc }

abbrev tls_events : List Event
tls_events =
    crypto_data initial_space (1 ∷ 2 ∷ [])
    ∷ TlsAgent.incoming
        (framed (record { kind = initial; header = long first_header; frames = [] }))
    ∷ []

announced_example : IsAnnounced (TlsAgent.run toy_library tls_events a_tls_agent)
announced_example = run-IsAnnounced toy_library tls_events a_tls_agent a_tls_agent-IsAnnounced

all_announced_test : length (TlsAgent.run toy_library tls_events a_tls_agent).levels_available ≡ 4
unfolding TlsAgent.run TlsAgent.step TlsAgent.receive_packet TlsAgent.feed TlsAgent.after_reply
    TlsAgent.install_handshake TlsAgent.queue_messages TlsAgent.complete TlsAgent.announce_all
    TlsAgent.announce pn_space receive_extension_data
all_announced_test = refl
