-- ===== src/Examples/Connections.antt =====
-- The theorems on sending and parsing datagrams at concrete inputs.
use quic_tracker.Base.{◌≡◌, refl, [], ◌∷◌, ◌++◌, Bytes, length, some, Outcome, done, inl, arith}
use quic_tracker.VarInt.RoundTrip.{encoding_len, encoding}
use quic_tracker.PacketNumber.{join}
use quic_tracker.Stream.{new_stream}
use quic_tracker.Frame.{crypto}
use quic_tracker.Level.{level_handshake}
use quic_tracker.Header.{long}
use quic_tracker.Header.Wire.{received}
use quic_tracker.Packet.{handshake}
use quic_tracker.Packet.Make.{FramePacket}
use quic_tracker.Connection.Send.{send_packet}
use quic_tracker.Connection.Sealed.{full}
use quic_tracker.ParseAgent.{Agent, round, parse_datagram}
use quic_tracker.ParseAgent.Ends.{parse_datagram-ends}
use quic_tracker.ParseAgent.Opened.{taken}
use quic_tracker.ParseAgent.RoundTrip.{round-send_packet}
use quic_tracker.Base.{◌≤◌, ◌+◌}
use quic_tracker.Packet.{initial}
use quic_tracker.Connection.Initial.{padded}
use quic_tracker.Connection.Send.{seal}
use quic_tracker.Connection.Padding.{IsFirst, seal-padded}
use quic_tracker.Examples.Toys.{
  toy_aead, toy_aead-IsAead, toy_cipher, toy_cipher-MakesMasks, toy_keys, hello, hello_header,
  hello-IsSendable, first_header,
}

abbrev a_parser : Agent
a_parser = record {
  receiver = record {
    source_cid_length = 4;
    largest_pns_received = λ s. 2;
    streams = [];
    crypto_streams = λ s. new_stream;
  };
  crypto_states = λ l. some toy_keys;
  incoming_packets = [];
  unprocessed_payloads = [];
}

parsed_example : (o : Outcome Agent) × (parse_datagram (0xe5 ∷ 1 ∷ 2 ∷ 3 ∷ []) a_parser ≡ some o)
parsed_example = parse_datagram-ends (0xe5 ∷ 1 ∷ 2 ∷ 3 ∷ []) a_parser

opened_example :
    (d : Bytes) × (send_packet
        (λ l. some toy_keys)
        (record { kind = handshake; header = long hello_header; frames = hello })
        level_handshake
      ≡ done (
        d,
        record {
          kind = handshake;
          header = long (full toy_aead hello_header hello);
          frames = hello;
        },
      ))
    × (round (d ++ (9 ∷ [])) a_parser
        ≡ taken handshake
            (long (received (λ s. 2) (full toy_aead hello_header hello)))
            hello
            (9 ∷ [])
            a_parser)
unfolding join
opened_example =
    round-send_packet toy_aead toy_cipher handshake hello_header hello (λ l. some toy_keys)
      level_handshake a_parser (9 ∷ []) toy_aead-IsAead toy_cipher-MakesMasks hello-IsSendable
      (record { keys = toy_keys; present = refl; write = refl; header_write = refl }) refl refl

hello_message-IsFirst : IsFirst toy_aead toy_cipher 1252 first_header 0 (1 ∷ 2 ∷ 3 ∷ [])
unfolding encoding encoding_len
hello_message-IsFirst = record {
  aead_ok = toy_aead-IsAead;
  cipher_ok = toy_cipher-MakesMasks;
  small_minimum = omega arith;
  tagged = (omega arith, omega arith);
  is_initial = refl;
  versioned = refl;
  no_length = refl;
  writable = record {
    kind = omega arith;
    version_fits = omega arith;
    destination = (omega arith, omega arith);
    source = (omega arith, omega arith);
    token_fits = (refl, omega arith);
    token_encoded = (omega arith, refl);
    payload_encoded = (omega arith, refl);
    number_length = inl (inl refl);
    number_fits = omega arith;
  };
  offset_fits = omega arith;
  message = (omega arith, (omega arith, (omega arith, (omega arith, tt))));
}

padded_example :
    (q : FramePacket) × (dg : Bytes) × (sent : FramePacket) × (padded 1252
        (record {
          kind = initial;
          header = long first_header;
          frames = crypto 0 3 (1 ∷ 2 ∷ 3 ∷ []) ∷ [];
        })
        16
      ≡ done q)
    × (seal toy_aead toy_cipher q ≡ done (dg, sent))
    × (1252 ≤ length dg + 1)
padded_example =
    seal-padded toy_aead toy_cipher 1252 first_header 0 (1 ∷ 2 ∷ 3 ∷ []) hello_message-IsFirst
