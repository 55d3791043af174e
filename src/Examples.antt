-- ===== src/Examples.antt =====
-- The theorems of the header at concrete inputs.
mod Agents
mod Toys
mod Connections
mod Runs
mod Http
use quic_tracker.Base.{
  ℕ, ◌+◌, ◌%◌, ◌/◌, ◌^◌, ◌≡◌, refl, Bool, true, false, List, [], ◌∷◌, ◌++◌, Bytes, length, concat,
  replicate, arith, some, done, inl, inr,
}
use quic_tracker.Base.Outcomes.{◌>>=◌}
use quic_tracker.VarInt.{encode_var_int, read_var_int_value, var_int_len}
use quic_tracker.VarInt.RoundTrip.{encoding, read_var_int_value-encode_var_int}
use quic_tracker.Stream.{Stream, StreamFrame, new_stream, add_to_read}
use quic_tracker.Stream.Invariant.{
  IsConsistent, Grows, new_stream-IsConsistent, add_to_read-IsConsistent,
}
use quic_tracker.Stream.Delivery.{add_all, frames_from, add_all-frames_from}
use quic_tracker.Stream.Delivery
use quic_tracker.Stream.Zeros.{add_all_reversed}
use quic_tracker.Streams.{Streams, lookup}
use quic_tracker.Streams.Interleaved.{take_in, of_stream, at, holds, is_any, take_in-of_stream}
use quic_tracker.Frame.{
  Frame, AckFrame, ack, padding, ping, crypto, stream, max_stream_data, connection_close,
}
use quic_tracker.Frame.Write.{write_to}
use quic_tracker.Frame.Length.{frame_length}
use quic_tracker.Frame.Read.{new_frame}
use quic_tracker.Frame.Read
use quic_tracker.Frame.RoundTrip.{handed, new_frame-write_to}
use quic_tracker.Frame.LengthLaw.{frame_length-write_to}
use quic_tracker.Ack.{get_ack_frame, get_acked_packets}
use quic_tracker.Ack.Correct.{Acknowledges, acked, run_down, get_ack_frame-Acknowledges}
use quic_tracker.Ack.Duplicates.{IsRefused, get_ack_frame-IsRefused}
use quic_tracker.Ack.Covered.{rounds, get_acked_packets-run_down}
use quic_tracker.Recovery.{Buffer, process_ack}
use quic_tracker.Recovery.Acked.{IsSwept, process_ack-IsSwept}
use quic_tracker.Stream.Send.{send_all, IsSent, add_all-send_all}
use quic_tracker.PacketNumber.{TruncatedPn, truncate, encode, read_truncated_pn, join, low_bytes}
use quic_tracker.PacketNumber.Recovered.{join-truncate, join-low_bytes}
use quic_tracker.Header.{LongHeader, encode_long, read_long_header, header_length}
use quic_tracker.Header.Long.{read_long_header-encode_long}
use quic_tracker.Header.Wire.{IsWritableHeader, received}
use mathlib.Core.Logic.{◌↔◌}
use quic_tracker.Packet.{encode_payload, read_payload}
use quic_tracker.Packet.Payload.{given, read_payload-encode_payload}
use quic_tracker.Packet.Progress.{read_payload-ends}
use quic_tracker.Packet.{Payload}
use quic_tracker.Base.{Outcome, ◌||◌}
use quic_tracker.Http3.{HttpFrame, Setting, priority}
use quic_tracker.Http3
use quic_tracker.Http3.Read.{read_http_frame, settings_of}
use quic_tracker.Http3.RoundTrip.{frame_read, left_over, read_http_frame-write_to}
use quic_tracker.Http3.Settings.{settings_of-ends}
use quic_tracker.Base.Outcomes.{Returns}
use quic_tracker.VarInt.Value.{new_var_int}
use quic_tracker.Header.Make.{Connection, next_packet_number, new_long_header}
use quic_tracker.Header.{long}
use quic_tracker.Header
use quic_tracker.PacketNumber.{truncated_length}
use quic_tracker.PacketNumber
use quic_tracker.Recovery.Agent.{set_space}
use quic_tracker.Packet.{initial_space}
use quic_tracker.Level.{level_initial, level_1rtt}
use quic_tracker.Packet.{initial}
use quic_tracker.Packet.Make.{FramePacket, new_packet}
use quic_tracker.SendAgent
use quic_tracker.SendAgent.{queued, fired}
use quic_tracker.SendAgent.Counts.{total}
use quic_tracker.SendAgent.Conserved.{queued_by, step-Adds}
use quic_tracker.SendAgent.Sent.{IsFilled, queued-sent}
use quic_tracker.SendAgent.Merge.{merge_ack_frames}
use quic_tracker.SendAgent.Merged.{ack_of, merge_ack_frames-acked}
use quic_tracker.Base.{◌≤◌, All}
use quic_tracker.Header.{short, encode_short}
use quic_tracker.Frame.{frame_type}
use quic_tracker.Packet.{get_first, protected, app_data_space, pn_space, should_be_acknowledged}
use quic_tracker.AckAgent
use quic_tracker.AckAgent.{append_number, handle, handle_all}
use quic_tracker.AckAgent.Answers.{IsQueue, numbers, empty-IsQueue, handle_all-IsQueue}
use quic_tracker.AckAgent.Acked.{handle-Acknowledges}
use quic_tracker.AckAgent.Acked
use quic_tracker.Packet.Negotiation.{
  VersionNegotiation, encode_negotiation, read_version_negotiation,
  read_version_negotiation-encode_negotiation,
}
use quic_tracker.TransportParameters.{
  TransportParameter, QuicTransportParameters, default_parameters, no_parameters,
  extension_parameters, receive_all,
}
use quic_tracker.TransportParameters.Received.{advertised, receive_all-extension_parameters}

var_int_example :
    (bs : Bytes) × (encode_var_int 15293 ≡ done bs)
    × (read_var_int_value (bs ++ (7 ∷ [])) ≡ (some 15293, 7 ∷ []))
    × (var_int_len 15293 ≡ done (length bs))
var_int_example = read_var_int_value-encode_var_int 15293 (7 ∷ []) (omega arith)

-- A STREAM frame with an offset, and with or without a length.
abbrev piece : Bool → ℕ → Bytes → StreamFrame
piece len offset content = record {
  fin_bit = false;
  len_bit = len;
  off_bit = true;
  stream_id = 4;
  offset = offset;
  length = length content;
  stream_data = content;
}

abbrev two_blocks : AckFrame
two_blocks = record {
  largest_acknowledged = 100;
  ack_delay = 3;
  ack_block_count = 1;
  ack_blocks = record { gap = 0; block = 5 } ∷ record { gap = 2; block = 4 } ∷ [];
}

ack_round_trip_example :
    (bs : Bytes) × (write_to (ack two_blocks) ≡ done bs)
    × (new_frame [] (bs ++ (1 ∷ []))
        ≡ (handed (ack two_blocks) [] >>= λ s'. done (Read.frame (ack two_blocks), 1 ∷ [], s')))
ack_round_trip_example =
    new_frame-write_to (ack two_blocks) (1 ∷ []) []
      (
        omega arith,
        omega arith,
        omega arith,
        ((omega arith, omega arith), ((omega arith, omega arith), tt)),
      )
      (refl, refl)

close_length_example :
    (bs : Bytes) × (write_to (connection_close 10 6 2 (111 ∷ 107 ∷ [])) ≡ done bs)
    × (frame_length (connection_close 10 6 2 (111 ∷ 107 ∷ [])) ≡ done (length bs % 2 ^ 16))
close_length_example =
    frame_length-write_to (connection_close 10 6 2 (111 ∷ 107 ∷ []))
      (omega arith, omega arith, refl, omega arith)

abbrev small_payload : List Frame
small_payload =
    ack two_blocks
    ∷ crypto 0 2 (1 ∷ 2 ∷ [])
    ∷ max_stream_data 4 70000
    ∷ stream (piece false 0 (9 ∷ 8 ∷ 7 ∷ []))
    ∷ []

payload_example :
    (bs : Bytes) × (encode_payload small_payload ≡ done bs)
    × (read_payload [] new_stream bs ≡ some (given small_payload [] new_stream))
payload_example = read_payload-encode_payload small_payload [] new_stream (
  (
    omega arith,
    omega arith,
    omega arith,
    ((omega arith, omega arith), ((omega arith, omega arith), tt)),
  ),
  (refl, refl),
  (
    (omega arith, refl, omega arith),
    tt,
    (
      (omega arith, omega arith),
      tt,
      ((omega arith, omega arith, refl, omega arith), (inr refl, inl refl), tt),
    ),
  ),
)

new_stream_example :
    (t : Stream) × (add_to_read new_stream (piece true 3 (1 ∷ 2 ∷ [])) ≡ done t)
    × IsConsistent t
    × Grows new_stream t
new_stream_example =
    add_to_read-IsConsistent new_stream (piece true 3 (1 ∷ 2 ∷ [])) new_stream-IsConsistent
      (refl, omega arith)

delivery_example :
    (t : Stream) × (add_all new_stream (frames_from 4 0 ((1 ∷ []) ∷ (2 ∷ 3 ∷ []) ∷ [])) ≡ done t)
    × (t.submitted ≡ (1 ∷ []) ∷ (2 ∷ 3 ∷ []) ∷ [])
    × (t.read_data ≡ concat ((1 ∷ []) ∷ (2 ∷ 3 ∷ []) ∷ []))
    × (t.read_closed ≡ true)
delivery_example = add_all-frames_from 4 (1 ∷ []) ((2 ∷ 3 ∷ []) ∷ []) (omega arith)

zeros_example :
    (t : Stream) × (add_all new_stream
        (Delivery.frame false 4 (2 + 1) (8 ∷ 9 ∷ []) ∷ Delivery.frame false 4 2 (7 ∷ []) ∷ [])
      ≡ done t)
    × (t.submitted ≡ (replicate 2 0 ++ ((7 ∷ []) ++ (8 ∷ 9 ∷ []))) ∷ [])
    × (t.read_offset ≡ 2 + 1 + 2)
    × (t.gaps ≡ [])
zeros_example = add_all_reversed 4 2 (7 ∷ []) (8 ∷ 9 ∷ []) (omega arith) (omega arith) (omega arith)

-- Two pieces of stream 4 with one of stream 8 between them.
abbrev mixed : List StreamFrame
mixed =
    Delivery.frame false 4 0 (1 ∷ [])
    ∷ Delivery.frame true 8 0 (9 ∷ [])
    ∷ Delivery.frame true 4 1 (2 ∷ 3 ∷ [])
    ∷ []

mixed_example :
    (m' : Streams) × (take_in mixed [] ≡ done m')
    × ((id : ℕ)
        → (add_all (at id []) (of_stream id mixed) ≡ done (at id m'))
          × IsConsistent (at id m')
          × (holds id m' ≡ (is_any (of_stream id mixed) || holds id [])))
unfolding lookup
mixed_example =
    take_in-of_stream mixed [] (λ id. new_stream-IsConsistent)
      ((refl, omega arith), ((refl, omega arith), ((refl, omega arith), tt)))

three_numbers_example :
    (f : AckFrame) × ((get_ack_frame (3 ∷ 7 ∷ 4 ∷ [])).0 ≡ some f) × Acknowledges (3 ∷ 7 ∷ 4 ∷ []) f
three_numbers_example =
    get_ack_frame-Acknowledges (3 ∷ 7 ∷ 4 ∷ []) (λ e. cc)
      (
        ((λ e. omega (arith, e)), ((λ e. omega (arith, e)), tt)),
        (((λ e. omega (arith, e)), tt), (tt, tt)),
      )
      (omega arith, (omega arith, (omega arith, tt)))

duplicate_example : (f : AckFrame) × ((get_ack_frame (3 ∷ 7 ∷ 3 ∷ [])).0 ≡ some f) × IsRefused f
duplicate_example =
    get_ack_frame-IsRefused (3 ∷ 7 ∷ 3 ∷ []) (λ d. d.0.1.0 refl)
      (omega arith, (omega arith, (omega arith, tt)))

covered_example :
    get_acked_packets two_blocks
    ≡ done (run_down 100 (5 + rounds (record { gap = 2; block = 4 } ∷ [])))
covered_example =
    get_acked_packets-run_down two_blocks (record { gap = 0; block = 5 })
      (record { gap = 2; block = 4 } ∷ []) (refl, omega arith, omega arith)

abbrev sent : Buffer
sent =
    (100, record { frames = ping ∷ []; timestamp = 1; level = 4 })
    ∷ (93, record { frames = ping ∷ []; timestamp = 2; level = 4 })
    ∷ (50, record { frames = ping ∷ []; timestamp = 3; level = 4 })
    ∷ []

swept_example :
    (after : Buffer) × (process_ack two_blocks sent ≡ done ([], after))
    × IsSwept two_blocks
        (record { gap = 0; block = 5 })
        (record { gap = 2; block = 4 } ∷ [])
        sent
        after
swept_example =
    process_ack-IsSwept two_blocks (record { gap = 0; block = 5 })
      (record { gap = 2; block = 4 } ∷ []) sent (refl, omega arith, omega arith)

abbrev two_pieces : List Bytes
two_pieces = (1 ∷ []) ∷ (2 ∷ 3 ∷ []) ∷ []

send_example :
    (t : Stream) × (add_all new_stream (send_all 4 new_stream two_pieces).0 ≡ done t)
    × (t.submitted ≡ two_pieces)
    × (t.read_closed ≡ true)
    × IsSent (length (concat two_pieces)) (concat two_pieces) (send_all 4 new_stream two_pieces).1
send_example = add_all-send_all 4 (1 ∷ []) ((2 ∷ 3 ∷ []) ∷ []) (omega arith)

truncated_example :
    (t : TruncatedPn) × (truncate 1000 600 ≡ done t)
    × (read_truncated_pn t.length (encode t ++ (5 ∷ [])) ≡ done (t, 5 ∷ []))
    × (join t 800 ≡ 1000)
truncated_example = join-truncate 1000 600 800 (5 ∷ []) (omega arith) (omega arith) refl

joined_example : (join (low_bytes 256 1) 255 ≡ 256) ↔ (256 / 2 ^ 8 ≡ 255 / 2 ^ 8)
joined_example = join-low_bytes 256 255 1 (inl (inl refl))

abbrev initial_header : LongHeader
initial_header = record {
  packet_type = 0;
  lower_bits = 1;
  version = 0xff000011;
  destination_cid = 1 ∷ 2 ∷ 3 ∷ 4 ∷ 5 ∷ 6 ∷ 7 ∷ 8 ∷ [];
  source_cid = 9 ∷ 8 ∷ 7 ∷ 6 ∷ [];
  token_length = record { value = 2; length = 1 };
  token = 40 ∷ 41 ∷ [];
  payload_length = record { value = 1200; length = 2 };
  packet_number = 7;
  truncated_pn = record { value = 7; length = 2 };
}

initial_header_fits : IsWritableHeader initial_header
initial_header_fits = record {
  kind = omega arith;
  version_fits = omega arith;
  destination = (omega arith, omega arith);
  source = (omega arith, omega arith);
  token_fits = (refl, omega arith);
  token_encoded = (omega arith, unfold encoding in refl);
  payload_encoded = (omega arith, unfold encoding in refl);
  number_length = inl (inr refl);
  number_fits = omega arith;
}

header_example :
    (bs : Bytes) × (encode_long initial_header ≡ done bs)
    × (read_long_header (λ s. 3) (bs ++ (6 ∷ [])) ≡ done (received (λ s. 3) initial_header, 6 ∷ []))
    × (header_length initial_header ≡ length bs)
header_example = read_long_header-encode_long initial_header (λ s. 3) (6 ∷ []) initial_header_fits

any_payload_example :
    (o : Outcome Payload) × (read_payload [] new_stream (0 ∷ 6 ∷ 0 ∷ 64 ∷ []) ≡ some o)
any_payload_example = read_payload-ends [] new_stream (0 ∷ 6 ∷ 0 ∷ 64 ∷ [])

abbrev priority_frame : HttpFrame
priority_frame = record {
  header = record { length = record { value = 5; length = 1 }; kind = 2 };
  body = priority (record {
    prioritized_type = 1;
    dependency_type = 2;
    empty = 0;
    exclusive = true;
    prioritized_element_id = record { value = 4; length = 1 };
    element_dependency_id = record { value = 300; length = 2 };
    weight = 16;
  });
}

priority_frame_example :
    (bs : Bytes) × (Http3.write_to priority_frame ≡ done bs)
    × (Http3.wire_length priority_frame ≡ length bs)
    × (read_http_frame (7 ∷ []) (bs ++ (9 ∷ []))
        ≡ done (frame_read priority_frame, left_over priority_frame.body ++ (9 ∷ [])))
priority_frame_example = read_http_frame-write_to priority_frame (7 ∷ []) (9 ∷ []) (record {
  encoded = (omega arith, unfold encoding in refl);
  measured = unfold encoding in refl;
  allocated = unfold encoding in omega arith;
  kind = refl;
  body_fits = (
    omega arith,
    omega arith,
    omega arith,
    (omega arith, unfold encoding in refl),
    (omega arith, unfold encoding in refl),
  );
})

any_settings_example : (o : Outcome (List Setting)) × (settings_of (0 ∷ 6 ∷ 64 ∷ []) ≡ some o)
any_settings_example = settings_of-ends (0 ∷ 6 ∷ 64 ∷ [])

abbrev two_versions : VersionNegotiation
two_versions = record {
  unused_field = 200;
  version = 0;
  destination_cid = 1 ∷ 2 ∷ 3 ∷ 4 ∷ [];
  source_cid = 5 ∷ 6 ∷ 7 ∷ 8 ∷ 9 ∷ [];
  supported_versions = 0xff000011 ∷ 0x1a2a3a4a ∷ [];
}

negotiation_example :
    read_version_negotiation (encode_negotiation two_versions)
    ≡ done (record two_versions { unused_field = 0 }, [])
negotiation_example = read_version_negotiation-encode_negotiation two_versions (record {
  unused = omega arith;
  version_fits = omega arith;
  destination = (omega arith, omega arith);
  source = (omega arith, omega arith);
  versions_fit = (omega arith, (omega arith, tt));
})

abbrev sent_parameters : QuicTransportParameters
sent_parameters = record default_parameters {
  additional_parameters = record { parameter_type = 0xff00; value = 1 ∷ [] } ∷ [];
}

parameters_example :
    (l : List TransportParameter) × (extension_parameters sent_parameters ≡ done l)
    × (receive_all l no_parameters ≡ some (advertised sent_parameters))
parameters_example = receive_all-extension_parameters sent_parameters (record {
  stream_data = omega arith;
  data_fits = omega arith;
  bidi = omega arith;
  uni = omega arith;
  timeout = omega arith;
  additional = (omega arith, tt);
})
