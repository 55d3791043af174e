-- ===== src/Examples/Agents.antt =====
-- The theorems on the agents at concrete inputs.
use quic_tracker.Base.{ℕ, ◌+◌, ◌≡◌, refl, Bool, true, false, List, [], ◌∷◌, ◌++◌, arith, done}
use quic_tracker.VarInt.{encode_var_int, var_int_len}
use quic_tracker.Frame.{Frame, AckFrame, ack, padding, ping}
use quic_tracker.Frame.Write.{write_to}
use quic_tracker.Frame.Length.{frame_length}
use quic_tracker.Ack.Correct.{Acknowledges, acked}
use quic_tracker.PacketNumber.{TruncatedPn, truncate, encode, read_truncated_pn, join, low_bytes}
use quic_tracker.Header.{LongHeader, encode_long, read_long_header, header_length}
use quic_tracker.Packet.{encode_payload}
use quic_tracker.Base.Outcomes.{Returns}
use quic_tracker.VarInt.Value.{new_var_int}
use quic_tracker.Header.Make.{Connection, next_packet_number, new_long_header}
use quic_tracker.Header.{long}
use quic_tracker.Header
use quic_tracker.PacketNumber.{truncated_length}
use quic_tracker.PacketNumber
use quic_tracker.Recovery.Agent.{set_space}
use quic_tracker.Packet.{initial_space}
use quic_tracker.Level.{level_initial, level_1rtt}
use quic_tracker.Packet.{initial}
use quic_tracker.Packet.Make.{FramePacket, new_packet}
use quic_tracker.SendAgent
use quic_tracker.SendAgent.{queued, fired}
use quic_tracker.SendAgent.Counts.{total}
use quic_tracker.SendAgent.Conserved.{queued_by, step-Adds}
use quic_tracker.SendAgent.Sent.{IsFilled, queued-sent}
use quic_tracker.SendAgent.Merge.{merge_ack_frames}
use quic_tracker.SendAgent.Merged.{ack_of, merge_ack_frames-acked}
use quic_tracker.Header.{short, encode_short}
use quic_tracker.Frame.{frame_type}
use quic_tracker.Packet.{get_first, protected, app_data_space, pn_space, should_be_acknowledged}
use quic_tracker.AckAgent
use quic_tracker.AckAgent.{append_number, handle, handle_all}
use quic_tracker.AckAgent.Answers.{IsQueue, empty-IsQueue, handle_all-IsQueue}
use quic_tracker.AckAgent.Acked.{handle-Acknowledges}
use quic_tracker.AckAgent.Acked
use quic_tracker.Base.{some, ◌⊎◌, All, none}
use quic_tracker.Packet.{PnSpace}
use quic_tracker.Packet.Negotiation.{VersionNegotiation}
use quic_tracker.Connection.{
  is_supported, process_version_negotiation, IsLast, process_version_negotiation-IsLast,
}
use quic_tracker.Base.{bit_and, ◌==◌, Bytes}
use quic_tracker.Protection.{protect, unprotect, unprotect-protect}
use quic_tracker.Recovery.{RetransmittableFrames}
use quic_tracker.Recovery.Retransmit.{
  Sender, is_first_initial, all_frames, retransmit_batch, retransmit_batch-initial,
}
use quic_tracker.Frame.{stream}

abbrev a_connection : Connection
a_connection = record {
  version = 0xff000011;
  source_cid = 1 ∷ 2 ∷ 3 ∷ 4 ∷ [];
  destination_cid = 5 ∷ 6 ∷ 7 ∷ 8 ∷ [];
  original_destination_cid = 5 ∷ 6 ∷ 7 ∷ 8 ∷ [];
  token = [];
  key_phase_index = 0;
  packet_number = λ space. 0;
  largest_pns_acknowledged = λ space. 0;
}

abbrev is_ping : Frame → Bool
is_ping ping = true
is_ping _ = false

abbrev start : SendAgent.Agent
start = SendAgent.new_agent 1200 a_connection

conserved_example :
    Returns
      (λ t. total is_ping t ≡ total is_ping start + queued_by is_ping (queued ping level_initial))
      (SendAgent.step start (queued ping level_initial))
conserved_example = step-Adds is_ping start (queued ping level_initial) (λ f. refl)

abbrev first_packet : FramePacket × Connection
first_packet = (
  record {
    kind = initial;
    header = long (record {
      packet_type = 0;
      lower_bits = 0;
      version = 0xff000011;
      destination_cid = 5 ∷ 6 ∷ 7 ∷ 8 ∷ [];
      source_cid = 1 ∷ 2 ∷ 3 ∷ 4 ∷ [];
      token_length = record { value = 0; length = 1 };
      token = [];
      payload_length = record { value = 0; length = 0 };
      packet_number = 0;
      truncated_pn = record { value = 0; length = 1 };
    });
    frames = [];
  },
  record a_connection { packet_number = set_space initial_space 1 (λ space. 0) },
)

first_packet_lem : new_packet initial a_connection ≡ done first_packet
unfolding new_packet new_long_header next_packet_number new_var_int var_int_len truncate
    truncated_length Header.pn_space
first_packet_lem = refl

sent_example :
    (t : SendAgent.Agent) × (SendAgent.step start (queued ping level_initial) ≡ done t)
    × (t.armed level_initial ≡ true)
    × (u : SendAgent.Agent) × (SendAgent.step t (fired level_initial) ≡ done u)
    × (q : FramePacket) × (u.sent ≡ [] ++ ((q, level_initial) ∷ []))
    × IsFilled q ([] ++ (ping ∷ []))
    × (u.frame_buffer level_initial ≡ [])
sent_example =
    queued-sent initial ping 1 start first_packet refl (unfold frame_length in refl) (omega arith)
      first_packet_lem

merged_example :
    (f : AckFrame) × (merge_ack_frames (ack_of 9 ∷ ack_of 5 ∷ []) ≡ done f) × (acked f ≡ 9 ∷ 4 ∷ [])
merged_example = merge_ack_frames-acked 9 5 (omega arith) (omega arith) (omega arith)

abbrev short_packet : ℕ → List Frame → FramePacket
short_packet n fs = record {
  kind = protected;
  header = short (record {
    key_phase = false;
    destination_cid = [];
    truncated_pn = record { value = n; length = 1 };
    packet_number = n;
  });
  frames = fs;
}

abbrev acking : AckAgent.Agent
acking = record {
  disable_acks = λ space. false;
  disable_path_response = false;
  total_data_acked = λ space. 0;
  ack_queue = λ space. [];
  queued = [];
}

abbrev padding_packet : FramePacket
padding_packet = short_packet 3 (padding ∷ [])

abbrev ping_packet : FramePacket
ping_packet = short_packet 5 (ping ∷ [])

received_example :
    Returns
      (λ t. IsQueue (t.ack_queue app_data_space) (3 ∷ 5 ∷ []))
      (handle_all (padding_packet ∷ ping_packet ∷ []) acking)
unfolding pn_space
received_example =
    handle_all-IsQueue (padding_packet ∷ ping_packet ∷ []) acking app_data_space [] empty-IsQueue
      ((λ e. tt), ((λ e. ((λ q. absurd (omega (arith, q))), tt)), tt))

ping_packet_bytes : AckAgent.encode ping_packet ≡ done (64 ∷ 5 ∷ 1 ∷ [])
unfolding AckAgent.encode AckAgent.encode_header encode_short encode_payload write_to
    PacketNumber.encode encode_var_int
ping_packet_bytes = refl

answered_example :
    (f : AckFrame) × (u : AckAgent.Agent) × (handle ping_packet
        (append_number padding_packet acking)
      ≡ done u)
    × (u.queued ≡ [] ++ [] ++ ((ack f, level_1rtt) ∷ []))
    × Acknowledges (Acked.received (padding_packet ∷ []) ping_packet) f
unfolding get_first frame_type pn_space should_be_acknowledged handle_all handle
answered_example =
    handle-Acknowledges (padding_packet ∷ []) ping_packet acking
      (append_number padding_packet acking) (64 ∷ 5 ∷ 1 ∷ []) refl ((λ e. tt), tt)
      (λ e. ((λ q. absurd (omega (arith, q))), tt)) (omega arith, (omega arith, tt)) refl refl
      ping_packet_bytes

abbrev offer : VersionNegotiation
offer = record {
  unused_field = 0;
  version = 0;
  destination_cid = [];
  source_cid = [];
  supported_versions = 0xff000011 ∷ 0xff000012 ∷ [];
}

versions_example :
    ((process_version_negotiation offer a_connection ≡ none)
      × All (λ v. is_supported v ≡ false) offer.supported_versions)
    ⊎ ((d : Connection) × (process_version_negotiation offer a_connection ≡ some d)
        × IsLast d.version offer.supported_versions
        × ((space : PnSpace) → d.packet_number space ≡ 0))
versions_example = process_version_negotiation-IsLast offer a_connection

abbrev masked_bytes : Bytes
masked_bytes = 9 ∷ 8 ∷ 7 ∷ 100 ∷ 101 ∷ 102 ∷ 103 ∷ []

masked_example :
    (c : Bytes) × (protect
        (λ s. 17 ∷ 34 ∷ 51 ∷ 68 ∷ 85 ∷ [])
        (bit_and 65 0x80 == 0x80)
        2
        (bit_and 65 0x3 + 1)
        (65 ∷ masked_bytes)
      ≡ done c)
    × (unprotect (λ s. 17 ∷ 34 ∷ 51 ∷ 68 ∷ 85 ∷ []) 2 c ≡ done (65 ∷ masked_bytes))
masked_example =
    unprotect-protect (λ s. 17 ∷ 34 ∷ 51 ∷ 68 ∷ 85 ∷ []) 2 65 masked_bytes
      (λ s. (refl, (omega arith, (omega arith, (omega arith, (omega arith, (omega arith, tt)))))))
      (omega arith) (omega arith)
      (
        omega arith,
        (
          omega arith,
          (
            omega arith,
            (omega arith, (omega arith, (omega arith, (omega arith, (omega arith, tt))))),
          ),
        ),
      )

abbrev ping_batch : RetransmittableFrames
ping_batch = record { frames = ping ∷ []; timestamp = 0; level = 4 }

abbrev stream_batch : RetransmittableFrames
stream_batch = record {
  frames =
      stream (record {
        fin_bit = true;
        len_bit = true;
        off_bit = false;
        stream_id = 4;
        offset = 0;
        length = 1;
        stream_data = 7 ∷ [];
      })
      ∷ [];
  timestamp = 0;
  level = 1;
}

abbrev sender : Sender
sender = record { connection = a_connection; sent = []; queued = [] }

retransmit_example :
    retransmit_batch ((ping_batch ∷ []) ++ (stream_batch ∷ ping_batch ∷ [])) sender
    ≡ done (record {
      connection = first_packet.1;
      sent =
          sender.sent
          ++ ((record first_packet.0 { frames = stream_batch.frames }, level_initial) ∷ []);
      queued = sender.queued ++ all_frames (ping_batch ∷ []);
    })
retransmit_example =
    retransmit_batch-initial (ping_batch ∷ []) stream_batch (ping_batch ∷ []) sender first_packet
      (unfold is_first_initial in refl, tt) (unfold is_first_initial in (unfold frame_type in refl))
      first_packet_lem
