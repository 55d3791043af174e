-- ===== src/Header/Make.antt =====
-- headers.go: NewLongHeader and NewShortHeader, which number a packet; connection.go:
-- nextPacketNumber.
use quic_tracker.Base.{ℕ, ◌+◌, ◌%◌, ◌^◌, [], Bytes, ◌==◌, if◌then◌else◌, Outcome, done}
use quic_tracker.Base.Outcomes.{◌>>=◌}
use quic_tracker.PacketNumber.{truncate}
use quic_tracker.Packet.{PnSpace, app_data_space}
use quic_tracker.Recovery.Agent.{set_space}
use quic_tracker.VarInt.Value.{no_var_int, new_var_int}
use quic_tracker.Header.{LongHeader, ShortHeader, zero_rtt_protected, pn_space}

-- The fields of the connection that the constructors use.
pub record Connection : Type 0 where
  pub version : ℕ
  pub source_cid : Bytes
  pub destination_cid : Bytes
  pub original_destination_cid : Bytes
  pub token : Bytes
  pub key_phase_index : ℕ
  pub packet_number : PnSpace → ℕ
  pub largest_pns_acknowledged : PnSpace → ℕ

unfoldable pub next_packet_number : PnSpace → Connection → ℕ × Connection
next_packet_number space c = (
  c.packet_number space,
  record c {
    packet_number = set_space space ((c.packet_number space + 1) % 2 ^ 64) c.packet_number;
  },
)

-- It panics where Truncate does.
unfoldable pub new_long_header : ℕ → Connection → PnSpace → Outcome (LongHeader × Connection)
new_long_header packet_type c space =
    let (number, c') = next_packet_number space c in
    do
      none_length ← new_var_int 0
      pn ← truncate number (c.largest_pns_acknowledged (pn_space packet_type))
      done (
        record {
          packet_type = packet_type;
          lower_bits = 0;
          version = c.version;
          destination_cid =
              if packet_type == zero_rtt_protected
              then c.original_destination_cid
              else c.destination_cid;
          source_cid = c.source_cid;
          token_length = none_length;
          token = [];
          payload_length = no_var_int;
          packet_number = number;
          truncated_pn = pn;
        },
        c',
      )

unfoldable pub new_short_header : Connection → Outcome (ShortHeader × Connection)
new_short_header c =
    let (number, c') = next_packet_number app_data_space c in
    do
      pn ← truncate number (c.largest_pns_acknowledged app_data_space)
      done (
        record {
          key_phase = c.key_phase_index % 2 == 1;
          destination_cid = c.destination_cid;
          truncated_pn = pn;
          packet_number = number;
        },
        c',
      )
