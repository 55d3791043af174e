-- ===== src/Packet/Make.antt =====
-- packets.go: the constructors of the packets that hold frames.
use quic_tracker.Base.{List, [], ◌∷◌, ◌++◌, Bytes, length, ltb, if◌then◌else◌, Outcome, done}
use quic_tracker.Base.Outcomes.{◌>>=◌, Returns, bind-Returns, Returns-any}
use quic_tracker.Base.{◌≡◌, refl}
use quic_tracker.VarInt.Value.{new_var_int}
use quic_tracker.Header.{Header, LongHeader, long, short}
use quic_tracker.Header
use quic_tracker.Header.Make.{Connection, new_long_header, new_short_header}
use quic_tracker.Frame.{Frame}
use quic_tracker.Level.{Level, level_initial, level_0rtt, level_handshake, level_1rtt}
use quic_tracker.Packet.{
  Kind, initial, handshake, protected, zero_rtt_protected, initial_space, handshake_space,
  app_data_space,
}

pub record FramePacket : Type 0 where
  pub kind : Kind
  pub header : Header
  pub frames : List Frame

abbrev pub encryption_level : Kind → Level
encryption_level initial = level_initial
encryption_level handshake = level_handshake
encryption_level protected = level_1rtt
encryption_level zero_rtt_protected = level_0rtt

abbrev pub add_frame : Frame → FramePacket → FramePacket
add_frame f p = record p { frames = p.frames ++ (f ∷ []) }

abbrev token_added : Bytes → LongHeader → Outcome LongHeader
token_added token h = do
  n ← new_var_int (length token)
  done (record h { token = token; token_length = n })

-- A token that the connection has goes into the header.
abbrev pub with_token : Bytes → LongHeader → Outcome LongHeader
with_token token h = if ltb 0 (length token) then token_added token h else done h

abbrev of_kind : Kind → Header → FramePacket
of_kind kind h = record { kind = kind; header = h; frames = [] }

-- `NewInitialPacket`, `NewHandshakePacket`, `NewProtectedPacket`, `NewZeroRTTProtectedPacket`.
unfoldable pub new_packet : Kind → Connection → Outcome (FramePacket × Connection)
new_packet initial c = do
  (h, c') ← new_long_header Header.initial c initial_space
  with_tok ← with_token c'.token h
  done (of_kind initial (long with_tok), c')
new_packet handshake c = do
  (h, c') ← new_long_header Header.handshake c handshake_space
  done (of_kind handshake (long h), c')
new_packet protected c = do (h, c') ← new_short_header c; done (of_kind protected (short h), c')
new_packet zero_rtt_protected c = do
  (h, c') ← new_long_header Header.zero_rtt_protected c app_data_space
  done (of_kind zero_rtt_protected (long h), c')

pub new_packet-frames :
    (k : Kind) (c : Connection) → Returns (λ r. r.0.frames ≡ []) (new_packet k c)
unfolding new_packet
new_packet-frames initial c =
    bind-Returns _ _ (new_long_header Header.initial c initial_space) _ (Returns-any _)
      λ r _. bind-Returns _ _ (with_token r.1.token r.0) _ (Returns-any _) λ x _. refl
new_packet-frames handshake c =
    bind-Returns _ _ (new_long_header Header.handshake c handshake_space) _ (Returns-any _)
      λ r _. refl
new_packet-frames protected c = bind-Returns _ _ (new_short_header c) _ (Returns-any _) λ r _. refl
new_packet-frames zero_rtt_protected c =
    bind-Returns _ _ (new_long_header Header.zero_rtt_protected c app_data_space) _ (Returns-any _)
      λ r _. refl
