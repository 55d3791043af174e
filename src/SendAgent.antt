-- ===== src/SendAgent.antt =====
-- agents/send_agent.go: the loop of Run, which puts the queued frames into packets.
pub mod Merge
pub mod Counts
pub mod Conserved
pub mod Sent
pub mod Merged
use quic_tracker.Base.{
  ℕ, ◌+◌, ◌%◌, ◌^◌, Bool, true, false, ◌||◌, List, [], ◌∷◌, ◌++◌, ltb, if◌then◌else◌, Outcome, done,
  panic, length,
}
use quic_tracker.Base.Outcomes.{◌>>=◌}
use quic_tracker.Frame.{Frame, AckFrame, ack}
use quic_tracker.Frame.Length.{frame_length}
use quic_tracker.Header.Make.{Connection}
use quic_tracker.Level.{
  Level, level_none, level_initial, level_0rtt, level_handshake, level_1rtt, level_best,
  level_best_app_data, same_level, set_level,
}
use quic_tracker.Packet.{Kind, initial, handshake, protected, zero_rtt_protected}
use quic_tracker.Packet.Make.{FramePacket, add_frame, encryption_level, new_packet}
use Merge.{merge_ack_frames}

-- The variables of Run, the timers that are armed, the fields of the connection that number the
-- packets, and the packets that were given to SendPacket with their level.
pub record Agent : Type 0 where
  pub mtu : ℕ
  pub available : Level → Bool
  pub packet_buffer : Level → List FramePacket
  pub frame_buffer : Level → List Frame
  pub frame_buffer_length : Level → ℕ
  pub armed : Level → Bool
  pub connection : Connection
  pub sent : List (FramePacket × Level)

abbrev pub new_agent : ℕ → Connection → Agent
new_agent mtu c = record {
  mtu = mtu;
  available = λ l. same_level l level_none || same_level l level_initial;
  packet_buffer = λ l. [];
  frame_buffer = λ l. [];
  frame_buffer_length = λ l. 0;
  armed = λ l. false;
  connection = c;
  sent = [];
}

-- `case *AckFrame`, which an AckECNFrame is not.
unfoldable pub others : List Frame → List Frame
others [] = []
others (ack f ∷ rest) = others rest
others (f ∷ rest) = f ∷ others rest

unfoldable pub acks : List Frame → List AckFrame
acks [] = []
acks (ack f ∷ rest) = f ∷ acks rest
acks (f ∷ rest) = acks rest

-- More ACK frames than one are merged.
unfoldable pub ack_part : List AckFrame → Outcome (List Frame)
ack_part [] = done []
ack_part (f ∷ []) = done (ack f ∷ [])
ack_part (f ∷ g ∷ rest) = merge_ack_frames (f ∷ g ∷ rest) >>= λ m. done (ack m ∷ [])

abbrev pub empty_level : Level → Agent → Agent
empty_level l s = record s {
  frame_buffer = set_level l [] s.frame_buffer;
  frame_buffer_length = set_level l 0 s.frame_buffer_length;
}

unfoldable pub fill_with_level : FramePacket → Level → Agent → Outcome (FramePacket × Agent)
unfolding others acks ack_part
fill_with_level p l s = ack_part (acks (s.frame_buffer l)) >>= λ merged.
    done (record p { frames = p.frames ++ others (s.frame_buffer l) ++ merged }, empty_level l s)

abbrev pub send_packet : FramePacket → Level → Agent → Agent
send_packet p l s = record s { sent = s.sent ++ ((p, l) ∷ []) }

abbrev pub is_empty : List Frame → Bool
is_empty [] = true
is_empty (f ∷ fs) = false

-- `elOrder` and `elAppDataOrder`: 1-RTT, 0-RTT, Handshake, Initial.
abbrev pub choose_best_encryption_level : (Level → Bool) → Bool → Level
choose_best_encryption_level available restrict_app_data =
    if available level_1rtt
    then level_1rtt
    else if available level_0rtt
    then level_0rtt
    else if restrict_app_data
    then level_1rtt
    else if available level_handshake
    then level_handshake
    else level_initial

abbrev pub is_best : Level → Bool
is_best l = same_level l level_best || same_level l level_best_app_data

abbrev pub chosen : Level → Agent → Level
chosen l s =
    if is_best l
    then choose_best_encryption_level s.available (same_level l level_best_app_data)
    else l

-- The packet takes its number from the connection.
abbrev pub packet_of : Kind → Agent → Outcome (FramePacket × Agent)
packet_of k s = new_packet k s.connection >>= λ r. done (r.0, record s { connection = r.1 })

-- The switch on the level. With no packet the calls that follow it panic.
unfoldable pub packet_for : Level → Agent → Outcome (FramePacket × Agent)
packet_for level_initial s = packet_of initial s
packet_for level_0rtt s = packet_of zero_rtt_protected s
packet_for level_handshake s = packet_of handshake s
packet_for level_1rtt s = packet_of protected s
packet_for _ s = panic

-- `frameBuffer[level] = append(frameBuffer[level], frame)`
abbrev pub append_to : Level → Frame → Agent → Agent
append_to l f s = record s {
  frame_buffer = set_level l (s.frame_buffer l ++ (f ∷ [])) s.frame_buffer;
}

-- The frame goes into an empty packet, or waits.
abbrev pub place : Frame → Level → FramePacket → Agent → FramePacket × Agent
place f l p s = if is_empty p.frames then (add_frame f p, s) else (p, append_to l f s)

abbrev pub keep_packet : FramePacket → Agent → Agent
keep_packet p s =
    let l = encryption_level p.kind in
    record s { packet_buffer = set_level l (s.packet_buffer l ++ (p ∷ [])) s.packet_buffer }

abbrev pub send_or_keep : Level → FramePacket → Agent → Agent
send_or_keep l p s = if s.available l then send_packet p l s else keep_packet p s

-- The buffer and the frame are longer than the MTU.
unfoldable pub overflow : Frame → Level → Agent → Outcome Agent
unfolding fill_with_level packet_for
overflow f l s = do
  (p, s1) ← packet_for l s
  (q, s2) ← fill_with_level p l s1
  done (send_or_keep l (place f l q s2).0 (place f l q s2).1)

-- There is no timer for the level None.
abbrev pub reset_timer : Level → Agent → Outcome Agent
reset_timer level_none s = panic
reset_timer l s = done (record s { armed = set_level l true s.armed })

abbrev pub add16 : ℕ → ℕ → ℕ
add16 a b = (a + b) % 2 ^ 16

-- The frame and its length are added to the buffer of a level.
abbrev pub enqueue : Frame → Level → ℕ → Agent → Agent
enqueue f l n s = record (append_to l f s) {
  frame_buffer_length = set_level l (add16 (s.frame_buffer_length l) n) s.frame_buffer_length;
}

-- A timer is set when the frame can be sent.
abbrev pub wait : Frame → Level → ℕ → Agent → Outcome Agent
wait f l n s =
    if s.available l || is_best l then reset_timer l (enqueue f l n s) else done (enqueue f l n s)

unfoldable pub queue_frame : Frame → Level → Agent → Outcome Agent
unfolding overflow
queue_frame f l s = frame_length f >>= λ n.
    if ltb s.mtu (add16 (s.frame_buffer_length l) n)
    then overflow f (chosen l s) s
    else wait f l n s

unfoldable pub send_frames : FramePacket → Level → Agent → Outcome Agent
unfolding fill_with_level
send_frames p l s = fill_with_level p l s >>= λ r. done (send_packet r.0 l r.1)

-- The packet is made, and its number used, also when there is nothing to send.
unfoldable pub fill_and_send : Kind → Agent → Outcome Agent
unfolding send_frames
fill_and_send k s = packet_of k s >>= λ r.
    if is_empty (r.1.frame_buffer (encryption_level k))
    then done r.1
    else if r.1.available (encryption_level k)
    then send_frames r.0 (encryption_level k) r.1
    else done r.1

unfoldable pub move_frames : Level → List Frame → Agent → Outcome Agent
move_frames l [] s = done s
move_frames l (f ∷ rest) s = do n ← frame_length f; move_frames l rest (enqueue f l n s)

-- A timer of the levels Best and BestAppData.
unfoldable pub choose_and_move : Level → Agent → Outcome Agent
unfolding move_frames
choose_and_move best s =
    let l = chosen best s in
    move_frames l (s.frame_buffer best) s >>= λ t. reset_timer l (empty_level best t)

abbrev pub disarm : Level → Agent → Agent
disarm l s = record s { armed = set_level l false s.armed }

unfoldable pub timer_fired : Level → Agent → Outcome Agent
unfolding fill_and_send choose_and_move
timer_fired level_none s = done s
timer_fired level_initial s = fill_and_send initial (disarm level_initial s)
timer_fired level_0rtt s = fill_and_send zero_rtt_protected (disarm level_0rtt s)
timer_fired level_handshake s = fill_and_send handshake (disarm level_handshake s)
timer_fired level_1rtt s = fill_and_send protected (disarm level_1rtt s)
timer_fired level_best s = choose_and_move level_best (disarm level_best s)
timer_fired level_best_app_data s =
    choose_and_move level_best_app_data (disarm level_best_app_data s)

abbrev pub send_all : List FramePacket → Level → Agent → Agent
send_all [] l s = s
send_all (p ∷ rest) l s = send_all rest l (send_packet p l s)

unfoldable pub level_available : Bool → Level → Agent → Outcome Agent
level_available true l s = done s
level_available false l s =
    let t = record s { available = set_level l true s.available } in
    let u = send_all (t.packet_buffer l) l t in
    reset_timer l (record u { packet_buffer = set_level l [] u.packet_buffer })

-- A round of the loop. A timer fires when it is armed.
pub data Event : Type 0 where
  queued : Frame → Level → Event
  fired : Level → Event
  available_level : (read : Bool) → Level → Event

unfoldable pub step : Agent → Event → Outcome Agent
unfolding queue_frame timer_fired level_available
step s (queued f l) = queue_frame f l s
step s (fired l) = timer_fired l s
step s (available_level read l) = level_available read l s
