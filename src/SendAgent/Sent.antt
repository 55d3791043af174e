-- ===== src/SendAgent/Sent.antt =====
-- agents/send_agent.go: a frame that fits is sent when its timer fires.
use quic_tracker.Base.{
  ℕ, zero, suc, ◌+◌, ◌%◌, ◌^◌, ◌≡◌, ◌≤◌, refl, ap, ◌∙◌, true, false, List, [], ◌∷◌, ◌++◌, ltb, done,
  length, arith, Bool-cases, inl, inr,
}
use quic_tracker.Base.Outcomes.{◌>>=◌}
use quic_tracker.Frame.{Frame, AckFrame, AckBlock, ack}
use quic_tracker.Frame.Length.{frame_length}
use quic_tracker.Header.Make.{Connection}
use quic_tracker.Level.{Level, set_level}
use quic_tracker.Packet.{Kind, initial, handshake, protected, zero_rtt_protected}
use quic_tracker.Packet.Make.{FramePacket, encryption_level, new_packet, new_packet-frames}
use quic_tracker.Ack.Sort.{insert, sort}
use quic_tracker.SendAgent.Merge.{
  is_key, add_number, add_run, add_blocks, add_frame_numbers, numbers_of, merged, merge_ack_frames,
  largest_of,
}
use quic_tracker.SendAgent.{
  Agent, others, acks, ack_part, empty_level, fill_with_level, send_packet, is_empty, reset_timer,
  enqueue, queue_frame, send_frames, fill_and_send, timer_fired, disarm, queued, fired, step, add16,
}

-- A list that is not empty.
abbrev IsFull : List ℕ → Type 0
IsFull l = 1 ≤ length l

add_number-IsFull : (n : ℕ) (keys : List ℕ) → IsFull (add_number n keys)
unfolding add_number
add_number-IsFull n [] = unfold is_key in omega arith
add_number-IsFull n (m ∷ keys) = elim (Bool-cases (is_key n (m ∷ keys))) [
  | inl e ↦ rw (add_number, e) (omega arith)
  | inr e ↦ rw (add_number, e) (omega arith)
]

add_run-IsFull :
    (largest offset i : ℕ) (keys : List ℕ) → IsFull keys → IsFull (add_run largest offset i keys)
unfolding add_run
add_run-IsFull largest offset zero keys h = h
add_run-IsFull largest offset (suc i) keys h = add_number-IsFull _ _

add_blocks-IsFull :
    (largest offset : ℕ) (bs : List AckBlock) (keys : List ℕ)
    → IsFull keys
    → IsFull (add_blocks largest offset bs keys)
unfolding add_blocks
add_blocks-IsFull largest offset [] keys h = h
add_blocks-IsFull largest offset (b ∷ rest) keys h =
    add_blocks-IsFull largest ((offset + b.gap + 1) % 2 ^ 64) rest
      (add_run largest offset (b.block % 2 ^ 64) keys)
      (add_run-IsFull largest offset (b.block % 2 ^ 64) keys h)

frame_blocks-IsFull :
    (n : ℕ) (bs : List AckBlock) (keys : List ℕ)
    → IsFull keys
    → IsFull (elim bs [
      | [] ↦ keys
      | b ∷ rest ↦ add_blocks n 0 rest (add_run n 0 (b.block % 2 ^ 64) keys)
    ])
frame_blocks-IsFull n [] keys h = h
frame_blocks-IsFull n (b ∷ rest) keys h =
    add_blocks-IsFull n 0 rest (add_run n 0 (b.block % 2 ^ 64) keys)
      (add_run-IsFull n 0 (b.block % 2 ^ 64) keys h)

add_frame_numbers-IsFull : (f : AckFrame) (keys : List ℕ) → IsFull (add_frame_numbers f keys)
unfolding add_frame_numbers
add_frame_numbers-IsFull f keys =
    frame_blocks-IsFull f.largest_acknowledged f.ack_blocks (add_number f.largest_acknowledged keys)
      (add_number-IsFull f.largest_acknowledged keys)

numbers_of-IsFull : (fs : List AckFrame) (keys : List ℕ) → IsFull keys → IsFull (numbers_of fs keys)
unfolding numbers_of
numbers_of-IsFull [] keys h = h
numbers_of-IsFull (f ∷ rest) keys h =
    numbers_of-IsFull rest (add_frame_numbers f keys) (add_frame_numbers-IsFull f keys)

insert-IsFull : (n : ℕ) (l : List ℕ) → IsFull (insert n l)
unfolding insert
insert-IsFull n [] = omega arith
insert-IsFull n (m ∷ l) = elim (Bool-cases (ltb m n)) [
  | inl e ↦ rw (insert, e) (omega arith)
  | inr e ↦ rw (insert, e) (omega arith)
]

sort-IsFull : (l : List ℕ) → IsFull l → IsFull (sort l)
unfolding sort
sort-IsFull [] h = h
sort-IsFull (n ∷ l) h = insert-IsFull n (sort l)

merged-done : (n : ℕ) (l : List ℕ) → IsFull l → (f : AckFrame) × (merged n l ≡ done f)
merged-done n [] h = absurd (omega (arith, h))
merged-done n (x ∷ l) h = (_, refl)

merge_ack_frames-done :
    (f : AckFrame) (rest : List AckFrame) → (m : AckFrame) × (merge_ack_frames (f ∷ rest) ≡ done m)
unfolding merge_ack_frames
merge_ack_frames-done f rest =
    merged-done (largest_of 0 (f ∷ rest)) (sort (numbers_of (f ∷ rest) [])) (
      sort-IsFull (numbers_of (f ∷ rest) []) (
        unfold numbers_of in
        numbers_of-IsFull rest (add_frame_numbers f []) (add_frame_numbers-IsFull f [])))

pub ack_part-done : (fs : List AckFrame) → (gs : List Frame) × (ack_part fs ≡ done gs)
unfolding ack_part
ack_part-done [] = ([], refl)
ack_part-done (f ∷ []) = (ack f ∷ [], refl)
ack_part-done (f ∷ g ∷ rest) =
    let (m, e) = merge_ack_frames-done f (g ∷ rest) in (ack m ∷ [], rw (ack_part, e) refl)

-- What fillWithLevel puts into a packet that had no frame yet.
pub record IsFilled (q : FramePacket) (fs : List Frame) : Type 0 where
  pub merged_acks : List Frame
  pub all_acks : ack_part (acks fs) ≡ done merged_acks
  pub content : q.frames ≡ others fs ++ merged_acks

send_frames-done :
    (q : FramePacket) (l : Level) (s : Agent)
    → q.frames ≡ []
    → (t : Agent) × (send_frames q l s ≡ done t)
      × (r : FramePacket) × (t.sent ≡ s.sent ++ ((r, l) ∷ []))
      × IsFilled r (s.frame_buffer l)
      × (t.frame_buffer ≡ set_level l [] s.frame_buffer)
unfolding send_frames
send_frames-done q l s h =
    let (gs, e) = ack_part-done (acks (s.frame_buffer l)) in
    let r : FramePacket = record q { frames = q.frames ++ others (s.frame_buffer l) ++ gs } in
    (
      send_packet r l (empty_level l s),
      rw (fill_with_level, e) refl,
      r,
      refl,
      record { merged_acks = gs; all_acks = e; content = rw h refl },
      refl,
    )

snoc-full : (fs : List Frame) (f : Frame) → is_empty (fs ++ (f ∷ [])) ≡ false
snoc-full [] f = refl
snoc-full (g ∷ fs) f = refl

reset_timer_lem :
    (k : Kind) (s : Agent)
    → reset_timer (encryption_level k) s
      ≡ done (record s { armed = set_level (encryption_level k) true s.armed })
reset_timer_lem initial s = refl
reset_timer_lem handshake s = refl
reset_timer_lem protected s = refl
reset_timer_lem zero_rtt_protected s = refl

timer_fired_lem :
    (k : Kind) (s : Agent)
    → timer_fired (encryption_level k) s ≡ fill_and_send k (disarm (encryption_level k) s)
unfolding timer_fired
timer_fired_lem initial s = refl
timer_fired_lem handshake s = refl
timer_fired_lem protected s = refl
timer_fired_lem zero_rtt_protected s = refl

set_level_lem {ℓ} :
    {A : Type ℓ} (k : Kind) (a : A) (m : Level → A)
    → set_level (encryption_level k) a m (encryption_level k) ≡ a
set_level_lem initial a m = refl
set_level_lem handshake a m = refl
set_level_lem protected a m = refl
set_level_lem zero_rtt_protected a m = refl

-- The agent after the frame was queued.
abbrev waiting : Frame → Level → ℕ → Agent → Agent
waiting f l n s = let t = enqueue f l n s in record t { armed = set_level l true t.armed }

queue_frame_lem :
    (k : Kind) (f : Frame) (n : ℕ) (s : Agent)
    → s.available (encryption_level k) ≡ true
    → frame_length f ≡ done n
    → add16 (s.frame_buffer_length (encryption_level k)) n ≤ s.mtu
    → queue_frame f (encryption_level k) s ≡ done (waiting f (encryption_level k) n s)
unfolding queue_frame
queue_frame_lem k f n s a e le =
    let fits : ltb s.mtu (add16 (s.frame_buffer_length (encryption_level k)) n) ≡ false =
      ground (arith, le) in
    rw (e, ◌>>=◌, fits, a) (reset_timer_lem k (enqueue f (encryption_level k) n s))

fill_and_send_lem :
    (k : Kind) (s : Agent) (r : FramePacket × Connection)
    → s.available (encryption_level k) ≡ true
    → is_empty (s.frame_buffer (encryption_level k)) ≡ false
    → new_packet k s.connection ≡ done r
    → fill_and_send k s ≡ send_frames r.0 (encryption_level k) (record s { connection = r.1 })
unfolding fill_and_send
fill_and_send_lem k s r a f e = rw (e, ◌>>=◌, f, a) refl

-- A frame is queued for a level that can be written, its length is known, and it fits with what
-- waits there; a packet of the level can be made. Then its timer is armed, and when the timer fires
-- the frame is sent in one packet of that level after the frames that waited, the ACK frames of
-- all of them merged into one at the end, and none waits any longer.
pub queued-sent :
    (k : Kind) (f : Frame) (n : ℕ) (s : Agent) (r : FramePacket × Connection)
    → s.available (encryption_level k) ≡ true
    → frame_length f ≡ done n
    → add16 (s.frame_buffer_length (encryption_level k)) n ≤ s.mtu
    → new_packet k s.connection ≡ done r
    → (t : Agent) × (step s (queued f (encryption_level k)) ≡ done t)
      × (t.armed (encryption_level k) ≡ true)
      × (u : Agent) × (step t (fired (encryption_level k)) ≡ done u)
      × (q : FramePacket) × (u.sent ≡ s.sent ++ ((q, encryption_level k) ∷ []))
      × IsFilled q (s.frame_buffer (encryption_level k) ++ (f ∷ []))
      × (u.frame_buffer (encryption_level k) ≡ [])
unfolding step
queued-sent k f n s r a e le made =
    let l = encryption_level k in
    let t = waiting f l n s in
    let d = disarm l t in
    let buffer : d.frame_buffer l ≡ s.frame_buffer l ++ (f ∷ []) =
      set_level_lem k _ s.frame_buffer in
    let no_frames : r.0.frames ≡ [] = (rw made at (new_packet-frames k s.connection)) in
    let (u, sends, q, sent, filled, after) =
      send_frames-done r.0 l (record d { connection = r.1 }) no_frames in
    (
      t,
      queue_frame_lem k f n s a e le,
      set_level_lem k true s.armed,
      u,
      timer_fired_lem k t
          ∙ (fill_and_send_lem k d r a (rw buffer (snoc-full (s.frame_buffer l) f)) made ∙ sends),
      q,
      sent,
      (rw buffer at filled),
      ap (λ (m : Level → List Frame). m l) after ∙ set_level_lem k [] d.frame_buffer,
    )
