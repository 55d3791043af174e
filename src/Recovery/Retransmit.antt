-- ===== src/Recovery/Retransmit.antt =====
-- agents/recovery_agent.go: RetransmitBatch.
use quic_tracker.Base.{
  ℕ, ◌≡◌, refl, ap, ◌∙◌, Bool, true, false, List, [], ◌∷◌, ◌++◌, length, All, ltb, ◌==◌,
  if◌then◌else◌, Outcome, done, panic, append_assoc, append-nil, sym,
}
use quic_tracker.Base.Outcomes.{◌>>=◌}
use quic_tracker.Frame.{Frame, frame_type, stream_type}
use quic_tracker.Header.Make.{Connection}
use quic_tracker.Level.{Level, level_initial, number}
use quic_tracker.Recovery.{RetransmittableFrames}
use quic_tracker.Packet.{initial}
use quic_tracker.Packet.Make.{FramePacket, new_packet}

-- What was given to SendPacket and submitted to FrameQueue.
pub record Sender : Type 0 where
  pub connection : Connection
  pub sent : List (FramePacket × Level)
  pub queued : List (Frame × ℕ)

abbrev pub first_is_stream : List Frame → Outcome Bool
first_is_stream [] = panic
first_is_stream (f ∷ fs) = done (frame_type f == stream_type)

-- The heuristic for the first Initial packet; `b.Frames[0]` panics when there is no frame.
unfoldable pub is_first_initial : RetransmittableFrames → Outcome Bool
is_first_initial b =
    if b.level == number level_initial
    then (if ltb 200 (length b.frames) then done true else first_is_stream b.frames)
    else done false

abbrev pub at_level : ℕ → List Frame → List (Frame × ℕ)
at_level l [] = []
at_level l (f ∷ fs) = (f, l) ∷ at_level l fs

abbrev pub send_initial : RetransmittableFrames → Sender → Outcome Sender
send_initial b s = new_packet initial s.connection >>= λ r. done (record s {
  connection = r.1;
  sent = s.sent ++ ((record r.0 { frames = b.frames }, level_initial) ∷ []);
})

abbrev pub queue_batch : RetransmittableFrames → Sender → Sender
queue_batch b s = record s { queued = s.queued ++ at_level b.level b.frames }

-- The loop ends at a batch that looks like the first Initial packet.
unfoldable pub retransmit_batch : List RetransmittableFrames → Sender → Outcome Sender
retransmit_batch [] s = done s
retransmit_batch (b ∷ rest) s =
    let later = retransmit_batch rest (queue_batch b s) in
    is_first_initial b >>= λ first. if first then send_initial b s else later

-- The frames of the batches, each with its level.
abbrev pub all_frames : List RetransmittableFrames → List (Frame × ℕ)
all_frames [] = []
all_frames (b ∷ rest) = at_level b.level b.frames ++ all_frames rest

retransmit_batch-queued :
    (bs more : List RetransmittableFrames) (s : Sender)
    → All (λ b. is_first_initial b ≡ done false) bs
    → retransmit_batch (bs ++ more) s
      ≡ retransmit_batch more (record s { queued = s.queued ++ all_frames bs })
unfolding retransmit_batch
retransmit_batch-queued [] more s h =
    ap (λ (l : List (Frame × ℕ)). retransmit_batch more (record s { queued = l }))
      (sym (append-nil s.queued))
retransmit_batch-queued (b ∷ bs) more s (h, hs) =
    rw (retransmit_batch, h, ← append_assoc s.queued (at_level b.level b.frames) (all_frames bs))
      (retransmit_batch-queued bs more (queue_batch b s) hs)

-- Batches of which none looks like the first Initial packet, then one that does, then others, when
-- an Initial packet can be made: the frames of the batches before it are queued in order, each at
-- its level; its own frames are sent in one Initial packet; and the batches after it are neither
-- queued nor sent.
pub retransmit_batch-initial :
    (bs : List RetransmittableFrames) (b : RetransmittableFrames)
    (rest : List RetransmittableFrames) (s : Sender) (r : FramePacket × Connection)
    → All (λ b. is_first_initial b ≡ done false) bs
    → is_first_initial b ≡ done true
    → new_packet initial s.connection ≡ done r
    → retransmit_batch (bs ++ (b ∷ rest)) s
      ≡ done (record {
        connection = r.1;
        sent = s.sent ++ ((record r.0 { frames = b.frames }, level_initial) ∷ []);
        queued = s.queued ++ all_frames bs;
      })
unfolding retransmit_batch
retransmit_batch-initial bs b rest s r hs h made =
    retransmit_batch-queued bs (b ∷ rest) s hs ∙ rw (retransmit_batch, h, ◌>>=◌, made) refl
