-- ===== src/Streams/Interleaved.antt =====
-- streams.go, frames.go, ReadStreamFrame: frames of many streams in any order.
use quic_tracker.Base.{
  ℕ, ◌≡◌, refl, sym, ap, ◌∙◌, Bool, true, false, List, [], ◌∷◌, ◌==◌, ◌||◌, if◌then◌else◌, Option,
  none, some, Outcome, done, arith, All, Bool-cases, inl, inr, ==_iff,
}
use quic_tracker.Base.Outcomes.{◌>>=◌}
use quic_tracker.Stream.{Stream, StreamFrame, new_stream, add_to_read}
use quic_tracker.Stream.Delivery.{add_all}
use quic_tracker.Stream.Invariant.{IsConsistent, Fits, add_to_read-IsConsistent}
use quic_tracker.Streams.{Streams, lookup, put, or_new, get, update, receive}

-- Frames that arrive one after another, of whatever streams.
unfoldable pub take_in : List StreamFrame → Streams → Outcome Streams
take_in [] m = done m
take_in (f ∷ fs) m = receive f m >>= λ m'. take_in fs m'

-- Those of stream `id`, in their order.
unfoldable pub of_stream : ℕ → List StreamFrame → List StreamFrame
of_stream id [] = []
of_stream id (f ∷ fs) = if f.stream_id == id then f ∷ of_stream id fs else of_stream id fs

-- The stream that `Get` gives for `id`.
abbrev pub at : ℕ → Streams → Stream
at id m = or_new (lookup id m)

abbrev pub is_some : Option Stream → Bool
is_some none = false
is_some (some s) = true

-- The map holds a stream under `id`.
abbrev pub holds : ℕ → Streams → Bool
holds id m = is_some (lookup id m)

abbrev pub is_any : List StreamFrame → Bool
is_any [] = false
is_any (f ∷ fs) = true

lookup-put :
    (id j : ℕ) (s : Stream) (m : Streams)
    → lookup j (put id s m) ≡ (if id == j then some s else lookup j m)
unfolding lookup put
lookup-put id j s [] = refl
lookup-put id j s ((i, t) ∷ rest) = ground (arith, lookup-put id j s rest)

-- A stream that the map holds is replaced.
lookup-update :
    (id j : ℕ) (s t : Stream) (m : Streams)
    → lookup id m ≡ some t
    → lookup j (update id s m) ≡ (if id == j then some s else lookup j m)
unfolding lookup update
lookup-update id j s t [] h = cc
lookup-update id j s t ((i, u) ∷ rest) h = ground (arith, lookup-update id j s t rest)

-- A stream that was there before stays.
already_held :
    (id j : ℕ) (s : Stream) (m : Streams)
    → lookup id m ≡ some s
    → lookup j m ≡ (if id == j then some s else lookup j m)
already_held id j s m e = elim (Bool-cases (id == j)) [
  | inl same ↦ rw (same, ← (==_iff id j).0 same) e
  | inr other ↦ rw other
]

-- What `Get` gives is in the map, and nothing else has changed.
get_lem :
    (id : ℕ) (m : Streams)
    → ((get id m).0 ≡ at id m)
      × ((j : ℕ) → lookup j (get id m).1 ≡ (if id == j then some (at id m) else lookup j m))
unfolding get
get_lem id m = found (lookup id m) refl
  where
    found :
        (o : Option Stream)
        → lookup id m ≡ o
        → ((get id m).0 ≡ at id m)
          × ((j : ℕ) → lookup j (get id m).1 ≡ (if id == j then some (at id m) else lookup j m))
    found none e = rw e (refl, λ j. lookup-put id j new_stream m)
    found (some s) e = rw e (refl, λ j. already_held id j s m e)

chosen :
    (b : Bool) (t u : Stream) (o : Option Stream)
    → (if b then some t else (if b then some u else o)) ≡ (if b then some t else o)
chosen true t u o = refl
chosen false t u o = refl

-- A frame for which addToRead returns: its stream changes, and no other.
receive_lem :
    (f : StreamFrame) (m : Streams) (t : Stream)
    → add_to_read (at f.stream_id m) f ≡ done t
    → (m' : Streams) × (receive f m ≡ done m')
      × ((j : ℕ) → lookup j m' ≡ (if f.stream_id == j then some t else lookup j m))
unfolding receive
receive_lem f m t e =
    let id = f.stream_id in
    let (given, held) = get_lem id m in
    let self : (id == id) ≡ true = (==_iff id id).1 refl in
    let present : lookup id (get id m).1 ≡ some (at id m) = held id ∙ rw self refl in
    (
      update id t (get id m).1,
      rw (given, e),
      λ j.
          rw (lookup-update id j t (at id m) (get id m).1 present, held j)
            (chosen (id == j) t (at id m) (lookup j m)),
    )

or_true : (b : Bool) → (b || true) ≡ true
or_true true = refl
or_true false = refl

-- The state of one stream after a frame, and what follows of its frames.
module _ (f : StreamFrame) (fs : List StreamFrame) (m u : Streams) (t : Stream) (id : ℕ) where
  add_all-of_stream :
      add_to_read (at f.stream_id m) f ≡ done t
      → lookup id u ≡ (if f.stream_id == id then some t else lookup id m)
      → add_all (at id m) (of_stream id (f ∷ fs)) ≡ add_all (at id u) (of_stream id fs)
  unfolding of_stream add_all
  add_all-of_stream e after = elim (Bool-cases (f.stream_id == id)) [
    | inl same ↦
        let own : add_to_read (at id m) f ≡ done t =
          ap (λ (i : ℕ). add_to_read (at i m) f) (sym ((==_iff f.stream_id id).0 same)) ∙ e in
        rw (same, own, after, same) refl
    | inr other ↦ rw (other, after, other) refl
  ]

  holds-is_any :
      (b : Bool)
      → lookup id u ≡ (if f.stream_id == id then some t else lookup id m)
      → b ≡ (is_any (of_stream id fs) || holds id u)
      → b ≡ (is_any (of_stream id (f ∷ fs)) || holds id m)
  unfolding of_stream
  holds-is_any b after e = elim (Bool-cases (f.stream_id == id)) [
    | inl same ↦
        let own : lookup id u ≡ some t = after ∙ rw same refl in
        rw same (
          e
          ∙ ap (λ (o : Option Stream). is_any (of_stream id fs) || is_some o) own
          ∙ or_true (is_any (of_stream id fs)))
    | inr other ↦
        let unchanged : lookup id u ≡ lookup id m = after ∙ rw other refl in
        rw other (e ∙ ap (λ (o : Option Stream). is_any (of_stream id fs) || is_some o) unchanged)
  ]

  after-IsConsistent :
      IsConsistent t
      → IsConsistent (at id m)
      → lookup id u ≡ (if f.stream_id == id then some t else lookup id m)
      → IsConsistent (at id u)
  after-IsConsistent w v after = elim (Bool-cases (f.stream_id == id)) [
    | inl same ↦ rw (after, same) w
    | inr other ↦ rw (after, other) v
  ]

-- Whatever streams the frames are of and however they are mixed, on a map whose streams are in
-- order: frames with the length of their content, which end where memory can be allocated, are all
-- taken in without a panic. The stream that the map then gives for an id is in order, and is what
-- addToRead makes of the one that it gave before with the frames of this id alone, one after
-- another; and the map holds the streams that it held before and those that a frame came for.
pub take_in-of_stream :
    (fs : List StreamFrame) (m : Streams)
    → ((id : ℕ) → IsConsistent (at id m))
    → All Fits fs
    → (m' : Streams) × (take_in fs m ≡ done m')
      × ((id : ℕ)
          → (add_all (at id m) (of_stream id fs) ≡ done (at id m'))
            × IsConsistent (at id m')
            × (holds id m' ≡ (is_any (of_stream id fs) || holds id m)))
unfolding take_in of_stream add_all
take_in-of_stream [] m v h = (m, refl, λ id. (refl, v id, refl))
take_in-of_stream (f ∷ fs) m v (h, hs) =
    let (t, e, w, g) = add_to_read-IsConsistent (at f.stream_id m) f (v f.stream_id) h in
    let (u, r, after) = receive_lem f m t e in
    let (m', rs, each) =
      take_in-of_stream fs u (λ id. after-IsConsistent f fs m u t id w (v id) (after id)) hs in
    (
      m',
      rw r rs,
      λ id. (
        add_all-of_stream f fs m u t id e (after id) ∙ (each id).0,
        (each id).1,
        holds-is_any f fs m u t id (holds id m') (after id) (each id).2,
      ),
    )
