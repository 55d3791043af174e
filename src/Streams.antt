-- ===== src/Streams.antt =====
-- streams.go: the map from stream ids to streams, as an association list in which an id stands once.
pub mod Interleaved
use quic_tracker.Base.{
  ℕ, ◌+◌, ◌%◌, ◌≡◌, refl, List, [], ◌∷◌, ◌==◌, if◌then◌else◌, Option, none, some, Outcome, done,
  arith,
}
use quic_tracker.Base.Outcomes.{◌>>=◌}
use quic_tracker.Stream.{Stream, StreamFrame, new_stream, add_to_read}

abbrev pub Streams : Type 0
Streams = List (ℕ × Stream)

unfoldable pub lookup : ℕ → Streams → Option Stream
lookup id [] = none
lookup id ((i, s) ∷ rest) = if i == id then some s else lookup id rest

-- `s[id] = …`
unfoldable pub put : ℕ → Stream → Streams → Streams
put id s [] = (id, s) ∷ []
put id s ((i, t) ∷ rest) = if i == id then (id, s) ∷ rest else (i, t) ∷ put id s rest

abbrev pub or_new : Option Stream → Stream
or_new none = new_stream
or_new (some s) = s

-- `Get` after its look into the map: a missing stream is made, and the map holds it from then on.
abbrev get_found : ℕ → Streams → Option Stream → Stream × Streams
get_found id m none = (new_stream, put id new_stream m)
get_found id m (some s) = (s, m)

unfoldable pub get : ℕ → Streams → Stream × Streams
unfolding lookup put
get id m = get_found id m (lookup id m)

-- What is done through a pointer to a stream is seen in the map only if the map holds that stream.
unfoldable pub update : ℕ → Stream → Streams → Streams
update id s [] = []
update id s ((i, t) ∷ rest) = if i == id then (id, s) ∷ rest else (i, t) ∷ update id s rest

-- `conn.Streams.Get(frame.StreamId).addToRead(frame)`
unfoldable pub receive : StreamFrame → Streams → Outcome Streams
unfolding get update
receive f m =
    let (s, m') = get f.stream_id m in add_to_read s f >>= λ s'. done (update f.stream_id s' m')

pub number_of_server_streams_open : Streams → ℕ
number_of_server_streams_open [] = 0
number_of_server_streams_open ((id, s) ∷ rest) =
    (if id % 2 == 1 then 1 else 0) + number_of_server_streams_open rest
