-- ===== src/BufferAgent.antt =====
-- agents/buffer_agent.go: payloads wait until their encryption level can be read.
use quic_tracker.Base.{ℕ, Bool, true, false, List, [], ◌∷◌, ◌++◌, Bytes, ◌==◌, if◌then◌else◌}

-- The two maps, from encryption levels, and what was submitted to IncomingPayloads.
pub record Agent : Type 0 where
  pub unprocessed_payloads : ℕ → List Bytes
  pub encryption_levels_available : ℕ → Bool
  pub submitted : List Bytes

abbrev pub new_agent : Agent
new_agent = record {
  unprocessed_payloads = λ level. [];
  encryption_levels_available = λ level. false;
  submitted = [];
}

abbrev pub set {ℓ} : {A : Type ℓ} → ℕ → A → (ℕ → A) → ℕ → A
set level a m i = if i == level then a else m i

pub data Event : Type 0 where
  unprocessed : (level : ℕ) (payload : Bytes) → Event
  available : (read : Bool) (level : ℕ) → Event

-- What waited is submitted, and stays in the map.
unfoldable pub step : Agent → Event → Agent
step s (unprocessed level payload) =
    if s.encryption_levels_available level
    then (record s { submitted = s.submitted ++ (payload ∷ []) })
    else (record s {
      unprocessed_payloads =
          set level (s.unprocessed_payloads level ++ (payload ∷ [])) s.unprocessed_payloads;
    })
step s (available true level) = record s {
  encryption_levels_available = set level true s.encryption_levels_available;
  submitted = s.submitted ++ s.unprocessed_payloads level;
}
step s (available false level) = s

unfoldable pub run : Agent → List Event → Agent
run s [] = s
run s (e ∷ es) = run (step s e) es

-- Payloads of one level, one after another.
abbrev pub arrivals : ℕ → List Bytes → List Event
arrivals level [] = []
arrivals level (p ∷ ps) = unprocessed level p ∷ arrivals level ps
