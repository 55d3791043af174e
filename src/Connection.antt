-- ===== src/Connection.antt =====
-- connection.go: ProcessVersionNegotation, TransitionTo for the fields that number packets, and
-- CloseConnection; agents/closing_agent.go.
pub mod Send
pub mod Padding
pub mod Initial
pub mod Sealed
use quic_tracker.Base.{
  ℕ, ◌≡◌, refl, ap, Bool, true, false, ◌&&◌, ◌||◌, List, [], ◌∷◌, ◌++◌, Bytes, length, All, leb,
  ◌==◌, if◌then◌else◌, Option, none, some, arith, Bool-cases, ◌⊎◌, inl, inr,
}
use quic_tracker.Frame.{
  Frame, connection_close, application_close, connection_close_type, application_close_type,
}
use quic_tracker.Header.Make.{Connection}
use quic_tracker.Level.{Level, level_best}
use quic_tracker.Packet.{PnSpace, contains}
use quic_tracker.Packet.Negotiation.{VersionNegotiation}

abbrev pub minimum_version : ℕ
minimum_version = 0xff000011

abbrev pub maximum_version : ℕ
maximum_version = 0xff000011

abbrev pub is_supported : ℕ → Bool
is_supported v = leb minimum_version v && leb v maximum_version

-- The loop over the versions of the packet.
unfoldable pub last_supported : ℕ → List ℕ → ℕ
last_supported version [] = version
last_supported version (v ∷ rest) = last_supported (if is_supported v then v else version) rest

unfoldable pub transition_to : ℕ → Connection → Connection
transition_to version c = record c {
  version = version;
  packet_number = λ space. 0;
  largest_pns_acknowledged = λ space. 0;
}

-- `none` is the error "no appropriate version found".
unfoldable pub process_version_negotiation : VersionNegotiation → Connection → Option Connection
unfolding last_supported transition_to
process_version_negotiation p c =
    let version = last_supported 0 p.supported_versions in
    if version == 0 then none else some (transition_to version c)

-- What CloseConnection submits to FrameQueue.
unfoldable pub close_connection : Bool → ℕ → Bytes → Frame × Level
close_connection true code phrase = (connection_close code 0 (length phrase) phrase, level_best)
close_connection false code phrase = (application_close code (length phrase) phrase, level_best)

-- The closing agent ends at a packet of these frames.
unfoldable pub closes : List Frame → Bool
closes fs = contains connection_close_type fs || contains application_close_type fs

abbrev Unsupported : List ℕ → Type 0
Unsupported = All (λ v. is_supported v ≡ false)

-- v is the last version of the list that is supported.
pub record IsLast (v : ℕ) (l : List ℕ) : Type 0 where
  pub before : List ℕ
  pub after : List ℕ
  pub split : l ≡ before ++ (v ∷ after)
  pub supported : is_supported v ≡ true
  pub rest_unsupported : Unsupported after

at_head : (v : ℕ) (rest : List ℕ) → is_supported v ≡ true → Unsupported rest → IsLast v (v ∷ rest)
at_head v rest e un = record {
  before = [];
  after = rest;
  split = refl;
  supported = e;
  rest_unsupported = un;
}

in_rest : (v : ℕ) {w : ℕ} {rest : List ℕ} → IsLast w rest → IsLast w (v ∷ rest)
in_rest v f = record {
  before = v ∷ f.before;
  after = f.after;
  split = ap (◌∷◌ v) f.split;
  supported = f.supported;
  rest_unsupported = f.rest_unsupported;
}

last_supported_lem :
    (version : ℕ) (l : List ℕ)
    → ((last_supported version l ≡ version) × Unsupported l) ⊎ IsLast (last_supported version l) l
unfolding last_supported
last_supported_lem version [] = inl (refl, tt)
last_supported_lem version (v ∷ rest) = elim (Bool-cases (is_supported v)) [
  | inl e ↦ elim (last_supported_lem v rest) [
    | inl (same, un) ↦ inr (rw (e, same) (at_head v rest e un))
    | inr found ↦ inr (rw e (in_rest v found))
  ]
  | inr e ↦ elim (last_supported_lem version rest) [
    | inl (same, un) ↦ inl (rw (e, same) (refl, (refl, un)))
    | inr found ↦ inr (rw e (in_rest v found))
  ]
]

positive : (v : ℕ) → is_supported v ≡ true → (v == 0) ≡ false
positive v h = ground arith

-- Either no version of a Version Negotiation packet is supported, and ProcessVersionNegotation
-- gives an error; or the connection takes the last of them that is, and numbers its packets from 0
-- in every space.
pub process_version_negotiation-IsLast :
    (p : VersionNegotiation) (c : Connection)
    → ((process_version_negotiation p c ≡ none)
        × All (λ v. is_supported v ≡ false) p.supported_versions)
      ⊎ ((d : Connection) × (process_version_negotiation p c ≡ some d)
          × IsLast d.version p.supported_versions
          × ((space : PnSpace) → d.packet_number space ≡ 0))
unfolding process_version_negotiation
process_version_negotiation-IsLast p c = elim (last_supported_lem 0 p.supported_versions) [
  | inl (same, un) ↦ inl (rw (process_version_negotiation, same) refl, un)
  | inr found ↦
      let v = last_supported 0 p.supported_versions in
      inr (
        transition_to v c,
        rw (process_version_negotiation, positive v found.supported) refl,
        found,
        λ space. refl,
      )
]
