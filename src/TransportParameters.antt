-- ===== src/TransportParameters.antt =====
-- transport_parameters.go. The list of parameters is put into bytes and taken out of them by the
-- package mint/syntax, whose two functions are parameters here.
pub mod Received
use quic_tracker.Base.{
  ℕ, ◌+◌, ◌*◌, ◌≤◌, ◌<◌, ◌≡◌, refl, ap, ◌∙◌, Bool, true, false, List, [], ◌∷◌, ◌++◌, Bytes, ◌==◌,
  if◌then◌else◌, Option, none, some, Outcome, done, panic, All, arith, append-nil, append_assoc,
  sym,
}
use quic_tracker.Base.Outcomes.{◌>>=◌}
use quic_tracker.VarInt.{encode_var_int, read_var_int_value, max_var_int8}
use quic_tracker.VarInt.RoundTrip.{encoding, encode_var_int-encoding, read_var_int_value-encoding}

pub record TransportParameter : Type 0 where
  pub parameter_type : ℕ
  pub value : Bytes

-- The map ToJSON, which is printed only, is left out.
pub record QuicTransportParameters : Type 0 where
  pub original_connection_id : Bytes
  pub idle_timeout : ℕ
  pub stateless_reset_token : Bytes
  pub max_packet_size : ℕ
  pub max_data : ℕ
  pub max_stream_data_bidi_local : ℕ
  pub max_stream_data_bidi_remote : ℕ
  pub max_stream_data_uni : ℕ
  pub max_bidi_streams : ℕ
  pub max_uni_streams : ℕ
  pub ack_delay_exponent : ℕ
  pub max_ack_delay : ℕ
  pub disable_migration : Bool
  pub preferred_address : Bytes
  pub additional_parameters : List TransportParameter

abbrev pub no_parameters : QuicTransportParameters
no_parameters = record {
  original_connection_id = [];
  idle_timeout = 0;
  stateless_reset_token = [];
  max_packet_size = 0;
  max_data = 0;
  max_stream_data_bidi_local = 0;
  max_stream_data_bidi_remote = 0;
  max_stream_data_uni = 0;
  max_bidi_streams = 0;
  max_uni_streams = 0;
  ack_delay_exponent = 0;
  max_ack_delay = 0;
  disable_migration = false;
  preferred_address = [];
  additional_parameters = [];
}

-- The parameters of a new handler.
abbrev pub default_parameters : QuicTransportParameters
default_parameters = record no_parameters {
  max_stream_data_bidi_local = 16 * 1024;
  max_data = 32 * 1024;
  max_bidi_streams = 1;
  max_uni_streams = 1;
  idle_timeout = 10;
}

unfoldable pub get_parameter : ℕ → List TransportParameter → Option Bytes
get_parameter id [] = none
get_parameter id (p ∷ rest) = if p.parameter_type == id then some p.value else get_parameter id rest

-- `addParameter` of a uint64.
abbrev pub number_parameter : ℕ → ℕ → Outcome TransportParameter
number_parameter t v = encode_var_int v >>= λ bs. done (record { parameter_type = t; value = bs })

-- The list that GetExtensionData marshals.
unfoldable pub extension_parameters : QuicTransportParameters → Outcome (List TransportParameter)
extension_parameters q = do
  a ← number_parameter 0x0005 q.max_stream_data_bidi_local
  b ← number_parameter 0x0004 q.max_data
  c ← number_parameter 0x0008 q.max_bidi_streams
  d ← number_parameter 0x0009 q.max_uni_streams
  e ← number_parameter 0x0001 q.idle_timeout
  done (a ∷ b ∷ c ∷ d ∷ e ∷ q.additional_parameters)

abbrev pub stored : Option ℕ → (ℕ → QuicTransportParameters) → Option QuicTransportParameters
stored (some v) store = some (store v)
stored none store = none

abbrev with_number : Bytes → (ℕ → QuicTransportParameters) → Option QuicTransportParameters
with_number value store = stored (read_var_int_value value).0 store

-- A case of the switch; `none` is the error of ReadVarIntValue.
unfoldable pub receive_parameter :
    TransportParameter → QuicTransportParameters → Option QuicTransportParameters
receive_parameter p q =
    if p.parameter_type == 0x0000
    then some (record q { original_connection_id = p.value })
    else if p.parameter_type == 0x0001
    then with_number p.value (λ v. record q { idle_timeout = v })
    else if p.parameter_type == 0x0002
    then some (record q { stateless_reset_token = p.value })
    else if p.parameter_type == 0x0003
    then with_number p.value (λ v. record q { max_packet_size = v })
    else if p.parameter_type == 0x0004
    then with_number p.value (λ v. record q { max_data = v })
    else if p.parameter_type == 0x0005
    then with_number p.value (λ v. record q { max_stream_data_bidi_local = v })
    else if p.parameter_type == 0x0006
    then with_number p.value (λ v. record q { max_stream_data_bidi_remote = v })
    else if p.parameter_type == 0x0007
    then with_number p.value (λ v. record q { max_stream_data_uni = v })
    else if p.parameter_type == 0x0008
    then with_number p.value (λ v. record q { max_bidi_streams = v })
    else if p.parameter_type == 0x0009
    then with_number p.value (λ v. record q { max_uni_streams = v })
    else if p.parameter_type == 0x000a
    then with_number p.value (λ v. record q { ack_delay_exponent = v })
    else if p.parameter_type == 0x000b
    then with_number p.value (λ v. record q { max_ack_delay = v })
    else if p.parameter_type == 0x000c
    then some (record q { disable_migration = true })
    else if p.parameter_type == 0x000d
    then some (record q { preferred_address = p.value })
    else some (record q { additional_parameters = q.additional_parameters ++ (p ∷ []) })

unfoldable pub receive_all :
    List TransportParameter → QuicTransportParameters → Option QuicTransportParameters
unfolding receive_parameter
receive_all [] q = some q
receive_all (p ∷ rest) q = elim (receive_parameter p q) [
  | some r ↦ receive_all rest r
  | none ↦ none
]

module _ (marshal : ℕ → List TransportParameter → Option Bytes)
    (unmarshal : Bytes → Option (List TransportParameter)) where
  -- `none` is the error of Marshal.
  unfoldable pub get_extension_data : ℕ → QuicTransportParameters → Outcome (Option Bytes)
  unfolding extension_parameters
  get_extension_data version q = extension_parameters q >>= λ l. done (marshal version l)

  unfoldable pub receive_extension_data : Bytes → Option QuicTransportParameters
  unfolding receive_all
  receive_extension_data extension = elim (unmarshal extension) [
    | some l ↦ receive_all l no_parameters
    | none ↦ none
  ]
