-- ===== src/TransportParameters/Received.antt =====
-- transport_parameters.go: the parameters that the peer learns.
use quic_tracker.Base.{
  ℕ, ◌≤◌, ◌≡◌, refl, ap, ◌∙◌, List, [], ◌∷◌, ◌++◌, Bytes, Option, some, done, All, arith,
  append-nil, append_assoc, sym,
}
use quic_tracker.Base.Outcomes.{◌>>=◌}
use quic_tracker.VarInt.{read_var_int_value, max_var_int8}
use quic_tracker.VarInt.RoundTrip.{encoding, encode_var_int-encoding, read_var_int_value-encoding}
use quic_tracker.TransportParameters.{
  TransportParameter, QuicTransportParameters, no_parameters, number_parameter,
  extension_parameters, stored, receive_parameter, receive_all,
}

-- What the peer learns: the five numbers that are sent, and the additional parameters.
abbrev pub advertised : QuicTransportParameters → QuicTransportParameters
advertised q = record no_parameters {
  max_stream_data_bidi_local = q.max_stream_data_bidi_local;
  max_data = q.max_data;
  max_bidi_streams = q.max_bidi_streams;
  max_uni_streams = q.max_uni_streams;
  idle_timeout = q.idle_timeout;
  additional_parameters = q.additional_parameters;
}

-- The numbers are those of variable-length integers, and the additional parameters are of types
-- that the program does not know.
pub record IsSendable (q : QuicTransportParameters) : Type 0 where
  pub stream_data : q.max_stream_data_bidi_local ≤ max_var_int8
  pub data_fits : q.max_data ≤ max_var_int8
  pub bidi : q.max_bidi_streams ≤ max_var_int8
  pub uni : q.max_uni_streams ≤ max_var_int8
  pub timeout : q.idle_timeout ≤ max_var_int8
  pub additional : All (λ p. 0x000e ≤ p.parameter_type) q.additional_parameters

abbrev pub parameter_of : ℕ → ℕ → TransportParameter
parameter_of t v = record { parameter_type = t; value = encoding v }

number_parameter_lem : (t v : ℕ) → v ≤ max_var_int8 → number_parameter t v ≡ done (parameter_of t v)
number_parameter_lem t v le = rw (encode_var_int-encoding v le) refl

value_lem : (v : ℕ) → v ≤ max_var_int8 → (read_var_int_value (encoding v)).0 ≡ some v
value_lem v le =
    ap (λ (r : Option ℕ × Bytes). r.0)
      (rw (append-nil (encoding v)) at (read_var_int_value-encoding v [] le))

unknown_lem :
    (p : TransportParameter) (q : QuicTransportParameters)
    → 0x000e ≤ p.parameter_type
    → receive_parameter p q
      ≡ some (record q { additional_parameters = q.additional_parameters ++ (p ∷ []) })
unfolding receive_parameter
unknown_lem p q le = ground (arith, le)

receive_unknown :
    (ps : List TransportParameter) (q : QuicTransportParameters)
    → All (λ p. 0x000e ≤ p.parameter_type) ps
    → receive_all ps q ≡ some (record q { additional_parameters = q.additional_parameters ++ ps })
unfolding receive_all
receive_unknown [] q h =
    ap (λ (l : List TransportParameter). some (record q { additional_parameters = l }))
      (sym (append-nil q.additional_parameters))
receive_unknown (p ∷ rest) q (h, hs) =
    rw (receive_all, unknown_lem p q h, ← append_assoc q.additional_parameters (p ∷ []) rest)
      (receive_unknown rest
        (record q { additional_parameters = q.additional_parameters ++ (p ∷ []) }) hs)

abbrev pub parameters_of : QuicTransportParameters → List TransportParameter
parameters_of q =
    parameter_of 0x0005 q.max_stream_data_bidi_local
    ∷ parameter_of 0x0004 q.max_data
    ∷ parameter_of 0x0008 q.max_bidi_streams
    ∷ parameter_of 0x0009 q.max_uni_streams
    ∷ parameter_of 0x0001 q.idle_timeout
    ∷ q.additional_parameters

extension_lem :
    (q : QuicTransportParameters) → IsSendable q → extension_parameters q ≡ done (parameters_of q)
unfolding extension_parameters
extension_lem q v =
    rw
      (
        ◌>>=◌,
        number_parameter_lem 0x0005 q.max_stream_data_bidi_local v.stream_data,
        number_parameter_lem 0x0004 q.max_data v.data_fits,
        number_parameter_lem 0x0008 q.max_bidi_streams v.bidi,
        number_parameter_lem 0x0009 q.max_uni_streams v.uni,
        number_parameter_lem 0x0001 q.idle_timeout v.timeout,
      )
      refl

receive_next :
    (p : TransportParameter) (rest : List TransportParameter) (q r : QuicTransportParameters)
    → receive_parameter p q ≡ some r
    → receive_all (p ∷ rest) q ≡ receive_all rest r
unfolding receive_all
receive_next p rest q r e = rw (receive_all, e) refl

max_stream_data_bidi_local_lem :
    (v : ℕ) (q : QuicTransportParameters)
    → v ≤ max_var_int8
    → receive_parameter (parameter_of 0x0005 v) q
      ≡ some (record q { max_stream_data_bidi_local = v })
unfolding receive_parameter
max_stream_data_bidi_local_lem v q le =
    ap (λ (o : Option ℕ). stored o (λ n. record q { max_stream_data_bidi_local = n }))
      (value_lem v le)

max_data_lem :
    (v : ℕ) (q : QuicTransportParameters)
    → v ≤ max_var_int8
    → receive_parameter (parameter_of 0x0004 v) q ≡ some (record q { max_data = v })
unfolding receive_parameter
max_data_lem v q le =
    ap (λ (o : Option ℕ). stored o (λ n. record q { max_data = n })) (value_lem v le)

max_bidi_streams_lem :
    (v : ℕ) (q : QuicTransportParameters)
    → v ≤ max_var_int8
    → receive_parameter (parameter_of 0x0008 v) q ≡ some (record q { max_bidi_streams = v })
unfolding receive_parameter
max_bidi_streams_lem v q le =
    ap (λ (o : Option ℕ). stored o (λ n. record q { max_bidi_streams = n })) (value_lem v le)

max_uni_streams_lem :
    (v : ℕ) (q : QuicTransportParameters)
    → v ≤ max_var_int8
    → receive_parameter (parameter_of 0x0009 v) q ≡ some (record q { max_uni_streams = v })
unfolding receive_parameter
max_uni_streams_lem v q le =
    ap (λ (o : Option ℕ). stored o (λ n. record q { max_uni_streams = n })) (value_lem v le)

idle_timeout_lem :
    (v : ℕ) (q : QuicTransportParameters)
    → v ≤ max_var_int8
    → receive_parameter (parameter_of 0x0001 v) q ≡ some (record q { idle_timeout = v })
unfolding receive_parameter
idle_timeout_lem v q le =
    ap (λ (o : Option ℕ). stored o (λ n. record q { idle_timeout = n })) (value_lem v le)

-- A handler's numbers are those of variable-length integers, and its additional parameters are of
-- types that the program does not know: the list that GetExtensionData marshals can be made, and
-- the switch of ReceiveExtensionData takes from that list the five numbers, each into its own
-- field, and the additional parameters in their order, with no error.
pub receive_all-extension_parameters :
    (q : QuicTransportParameters)
    → IsSendable q
    → (l : List TransportParameter) × (extension_parameters q ≡ done l)
      × (receive_all l no_parameters ≡ some (advertised q))
receive_all-extension_parameters q v =
    let p1 = record no_parameters { max_stream_data_bidi_local = q.max_stream_data_bidi_local } in
    let p2 = record p1 { max_data = q.max_data } in
    let p3 = record p2 { max_bidi_streams = q.max_bidi_streams } in
    let p4 = record p3 { max_uni_streams = q.max_uni_streams } in
    let p5 = record p4 { idle_timeout = q.idle_timeout } in
    (
      parameters_of q,
      extension_lem q v,
      receive_next _ _ _ p1 (
            max_stream_data_bidi_local_lem q.max_stream_data_bidi_local no_parameters v.stream_data)
          ∙ receive_next _ _ p1 p2 (max_data_lem q.max_data p1 v.data_fits)
          ∙ receive_next _ _ p2 p3 (max_bidi_streams_lem q.max_bidi_streams p2 v.bidi)
          ∙ receive_next _ _ p3 p4 (max_uni_streams_lem q.max_uni_streams p3 v.uni)
          ∙ receive_next _ _ p4 p5 (idle_timeout_lem q.idle_timeout p4 v.timeout)
          ∙ receive_unknown q.additional_parameters p5 v.additional,
    )
