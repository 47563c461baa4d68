-- ===== src/Protocol/Codec/RoundTrip.antt =====
-- Decoding the root table that `Codec::encode` of crates/woven-protocol/src/codec.rs wrote.
use signalweave.Prelude.{
  ℕ, ◌-◌, ◌<◌, ◌≡◌, ◌≢◌, refl, false, ◌==◌, Option, none, some, ok, length, String, then_eq_ok,
  fail_if, arith,
}
use signalweave.Ids.{u64_mod}
use signalweave.Protocol.Numeric.{value_of, is_same, numeric-RoundTrips}
use signalweave.Protocol.Kinds.{
  MessageKind, DeliveryClass, message_kind_numeric, delivery_class_numeric,
}
use signalweave.Protocol.Model.{
  Envelope, MessagePayload, ControlPayload, OpaquePayload, control_kind, payload_kind, message_kind,
  variable_len,
}
use signalweave.Protocol.Wire.{WireEnvelope, control_type_numeric}
use signalweave.Protocol.Limits.{
  Codec, enforce_payload_limit, missing_payload_type, unknown_delivery_class,
}
use signalweave.Protocol.Checked.{vector_len, vector_bytes}
use signalweave.Protocol.Scope.{reject_zero_option, reject_zero_optional_ids}
use signalweave.Protocol.Contents.{validate_snapshot_request}
use signalweave.Protocol.Semantics.{validate, validate_control, validate_message, validate_delivery}
use signalweave.Protocol.Accepted.{enforce_payload_limit-le, nonzero-or_default}
use signalweave.Protocol.ControlRoundTrip.{HasNonzeroIds, decode_control-encode_control}
use signalweave.Protocol.DecodeControl.{decode_control}
use signalweave.Protocol.Codec.{
  check_version, validate_outbound, outbound_payload, outbound_opaque, wire_envelope, known_kind,
  known_class, decode_message, decode_domain, decode_opaque, opaque_of, decoded_envelope,
  decode_verified,
}

reject_zero_option-ok :
    (o : Option ℕ) (envelope : Envelope) (reason : String)
    → reject_zero_option o envelope reason ≡ ok tt
    → o ≢ some 0
unfolding reject_zero_option
reject_zero_option-ok o envelope reason passed = ground arith

reject_zero_optional_ids-ok :
    (envelope : Envelope)
    → reject_zero_optional_ids envelope ≡ ok tt
    → (envelope.channel_id ≢ some 0)
      × (envelope.entity_id ≢ some 0)
      × (envelope.correlation_id ≢ some 0)
unfolding reject_zero_optional_ids
reject_zero_optional_ids-ok envelope passed =
    let channel = then_eq_ok (reject_zero_option envelope.channel_id envelope _) _ passed in
    let entity = then_eq_ok (reject_zero_option envelope.entity_id envelope _) _ channel.1 in
    (
      reject_zero_option-ok envelope.channel_id envelope _ channel.0,
      reject_zero_option-ok envelope.entity_id envelope _ entity.0,
      reject_zero_option-ok envelope.correlation_id envelope _ entity.1,
    )

validate_control-HasNonzeroIds :
    (envelope : Envelope) (payload : ControlPayload)
    → validate_control envelope payload ≡ ok tt
    → HasNonzeroIds payload
unfolding validate_control validate_snapshot_request
validate_control-HasNonzeroIds envelope (ControlPayload.authenticated value) passed =
    let scoped = then_eq_ok _ _ passed in
    reject_zero_option-ok value.assigned_entity_id envelope _ (then_eq_ok _ _ scoped.1).1
validate_control-HasNonzeroIds envelope (ControlPayload.entity_entered value) passed =
    reject_zero_option-ok value.owner_entity_id envelope _ (then_eq_ok _ _ passed).1
validate_control-HasNonzeroIds envelope (ControlPayload.snapshot_request value) passed =
    reject_zero_option-ok value.after_server_tick envelope _ (then_eq_ok _ _ passed).1
validate_control-HasNonzeroIds envelope _ passed = tt

-- No message has the unknown kind, which the wire keeps for zero.
payload_kind-known :
    (message : MessagePayload) → is_same (payload_kind message) MessageKind.unknown ≡ false
unfolding payload_kind is_same
payload_kind-known (MessagePayload.control (ControlPayload.hello _)) = refl
payload_kind-known (MessagePayload.control _) = refl
payload_kind-known _ = refl

known_kind-value_of :
    (kind : MessageKind)
    → is_same kind MessageKind.unknown ≡ false
    → known_kind (value_of kind) ≡ ok kind
unfolding known_kind
known_kind-value_of kind known = rw ((numeric-RoundTrips MessageKind).0 kind, known) refl

known_class-value_of :
    (class : DeliveryClass)
    → is_same class DeliveryClass.unknown ≡ false
    → known_class (value_of class) ≡ ok class
unfolding known_class
known_class-value_of class known = rw ((numeric-RoundTrips DeliveryClass).0 class, known) refl

decode_message-control :
    (codec : Codec) (envelope : WireEnvelope) (payload : ControlPayload)
    → decode_message codec envelope (control_kind payload)
      ≡ decode_domain codec envelope (control_kind payload)
unfolding decode_message control_kind
decode_message-control codec envelope (ControlPayload.hello _) = refl
decode_message-control codec envelope _ = refl

decode_domain-ok :
    (codec : Codec) (envelope : WireEnvelope) (kind : MessageKind) (payload : ControlPayload)
    → envelope.payload_type_id ≡ 0
    → envelope.payload ≡ none
    → decode_control codec envelope kind ≡ ok payload
    → decode_domain codec envelope kind ≡ ok (MessagePayload.control payload)
unfolding decode_domain
decode_domain-ok codec envelope kind payload no_type no_payload decodes =
    rw (no_type, no_payload, decodes) refl

decode_opaque-ok :
    (codec : Codec) (envelope : WireEnvelope) (kind : MessageKind) (payload : OpaquePayload)
    (message : MessagePayload)
    → envelope.control_type ≡ 0
    → envelope.control ≡ none
    → envelope.payload_type_id ≡ payload.type_id
    → envelope.payload ≡ some payload.bytes
    → payload.type_id ≢ 0
    → enforce_payload_limit codec (length payload.bytes) ≡ ok tt
    → opaque_of envelope kind payload ≡ ok message
    → decode_opaque codec envelope kind ≡ ok message
unfolding decode_opaque value_of vector_len vector_bytes
decode_opaque-ok codec envelope kind payload message no_type no_control type_id bytes named fits
      is =
    ground (arith, no_type, no_control, type_id, bytes, named, fits, is)

outbound_opaque-ok :
    (codec : Codec) (envelope : Envelope) (payload : OpaquePayload)
    → outbound_opaque codec envelope payload ≡ ok tt
    → (payload.type_id ≢ 0) × (enforce_payload_limit codec (length payload.bytes) ≡ ok tt)
unfolding outbound_opaque
outbound_opaque-ok codec envelope payload passed =
    let both =
      then_eq_ok (fail_if (payload.type_id == 0) (missing_payload_type (message_kind envelope))) _
        passed in
    (ground (arith, both.0), both.1)

abbrev ControlIds : MessagePayload → Type 0
ControlIds (MessagePayload.control payload) = HasNonzeroIds payload
ControlIds _ = Unit

decode_verified-steps :
    (codec : Codec) (wire : WireEnvelope) (kind : MessageKind) (class : DeliveryClass)
    (message : MessagePayload) (envelope : Envelope)
    → check_version wire.protocol_version ≡ ok tt
    → known_kind wire.message_kind ≡ ok kind
    → known_class wire.delivery_class ≡ ok class
    → decode_message codec wire kind ≡ ok message
    → decoded_envelope wire class message ≡ envelope
    → validate (decoded_envelope wire class message) ≡ ok tt
    → decode_verified codec wire ≡ ok envelope
unfolding decode_verified
decode_verified-steps codec wire kind class message envelope version is_kind is_class decodes is
      valid =
    rw (version, is_kind, is_class, decodes, valid, is) refl

-- What `validate_outbound` has checked.
validate_outbound-ok :
    (codec : Codec) (envelope : Envelope)
    → validate_outbound codec envelope ≡ ok tt
    → (check_version envelope.protocol_version ≡ ok tt)
      × (is_same envelope.delivery_class DeliveryClass.unknown ≡ false)
      × (validate envelope ≡ ok tt)
      × (outbound_payload codec envelope envelope.message ≡ ok tt)
unfolding validate_outbound
validate_outbound-ok codec envelope passed =
    let version = then_eq_ok (check_version envelope.protocol_version) _ passed in
    let class =
      then_eq_ok
        (fail_if (is_same envelope.delivery_class DeliveryClass.unknown)
          (unknown_delivery_class (value_of envelope.delivery_class)))
        _ version.1 in
    let rest = then_eq_ok (validate envelope) _ class.1 in
    (version.0, ground (arith, class.0), rest.0, rest.1)

module _ (codec : Codec) (small : codec.limits.max_payload_len < u64_mod - 1)
    (envelope : Envelope) where
  validate_message-ControlIds :
      (message : MessagePayload) → validate_message envelope message ≡ ok tt → ControlIds message
  unfolding validate_message
  validate_message-ControlIds (MessagePayload.control payload) valid =
      validate_control-HasNonzeroIds envelope payload valid
  validate_message-ControlIds _ valid = tt

  decode_message-wire_envelope :
      (message : MessagePayload)
      → envelope.message ≡ message
      → outbound_payload codec envelope message ≡ ok tt
      → ControlIds message
      → decode_message codec (wire_envelope envelope) (payload_kind message) ≡ ok message
  unfolding outbound_payload decode_message wire_envelope payload_kind value_of opaque_of
  decode_message-wire_envelope (MessagePayload.control payload) is fits ids =
      rw (decode_message-control codec (wire_envelope envelope) payload) (
        decode_domain-ok codec (wire_envelope envelope) (control_kind payload) payload (rw is refl)
          (rw is refl)
          (decode_control-encode_control codec small (wire_envelope envelope) payload (rw is refl)
            (rw is refl) (enforce_payload_limit-le codec (variable_len payload) fits) ids))
  decode_message-wire_envelope (MessagePayload.entity_state payload) is fits ids =
      let passed = outbound_opaque-ok codec envelope payload fits in
      decode_opaque-ok codec (wire_envelope envelope) MessageKind.entity_state payload _
        (rw is refl) (rw is refl) (rw is refl) (rw is refl) passed.0 passed.1 refl
  decode_message-wire_envelope (MessagePayload.reliable_event payload) is fits ids =
      let passed = outbound_opaque-ok codec envelope payload fits in
      decode_opaque-ok codec (wire_envelope envelope) MessageKind.reliable_event payload _
        (rw is refl) (rw is refl) (rw is refl) (rw is refl) passed.0 passed.1 refl
  decode_message-wire_envelope (MessagePayload.snapshot payload) is fits ids =
      let passed = outbound_opaque-ok codec envelope payload fits in
      decode_opaque-ok codec (wire_envelope envelope) MessageKind.snapshot payload _ (rw is refl)
        (rw is refl) (rw is refl) (rw is refl) passed.0 passed.1 refl

  decoded_envelope-wire_envelope :
      reject_zero_optional_ids envelope ≡ ok tt
      → decoded_envelope (wire_envelope envelope) envelope.delivery_class envelope.message
        ≡ envelope
  unfolding decoded_envelope wire_envelope
  decoded_envelope-wire_envelope passed =
      let ids = reject_zero_optional_ids-ok envelope passed in
      rw
        (
          nonzero-or_default envelope.channel_id ids.0,
          nonzero-or_default envelope.entity_id ids.1,
          nonzero-or_default envelope.correlation_id ids.2,
        )
        refl

  validate-HasNonzeroIds : validate envelope ≡ ok tt → ControlIds envelope.message
  unfolding validate
  validate-HasNonzeroIds valid =
      let ids_checked = then_eq_ok (reject_zero_optional_ids envelope) _ valid in
      let delivered = then_eq_ok (validate_delivery envelope) _ ids_checked.1 in
      validate_message-ControlIds envelope.message delivered.1

  pub decode_verified-wire_envelope :
      validate_outbound codec envelope ≡ ok tt
      → decode_verified codec (wire_envelope envelope) ≡ ok envelope
  unfolding wire_envelope message_kind validate
  decode_verified-wire_envelope passed =
      let checked = validate_outbound-ok codec envelope passed in
      let same =
        decoded_envelope-wire_envelope
          (then_eq_ok (reject_zero_optional_ids envelope) _ checked.2).0 in
      decode_verified-steps codec (wire_envelope envelope) (message_kind envelope)
        envelope.delivery_class envelope.message envelope checked.0
        (known_kind-value_of (message_kind envelope) (payload_kind-known envelope.message))
        (known_class-value_of envelope.delivery_class checked.1)
        (decode_message-wire_envelope envelope.message refl checked.3
          (validate-HasNonzeroIds checked.2))
        same (rw same checked.2)
