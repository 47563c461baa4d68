-- ===== src/Protocol/Codec/Resend.antt =====
-- Which of the envelopes that crates/woven-protocol/src/codec.rs decodes it would encode.
use signalweave.Prelude.{
  ℕ, ◌+◌, ◌≤◌, ◌<◌, ◌≡◌, ◌≢◌, ◌⊎◌, inl, inr, refl, subst, false, not, ◌||◌, ◌==◌, is_some, List,
  length, len, ok, >>=-eq-ok, then_eq_ok, ok_injective, arith, fail_if, ok_or,
}
use signalweave.Protocol.Numeric.{value_of, is_same, from_wire}
use signalweave.Protocol.Kinds.{
  MessageKind, DeliveryClass, message_kind_numeric, delivery_class_numeric,
}
use signalweave.Protocol.Model.{
  Envelope, ControlPayload, MessagePayload, OpaquePayload, variable_len, saturating_add,
}
use signalweave.Protocol.Wire.{WireEnvelope, ControlType, control_type_numeric}
use signalweave.Protocol.Limits.{
  Codec, enforce_payload_limit, control_mismatch, missing_payload_type, unexpected_domain_payload,
  unknown_delivery_class,
}
use signalweave.Protocol.Checked.{vector_len, vector_bytes}
use signalweave.Protocol.Semantics.{validate}
use signalweave.Protocol.DecodeControl.{decode_control}
use signalweave.Protocol.Accepted.{enforce_payload_limit-ok, enforce_payload_limit-le}
use signalweave.Protocol.Codec.{
  Flatbuffers, check_version, outbound_opaque, outbound_payload, validate_outbound, opaque_of,
  decode_opaque, decode_domain, decode_message, known_kind, known_class, decoded_envelope,
  decode_verified, decode,
}
use signalweave.Protocol.Codec.Bounded.{Fitting, vector_bytes-le}
use signalweave.Protocol.Codec.BoundedControl.{decode_control-Fitting}
use signalweave.Protocol.Codec.Framing.{decode-passed}

-- A message with two parts that exceeds the limit by both of them, but by none alone.
abbrev pub IsOverlong : ℕ → MessagePayload → Type 0
IsOverlong limit (MessagePayload.control (ControlPayload.inference_requested value)) =
    (limit < len value.capability + length value.input)
    × (len value.capability ≤ limit)
    × (length value.input ≤ limit)
IsOverlong limit (MessagePayload.control (ControlPayload.tool_call_proposed value)) =
    (limit < len value.tool_id + length value.arguments)
    × (len value.tool_id ≤ limit)
    × (length value.arguments ≤ limit)
IsOverlong limit _ = ⊥

module _ (codec : Codec) where
  abbrev IsSendable : MessagePayload → Type 0
  IsSendable message =
      ((envelope : Envelope) → outbound_payload codec envelope message ≡ ok tt)
      ⊎ IsOverlong codec.limits.max_payload_len message

  two_parts :
      (a b limit : ℕ) → a ≤ limit → b ≤ limit → (saturating_add a b ≤ limit) ⊎ (limit < a + b)
  unfolding saturating_add
  two_parts a b limit first second = ground arith

  HasFittingParts-IsSendable :
      (payload : ControlPayload)
      → Fitting codec payload
      → IsSendable (MessagePayload.control payload)
  unfolding variable_len outbound_payload
  HasFittingParts-IsSendable (ControlPayload.inference_requested value) fits =
      elim (two_parts (len value.capability) (length value.input) codec.limits.max_payload_len
        fits.0 fits.1) [
          | inl small ↦ inl λ envelope. enforce_payload_limit-ok codec _ small
          | inr long ↦ inr (long, fits.0, fits.1)
        ]
  HasFittingParts-IsSendable (ControlPayload.tool_call_proposed value) fits =
      elim (two_parts (len value.tool_id) (length value.arguments) codec.limits.max_payload_len
        fits.0 fits.1) [
          | inl small ↦ inl λ envelope. enforce_payload_limit-ok codec _ small
          | inr long ↦ inr (long, fits.0, fits.1)
        ]
  HasFittingParts-IsSendable payload fits =
      inl λ envelope. enforce_payload_limit-ok codec (variable_len payload) fits

  outbound_opaque-sent :
      (envelope : Envelope) (payload : OpaquePayload)
      → payload.type_id ≢ 0
      → length payload.bytes ≤ codec.limits.max_payload_len
      → outbound_opaque codec envelope payload ≡ ok tt
  unfolding outbound_opaque
  outbound_opaque-sent envelope payload named fits =
      rw (enforce_payload_limit-ok codec (length payload.bytes) fits) (ground (arith, named))

  opaque_of-IsSendable :
      (wire : WireEnvelope) (kind : MessageKind) (payload : OpaquePayload)
      (message : MessagePayload)
      → payload.type_id ≢ 0
      → length payload.bytes ≤ codec.limits.max_payload_len
      → opaque_of wire kind payload ≡ ok message
      → IsSendable message
  unfolding opaque_of outbound_payload
  opaque_of-IsSendable wire MessageKind.entity_state payload message named fits is =
      subst IsSendable (ok_injective is)
        (inl λ envelope. outbound_opaque-sent envelope payload named fits)
  opaque_of-IsSendable wire MessageKind.reliable_event payload message named fits is =
      subst IsSendable (ok_injective is)
        (inl λ envelope. outbound_opaque-sent envelope payload named fits)
  opaque_of-IsSendable wire MessageKind.snapshot payload message named fits is =
      subst IsSendable (ok_injective is)
        (inl λ envelope. outbound_opaque-sent envelope payload named fits)
  opaque_of-IsSendable wire kind payload message named fits is = cc

  decode_opaque-IsSendable :
      (wire : WireEnvelope) (kind : MessageKind) (message : MessagePayload)
      → decode_opaque codec wire kind ≡ ok message
      → IsSendable message
  unfolding decode_opaque
  decode_opaque-IsSendable wire kind message is =
      let empty =
        then_eq_ok
          (fail_if
            (not (wire.control_type == value_of ControlType.no_payload) || is_some wire.control)
            (control_mismatch wire kind))
          _ is in
      let named =
        then_eq_ok (fail_if (wire.payload_type_id == 0) (missing_payload_type kind)) _ empty.1 in
      let fits = then_eq_ok (enforce_payload_limit codec (vector_len wire.payload)) _ named.1 in
      opaque_of-IsSendable wire kind
        (record { type_id = wire.payload_type_id; bytes = vector_bytes wire.payload }) message
        (ground (arith, named.0))
        (vector_bytes-le codec wire.payload codec.limits.max_payload_len
          (enforce_payload_limit-le codec (vector_len wire.payload) fits.0))
        fits.1

  decode_domain-IsSendable :
      (wire : WireEnvelope) (kind : MessageKind) (message : MessagePayload)
      → decode_domain codec wire kind ≡ ok message
      → IsSendable message
  unfolding decode_domain
  decode_domain-IsSendable wire kind message is =
      let empty =
        then_eq_ok
          (fail_if (not (wire.payload_type_id == 0) || is_some wire.payload)
            (unexpected_domain_payload kind))
          _ is in
      let control = >>=-eq-ok (decode_control codec wire kind) _ empty.1 in
      subst IsSendable (ok_injective control.2) (
        HasFittingParts-IsSendable control.0
          (decode_control-Fitting codec wire kind control.0 control.1))

  decode_message-IsSendable :
      (wire : WireEnvelope) (kind : MessageKind) (message : MessagePayload)
      → decode_message codec wire kind ≡ ok message
      → IsSendable message
  unfolding decode_message
  decode_message-IsSendable wire MessageKind.entity_state message is =
      decode_opaque-IsSendable wire MessageKind.entity_state message is
  decode_message-IsSendable wire MessageKind.reliable_event message is =
      decode_opaque-IsSendable wire MessageKind.reliable_event message is
  decode_message-IsSendable wire MessageKind.snapshot message is =
      decode_opaque-IsSendable wire MessageKind.snapshot message is
  decode_message-IsSendable wire MessageKind.unknown message is = cc
  decode_message-IsSendable wire kind message is = decode_domain-IsSendable wire kind message is

  validate_outbound-sent :
      (envelope : Envelope)
      → check_version envelope.protocol_version ≡ ok tt
      → is_same envelope.delivery_class DeliveryClass.unknown ≡ false
      → validate envelope ≡ ok tt
      → outbound_payload codec envelope envelope.message ≡ ok tt
      → validate_outbound codec envelope ≡ ok tt
  unfolding validate_outbound
  validate_outbound-sent envelope version class valid fits = rw (version, class, valid, fits) refl

  known_class-known :
      (number : ℕ) (class : DeliveryClass)
      → known_class number ≡ ok class
      → is_same class DeliveryClass.unknown ≡ false
  unfolding known_class
  known_class-known number class is =
      let found = >>=-eq-ok (ok_or (from_wire number) (unknown_delivery_class number)) _ is in
      let known =
        then_eq_ok (fail_if (is_same found.0 DeliveryClass.unknown) (unknown_delivery_class number))
          _ found.2 in
      subst (λ given. is_same given DeliveryClass.unknown ≡ false) (ok_injective known.1)
        (ground (arith, known.0))

  decode_verified-sent :
      (wire : WireEnvelope) (envelope : Envelope)
      → decode_verified codec wire ≡ ok envelope
      → (validate_outbound codec envelope ≡ ok tt)
        ⊎ IsOverlong codec.limits.max_payload_len envelope.message
  unfolding decode_verified decoded_envelope
  decode_verified-sent wire envelope is =
      let version = then_eq_ok (check_version wire.protocol_version) _ is in
      let kind = >>=-eq-ok (known_kind wire.message_kind) _ version.1 in
      let class = >>=-eq-ok (known_class wire.delivery_class) _ kind.2 in
      let message = >>=-eq-ok (decode_message codec wire kind.0) _ class.2 in
      let given = decoded_envelope wire class.0 message.0 in
      let valid = then_eq_ok (validate given) _ message.2 in
      subst
        (λ (sent : Envelope).
          (validate_outbound codec sent ≡ ok tt)
          ⊎ IsOverlong codec.limits.max_payload_len sent.message)
        (ok_injective valid.1)
        (elim (decode_message-IsSendable wire kind.0 message.0 message.1) [
          | inl fits ↦ inl (
              validate_outbound-sent given version.0
                (known_class-known wire.delivery_class class.0 class.1) valid.0 (fits given))
          | inr long ↦ inr long
        ])

-- Every envelope that the codec decodes is one that it would also send, with a single exception: an inference request
-- or a proposed tool call whose two parts keep the payload limit one by one, but exceed it together.
pub decode-validate_outbound :
    (flatbuffers : Flatbuffers) (codec : Codec) (frame : List ℕ) (envelope : Envelope)
    → decode flatbuffers codec frame ≡ ok envelope
    → (validate_outbound codec envelope ≡ ok tt)
      ⊎ IsOverlong codec.limits.max_payload_len envelope.message
decode-validate_outbound flatbuffers codec frame envelope decodes =
    let passed = (decode-passed flatbuffers codec frame envelope decodes).2 in
    decode_verified-sent codec passed.0 envelope passed.2
