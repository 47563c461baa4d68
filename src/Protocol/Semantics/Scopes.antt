-- ===== src/Protocol/Semantics/Scopes.antt =====
-- The scope of the envelopes that crates/woven-protocol/src/semantics.rs accepts.
use signalweave.Prelude.{
  ℕ, ◌≡◌, ◌≢◌, ◌⊎◌, inr, Bool, true, false, none, Result, ok, ◌>>◌, then_eq_ok, arith, String,
}
use signalweave.Protocol.Numeric.{is_same}
use signalweave.Protocol.Kinds.{MessageKind, message_kind_numeric}
use signalweave.Protocol.Codes.{ProtocolErrorCode, protocol_error_code_numeric}
use signalweave.Protocol.Payloads.{ProtocolError}
use signalweave.Protocol.Model.{Envelope, ControlPayload, MessagePayload}
use signalweave.Protocol.Limits.{CodecError}
use signalweave.Protocol.Scope.{
  require, reject_if, reject_zero_optional_ids, require_unscoped, require_session_scope,
  require_space_scope, validate_optional_scope,
}
use signalweave.Protocol.Contents.{
  validate_transition, validate_protocol_error, validate_inference_control,
}
use signalweave.Protocol.Semantics.{validate, validate_control, validate_message, validate_delivery}

-- A session lies in a namespace, a space in a session, and a channel, an entity or an epoch in a space.
abbrev pub IsNested : Envelope → Type 0
IsNested envelope =
    ((envelope.session_id ≡ 0) ⊎ (envelope.namespace_id ≢ 0))
    × ((envelope.space_id ≡ 0) ⊎ (envelope.session_id ≢ 0))
    × (((envelope.channel_id ≡ none) × (envelope.entity_id ≡ none) × (envelope.space_epoch ≡ 0))
        ⊎ (envelope.space_id ≢ 0))

module _ (envelope : Envelope) where
  require_unscoped-IsNested : require_unscoped envelope ≡ ok tt → IsNested envelope
  unfolding require_unscoped
  require_unscoped-IsNested passed = ground arith

  require_session_scope-IsNested : require_session_scope envelope ≡ ok tt → IsNested envelope
  unfolding require_session_scope
  require_session_scope-IsNested passed = ground arith

  require-nonzero : (n : ℕ) (reason : String) → require n envelope reason ≡ ok tt → n ≢ 0
  unfolding require
  require-nonzero n reason passed = ground arith

  require_space_scope-IsNested :
      (channel entity : Bool)
      → require_space_scope envelope channel entity ≡ ok tt
      → IsNested envelope
  unfolding require_space_scope
  require_space_scope-IsNested channel entity passed =
      let namespace = then_eq_ok (require envelope.namespace_id envelope _) _ passed in
      let session = then_eq_ok (require envelope.session_id envelope _) _ namespace.1 in
      let space = then_eq_ok (require envelope.space_id envelope _) _ session.1 in
      (
        inr (require-nonzero envelope.namespace_id _ namespace.0),
        inr (require-nonzero envelope.session_id _ session.0),
        inr (require-nonzero envelope.space_id _ space.0),
      )

  validate_optional_scope-IsNested : validate_optional_scope envelope ≡ ok tt → IsNested envelope
  unfolding validate_optional_scope
  validate_optional_scope-IsNested passed = ground arith

  validate_protocol_error-IsNested :
      (value : ProtocolError) → validate_protocol_error envelope value ≡ ok tt → IsNested envelope
  unfolding validate_protocol_error
  validate_protocol_error-IsNested value passed =
      validate_optional_scope-IsNested
        (then_eq_ok (reject_if (is_same value.related_message_kind MessageKind.unknown) envelope _)
          _
          (then_eq_ok (reject_if (is_same value.code ProtocolErrorCode.unknown) envelope _) _
            passed).1).1

  -- A check of the scope that stands first.
  space_first :
      (channel entity : Bool) (k : Result CodecError (Unit {0}))
      → (require_space_scope envelope channel entity >> k) ≡ ok tt
      → IsNested envelope
  space_first channel entity k passed =
      require_space_scope-IsNested channel entity
        (then_eq_ok (require_space_scope envelope channel entity) k passed).0

  unscoped_first :
      (k : Result CodecError (Unit {0}))
      → (require_unscoped envelope >> k) ≡ ok tt
      → IsNested envelope
  unscoped_first k passed =
      require_unscoped-IsNested (then_eq_ok (require_unscoped envelope) k passed).0

  validate_control-IsNested :
      (control : ControlPayload) → validate_control envelope control ≡ ok tt → IsNested envelope
  unfolding validate_control validate_transition validate_inference_control
  validate_control-IsNested (ControlPayload.hello value) passed = unscoped_first _ passed
  validate_control-IsNested (ControlPayload.capabilities value) passed = unscoped_first _ passed
  validate_control-IsNested (ControlPayload.authenticate value) passed = unscoped_first _ passed
  validate_control-IsNested (ControlPayload.authenticated value) passed = unscoped_first _ passed
  validate_control-IsNested (ControlPayload.ping value) passed = unscoped_first _ passed
  validate_control-IsNested (ControlPayload.pong value) passed = unscoped_first _ passed
  validate_control-IsNested (ControlPayload.join_session value) passed =
      require_session_scope-IsNested passed
  validate_control-IsNested (ControlPayload.leave_session value) passed =
      require_session_scope-IsNested passed
  validate_control-IsNested ControlPayload.subscribe_space passed =
      require_space_scope-IsNested true false passed
  validate_control-IsNested (ControlPayload.unsubscribe_space value) passed =
      space_first true false _ passed
  validate_control-IsNested (ControlPayload.subscription_accepted value) passed =
      space_first true false _ passed
  validate_control-IsNested (ControlPayload.subscription_rejected value) passed =
      space_first true false _ passed
  validate_control-IsNested (ControlPayload.entity_entered value) passed =
      space_first false true _ passed
  validate_control-IsNested (ControlPayload.entity_left value) passed =
      space_first false true _ passed
  validate_control-IsNested (ControlPayload.snapshot_request value) passed =
      space_first true false _ passed
  validate_control-IsNested (ControlPayload.space_transition value) passed =
      space_first false true _ passed
  validate_control-IsNested (ControlPayload.inference_requested value) passed =
      space_first false true _ passed
  validate_control-IsNested (ControlPayload.inference_accepted value) passed =
      space_first false true _ passed
  validate_control-IsNested (ControlPayload.inference_progress value) passed =
      space_first false true _ passed
  validate_control-IsNested (ControlPayload.inference_stream_chunk value) passed =
      space_first false true _ passed
  validate_control-IsNested (ControlPayload.inference_completed value) passed =
      space_first false true _ passed
  validate_control-IsNested (ControlPayload.inference_failed value) passed =
      space_first false true _ passed
  validate_control-IsNested (ControlPayload.inference_cancelled value) passed =
      space_first false true _ passed
  validate_control-IsNested (ControlPayload.inference_expired value) passed =
      space_first false true _ passed
  validate_control-IsNested (ControlPayload.tool_call_proposed value) passed =
      space_first false true _ passed
  validate_control-IsNested (ControlPayload.tool_call_accepted value) passed =
      space_first false true _ passed
  validate_control-IsNested (ControlPayload.tool_call_rejected value) passed =
      space_first false true _ passed
  validate_control-IsNested (ControlPayload.tool_call_completed value) passed =
      space_first false true _ passed
  validate_control-IsNested (ControlPayload.protocol_error value) passed =
      validate_protocol_error-IsNested value passed

  validate_message-IsNested :
      (message : MessagePayload) → validate_message envelope message ≡ ok tt → IsNested envelope
  unfolding validate_message
  validate_message-IsNested (MessagePayload.control control) passed =
      validate_control-IsNested control passed
  validate_message-IsNested (MessagePayload.entity_state payload) passed =
      space_first true true _ passed
  validate_message-IsNested (MessagePayload.reliable_event payload) passed =
      space_first true false _ passed
  validate_message-IsNested (MessagePayload.snapshot payload) passed =
      space_first true false _ passed

-- The scope of every envelope that passes the validation is nested, whatever its message: it names a namespace if it
-- names a session, a session if it names a space, and a space if it has a channel, an entity or an epoch.
pub validate-IsNested : (envelope : Envelope) → validate envelope ≡ ok tt → IsNested envelope
unfolding validate
validate-IsNested envelope passed =
    let ids = then_eq_ok (reject_zero_optional_ids envelope) _ passed in
    validate_message-IsNested envelope envelope.message
      (then_eq_ok (validate_delivery envelope) _ ids.1).1
