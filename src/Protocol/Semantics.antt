-- ===== src/Protocol/Semantics.antt =====
-- crates/woven-protocol/src/semantics.rs: which envelopes are meaningful.
pub mod Scopes
pub mod Delivery
use signalweave.Prelude.{
  ℕ, Bool, true, false, not, ◌||◌, ◌==◌, if◌then◌else◌, Result, ok, err, ◌>>◌, ◌>>=◌,
}
use signalweave.Protocol.Numeric.{is_same}
use signalweave.Protocol.Kinds.{MessageKind, DeliveryClass, delivery_class_numeric}
use signalweave.Protocol.Codes.{
  SubscriptionRejectionCode, EntityLeaveReason, subscription_rejection_code_numeric,
  entity_leave_reason_numeric,
}
use signalweave.Protocol.Model.{Envelope, ControlPayload, MessagePayload, message_kind}
use signalweave.Protocol.Limits.{CodecError}
use signalweave.Protocol.Scope.{
  invalid, reject_if, require, reject_zero_option, reject_zero_optional_ids, require_unscoped,
  require_session_scope, require_space_scope,
}
use signalweave.Protocol.Contents.{
  validate_hello, validate_capabilities, validate_authenticate, validate_snapshot_request,
  validate_transition, validate_protocol_error, validate_inference_control,
}

unfoldable pub validate_control : Envelope → ControlPayload → Result CodecError (Unit {0})
unfolding invalid reject_if require reject_zero_option require_unscoped require_session_scope
    require_space_scope is_same
validate_control envelope (ControlPayload.hello value) = do
  require_unscoped envelope
  validate_hello envelope value
validate_control envelope (ControlPayload.capabilities value) = do
  require_unscoped envelope
  validate_capabilities envelope value
validate_control envelope (ControlPayload.authenticate value) = do
  require_unscoped envelope
  validate_authenticate envelope value
validate_control envelope (ControlPayload.authenticated value) = do
  require_unscoped envelope
  require value.principal_id envelope "authenticated principal_id must be non-zero"
  reject_zero_option value.assigned_entity_id envelope "assigned_entity_id cannot be Some(0)"
validate_control envelope (ControlPayload.join_session _) = require_session_scope envelope
validate_control envelope (ControlPayload.leave_session _) = require_session_scope envelope
validate_control envelope ControlPayload.subscribe_space = require_space_scope envelope true false
validate_control envelope (ControlPayload.unsubscribe_space value) = do
  require_space_scope envelope true false
  require value.subscription_id envelope "subscription_id must be non-zero"
validate_control envelope (ControlPayload.subscription_accepted value) = do
  require_space_scope envelope true false
  require value.subscription_id envelope "subscription_id must be non-zero"
  require value.accepted_space_epoch envelope "accepted_space_epoch must be non-zero"
  reject_if (not (value.accepted_space_epoch == envelope.space_epoch)) envelope
      "accepted_space_epoch must match envelope space_epoch"
validate_control envelope (ControlPayload.subscription_rejected value) = do
  require_space_scope envelope true false
  reject_if (is_same value.code SubscriptionRejectionCode.unknown) envelope
      "subscription rejection code cannot be Unknown"
validate_control envelope (ControlPayload.entity_entered value) = do
  require_space_scope envelope false true
  reject_zero_option value.owner_entity_id envelope "owner_entity_id cannot be Some(0)"
validate_control envelope (ControlPayload.entity_left value) = do
  require_space_scope envelope false true
  reject_if (is_same value.reason EntityLeaveReason.unknown) envelope
      "entity leave reason cannot be Unknown"
validate_control envelope (ControlPayload.snapshot_request value) = do
  require_space_scope envelope true false
  validate_snapshot_request envelope value
validate_control envelope (ControlPayload.space_transition value) =
    validate_transition envelope value
validate_control envelope (ControlPayload.ping value) = do
  require_unscoped envelope
  require value.nonce envelope "ping nonce must be non-zero"
validate_control envelope (ControlPayload.pong value) = do
  require_unscoped envelope
  require value.nonce envelope "pong nonce must be non-zero"
validate_control envelope (ControlPayload.protocol_error value) =
    validate_protocol_error envelope value
validate_control envelope inference = validate_inference_control envelope inference

unfoldable pub is_deliverable : MessageKind → DeliveryClass → Bool
unfolding is_same
is_deliverable MessageKind.entity_state class =
    is_same class DeliveryClass.latest_value || is_same class DeliveryClass.unreliable_sequenced
is_deliverable MessageKind.reliable_event class =
    is_same class DeliveryClass.reliable_ordered || is_same class DeliveryClass.reliable_unordered
is_deliverable MessageKind.ping class = is_same class DeliveryClass.reliable_unordered
is_deliverable MessageKind.pong class = is_same class DeliveryClass.reliable_unordered
is_deliverable MessageKind.inference_progress class = is_same class DeliveryClass.best_effort_event
is_deliverable MessageKind.inference_stream_chunk class =
    is_same class DeliveryClass.best_effort_event
is_deliverable MessageKind.unknown class = false
is_deliverable _ class = is_same class DeliveryClass.reliable_ordered

unfoldable pub validate_delivery : Envelope → Result CodecError (Unit {0})
unfolding is_deliverable message_kind invalid
validate_delivery envelope =
    if is_deliverable (message_kind envelope) envelope.delivery_class
    then ok tt
    else invalid envelope "delivery class is incompatible with the message kind"

unfoldable pub validate_message : Envelope → MessagePayload → Result CodecError (Unit {0})
unfolding require require_space_scope
validate_message envelope (MessagePayload.control control) = validate_control envelope control
validate_message envelope (MessagePayload.entity_state payload) = do
  require_space_scope envelope true true
  require payload.type_id envelope "payload_type_id must be non-zero"
validate_message envelope (MessagePayload.reliable_event payload) = do
  require_space_scope envelope true false
  require payload.type_id envelope "payload_type_id must be non-zero"
validate_message envelope (MessagePayload.snapshot payload) = do
  require_space_scope envelope true false
  require payload.type_id envelope "payload_type_id must be non-zero"

unfoldable pub validate : Envelope → Result CodecError (Unit {0})
unfolding reject_zero_optional_ids validate_delivery validate_message
validate envelope = do
  reject_zero_optional_ids envelope
  validate_delivery envelope
  validate_message envelope envelope.message
