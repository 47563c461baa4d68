-- ===== src/Protocol/Codec/BoundedControl.antt =====
-- How long the parts of a control message are that crates/woven-protocol/src/codec.rs decodes.
use signalweave.Prelude.{Option, Result, >>=-eq-ok, then_eq_ok, ok_or}
use signalweave.Protocol.Kinds.{MessageKind, message_kind_numeric}
use signalweave.Protocol.Codes.{
  authentication_scheme_numeric, subscription_rejection_code_numeric, entity_leave_reason_numeric,
  protocol_error_code_numeric, tool_call_rejection_code_numeric,
}
use signalweave.Protocol.Model.{ControlPayload, variable_len}
use signalweave.Protocol.Wire.{WireEnvelope, ControlTable, ControlType}
use signalweave.Protocol.Limits.{Codec, CodecError, control_mismatch}
use signalweave.Protocol.Checked.{typed_control, require_control}
use signalweave.Protocol.DecodeControl.{decode_control}
use signalweave.Protocol.Accessors.{
  control_as_hello, control_as_capabilities, control_as_authenticate, control_as_authenticated,
  control_as_join_session, control_as_leave_session, control_as_subscribe_space,
  control_as_unsubscribe_space, control_as_subscription_accepted, control_as_subscription_rejected,
  control_as_entity_entered, control_as_entity_left, control_as_snapshot_request,
  control_as_space_transition, control_as_ping, control_as_pong, control_as_protocol_error,
  control_as_inference_requested, control_as_inference_accepted, control_as_inference_progress,
  control_as_inference_stream_chunk, control_as_inference_completed, control_as_inference_failed,
  control_as_inference_cancelled, control_as_inference_expired, control_as_tool_call_proposed,
  control_as_tool_call_accepted, control_as_tool_call_rejected, control_as_tool_call_completed,
}
use signalweave.Protocol.Codec.Bounded.{
  Returns, Fitting, decode_hello-Fitting, decode_capabilities-Fitting, decode_authenticate-Fitting,
  decode_authenticated-Fitting, decode_join_session-Fitting, decode_leave_session-Fitting,
  decode_subscribe_space-Fitting, decode_unsubscribe_space-Fitting,
  decode_subscription_accepted-Fitting, decode_subscription_rejected-Fitting,
  decode_entity_entered-Fitting, decode_entity_left-Fitting, decode_snapshot_request-Fitting,
  decode_space_transition-Fitting, decode_ping-Fitting, decode_pong-Fitting,
  decode_protocol_error-Fitting, decode_inference_requested-Fitting,
  decode_inference_accepted-Fitting, decode_inference_progress-Fitting,
  decode_inference_stream_chunk-Fitting, decode_inference_completed-Fitting,
  decode_inference_failed-Fitting, decode_inference_cancelled-Fitting,
  decode_inference_expired-Fitting, decode_tool_call_proposed-Fitting,
  decode_tool_call_accepted-Fitting, decode_tool_call_rejected-Fitting,
  decode_tool_call_completed-Fitting,
}

typed_control-Returns :
    {T : Type 0} (envelope : WireEnvelope) (kind : MessageKind) (expected : ControlType)
    (accessor : ControlTable → Option T) (decode : T → Result CodecError ControlPayload)
    (P : ControlPayload → Type 0)
    → ((table : T) → Returns P (decode table))
    → Returns P (typed_control envelope kind expected accessor decode)
unfolding typed_control
typed_control-Returns envelope kind expected accessor decode P each payload is =
    let mismatch = control_mismatch envelope kind in
    let required = then_eq_ok (require_control envelope kind expected) _ is in
    let present = >>=-eq-ok (ok_or envelope.control mismatch) _ required.1 in
    let typed = >>=-eq-ok (ok_or (accessor present.0) mismatch) decode present.2 in
    each typed.0 payload typed.2

module _ (codec : Codec) (envelope : WireEnvelope) where
  pub decode_control-Fitting :
      (kind : MessageKind) → Returns (Fitting codec) (decode_control codec envelope kind)
  unfolding decode_control variable_len
  decode_control-Fitting MessageKind.hello =
      typed_control-Returns envelope MessageKind.hello ControlType.hello_payload control_as_hello _
        (Fitting codec) (decode_hello-Fitting codec envelope)
  decode_control-Fitting MessageKind.capabilities =
      typed_control-Returns envelope MessageKind.capabilities ControlType.capabilities_payload
        control_as_capabilities _ (Fitting codec) (decode_capabilities-Fitting codec envelope)
  decode_control-Fitting MessageKind.authenticate =
      typed_control-Returns envelope MessageKind.authenticate ControlType.authenticate_payload
        control_as_authenticate _ (Fitting codec) (decode_authenticate-Fitting codec envelope)
  decode_control-Fitting MessageKind.authenticated =
      typed_control-Returns envelope MessageKind.authenticated ControlType.authenticated_payload
        control_as_authenticated _ (Fitting codec) (decode_authenticated-Fitting codec envelope)
  decode_control-Fitting MessageKind.join_session =
      typed_control-Returns envelope MessageKind.join_session ControlType.join_session_payload
        control_as_join_session _ (Fitting codec) (decode_join_session-Fitting codec envelope)
  decode_control-Fitting MessageKind.leave_session =
      typed_control-Returns envelope MessageKind.leave_session ControlType.leave_session_payload
        control_as_leave_session _ (Fitting codec) (decode_leave_session-Fitting codec envelope)
  decode_control-Fitting MessageKind.subscribe_space =
      typed_control-Returns envelope MessageKind.subscribe_space ControlType.subscribe_space_payload
        control_as_subscribe_space _ (Fitting codec) (decode_subscribe_space-Fitting codec envelope)
  decode_control-Fitting MessageKind.unsubscribe_space =
      typed_control-Returns envelope MessageKind.unsubscribe_space
        ControlType.unsubscribe_space_payload control_as_unsubscribe_space _ (Fitting codec)
        (decode_unsubscribe_space-Fitting codec envelope)
  decode_control-Fitting MessageKind.subscription_accepted =
      typed_control-Returns envelope MessageKind.subscription_accepted
        ControlType.subscription_accepted_payload control_as_subscription_accepted _ (Fitting codec)
        (decode_subscription_accepted-Fitting codec envelope)
  decode_control-Fitting MessageKind.subscription_rejected =
      typed_control-Returns envelope MessageKind.subscription_rejected
        ControlType.subscription_rejected_payload control_as_subscription_rejected _ (Fitting codec)
        (decode_subscription_rejected-Fitting codec envelope)
  decode_control-Fitting MessageKind.entity_entered =
      typed_control-Returns envelope MessageKind.entity_entered ControlType.entity_entered_payload
        control_as_entity_entered _ (Fitting codec) (decode_entity_entered-Fitting codec envelope)
  decode_control-Fitting MessageKind.entity_left =
      typed_control-Returns envelope MessageKind.entity_left ControlType.entity_left_payload
        control_as_entity_left _ (Fitting codec) (decode_entity_left-Fitting codec envelope)
  decode_control-Fitting MessageKind.snapshot_request =
      typed_control-Returns envelope MessageKind.snapshot_request
        ControlType.snapshot_request_payload control_as_snapshot_request _ (Fitting codec)
        (decode_snapshot_request-Fitting codec envelope)
  decode_control-Fitting MessageKind.space_transition =
      typed_control-Returns envelope MessageKind.space_transition
        ControlType.space_transition_payload control_as_space_transition _ (Fitting codec)
        (decode_space_transition-Fitting codec envelope)
  decode_control-Fitting MessageKind.ping =
      typed_control-Returns envelope MessageKind.ping ControlType.ping_payload control_as_ping _
        (Fitting codec) (decode_ping-Fitting codec envelope)
  decode_control-Fitting MessageKind.pong =
      typed_control-Returns envelope MessageKind.pong ControlType.pong_payload control_as_pong _
        (Fitting codec) (decode_pong-Fitting codec envelope)
  decode_control-Fitting MessageKind.protocol_error =
      typed_control-Returns envelope MessageKind.protocol_error ControlType.protocol_error_payload
        control_as_protocol_error _ (Fitting codec) (decode_protocol_error-Fitting codec envelope)
  decode_control-Fitting MessageKind.inference_requested =
      typed_control-Returns envelope MessageKind.inference_requested
        ControlType.inference_requested_payload control_as_inference_requested _ (Fitting codec)
        (decode_inference_requested-Fitting codec envelope)
  decode_control-Fitting MessageKind.inference_accepted =
      typed_control-Returns envelope MessageKind.inference_accepted
        ControlType.inference_accepted_payload control_as_inference_accepted _ (Fitting codec)
        (decode_inference_accepted-Fitting codec envelope)
  decode_control-Fitting MessageKind.inference_progress =
      typed_control-Returns envelope MessageKind.inference_progress
        ControlType.inference_progress_payload control_as_inference_progress _ (Fitting codec)
        (decode_inference_progress-Fitting codec envelope)
  decode_control-Fitting MessageKind.inference_stream_chunk =
      typed_control-Returns envelope MessageKind.inference_stream_chunk
        ControlType.inference_stream_chunk_payload control_as_inference_stream_chunk _
        (Fitting codec) (decode_inference_stream_chunk-Fitting codec envelope)
  decode_control-Fitting MessageKind.inference_completed =
      typed_control-Returns envelope MessageKind.inference_completed
        ControlType.inference_completed_payload control_as_inference_completed _ (Fitting codec)
        (decode_inference_completed-Fitting codec envelope)
  decode_control-Fitting MessageKind.inference_failed =
      typed_control-Returns envelope MessageKind.inference_failed
        ControlType.inference_failed_payload control_as_inference_failed _ (Fitting codec)
        (decode_inference_failed-Fitting codec envelope)
  decode_control-Fitting MessageKind.inference_cancelled =
      typed_control-Returns envelope MessageKind.inference_cancelled
        ControlType.inference_cancelled_payload control_as_inference_cancelled _ (Fitting codec)
        (decode_inference_cancelled-Fitting codec envelope)
  decode_control-Fitting MessageKind.inference_expired =
      typed_control-Returns envelope MessageKind.inference_expired
        ControlType.inference_expired_payload control_as_inference_expired _ (Fitting codec)
        (decode_inference_expired-Fitting codec envelope)
  decode_control-Fitting MessageKind.tool_call_proposed =
      typed_control-Returns envelope MessageKind.tool_call_proposed
        ControlType.tool_call_proposed_payload control_as_tool_call_proposed _ (Fitting codec)
        (decode_tool_call_proposed-Fitting codec envelope)
  decode_control-Fitting MessageKind.tool_call_accepted =
      typed_control-Returns envelope MessageKind.tool_call_accepted
        ControlType.tool_call_accepted_payload control_as_tool_call_accepted _ (Fitting codec)
        (decode_tool_call_accepted-Fitting codec envelope)
  decode_control-Fitting MessageKind.tool_call_rejected =
      typed_control-Returns envelope MessageKind.tool_call_rejected
        ControlType.tool_call_rejected_payload control_as_tool_call_rejected _ (Fitting codec)
        (decode_tool_call_rejected-Fitting codec envelope)
  decode_control-Fitting MessageKind.tool_call_completed =
      typed_control-Returns envelope MessageKind.tool_call_completed
        ControlType.tool_call_completed_payload control_as_tool_call_completed _ (Fitting codec)
        (decode_tool_call_completed-Fitting codec envelope)
  decode_control-Fitting _ = λ payload is. cc
