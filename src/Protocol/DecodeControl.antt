-- ===== src/Protocol/DecodeControl.antt =====
-- `decode_control` of crates/woven-protocol/src/codec.rs.
use signalweave.Prelude.{err, Result}
use signalweave.Protocol.Kinds.{MessageKind, message_kind_numeric}
use signalweave.Protocol.Codes.{
  authentication_scheme_numeric, subscription_rejection_code_numeric, entity_leave_reason_numeric,
  protocol_error_code_numeric, tool_call_rejection_code_numeric,
}
use signalweave.Protocol.Model.{ControlPayload}
use signalweave.Protocol.Wire.{ControlType, WireEnvelope}
use signalweave.Protocol.Limits.{Codec, CodecError, control_mismatch}
use signalweave.Protocol.Checked.{typed_control, nonzero}
use signalweave.Protocol.Accessors.{
  control_as_hello, control_as_capabilities, control_as_authenticate, control_as_authenticated,
  control_as_join_session, control_as_leave_session, control_as_subscribe_space,
  control_as_unsubscribe_space, control_as_subscription_accepted, control_as_subscription_rejected,
  control_as_entity_entered, control_as_entity_left, control_as_snapshot_request,
  control_as_space_transition, control_as_ping, control_as_pong, control_as_protocol_error,
  control_as_inference_requested, control_as_inference_accepted, control_as_inference_progress,
  control_as_inference_stream_chunk, control_as_inference_completed, control_as_inference_failed,
  control_as_inference_cancelled, control_as_inference_expired, control_as_tool_call_proposed,
  control_as_tool_call_accepted, control_as_tool_call_rejected, control_as_tool_call_completed,
}
use signalweave.Protocol.DecodeTables.{
  decode_hello, decode_capabilities, decode_authenticate, decode_authenticated, decode_join_session,
  decode_leave_session, decode_subscribe_space, decode_unsubscribe_space,
  decode_subscription_accepted, decode_subscription_rejected, decode_entity_entered,
  decode_entity_left, decode_snapshot_request, decode_space_transition, decode_ping, decode_pong,
  decode_protocol_error, decode_inference_requested, decode_inference_accepted,
  decode_inference_progress, decode_inference_stream_chunk, decode_inference_completed,
  decode_inference_failed, decode_inference_cancelled, decode_inference_expired,
  decode_tool_call_proposed, decode_tool_call_accepted, decode_tool_call_rejected,
  decode_tool_call_completed,
}

unfoldable pub decode_control :
    Codec → WireEnvelope → MessageKind → Result CodecError ControlPayload
unfolding typed_control nonzero decode_hello decode_capabilities decode_authenticate
    decode_authenticated decode_join_session decode_leave_session decode_subscribe_space
    decode_unsubscribe_space decode_subscription_accepted decode_subscription_rejected
    decode_entity_entered decode_entity_left decode_snapshot_request decode_space_transition
    decode_ping decode_pong decode_protocol_error decode_inference_requested
    decode_inference_accepted decode_inference_progress decode_inference_stream_chunk
    decode_inference_completed decode_inference_failed decode_inference_cancelled
    decode_inference_expired decode_tool_call_proposed decode_tool_call_accepted
    decode_tool_call_rejected decode_tool_call_completed control_as_hello control_as_capabilities
    control_as_authenticate control_as_authenticated control_as_join_session
    control_as_leave_session control_as_subscribe_space control_as_unsubscribe_space
    control_as_subscription_accepted control_as_subscription_rejected control_as_entity_entered
    control_as_entity_left control_as_snapshot_request control_as_space_transition control_as_ping
    control_as_pong control_as_protocol_error control_as_inference_requested
    control_as_inference_accepted control_as_inference_progress control_as_inference_stream_chunk
    control_as_inference_completed control_as_inference_failed control_as_inference_cancelled
    control_as_inference_expired control_as_tool_call_proposed control_as_tool_call_accepted
    control_as_tool_call_rejected control_as_tool_call_completed
decode_control codec envelope MessageKind.hello =
    typed_control envelope MessageKind.hello ControlType.hello_payload control_as_hello
      (decode_hello codec envelope)
decode_control codec envelope MessageKind.capabilities =
    typed_control envelope MessageKind.capabilities ControlType.capabilities_payload
      control_as_capabilities (decode_capabilities codec envelope)
decode_control codec envelope MessageKind.authenticate =
    typed_control envelope MessageKind.authenticate ControlType.authenticate_payload
      control_as_authenticate (decode_authenticate codec envelope)
decode_control codec envelope MessageKind.authenticated =
    typed_control envelope MessageKind.authenticated ControlType.authenticated_payload
      control_as_authenticated (decode_authenticated codec envelope)
decode_control codec envelope MessageKind.join_session =
    typed_control envelope MessageKind.join_session ControlType.join_session_payload
      control_as_join_session (decode_join_session codec envelope)
decode_control codec envelope MessageKind.leave_session =
    typed_control envelope MessageKind.leave_session ControlType.leave_session_payload
      control_as_leave_session (decode_leave_session codec envelope)
decode_control codec envelope MessageKind.subscribe_space =
    typed_control envelope MessageKind.subscribe_space ControlType.subscribe_space_payload
      control_as_subscribe_space (decode_subscribe_space codec envelope)
decode_control codec envelope MessageKind.unsubscribe_space =
    typed_control envelope MessageKind.unsubscribe_space ControlType.unsubscribe_space_payload
      control_as_unsubscribe_space (decode_unsubscribe_space codec envelope)
decode_control codec envelope MessageKind.subscription_accepted =
    typed_control envelope MessageKind.subscription_accepted
      ControlType.subscription_accepted_payload control_as_subscription_accepted
      (decode_subscription_accepted codec envelope)
decode_control codec envelope MessageKind.subscription_rejected =
    typed_control envelope MessageKind.subscription_rejected
      ControlType.subscription_rejected_payload control_as_subscription_rejected
      (decode_subscription_rejected codec envelope)
decode_control codec envelope MessageKind.entity_entered =
    typed_control envelope MessageKind.entity_entered ControlType.entity_entered_payload
      control_as_entity_entered (decode_entity_entered codec envelope)
decode_control codec envelope MessageKind.entity_left =
    typed_control envelope MessageKind.entity_left ControlType.entity_left_payload
      control_as_entity_left (decode_entity_left codec envelope)
decode_control codec envelope MessageKind.snapshot_request =
    typed_control envelope MessageKind.snapshot_request ControlType.snapshot_request_payload
      control_as_snapshot_request (decode_snapshot_request codec envelope)
decode_control codec envelope MessageKind.space_transition =
    typed_control envelope MessageKind.space_transition ControlType.space_transition_payload
      control_as_space_transition (decode_space_transition codec envelope)
decode_control codec envelope MessageKind.ping =
    typed_control envelope MessageKind.ping ControlType.ping_payload control_as_ping
      (decode_ping codec envelope)
decode_control codec envelope MessageKind.pong =
    typed_control envelope MessageKind.pong ControlType.pong_payload control_as_pong
      (decode_pong codec envelope)
decode_control codec envelope MessageKind.protocol_error =
    typed_control envelope MessageKind.protocol_error ControlType.protocol_error_payload
      control_as_protocol_error (decode_protocol_error codec envelope)
decode_control codec envelope MessageKind.inference_requested =
    typed_control envelope MessageKind.inference_requested ControlType.inference_requested_payload
      control_as_inference_requested (decode_inference_requested codec envelope)
decode_control codec envelope MessageKind.inference_accepted =
    typed_control envelope MessageKind.inference_accepted ControlType.inference_accepted_payload
      control_as_inference_accepted (decode_inference_accepted codec envelope)
decode_control codec envelope MessageKind.inference_progress =
    typed_control envelope MessageKind.inference_progress ControlType.inference_progress_payload
      control_as_inference_progress (decode_inference_progress codec envelope)
decode_control codec envelope MessageKind.inference_stream_chunk =
    typed_control envelope MessageKind.inference_stream_chunk
      ControlType.inference_stream_chunk_payload control_as_inference_stream_chunk
      (decode_inference_stream_chunk codec envelope)
decode_control codec envelope MessageKind.inference_completed =
    typed_control envelope MessageKind.inference_completed ControlType.inference_completed_payload
      control_as_inference_completed (decode_inference_completed codec envelope)
decode_control codec envelope MessageKind.inference_failed =
    typed_control envelope MessageKind.inference_failed ControlType.inference_failed_payload
      control_as_inference_failed (decode_inference_failed codec envelope)
decode_control codec envelope MessageKind.inference_cancelled =
    typed_control envelope MessageKind.inference_cancelled ControlType.inference_cancelled_payload
      control_as_inference_cancelled (decode_inference_cancelled codec envelope)
decode_control codec envelope MessageKind.inference_expired =
    typed_control envelope MessageKind.inference_expired ControlType.inference_expired_payload
      control_as_inference_expired (decode_inference_expired codec envelope)
decode_control codec envelope MessageKind.tool_call_proposed =
    typed_control envelope MessageKind.tool_call_proposed ControlType.tool_call_proposed_payload
      control_as_tool_call_proposed (decode_tool_call_proposed codec envelope)
decode_control codec envelope MessageKind.tool_call_accepted =
    typed_control envelope MessageKind.tool_call_accepted ControlType.tool_call_accepted_payload
      control_as_tool_call_accepted (decode_tool_call_accepted codec envelope)
decode_control codec envelope MessageKind.tool_call_rejected =
    typed_control envelope MessageKind.tool_call_rejected ControlType.tool_call_rejected_payload
      control_as_tool_call_rejected (decode_tool_call_rejected codec envelope)
decode_control codec envelope MessageKind.tool_call_completed =
    typed_control envelope MessageKind.tool_call_completed ControlType.tool_call_completed_payload
      control_as_tool_call_completed (decode_tool_call_completed codec envelope)
decode_control codec envelope MessageKind.unknown =
    err (control_mismatch envelope MessageKind.unknown)
decode_control codec envelope MessageKind.entity_state =
    err (control_mismatch envelope MessageKind.entity_state)
decode_control codec envelope MessageKind.reliable_event =
    err (control_mismatch envelope MessageKind.reliable_event)
decode_control codec envelope MessageKind.snapshot =
    err (control_mismatch envelope MessageKind.snapshot)
