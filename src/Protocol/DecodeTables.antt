-- ===== src/Protocol/DecodeTables.antt =====
-- the cases of `decode_control` in crates/woven-protocol/src/codec.rs.
use signalweave.Prelude.{ok, ◌>>=◌, ◌>>◌, Result, or_default}
use signalweave.Protocol.Kinds.{MessageKind, message_kind_numeric}
use signalweave.Protocol.Codes.{
  authentication_scheme_numeric, subscription_rejection_code_numeric, entity_leave_reason_numeric,
  protocol_error_code_numeric, tool_call_rejection_code_numeric,
}
use signalweave.Protocol.Model.{ControlPayload}
use signalweave.Protocol.Tables.{
  HelloPayload, CapabilitiesPayload, AuthenticatePayload, AuthenticatedPayload, JoinSessionPayload,
  LeaveSessionPayload, SubscribeSpacePayload, UnsubscribeSpacePayload, SubscriptionAcceptedPayload,
  SubscriptionRejectedPayload, EntityEnteredPayload, EntityLeftPayload, SnapshotRequestPayload,
  SpaceTransitionPayload, PingPayload, PongPayload, ProtocolErrorPayload, InferenceRequestedPayload,
  InferenceAcceptedPayload, InferenceProgressPayload, InferenceStreamChunkPayload,
  InferenceCompletedPayload, InferenceFailedPayload, InferenceCancelledPayload,
  InferenceExpiredPayload, ToolCallProposedPayload, ToolCallAcceptedPayload,
  ToolCallRejectedPayload, ToolCallCompletedPayload,
}
use signalweave.Protocol.Wire.{WireEnvelope}
use signalweave.Protocol.Limits.{Codec, CodecError}
use signalweave.Protocol.Checked.{
  checked_control_strings, checked_control_string, checked_control_vector, require_channel_mirror,
  supported, nonzero,
}

unfoldable pub decode_hello : Codec → WireEnvelope → HelloPayload → Result CodecError ControlPayload
unfolding checked_control_strings checked_control_string checked_control_vector
    require_channel_mirror supported nonzero
decode_hello codec envelope table = do
  names ←
      checked_control_strings codec (or_default table.client_name "")
        (or_default table.client_version "")
  ok (
      ControlPayload.hello (record {
        min_protocol_version = table.min_protocol_version;
        max_protocol_version = table.max_protocol_version;
        client_name = names.0;
        client_version = names.1;
        capability_bits = table.capability_bits;
        max_frame_size = table.max_frame_size;
        max_payload_size = table.max_payload_size;
      }))

unfoldable pub decode_capabilities :
    Codec → WireEnvelope → CapabilitiesPayload → Result CodecError ControlPayload
unfolding checked_control_strings checked_control_string checked_control_vector
    require_channel_mirror supported nonzero
decode_capabilities codec envelope table = do
  names ←
      checked_control_strings codec (or_default table.server_name "")
        (or_default table.server_version "")
  ok (
      ControlPayload.capabilities (record {
        selected_protocol_version = table.selected_protocol_version;
        server_name = names.0;
        server_version = names.1;
        capability_bits = table.capability_bits;
        max_frame_size = table.max_frame_size;
        max_payload_size = table.max_payload_size;
      }))

unfoldable pub decode_authenticate :
    Codec → WireEnvelope → AuthenticatePayload → Result CodecError ControlPayload
unfolding checked_control_strings checked_control_string checked_control_vector
    require_channel_mirror supported nonzero
decode_authenticate codec envelope table = do
  scheme ← supported "authentication scheme" table.scheme
  credentials ← checked_control_vector codec table.credentials
  ok (ControlPayload.authenticate (record { scheme = scheme; credentials = credentials }))

unfoldable pub decode_authenticated :
    Codec → WireEnvelope → AuthenticatedPayload → Result CodecError ControlPayload
unfolding nonzero
decode_authenticated codec envelope table = ok (
    ControlPayload.authenticated (record {
      principal_id = table.principal_id;
      assigned_entity_id = nonzero table.assigned_entity_id;
    }))

unfoldable pub decode_join_session :
    Codec → WireEnvelope → JoinSessionPayload → Result CodecError ControlPayload
unfolding checked_control_strings checked_control_string checked_control_vector
    require_channel_mirror supported nonzero
decode_join_session codec envelope table = do
  resume_token ← checked_control_vector codec table.resume_token
  ok (ControlPayload.join_session (record { resume_token = resume_token }))

unfoldable pub decode_leave_session :
    Codec → WireEnvelope → LeaveSessionPayload → Result CodecError ControlPayload
unfolding checked_control_strings checked_control_string checked_control_vector
    require_channel_mirror supported nonzero
decode_leave_session codec envelope table = do
  reason ← checked_control_string codec table.reason
  ok (ControlPayload.leave_session (record { reason = reason }))

unfoldable pub decode_subscribe_space :
    Codec → WireEnvelope → SubscribeSpacePayload → Result CodecError ControlPayload
unfolding checked_control_strings checked_control_string checked_control_vector
    require_channel_mirror supported nonzero
decode_subscribe_space codec envelope table = do
  require_channel_mirror envelope MessageKind.subscribe_space table.channel_id
  ok ControlPayload.subscribe_space

unfoldable pub decode_unsubscribe_space :
    Codec → WireEnvelope → UnsubscribeSpacePayload → Result CodecError ControlPayload
unfolding nonzero
decode_unsubscribe_space codec envelope table =
    ok (ControlPayload.unsubscribe_space (record { subscription_id = table.subscription_id }))

unfoldable pub decode_subscription_accepted :
    Codec → WireEnvelope → SubscriptionAcceptedPayload → Result CodecError ControlPayload
unfolding nonzero
decode_subscription_accepted codec envelope table = ok (
    ControlPayload.subscription_accepted (record {
      subscription_id = table.subscription_id;
      accepted_space_epoch = table.accepted_space_epoch;
    }))

unfoldable pub decode_subscription_rejected :
    Codec → WireEnvelope → SubscriptionRejectedPayload → Result CodecError ControlPayload
unfolding checked_control_strings checked_control_string checked_control_vector
    require_channel_mirror supported nonzero
decode_subscription_rejected codec envelope table = do
  code ← supported "subscription rejection code" table.code
  reason ← checked_control_string codec table.reason
  ok (ControlPayload.subscription_rejected (record { code = code; reason = reason }))

unfoldable pub decode_entity_entered :
    Codec → WireEnvelope → EntityEnteredPayload → Result CodecError ControlPayload
unfolding nonzero
decode_entity_entered codec envelope table =
    ok (ControlPayload.entity_entered (record { owner_entity_id = nonzero table.owner_entity_id }))

unfoldable pub decode_entity_left :
    Codec → WireEnvelope → EntityLeftPayload → Result CodecError ControlPayload
unfolding checked_control_strings checked_control_string checked_control_vector
    require_channel_mirror supported nonzero
decode_entity_left codec envelope table = do
  reason ← supported "entity leave reason" table.reason
  ok (ControlPayload.entity_left (record { reason = reason }))

unfoldable pub decode_snapshot_request :
    Codec → WireEnvelope → SnapshotRequestPayload → Result CodecError ControlPayload
unfolding checked_control_strings checked_control_string checked_control_vector
    require_channel_mirror supported nonzero
decode_snapshot_request codec envelope table = do
  require_channel_mirror envelope MessageKind.snapshot_request table.channel_id
  ok (
      ControlPayload.snapshot_request
        (record { after_server_tick = nonzero table.after_server_tick }))

unfoldable pub decode_space_transition :
    Codec → WireEnvelope → SpaceTransitionPayload → Result CodecError ControlPayload
unfolding nonzero
decode_space_transition codec envelope table = ok (
    ControlPayload.space_transition (record {
      from_space_id = table.from_space_id;
      to_space_id = table.to_space_id;
      to_space_epoch = table.to_space_epoch;
    }))

unfoldable pub decode_ping : Codec → WireEnvelope → PingPayload → Result CodecError ControlPayload
unfolding nonzero
decode_ping codec envelope table = ok (
    ControlPayload.ping
      (record { nonce = table.nonce; sender_time_micros = table.sender_time_micros }))

unfoldable pub decode_pong : Codec → WireEnvelope → PongPayload → Result CodecError ControlPayload
unfolding nonzero
decode_pong codec envelope table = ok (
    ControlPayload.pong (record {
      nonce = table.nonce;
      sender_time_micros = table.sender_time_micros;
      responder_time_micros = table.responder_time_micros;
    }))

unfoldable pub decode_protocol_error :
    Codec → WireEnvelope → ProtocolErrorPayload → Result CodecError ControlPayload
unfolding checked_control_strings checked_control_string checked_control_vector
    require_channel_mirror supported nonzero
decode_protocol_error codec envelope table = do
  code ← supported "protocol error code" table.code
  related_message_kind ← supported "related message kind" table.related_message_kind
  message ← checked_control_string codec table.message
  ok (
      ControlPayload.protocol_error
        (record { code = code; related_message_kind = related_message_kind; message = message }))

unfoldable pub decode_inference_requested :
    Codec → WireEnvelope → InferenceRequestedPayload → Result CodecError ControlPayload
unfolding checked_control_strings checked_control_string checked_control_vector
    require_channel_mirror supported nonzero
decode_inference_requested codec envelope table = do
  capability ← checked_control_string codec table.capability
  input ← checked_control_vector codec table.input
  ok (
      ControlPayload.inference_requested
        (record { capability = capability; deadline_ms = table.deadline_ms; input = input }))

unfoldable pub decode_inference_accepted :
    Codec → WireEnvelope → InferenceAcceptedPayload → Result CodecError ControlPayload
unfolding nonzero
decode_inference_accepted codec envelope table =
    ok (ControlPayload.inference_accepted (record { queued_position = table.queued_position }))

unfoldable pub decode_inference_progress :
    Codec → WireEnvelope → InferenceProgressPayload → Result CodecError ControlPayload
unfolding nonzero
decode_inference_progress codec envelope table =
    ok (ControlPayload.inference_progress (record { percent = table.percent }))

unfoldable pub decode_inference_stream_chunk :
    Codec → WireEnvelope → InferenceStreamChunkPayload → Result CodecError ControlPayload
unfolding checked_control_strings checked_control_string checked_control_vector
    require_channel_mirror supported nonzero
decode_inference_stream_chunk codec envelope table = do
  chunk ← checked_control_vector codec table.chunk
  ok (
      ControlPayload.inference_stream_chunk
        (record { sequence = table.sequence; chunk = chunk; is_final = table.is_final }))

unfoldable pub decode_inference_completed :
    Codec → WireEnvelope → InferenceCompletedPayload → Result CodecError ControlPayload
unfolding checked_control_strings checked_control_string checked_control_vector
    require_channel_mirror supported nonzero
decode_inference_completed codec envelope table = do
  result ← checked_control_vector codec table.result
  ok (ControlPayload.inference_completed (record { result = result }))

unfoldable pub decode_inference_failed :
    Codec → WireEnvelope → InferenceFailedPayload → Result CodecError ControlPayload
unfolding checked_control_strings checked_control_string checked_control_vector
    require_channel_mirror supported nonzero
decode_inference_failed codec envelope table = do
  reason ← checked_control_string codec table.reason
  ok (ControlPayload.inference_failed (record { reason = reason }))

unfoldable pub decode_inference_cancelled :
    Codec → WireEnvelope → InferenceCancelledPayload → Result CodecError ControlPayload
unfolding checked_control_strings checked_control_string checked_control_vector
    require_channel_mirror supported nonzero
decode_inference_cancelled codec envelope table = do
  reason ← checked_control_string codec table.reason
  ok (ControlPayload.inference_cancelled (record { reason = reason }))

unfoldable pub decode_inference_expired :
    Codec → WireEnvelope → InferenceExpiredPayload → Result CodecError ControlPayload
unfolding checked_control_strings checked_control_string checked_control_vector
    require_channel_mirror supported nonzero
decode_inference_expired codec envelope table = do
  reason ← checked_control_string codec table.reason
  ok (ControlPayload.inference_expired (record { reason = reason }))

unfoldable pub decode_tool_call_proposed :
    Codec → WireEnvelope → ToolCallProposedPayload → Result CodecError ControlPayload
unfolding checked_control_strings checked_control_string checked_control_vector
    require_channel_mirror supported nonzero
decode_tool_call_proposed codec envelope table = do
  tool_id ← checked_control_string codec table.tool_id
  arguments ← checked_control_vector codec table.arguments
  ok (
      ControlPayload.tool_call_proposed (record {
        tool_id = tool_id;
        tool_version = table.tool_version;
        arguments = arguments;
        expected_revision = table.expected_revision;
      }))

unfoldable pub decode_tool_call_accepted :
    Codec → WireEnvelope → ToolCallAcceptedPayload → Result CodecError ControlPayload
unfolding checked_control_strings checked_control_string checked_control_vector
    require_channel_mirror supported nonzero
decode_tool_call_accepted codec envelope table = do
  tool_id ← checked_control_string codec table.tool_id
  ok (ControlPayload.tool_call_accepted (record { tool_id = tool_id }))

unfoldable pub decode_tool_call_rejected :
    Codec → WireEnvelope → ToolCallRejectedPayload → Result CodecError ControlPayload
unfolding checked_control_strings checked_control_string checked_control_vector
    require_channel_mirror supported nonzero
decode_tool_call_rejected codec envelope table = do
  code ← supported "tool call rejection code" table.code
  reason ← checked_control_string codec table.reason
  ok (ControlPayload.tool_call_rejected (record { code = code; reason = reason }))

unfoldable pub decode_tool_call_completed :
    Codec → WireEnvelope → ToolCallCompletedPayload → Result CodecError ControlPayload
unfolding checked_control_strings checked_control_string checked_control_vector
    require_channel_mirror supported nonzero
decode_tool_call_completed codec envelope table = do
  result ← checked_control_vector codec table.result
  ok (
      ControlPayload.tool_call_completed
        (record { new_revision = table.new_revision; result = result }))
