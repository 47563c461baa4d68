-- ===== src/Protocol/EncodeControl.antt =====
-- `encode_control` of crates/woven-protocol/src/codec.rs.
use signalweave.Prelude.{ℕ, some, or_default}
use signalweave.Protocol.Numeric.{value_of}
use signalweave.Protocol.Kinds.{message_kind_numeric}
use signalweave.Protocol.Codes.{
  authentication_scheme_numeric, subscription_rejection_code_numeric, entity_leave_reason_numeric,
  protocol_error_code_numeric, tool_call_rejection_code_numeric,
}
use signalweave.Protocol.Payloads.{
  Hello, Capabilities, Authenticate, Authenticated, JoinSession, LeaveSession, UnsubscribeSpace,
  SubscriptionAccepted, SubscriptionRejected, EntityEntered, EntityLeft, SnapshotRequest,
  SpaceTransition, Ping, Pong, ProtocolError, InferenceRequested, InferenceAccepted,
  InferenceProgress, InferenceStreamChunk, InferenceCompleted, InferenceFailed, InferenceCancelled,
  InferenceExpired, ToolCallProposed, ToolCallAccepted, ToolCallRejected, ToolCallCompleted,
}
use signalweave.Protocol.Tables.{
  HelloPayload, CapabilitiesPayload, AuthenticatePayload, AuthenticatedPayload, JoinSessionPayload,
  LeaveSessionPayload, SubscribeSpacePayload, UnsubscribeSpacePayload, SubscriptionAcceptedPayload,
  SubscriptionRejectedPayload, EntityEnteredPayload, EntityLeftPayload, SnapshotRequestPayload,
  SpaceTransitionPayload, PingPayload, PongPayload, ProtocolErrorPayload, InferenceRequestedPayload,
  InferenceAcceptedPayload, InferenceProgressPayload, InferenceStreamChunkPayload,
  InferenceCompletedPayload, InferenceFailedPayload, InferenceCancelledPayload,
  InferenceExpiredPayload, ToolCallProposedPayload, ToolCallAcceptedPayload,
  ToolCallRejectedPayload, ToolCallCompletedPayload,
}
use signalweave.Protocol.Model.{ControlPayload}
use signalweave.Protocol.Wire.{ControlType, ControlTable}

unfoldable hello_table : Hello → HelloPayload
hello_table value = record {
  min_protocol_version = value.min_protocol_version;
  max_protocol_version = value.max_protocol_version;
  client_name = some value.client_name;
  client_version = some value.client_version;
  capability_bits = value.capability_bits;
  max_frame_size = value.max_frame_size;
  max_payload_size = value.max_payload_size;
}

unfoldable capabilities_table : Capabilities → CapabilitiesPayload
capabilities_table value = record {
  selected_protocol_version = value.selected_protocol_version;
  server_name = some value.server_name;
  server_version = some value.server_version;
  capability_bits = value.capability_bits;
  max_frame_size = value.max_frame_size;
  max_payload_size = value.max_payload_size;
}

unfoldable authenticate_table : Authenticate → AuthenticatePayload
unfolding value_of
authenticate_table value = record {
  scheme = value_of value.scheme;
  credentials = some value.credentials;
}

unfoldable authenticated_table : Authenticated → AuthenticatedPayload
authenticated_table value = record {
  principal_id = value.principal_id;
  assigned_entity_id = or_default value.assigned_entity_id 0;
}

unfoldable join_session_table : JoinSession → JoinSessionPayload
join_session_table value = record { resume_token = some value.resume_token }

unfoldable leave_session_table : LeaveSession → LeaveSessionPayload
leave_session_table value = record { reason = some value.reason }

unfoldable subscribe_space_table : ℕ → SubscribeSpacePayload
subscribe_space_table channel_id = record { channel_id = channel_id }

unfoldable unsubscribe_space_table : UnsubscribeSpace → UnsubscribeSpacePayload
unsubscribe_space_table value = record { subscription_id = value.subscription_id }

unfoldable subscription_accepted_table : SubscriptionAccepted → SubscriptionAcceptedPayload
subscription_accepted_table value = record {
  subscription_id = value.subscription_id;
  accepted_space_epoch = value.accepted_space_epoch;
}

unfoldable subscription_rejected_table : SubscriptionRejected → SubscriptionRejectedPayload
unfolding value_of
subscription_rejected_table value = record {
  code = value_of value.code;
  reason = some value.reason;
}

unfoldable entity_entered_table : EntityEntered → EntityEnteredPayload
entity_entered_table value = record { owner_entity_id = or_default value.owner_entity_id 0 }

unfoldable entity_left_table : EntityLeft → EntityLeftPayload
unfolding value_of
entity_left_table value = record { reason = value_of value.reason }

unfoldable snapshot_request_table : SnapshotRequest → ℕ → SnapshotRequestPayload
snapshot_request_table value channel_id = record {
  channel_id = channel_id;
  after_server_tick = or_default value.after_server_tick 0;
}

unfoldable space_transition_table : SpaceTransition → SpaceTransitionPayload
space_transition_table value = record {
  from_space_id = value.from_space_id;
  to_space_id = value.to_space_id;
  to_space_epoch = value.to_space_epoch;
}

unfoldable ping_table : Ping → PingPayload
ping_table value = record { nonce = value.nonce; sender_time_micros = value.sender_time_micros }

unfoldable pong_table : Pong → PongPayload
pong_table value = record {
  nonce = value.nonce;
  sender_time_micros = value.sender_time_micros;
  responder_time_micros = value.responder_time_micros;
}

unfoldable protocol_error_table : ProtocolError → ProtocolErrorPayload
unfolding value_of
protocol_error_table value = record {
  code = value_of value.code;
  related_message_kind = value_of value.related_message_kind;
  message = some value.message;
}

unfoldable inference_requested_table : InferenceRequested → InferenceRequestedPayload
inference_requested_table value = record {
  capability = some value.capability;
  deadline_ms = value.deadline_ms;
  input = some value.input;
}

unfoldable inference_accepted_table : InferenceAccepted → InferenceAcceptedPayload
inference_accepted_table value = record { queued_position = value.queued_position }

unfoldable inference_progress_table : InferenceProgress → InferenceProgressPayload
inference_progress_table value = record { percent = value.percent }

unfoldable inference_stream_chunk_table : InferenceStreamChunk → InferenceStreamChunkPayload
inference_stream_chunk_table value = record {
  sequence = value.sequence;
  chunk = some value.chunk;
  is_final = value.is_final;
}

unfoldable inference_completed_table : InferenceCompleted → InferenceCompletedPayload
inference_completed_table value = record { result = some value.result }

unfoldable inference_failed_table : InferenceFailed → InferenceFailedPayload
inference_failed_table value = record { reason = some value.reason }

unfoldable inference_cancelled_table : InferenceCancelled → InferenceCancelledPayload
inference_cancelled_table value = record { reason = some value.reason }

unfoldable inference_expired_table : InferenceExpired → InferenceExpiredPayload
inference_expired_table value = record { reason = some value.reason }

unfoldable tool_call_proposed_table : ToolCallProposed → ToolCallProposedPayload
tool_call_proposed_table value = record {
  tool_id = some value.tool_id;
  tool_version = value.tool_version;
  arguments = some value.arguments;
  expected_revision = value.expected_revision;
}

unfoldable tool_call_accepted_table : ToolCallAccepted → ToolCallAcceptedPayload
tool_call_accepted_table value = record { tool_id = some value.tool_id }

unfoldable tool_call_rejected_table : ToolCallRejected → ToolCallRejectedPayload
unfolding value_of
tool_call_rejected_table value = record { code = value_of value.code; reason = some value.reason }

unfoldable tool_call_completed_table : ToolCallCompleted → ToolCallCompletedPayload
tool_call_completed_table value = record {
  new_revision = value.new_revision;
  result = some value.result;
}

unfoldable pub encode_control : ControlPayload → ℕ → ControlType × ControlTable
unfolding hello_table capabilities_table authenticate_table authenticated_table join_session_table
    leave_session_table subscribe_space_table unsubscribe_space_table subscription_accepted_table
    subscription_rejected_table entity_entered_table entity_left_table snapshot_request_table
    space_transition_table ping_table pong_table protocol_error_table inference_requested_table
    inference_accepted_table inference_progress_table inference_stream_chunk_table
    inference_completed_table inference_failed_table inference_cancelled_table
    inference_expired_table tool_call_proposed_table tool_call_accepted_table
    tool_call_rejected_table tool_call_completed_table
encode_control (ControlPayload.hello value) channel_id =
    (ControlType.hello_payload, ControlTable.hello (hello_table value))
encode_control (ControlPayload.capabilities value) channel_id =
    (ControlType.capabilities_payload, ControlTable.capabilities (capabilities_table value))
encode_control (ControlPayload.authenticate value) channel_id =
    (ControlType.authenticate_payload, ControlTable.authenticate (authenticate_table value))
encode_control (ControlPayload.authenticated value) channel_id =
    (ControlType.authenticated_payload, ControlTable.authenticated (authenticated_table value))
encode_control (ControlPayload.join_session value) channel_id =
    (ControlType.join_session_payload, ControlTable.join_session (join_session_table value))
encode_control (ControlPayload.leave_session value) channel_id =
    (ControlType.leave_session_payload, ControlTable.leave_session (leave_session_table value))
encode_control ControlPayload.subscribe_space channel_id = (
  ControlType.subscribe_space_payload,
  ControlTable.subscribe_space (subscribe_space_table channel_id),
)
encode_control (ControlPayload.unsubscribe_space value) channel_id = (
  ControlType.unsubscribe_space_payload,
  ControlTable.unsubscribe_space (unsubscribe_space_table value),
)
encode_control (ControlPayload.subscription_accepted value) channel_id = (
  ControlType.subscription_accepted_payload,
  ControlTable.subscription_accepted (subscription_accepted_table value),
)
encode_control (ControlPayload.subscription_rejected value) channel_id = (
  ControlType.subscription_rejected_payload,
  ControlTable.subscription_rejected (subscription_rejected_table value),
)
encode_control (ControlPayload.entity_entered value) channel_id =
    (ControlType.entity_entered_payload, ControlTable.entity_entered (entity_entered_table value))
encode_control (ControlPayload.entity_left value) channel_id =
    (ControlType.entity_left_payload, ControlTable.entity_left (entity_left_table value))
encode_control (ControlPayload.snapshot_request value) channel_id = (
  ControlType.snapshot_request_payload,
  ControlTable.snapshot_request (snapshot_request_table value channel_id),
)
encode_control (ControlPayload.space_transition value) channel_id = (
  ControlType.space_transition_payload,
  ControlTable.space_transition (space_transition_table value),
)
encode_control (ControlPayload.ping value) channel_id =
    (ControlType.ping_payload, ControlTable.ping (ping_table value))
encode_control (ControlPayload.pong value) channel_id =
    (ControlType.pong_payload, ControlTable.pong (pong_table value))
encode_control (ControlPayload.protocol_error value) channel_id =
    (ControlType.protocol_error_payload, ControlTable.protocol_error (protocol_error_table value))
encode_control (ControlPayload.inference_requested value) channel_id = (
  ControlType.inference_requested_payload,
  ControlTable.inference_requested (inference_requested_table value),
)
encode_control (ControlPayload.inference_accepted value) channel_id = (
  ControlType.inference_accepted_payload,
  ControlTable.inference_accepted (inference_accepted_table value),
)
encode_control (ControlPayload.inference_progress value) channel_id = (
  ControlType.inference_progress_payload,
  ControlTable.inference_progress (inference_progress_table value),
)
encode_control (ControlPayload.inference_stream_chunk value) channel_id = (
  ControlType.inference_stream_chunk_payload,
  ControlTable.inference_stream_chunk (inference_stream_chunk_table value),
)
encode_control (ControlPayload.inference_completed value) channel_id = (
  ControlType.inference_completed_payload,
  ControlTable.inference_completed (inference_completed_table value),
)
encode_control (ControlPayload.inference_failed value) channel_id = (
  ControlType.inference_failed_payload,
  ControlTable.inference_failed (inference_failed_table value),
)
encode_control (ControlPayload.inference_cancelled value) channel_id = (
  ControlType.inference_cancelled_payload,
  ControlTable.inference_cancelled (inference_cancelled_table value),
)
encode_control (ControlPayload.inference_expired value) channel_id = (
  ControlType.inference_expired_payload,
  ControlTable.inference_expired (inference_expired_table value),
)
encode_control (ControlPayload.tool_call_proposed value) channel_id = (
  ControlType.tool_call_proposed_payload,
  ControlTable.tool_call_proposed (tool_call_proposed_table value),
)
encode_control (ControlPayload.tool_call_accepted value) channel_id = (
  ControlType.tool_call_accepted_payload,
  ControlTable.tool_call_accepted (tool_call_accepted_table value),
)
encode_control (ControlPayload.tool_call_rejected value) channel_id = (
  ControlType.tool_call_rejected_payload,
  ControlTable.tool_call_rejected (tool_call_rejected_table value),
)
encode_control (ControlPayload.tool_call_completed value) channel_id = (
  ControlType.tool_call_completed_payload,
  ControlTable.tool_call_completed (tool_call_completed_table value),
)
