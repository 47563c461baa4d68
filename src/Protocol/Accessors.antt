-- ===== src/Protocol/Accessors.antt =====
-- The accessors of the control union, as FlatBuffers makes them from crates/woven-protocol/schemas/woven_v1.fbs: the
-- table of the asked type, or none.
use signalweave.Prelude.{Option, none, some}
use signalweave.Protocol.Tables.{
  HelloPayload, CapabilitiesPayload, AuthenticatePayload, AuthenticatedPayload, JoinSessionPayload,
  LeaveSessionPayload, SubscribeSpacePayload, UnsubscribeSpacePayload, SubscriptionAcceptedPayload,
  SubscriptionRejectedPayload, EntityEnteredPayload, EntityLeftPayload, SnapshotRequestPayload,
  SpaceTransitionPayload, PingPayload, PongPayload, ProtocolErrorPayload, InferenceRequestedPayload,
  InferenceAcceptedPayload, InferenceProgressPayload, InferenceStreamChunkPayload,
  InferenceCompletedPayload, InferenceFailedPayload, InferenceCancelledPayload,
  InferenceExpiredPayload, ToolCallProposedPayload, ToolCallAcceptedPayload,
  ToolCallRejectedPayload, ToolCallCompletedPayload,
}
use signalweave.Protocol.Wire.{ControlTable}

unfoldable pub control_as_hello : ControlTable → Option HelloPayload
control_as_hello (ControlTable.hello table) = some table
control_as_hello _ = none

unfoldable pub control_as_capabilities : ControlTable → Option CapabilitiesPayload
control_as_capabilities (ControlTable.capabilities table) = some table
control_as_capabilities _ = none

unfoldable pub control_as_authenticate : ControlTable → Option AuthenticatePayload
control_as_authenticate (ControlTable.authenticate table) = some table
control_as_authenticate _ = none

unfoldable pub control_as_authenticated : ControlTable → Option AuthenticatedPayload
control_as_authenticated (ControlTable.authenticated table) = some table
control_as_authenticated _ = none

unfoldable pub control_as_join_session : ControlTable → Option JoinSessionPayload
control_as_join_session (ControlTable.join_session table) = some table
control_as_join_session _ = none

unfoldable pub control_as_leave_session : ControlTable → Option LeaveSessionPayload
control_as_leave_session (ControlTable.leave_session table) = some table
control_as_leave_session _ = none

unfoldable pub control_as_subscribe_space : ControlTable → Option SubscribeSpacePayload
control_as_subscribe_space (ControlTable.subscribe_space table) = some table
control_as_subscribe_space _ = none

unfoldable pub control_as_unsubscribe_space : ControlTable → Option UnsubscribeSpacePayload
control_as_unsubscribe_space (ControlTable.unsubscribe_space table) = some table
control_as_unsubscribe_space _ = none

unfoldable pub control_as_subscription_accepted : ControlTable → Option SubscriptionAcceptedPayload
control_as_subscription_accepted (ControlTable.subscription_accepted table) = some table
control_as_subscription_accepted _ = none

unfoldable pub control_as_subscription_rejected : ControlTable → Option SubscriptionRejectedPayload
control_as_subscription_rejected (ControlTable.subscription_rejected table) = some table
control_as_subscription_rejected _ = none

unfoldable pub control_as_entity_entered : ControlTable → Option EntityEnteredPayload
control_as_entity_entered (ControlTable.entity_entered table) = some table
control_as_entity_entered _ = none

unfoldable pub control_as_entity_left : ControlTable → Option EntityLeftPayload
control_as_entity_left (ControlTable.entity_left table) = some table
control_as_entity_left _ = none

unfoldable pub control_as_snapshot_request : ControlTable → Option SnapshotRequestPayload
control_as_snapshot_request (ControlTable.snapshot_request table) = some table
control_as_snapshot_request _ = none

unfoldable pub control_as_space_transition : ControlTable → Option SpaceTransitionPayload
control_as_space_transition (ControlTable.space_transition table) = some table
control_as_space_transition _ = none

unfoldable pub control_as_ping : ControlTable → Option PingPayload
control_as_ping (ControlTable.ping table) = some table
control_as_ping _ = none

unfoldable pub control_as_pong : ControlTable → Option PongPayload
control_as_pong (ControlTable.pong table) = some table
control_as_pong _ = none

unfoldable pub control_as_protocol_error : ControlTable → Option ProtocolErrorPayload
control_as_protocol_error (ControlTable.protocol_error table) = some table
control_as_protocol_error _ = none

unfoldable pub control_as_inference_requested : ControlTable → Option InferenceRequestedPayload
control_as_inference_requested (ControlTable.inference_requested table) = some table
control_as_inference_requested _ = none

unfoldable pub control_as_inference_accepted : ControlTable → Option InferenceAcceptedPayload
control_as_inference_accepted (ControlTable.inference_accepted table) = some table
control_as_inference_accepted _ = none

unfoldable pub control_as_inference_progress : ControlTable → Option InferenceProgressPayload
control_as_inference_progress (ControlTable.inference_progress table) = some table
control_as_inference_progress _ = none

unfoldable pub control_as_inference_stream_chunk : ControlTable → Option InferenceStreamChunkPayload
control_as_inference_stream_chunk (ControlTable.inference_stream_chunk table) = some table
control_as_inference_stream_chunk _ = none

unfoldable pub control_as_inference_completed : ControlTable → Option InferenceCompletedPayload
control_as_inference_completed (ControlTable.inference_completed table) = some table
control_as_inference_completed _ = none

unfoldable pub control_as_inference_failed : ControlTable → Option InferenceFailedPayload
control_as_inference_failed (ControlTable.inference_failed table) = some table
control_as_inference_failed _ = none

unfoldable pub control_as_inference_cancelled : ControlTable → Option InferenceCancelledPayload
control_as_inference_cancelled (ControlTable.inference_cancelled table) = some table
control_as_inference_cancelled _ = none

unfoldable pub control_as_inference_expired : ControlTable → Option InferenceExpiredPayload
control_as_inference_expired (ControlTable.inference_expired table) = some table
control_as_inference_expired _ = none

unfoldable pub control_as_tool_call_proposed : ControlTable → Option ToolCallProposedPayload
control_as_tool_call_proposed (ControlTable.tool_call_proposed table) = some table
control_as_tool_call_proposed _ = none

unfoldable pub control_as_tool_call_accepted : ControlTable → Option ToolCallAcceptedPayload
control_as_tool_call_accepted (ControlTable.tool_call_accepted table) = some table
control_as_tool_call_accepted _ = none

unfoldable pub control_as_tool_call_rejected : ControlTable → Option ToolCallRejectedPayload
control_as_tool_call_rejected (ControlTable.tool_call_rejected table) = some table
control_as_tool_call_rejected _ = none

unfoldable pub control_as_tool_call_completed : ControlTable → Option ToolCallCompletedPayload
control_as_tool_call_completed (ControlTable.tool_call_completed table) = some table
control_as_tool_call_completed _ = none
