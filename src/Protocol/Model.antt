-- ===== src/Protocol/Model.antt =====
-- crates/woven-protocol/src/model.rs: messages and envelopes.
use signalweave.Prelude.{ℕ, ◌+◌, ◌-◌, min, Option, none, some, List, [], length, len}
use signalweave.Ids.{u64_mod}
use signalweave.Protocol.Kinds.{MessageKind, DeliveryClass}
use signalweave.Protocol.Payloads.{
  Hello, Capabilities, Authenticate, Authenticated, JoinSession, LeaveSession, UnsubscribeSpace,
  SubscriptionAccepted, SubscriptionRejected, EntityEntered, EntityLeft, SnapshotRequest,
  SpaceTransition, Ping, Pong, ProtocolError, InferenceRequested, InferenceAccepted,
  InferenceProgress, InferenceStreamChunk, InferenceCompleted, InferenceFailed, InferenceCancelled,
  InferenceExpired, ToolCallProposed, ToolCallAccepted, ToolCallRejected, ToolCallCompleted,
}

pub data ControlPayload : Type 0 where
  hello : Hello → ControlPayload
  capabilities : Capabilities → ControlPayload
  authenticate : Authenticate → ControlPayload
  authenticated : Authenticated → ControlPayload
  join_session : JoinSession → ControlPayload
  leave_session : LeaveSession → ControlPayload
  subscribe_space : ControlPayload
  unsubscribe_space : UnsubscribeSpace → ControlPayload
  subscription_accepted : SubscriptionAccepted → ControlPayload
  subscription_rejected : SubscriptionRejected → ControlPayload
  entity_entered : EntityEntered → ControlPayload
  entity_left : EntityLeft → ControlPayload
  snapshot_request : SnapshotRequest → ControlPayload
  space_transition : SpaceTransition → ControlPayload
  ping : Ping → ControlPayload
  pong : Pong → ControlPayload
  protocol_error : ProtocolError → ControlPayload
  inference_requested : InferenceRequested → ControlPayload
  inference_accepted : InferenceAccepted → ControlPayload
  inference_progress : InferenceProgress → ControlPayload
  inference_stream_chunk : InferenceStreamChunk → ControlPayload
  inference_completed : InferenceCompleted → ControlPayload
  inference_failed : InferenceFailed → ControlPayload
  inference_cancelled : InferenceCancelled → ControlPayload
  inference_expired : InferenceExpired → ControlPayload
  tool_call_proposed : ToolCallProposed → ControlPayload
  tool_call_accepted : ToolCallAccepted → ControlPayload
  tool_call_rejected : ToolCallRejected → ControlPayload
  tool_call_completed : ToolCallCompleted → ControlPayload

unfoldable pub control_kind : ControlPayload → MessageKind
control_kind (ControlPayload.hello _) = MessageKind.hello
control_kind (ControlPayload.capabilities _) = MessageKind.capabilities
control_kind (ControlPayload.authenticate _) = MessageKind.authenticate
control_kind (ControlPayload.authenticated _) = MessageKind.authenticated
control_kind (ControlPayload.join_session _) = MessageKind.join_session
control_kind (ControlPayload.leave_session _) = MessageKind.leave_session
control_kind ControlPayload.subscribe_space = MessageKind.subscribe_space
control_kind (ControlPayload.unsubscribe_space _) = MessageKind.unsubscribe_space
control_kind (ControlPayload.subscription_accepted _) = MessageKind.subscription_accepted
control_kind (ControlPayload.subscription_rejected _) = MessageKind.subscription_rejected
control_kind (ControlPayload.entity_entered _) = MessageKind.entity_entered
control_kind (ControlPayload.entity_left _) = MessageKind.entity_left
control_kind (ControlPayload.snapshot_request _) = MessageKind.snapshot_request
control_kind (ControlPayload.space_transition _) = MessageKind.space_transition
control_kind (ControlPayload.ping _) = MessageKind.ping
control_kind (ControlPayload.pong _) = MessageKind.pong
control_kind (ControlPayload.protocol_error _) = MessageKind.protocol_error
control_kind (ControlPayload.inference_requested _) = MessageKind.inference_requested
control_kind (ControlPayload.inference_accepted _) = MessageKind.inference_accepted
control_kind (ControlPayload.inference_progress _) = MessageKind.inference_progress
control_kind (ControlPayload.inference_stream_chunk _) = MessageKind.inference_stream_chunk
control_kind (ControlPayload.inference_completed _) = MessageKind.inference_completed
control_kind (ControlPayload.inference_failed _) = MessageKind.inference_failed
control_kind (ControlPayload.inference_cancelled _) = MessageKind.inference_cancelled
control_kind (ControlPayload.inference_expired _) = MessageKind.inference_expired
control_kind (ControlPayload.tool_call_proposed _) = MessageKind.tool_call_proposed
control_kind (ControlPayload.tool_call_accepted _) = MessageKind.tool_call_accepted
control_kind (ControlPayload.tool_call_rejected _) = MessageKind.tool_call_rejected
control_kind (ControlPayload.tool_call_completed _) = MessageKind.tool_call_completed

-- `usize::saturating_add`
unfoldable pub saturating_add : ℕ → ℕ → ℕ
saturating_add a b = min (a + b) (u64_mod - 1)

unfoldable pub variable_len : ControlPayload → ℕ
unfolding saturating_add
variable_len (ControlPayload.hello value) =
    saturating_add (len value.client_name) (len value.client_version)
variable_len (ControlPayload.capabilities value) =
    saturating_add (len value.server_name) (len value.server_version)
variable_len (ControlPayload.authenticate value) = length value.credentials
variable_len (ControlPayload.authenticated _) = 0
variable_len (ControlPayload.join_session value) = length value.resume_token
variable_len (ControlPayload.leave_session value) = len value.reason
variable_len ControlPayload.subscribe_space = 0
variable_len (ControlPayload.unsubscribe_space _) = 0
variable_len (ControlPayload.subscription_accepted _) = 0
variable_len (ControlPayload.subscription_rejected value) = len value.reason
variable_len (ControlPayload.entity_entered _) = 0
variable_len (ControlPayload.entity_left _) = 0
variable_len (ControlPayload.snapshot_request _) = 0
variable_len (ControlPayload.space_transition _) = 0
variable_len (ControlPayload.ping _) = 0
variable_len (ControlPayload.pong _) = 0
variable_len (ControlPayload.protocol_error value) = len value.message
variable_len (ControlPayload.inference_requested value) =
    saturating_add (len value.capability) (length value.input)
variable_len (ControlPayload.inference_accepted _) = 0
variable_len (ControlPayload.inference_progress _) = 0
variable_len (ControlPayload.inference_stream_chunk value) = length value.chunk
variable_len (ControlPayload.inference_completed value) = length value.result
variable_len (ControlPayload.inference_failed value) = len value.reason
variable_len (ControlPayload.inference_cancelled value) = len value.reason
variable_len (ControlPayload.inference_expired value) = len value.reason
variable_len (ControlPayload.tool_call_proposed value) =
    saturating_add (len value.tool_id) (length value.arguments)
variable_len (ControlPayload.tool_call_accepted value) = len value.tool_id
variable_len (ControlPayload.tool_call_rejected value) = len value.reason
variable_len (ControlPayload.tool_call_completed value) = length value.result

pub record OpaquePayload : Type 0 where
  pub type_id : ℕ
  pub bytes : List ℕ

pub data MessagePayload : Type 0 where
  control : ControlPayload → MessagePayload
  entity_state reliable_event snapshot : OpaquePayload → MessagePayload

unfoldable pub payload_kind : MessagePayload → MessageKind
unfolding control_kind
payload_kind (MessagePayload.control payload) = control_kind payload
payload_kind (MessagePayload.entity_state _) = MessageKind.entity_state
payload_kind (MessagePayload.reliable_event _) = MessageKind.reliable_event
payload_kind (MessagePayload.snapshot _) = MessageKind.snapshot

unfoldable pub opaque : MessagePayload → Option OpaquePayload
opaque (MessagePayload.control _) = none
opaque (MessagePayload.entity_state payload) = some payload
opaque (MessagePayload.reliable_event payload) = some payload
opaque (MessagePayload.snapshot payload) = some payload

abbrev pub protocol_version_one : ℕ
protocol_version_one = 1

pub record Envelope : Type 0 where
  pub protocol_version : ℕ
  pub delivery_class : DeliveryClass
  pub namespace_id : ℕ
  pub session_id : ℕ
  pub space_id : ℕ
  pub channel_id : Option ℕ
  pub entity_id : Option ℕ
  pub space_epoch : ℕ
  pub server_tick : ℕ
  pub sender_sequence : ℕ
  pub correlation_id : Option ℕ
  pub message : MessagePayload

unfoldable pub new : DeliveryClass → MessagePayload → Envelope
new delivery_class message = record {
  protocol_version = protocol_version_one;
  delivery_class = delivery_class;
  namespace_id = 0;
  session_id = 0;
  space_id = 0;
  channel_id = none;
  entity_id = none;
  space_epoch = 0;
  server_tick = 0;
  sender_sequence = 0;
  correlation_id = none;
  message = message;
}

unfoldable pub control_envelope : DeliveryClass → ControlPayload → Envelope
unfolding new
control_envelope delivery_class payload = new delivery_class (MessagePayload.control payload)

unfoldable pub message_kind : Envelope → MessageKind
unfolding payload_kind
message_kind envelope = payload_kind envelope.message

unfoldable pub payload_type_id : Envelope → Option ℕ
unfolding opaque
payload_type_id envelope = elim (opaque envelope.message) [
  | none ↦ none
  | some payload ↦ some payload.type_id
]

unfoldable pub payload_bytes : Envelope → List ℕ
unfolding opaque
payload_bytes envelope = elim (opaque envelope.message) [ none ↦ [] | some payload ↦ payload.bytes ]
