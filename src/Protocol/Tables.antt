-- ===== src/Protocol/Tables.antt =====
-- crates/woven-protocol/schemas/woven_v1.fbs: the tables of the wire format, as their accessors show them. A text or
-- a vector may be absent, an enumeration is any number.
use signalweave.Prelude.{ℕ, Bool, Option, List, String}

pub record HelloPayload : Type 0 where
  pub min_protocol_version : ℕ
  pub max_protocol_version : ℕ
  pub client_name : Option String
  pub client_version : Option String
  pub capability_bits : ℕ
  pub max_frame_size : ℕ
  pub max_payload_size : ℕ

pub record CapabilitiesPayload : Type 0 where
  pub selected_protocol_version : ℕ
  pub server_name : Option String
  pub server_version : Option String
  pub capability_bits : ℕ
  pub max_frame_size : ℕ
  pub max_payload_size : ℕ

pub record AuthenticatePayload : Type 0 where
  pub scheme : ℕ
  pub credentials : Option (List ℕ)

pub record AuthenticatedPayload : Type 0 where
  pub principal_id : ℕ
  pub assigned_entity_id : ℕ

pub record JoinSessionPayload : Type 0 where
  pub resume_token : Option (List ℕ)

pub record LeaveSessionPayload : Type 0 where
  pub reason : Option String

pub record SubscribeSpacePayload : Type 0 where
  pub channel_id : ℕ

pub record UnsubscribeSpacePayload : Type 0 where
  pub subscription_id : ℕ

pub record SubscriptionAcceptedPayload : Type 0 where
  pub subscription_id : ℕ
  pub accepted_space_epoch : ℕ

pub record SubscriptionRejectedPayload : Type 0 where
  pub code : ℕ
  pub reason : Option String

pub record EntityEnteredPayload : Type 0 where
  pub owner_entity_id : ℕ

pub record EntityLeftPayload : Type 0 where
  pub reason : ℕ

pub record SnapshotRequestPayload : Type 0 where
  pub channel_id : ℕ
  pub after_server_tick : ℕ

pub record SpaceTransitionPayload : Type 0 where
  pub from_space_id : ℕ
  pub to_space_id : ℕ
  pub to_space_epoch : ℕ

pub record PingPayload : Type 0 where
  pub nonce : ℕ
  pub sender_time_micros : ℕ

pub record PongPayload : Type 0 where
  pub nonce : ℕ
  pub sender_time_micros : ℕ
  pub responder_time_micros : ℕ

pub record ProtocolErrorPayload : Type 0 where
  pub code : ℕ
  pub related_message_kind : ℕ
  pub message : Option String

pub record InferenceRequestedPayload : Type 0 where
  pub capability : Option String
  pub deadline_ms : ℕ
  pub input : Option (List ℕ)

pub record InferenceAcceptedPayload : Type 0 where
  pub queued_position : ℕ

pub record InferenceProgressPayload : Type 0 where
  pub percent : ℕ

pub record InferenceStreamChunkPayload : Type 0 where
  pub sequence : ℕ
  pub chunk : Option (List ℕ)
  pub is_final : Bool

pub record InferenceCompletedPayload : Type 0 where
  pub result : Option (List ℕ)

pub record InferenceFailedPayload : Type 0 where
  pub reason : Option String

pub record InferenceCancelledPayload : Type 0 where
  pub reason : Option String

pub record InferenceExpiredPayload : Type 0 where
  pub reason : Option String

pub record ToolCallProposedPayload : Type 0 where
  pub tool_id : Option String
  pub tool_version : ℕ
  pub arguments : Option (List ℕ)
  pub expected_revision : ℕ

pub record ToolCallAcceptedPayload : Type 0 where
  pub tool_id : Option String

pub record ToolCallRejectedPayload : Type 0 where
  pub code : ℕ
  pub reason : Option String

pub record ToolCallCompletedPayload : Type 0 where
  pub new_revision : ℕ
  pub result : Option (List ℕ)
