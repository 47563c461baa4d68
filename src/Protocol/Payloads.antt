-- ===== src/Protocol/Payloads.antt =====
-- crates/woven-protocol/src/model.rs: the payloads of the control messages.
use signalweave.Prelude.{ℕ, Bool, Option, List, String}
use signalweave.Protocol.Kinds.{MessageKind}
use signalweave.Protocol.Codes.{
  AuthenticationScheme, SubscriptionRejectionCode, EntityLeaveReason, ProtocolErrorCode,
  ToolCallRejectionCode,
}

pub record Hello : Type 0 where
  pub min_protocol_version : ℕ
  pub max_protocol_version : ℕ
  pub client_name : String
  pub client_version : String
  pub capability_bits : ℕ
  pub max_frame_size : ℕ
  pub max_payload_size : ℕ

pub record Capabilities : Type 0 where
  pub selected_protocol_version : ℕ
  pub server_name : String
  pub server_version : String
  pub capability_bits : ℕ
  pub max_frame_size : ℕ
  pub max_payload_size : ℕ

pub record Authenticate : Type 0 where
  pub scheme : AuthenticationScheme
  pub credentials : List ℕ

pub record Authenticated : Type 0 where
  pub principal_id : ℕ
  pub assigned_entity_id : Option ℕ

pub record JoinSession : Type 0 where
  pub resume_token : List ℕ

pub record LeaveSession : Type 0 where
  pub reason : String

pub record UnsubscribeSpace : Type 0 where
  pub subscription_id : ℕ

pub record SubscriptionAccepted : Type 0 where
  pub subscription_id : ℕ
  pub accepted_space_epoch : ℕ

pub record SubscriptionRejected : Type 0 where
  pub code : SubscriptionRejectionCode
  pub reason : String

pub record EntityEntered : Type 0 where
  pub owner_entity_id : Option ℕ

pub record EntityLeft : Type 0 where
  pub reason : EntityLeaveReason

pub record SnapshotRequest : Type 0 where
  pub after_server_tick : Option ℕ

pub record SpaceTransition : Type 0 where
  pub from_space_id : ℕ
  pub to_space_id : ℕ
  pub to_space_epoch : ℕ

pub record Ping : Type 0 where
  pub nonce : ℕ
  pub sender_time_micros : ℕ

pub record Pong : Type 0 where
  pub nonce : ℕ
  pub sender_time_micros : ℕ
  pub responder_time_micros : ℕ

pub record ProtocolError : Type 0 where
  pub code : ProtocolErrorCode
  pub related_message_kind : MessageKind
  pub message : String

pub record InferenceRequested : Type 0 where
  pub capability : String
  pub deadline_ms : ℕ
  pub input : List ℕ

pub record InferenceAccepted : Type 0 where
  pub queued_position : ℕ

pub record InferenceProgress : Type 0 where
  pub percent : ℕ

pub record InferenceStreamChunk : Type 0 where
  pub sequence : ℕ
  pub chunk : List ℕ
  pub is_final : Bool

pub record InferenceCompleted : Type 0 where
  pub result : List ℕ

pub record InferenceFailed : Type 0 where
  pub reason : String

pub record InferenceCancelled : Type 0 where
  pub reason : String

pub record InferenceExpired : Type 0 where
  pub reason : String

pub record ToolCallProposed : Type 0 where
  pub tool_id : String
  pub tool_version : ℕ
  pub arguments : List ℕ
  pub expected_revision : ℕ

pub record ToolCallAccepted : Type 0 where
  pub tool_id : String

pub record ToolCallRejected : Type 0 where
  pub code : ToolCallRejectionCode
  pub reason : String

pub record ToolCallCompleted : Type 0 where
  pub new_revision : ℕ
  pub result : List ℕ
