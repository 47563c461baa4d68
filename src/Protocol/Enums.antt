-- ===== src/Protocol/Enums.antt =====
-- crates/woven-protocol/src/model.rs: the seven numeric enumerations together.
use signalweave.Protocol.Numeric.{RoundTrips, numeric-RoundTrips}
use signalweave.Protocol.Kinds.{
  MessageKind, DeliveryClass, message_kind_numeric, delivery_class_numeric,
}
use signalweave.Protocol.Codes.{
  AuthenticationScheme, SubscriptionRejectionCode, EntityLeaveReason, ProtocolErrorCode,
  ToolCallRejectionCode, authentication_scheme_numeric, subscription_rejection_code_numeric,
  entity_leave_reason_numeric, protocol_error_code_numeric, tool_call_rejection_code_numeric,
}

-- In each of the seven enumerations every variant comes back from its number on the wire, and a number that is read
-- as a variant is the number of that variant, so that reading is the inverse of writing.
pub from_wire-value_of :
    RoundTrips MessageKind
    × RoundTrips DeliveryClass
    × RoundTrips AuthenticationScheme
    × RoundTrips SubscriptionRejectionCode
    × RoundTrips EntityLeaveReason
    × RoundTrips ProtocolErrorCode
    × RoundTrips ToolCallRejectionCode
from_wire-value_of = (
  numeric-RoundTrips MessageKind,
  numeric-RoundTrips DeliveryClass,
  numeric-RoundTrips AuthenticationScheme,
  numeric-RoundTrips SubscriptionRejectionCode,
  numeric-RoundTrips EntityLeaveReason,
  numeric-RoundTrips ProtocolErrorCode,
  numeric-RoundTrips ToolCallRejectionCode,
)
