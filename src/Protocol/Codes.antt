-- ===== src/Protocol/Codes.antt =====
-- crates/woven-protocol/src/model.rs: the other numeric enumerations.
use signalweave.Prelude.{ℕ, ◌≡◌, refl, some, List, [], ◌∷◌}
use signalweave.Protocol.Numeric.{NumericEnum, from_variants}

pub data AuthenticationScheme : Type 0 where
  unknown bearer development : AuthenticationScheme

abbrev authentication_scheme_value : AuthenticationScheme → ℕ
authentication_scheme_value AuthenticationScheme.unknown = 0
authentication_scheme_value AuthenticationScheme.bearer = 1
authentication_scheme_value AuthenticationScheme.development = 2

abbrev authentication_scheme_variants : List (ℕ × AuthenticationScheme)
authentication_scheme_variants =
    (0, AuthenticationScheme.unknown)
    ∷ (1, AuthenticationScheme.bearer)
    ∷ (2, AuthenticationScheme.development)
    ∷ []

pub authentication_scheme_found :
    (e : AuthenticationScheme)
    → from_variants authentication_scheme_variants (authentication_scheme_value e) ≡ some e
unfolding from_variants
authentication_scheme_found AuthenticationScheme.unknown = refl
authentication_scheme_found AuthenticationScheme.bearer = refl
authentication_scheme_found AuthenticationScheme.development = refl

instance abbrev pub authentication_scheme_numeric : NumericEnum AuthenticationScheme
authentication_scheme_numeric = record {
  number = authentication_scheme_value;
  variants = authentication_scheme_variants;
  variant_found = authentication_scheme_found;
  variants_numbered = (refl, (refl, (refl, tt)));
}

pub data SubscriptionRejectionCode : Type 0 where
  unknown unauthorized space_not_found capacity_exceeded epoch_mismatch : SubscriptionRejectionCode

abbrev subscription_rejection_code_value : SubscriptionRejectionCode → ℕ
subscription_rejection_code_value SubscriptionRejectionCode.unknown = 0
subscription_rejection_code_value SubscriptionRejectionCode.unauthorized = 1
subscription_rejection_code_value SubscriptionRejectionCode.space_not_found = 2
subscription_rejection_code_value SubscriptionRejectionCode.capacity_exceeded = 3
subscription_rejection_code_value SubscriptionRejectionCode.epoch_mismatch = 4

abbrev subscription_rejection_code_variants : List (ℕ × SubscriptionRejectionCode)
subscription_rejection_code_variants =
    (0, SubscriptionRejectionCode.unknown)
    ∷ (1, SubscriptionRejectionCode.unauthorized)
    ∷ (2, SubscriptionRejectionCode.space_not_found)
    ∷ (3, SubscriptionRejectionCode.capacity_exceeded)
    ∷ (4, SubscriptionRejectionCode.epoch_mismatch)
    ∷ []

pub subscription_rejection_code_found :
    (e : SubscriptionRejectionCode)
    → from_variants subscription_rejection_code_variants (subscription_rejection_code_value e)
      ≡ some e
unfolding from_variants
subscription_rejection_code_found SubscriptionRejectionCode.unknown = refl
subscription_rejection_code_found SubscriptionRejectionCode.unauthorized = refl
subscription_rejection_code_found SubscriptionRejectionCode.space_not_found = refl
subscription_rejection_code_found SubscriptionRejectionCode.capacity_exceeded = refl
subscription_rejection_code_found SubscriptionRejectionCode.epoch_mismatch = refl

instance abbrev pub subscription_rejection_code_numeric : NumericEnum SubscriptionRejectionCode
subscription_rejection_code_numeric = record {
  number = subscription_rejection_code_value;
  variants = subscription_rejection_code_variants;
  variant_found = subscription_rejection_code_found;
  variants_numbered = (refl, (refl, (refl, (refl, (refl, tt)))));
}

pub data EntityLeaveReason : Type 0 where
  unknown unsubscribed disconnected transitioned removed : EntityLeaveReason

abbrev entity_leave_reason_value : EntityLeaveReason → ℕ
entity_leave_reason_value EntityLeaveReason.unknown = 0
entity_leave_reason_value EntityLeaveReason.unsubscribed = 1
entity_leave_reason_value EntityLeaveReason.disconnected = 2
entity_leave_reason_value EntityLeaveReason.transitioned = 3
entity_leave_reason_value EntityLeaveReason.removed = 4

abbrev entity_leave_reason_variants : List (ℕ × EntityLeaveReason)
entity_leave_reason_variants =
    (0, EntityLeaveReason.unknown)
    ∷ (1, EntityLeaveReason.unsubscribed)
    ∷ (2, EntityLeaveReason.disconnected)
    ∷ (3, EntityLeaveReason.transitioned)
    ∷ (4, EntityLeaveReason.removed)
    ∷ []

pub entity_leave_reason_found :
    (e : EntityLeaveReason)
    → from_variants entity_leave_reason_variants (entity_leave_reason_value e) ≡ some e
unfolding from_variants
entity_leave_reason_found EntityLeaveReason.unknown = refl
entity_leave_reason_found EntityLeaveReason.unsubscribed = refl
entity_leave_reason_found EntityLeaveReason.disconnected = refl
entity_leave_reason_found EntityLeaveReason.transitioned = refl
entity_leave_reason_found EntityLeaveReason.removed = refl

instance abbrev pub entity_leave_reason_numeric : NumericEnum EntityLeaveReason
entity_leave_reason_numeric = record {
  number = entity_leave_reason_value;
  variants = entity_leave_reason_variants;
  variant_found = entity_leave_reason_found;
  variants_numbered = (refl, (refl, (refl, (refl, (refl, tt)))));
}

pub data ProtocolErrorCode : Type 0 where
  unknown malformed_frame unsupported_version unsupported_message authentication_required
        unauthorized invalid_scope stale_epoch sequence_rejected payload_too_large rate_limited
        internal :
      ProtocolErrorCode

abbrev protocol_error_code_value : ProtocolErrorCode → ℕ
protocol_error_code_value ProtocolErrorCode.unknown = 0
protocol_error_code_value ProtocolErrorCode.malformed_frame = 1
protocol_error_code_value ProtocolErrorCode.unsupported_version = 2
protocol_error_code_value ProtocolErrorCode.unsupported_message = 3
protocol_error_code_value ProtocolErrorCode.authentication_required = 4
protocol_error_code_value ProtocolErrorCode.unauthorized = 5
protocol_error_code_value ProtocolErrorCode.invalid_scope = 6
protocol_error_code_value ProtocolErrorCode.stale_epoch = 7
protocol_error_code_value ProtocolErrorCode.sequence_rejected = 8
protocol_error_code_value ProtocolErrorCode.payload_too_large = 9
protocol_error_code_value ProtocolErrorCode.rate_limited = 10
protocol_error_code_value ProtocolErrorCode.internal = 11

abbrev protocol_error_code_variants : List (ℕ × ProtocolErrorCode)
protocol_error_code_variants =
    (0, ProtocolErrorCode.unknown)
    ∷ (1, ProtocolErrorCode.malformed_frame)
    ∷ (2, ProtocolErrorCode.unsupported_version)
    ∷ (3, ProtocolErrorCode.unsupported_message)
    ∷ (4, ProtocolErrorCode.authentication_required)
    ∷ (5, ProtocolErrorCode.unauthorized)
    ∷ (6, ProtocolErrorCode.invalid_scope)
    ∷ (7, ProtocolErrorCode.stale_epoch)
    ∷ (8, ProtocolErrorCode.sequence_rejected)
    ∷ (9, ProtocolErrorCode.payload_too_large)
    ∷ (10, ProtocolErrorCode.rate_limited)
    ∷ (11, ProtocolErrorCode.internal)
    ∷ []

pub protocol_error_code_found :
    (e : ProtocolErrorCode)
    → from_variants protocol_error_code_variants (protocol_error_code_value e) ≡ some e
unfolding from_variants
protocol_error_code_found ProtocolErrorCode.unknown = refl
protocol_error_code_found ProtocolErrorCode.malformed_frame = refl
protocol_error_code_found ProtocolErrorCode.unsupported_version = refl
protocol_error_code_found ProtocolErrorCode.unsupported_message = refl
protocol_error_code_found ProtocolErrorCode.authentication_required = refl
protocol_error_code_found ProtocolErrorCode.unauthorized = refl
protocol_error_code_found ProtocolErrorCode.invalid_scope = refl
protocol_error_code_found ProtocolErrorCode.stale_epoch = refl
protocol_error_code_found ProtocolErrorCode.sequence_rejected = refl
protocol_error_code_found ProtocolErrorCode.payload_too_large = refl
protocol_error_code_found ProtocolErrorCode.rate_limited = refl
protocol_error_code_found ProtocolErrorCode.internal = refl

instance abbrev pub protocol_error_code_numeric : NumericEnum ProtocolErrorCode
protocol_error_code_numeric = record {
  number = protocol_error_code_value;
  variants = protocol_error_code_variants;
  variant_found = protocol_error_code_found;
  variants_numbered = (
    refl,
    (refl, (refl, (refl, (refl, (refl, (refl, (refl, (refl, (refl, (refl, (refl, tt))))))))))),
  );
}

pub data ToolCallRejectionCode : Type 0 where
  unknown stale unauthorized invalid_arguments policy_denied : ToolCallRejectionCode

abbrev tool_call_rejection_code_value : ToolCallRejectionCode → ℕ
tool_call_rejection_code_value ToolCallRejectionCode.unknown = 0
tool_call_rejection_code_value ToolCallRejectionCode.stale = 1
tool_call_rejection_code_value ToolCallRejectionCode.unauthorized = 2
tool_call_rejection_code_value ToolCallRejectionCode.invalid_arguments = 3
tool_call_rejection_code_value ToolCallRejectionCode.policy_denied = 4

abbrev tool_call_rejection_code_variants : List (ℕ × ToolCallRejectionCode)
tool_call_rejection_code_variants =
    (0, ToolCallRejectionCode.unknown)
    ∷ (1, ToolCallRejectionCode.stale)
    ∷ (2, ToolCallRejectionCode.unauthorized)
    ∷ (3, ToolCallRejectionCode.invalid_arguments)
    ∷ (4, ToolCallRejectionCode.policy_denied)
    ∷ []

pub tool_call_rejection_code_found :
    (e : ToolCallRejectionCode)
    → from_variants tool_call_rejection_code_variants (tool_call_rejection_code_value e) ≡ some e
unfolding from_variants
tool_call_rejection_code_found ToolCallRejectionCode.unknown = refl
tool_call_rejection_code_found ToolCallRejectionCode.stale = refl
tool_call_rejection_code_found ToolCallRejectionCode.unauthorized = refl
tool_call_rejection_code_found ToolCallRejectionCode.invalid_arguments = refl
tool_call_rejection_code_found ToolCallRejectionCode.policy_denied = refl

instance abbrev pub tool_call_rejection_code_numeric : NumericEnum ToolCallRejectionCode
tool_call_rejection_code_numeric = record {
  number = tool_call_rejection_code_value;
  variants = tool_call_rejection_code_variants;
  variant_found = tool_call_rejection_code_found;
  variants_numbered = (refl, (refl, (refl, (refl, (refl, tt)))));
}
