-- ===== src/Protocol/Codec/Bounded.antt =====
-- How long the parts of a message are that crates/woven-protocol/src/codec.rs decodes.
use signalweave.Prelude.{
  ℕ, ◌≤◌, ◌≡◌, subst, none, ok_injective, some, String, Option, List, length, len, Result, ok,
  >>=-eq-ok, then_eq_ok, arith, or_default,
}
use signalweave.Protocol.Kinds.{MessageKind, message_kind_numeric}
use signalweave.Protocol.Codes.{
  AuthenticationScheme, SubscriptionRejectionCode, EntityLeaveReason, ProtocolErrorCode,
  ToolCallRejectionCode, authentication_scheme_numeric, subscription_rejection_code_numeric,
  entity_leave_reason_numeric, protocol_error_code_numeric, tool_call_rejection_code_numeric,
}
use signalweave.Protocol.Model.{ControlPayload, variable_len, saturating_add}
use signalweave.Protocol.Tables.{
  HelloPayload, CapabilitiesPayload, AuthenticatePayload, AuthenticatedPayload, JoinSessionPayload,
  LeaveSessionPayload, SubscribeSpacePayload, UnsubscribeSpacePayload, SubscriptionAcceptedPayload,
  SubscriptionRejectedPayload, EntityEnteredPayload, EntityLeftPayload, SnapshotRequestPayload,
  SpaceTransitionPayload, PingPayload, PongPayload, ProtocolErrorPayload, InferenceRequestedPayload,
  InferenceAcceptedPayload, InferenceProgressPayload, InferenceStreamChunkPayload,
  InferenceCompletedPayload, InferenceFailedPayload, InferenceCancelledPayload,
  InferenceExpiredPayload, ToolCallProposedPayload, ToolCallAcceptedPayload,
  ToolCallRejectedPayload, ToolCallCompletedPayload,
}
use signalweave.Protocol.Wire.{WireEnvelope}
use signalweave.Protocol.Limits.{Codec, CodecError, enforce_payload_limit}
use signalweave.Protocol.Checked.{
  checked_control_vector, checked_control_string, checked_control_strings, vector_len, vector_bytes,
  require_channel_mirror, supported,
}
use signalweave.Protocol.DecodeTables.{
  decode_hello, decode_capabilities, decode_authenticate, decode_authenticated, decode_join_session,
  decode_leave_session, decode_subscribe_space, decode_unsubscribe_space,
  decode_subscription_accepted, decode_subscription_rejected, decode_entity_entered,
  decode_entity_left, decode_snapshot_request, decode_space_transition, decode_ping, decode_pong,
  decode_protocol_error, decode_inference_requested, decode_inference_accepted,
  decode_inference_progress, decode_inference_stream_chunk, decode_inference_completed,
  decode_inference_failed, decode_inference_cancelled, decode_inference_expired,
  decode_tool_call_proposed, decode_tool_call_accepted, decode_tool_call_rejected,
  decode_tool_call_completed,
}
use signalweave.Protocol.Accepted.{enforce_payload_limit-le}

-- The payloads with two parts that are checked one by one when they are read, and together when they are written.
abbrev pub HasFittingParts : ℕ → ControlPayload → Type 0
HasFittingParts limit (ControlPayload.inference_requested value) =
    (len value.capability ≤ limit) × (length value.input ≤ limit)
HasFittingParts limit (ControlPayload.tool_call_proposed value) =
    (len value.tool_id ≤ limit) × (length value.arguments ≤ limit)
HasFittingParts limit payload = variable_len payload ≤ limit

-- Whatever a call returns has the property.
abbrev pub Returns : {A : Type 0} → (A → Type 0) → Result CodecError A → Type 0
Returns {A} P call = (a : A) → call ≡ ok a → P a

module _ (codec : Codec) where
  pub vector_bytes-le :
      (vector : Option (List ℕ)) (limit : ℕ)
      → vector_len vector ≤ limit
      → length (vector_bytes vector) ≤ limit
  unfolding vector_len vector_bytes
  vector_bytes-le none limit fits = fits
  vector_bytes-le (some bytes) limit fits = fits

  checked_control_vector-le :
      (vector : Option (List ℕ)) (bytes : List ℕ)
      → checked_control_vector codec vector ≡ ok bytes
      → length bytes ≤ codec.limits.max_payload_len
  unfolding checked_control_vector
  checked_control_vector-le vector bytes is =
      let checked = then_eq_ok (enforce_payload_limit codec (vector_len vector)) _ is in
      subst (λ given. length given ≤ codec.limits.max_payload_len) (ok_injective checked.1)
        (vector_bytes-le vector codec.limits.max_payload_len
          (enforce_payload_limit-le codec (vector_len vector) checked.0))

  checked_control_string-le :
      (value : Option String) (text : String)
      → checked_control_string codec value ≡ ok text
      → len text ≤ codec.limits.max_payload_len
  unfolding checked_control_string
  checked_control_string-le value text is =
      let checked = then_eq_ok (enforce_payload_limit codec (len (or_default value ""))) _ is in
      subst (λ given. len given ≤ codec.limits.max_payload_len) (ok_injective checked.1)
        (enforce_payload_limit-le codec (len (or_default value "")) checked.0)

  checked_control_strings-le :
      (first second : String) (both : String × String)
      → checked_control_strings codec first second ≡ ok both
      → saturating_add (len both.0) (len both.1) ≤ codec.limits.max_payload_len
  unfolding checked_control_strings
  checked_control_strings-le first second both is =
      let checked =
        then_eq_ok (enforce_payload_limit codec (saturating_add (len first) (len second))) _ is in
      subst
        (λ (given : String × String).
          saturating_add (len given.0) (len given.1) ≤ codec.limits.max_payload_len)
        (ok_injective checked.1)
        (enforce_payload_limit-le codec (saturating_add (len first) (len second)) checked.0)

  abbrev pub Fitting : ControlPayload → Type 0
  Fitting = HasFittingParts codec.limits.max_payload_len

  pub decode_hello-Fitting :
      (envelope : WireEnvelope) (table : HelloPayload)
      → Returns Fitting (decode_hello codec envelope table)
  unfolding decode_hello variable_len
  decode_hello-Fitting envelope table payload is =
      let names =
        >>=-eq-ok
          (checked_control_strings codec (or_default table.client_name "")
            (or_default table.client_version ""))
          _ is in
      subst Fitting (ok_injective names.2) (
        checked_control_strings-le (or_default table.client_name "")
          (or_default table.client_version "") names.0 names.1)

  pub decode_capabilities-Fitting :
      (envelope : WireEnvelope) (table : CapabilitiesPayload)
      → Returns Fitting (decode_capabilities codec envelope table)
  unfolding decode_capabilities variable_len
  decode_capabilities-Fitting envelope table payload is =
      let names =
        >>=-eq-ok
          (checked_control_strings codec (or_default table.server_name "")
            (or_default table.server_version ""))
          _ is in
      subst Fitting (ok_injective names.2) (
        checked_control_strings-le (or_default table.server_name "")
          (or_default table.server_version "") names.0 names.1)

  pub decode_authenticate-Fitting :
      (envelope : WireEnvelope) (table : AuthenticatePayload)
      → Returns Fitting (decode_authenticate codec envelope table)
  unfolding decode_authenticate variable_len
  decode_authenticate-Fitting envelope table payload is =
      let scheme =
        >>=-eq-ok (supported {E = AuthenticationScheme} "authentication scheme" table.scheme) _
          is in
      let credentials = >>=-eq-ok (checked_control_vector codec table.credentials) _ scheme.2 in
      subst Fitting (ok_injective credentials.2)
        (checked_control_vector-le table.credentials credentials.0 credentials.1)

  pub decode_authenticated-Fitting :
      (envelope : WireEnvelope) (table : AuthenticatedPayload)
      → Returns Fitting (decode_authenticated codec envelope table)
  unfolding decode_authenticated variable_len
  decode_authenticated-Fitting envelope table payload is =
      subst Fitting (ok_injective is) (omega arith)

  pub decode_join_session-Fitting :
      (envelope : WireEnvelope) (table : JoinSessionPayload)
      → Returns Fitting (decode_join_session codec envelope table)
  unfolding decode_join_session variable_len
  decode_join_session-Fitting envelope table payload is =
      let resume_token = >>=-eq-ok (checked_control_vector codec table.resume_token) _ is in
      subst Fitting (ok_injective resume_token.2)
        (checked_control_vector-le table.resume_token resume_token.0 resume_token.1)

  pub decode_leave_session-Fitting :
      (envelope : WireEnvelope) (table : LeaveSessionPayload)
      → Returns Fitting (decode_leave_session codec envelope table)
  unfolding decode_leave_session variable_len
  decode_leave_session-Fitting envelope table payload is =
      let reason = >>=-eq-ok (checked_control_string codec table.reason) _ is in
      subst Fitting (ok_injective reason.2)
        (checked_control_string-le table.reason reason.0 reason.1)

  pub decode_subscribe_space-Fitting :
      (envelope : WireEnvelope) (table : SubscribeSpacePayload)
      → Returns Fitting (decode_subscribe_space codec envelope table)
  unfolding decode_subscribe_space variable_len
  decode_subscribe_space-Fitting envelope table payload is =
      let mirrored =
        then_eq_ok (require_channel_mirror envelope MessageKind.subscribe_space table.channel_id) _
          is in
      subst Fitting (ok_injective mirrored.1) (omega arith)

  pub decode_unsubscribe_space-Fitting :
      (envelope : WireEnvelope) (table : UnsubscribeSpacePayload)
      → Returns Fitting (decode_unsubscribe_space codec envelope table)
  unfolding decode_unsubscribe_space variable_len
  decode_unsubscribe_space-Fitting envelope table payload is =
      subst Fitting (ok_injective is) (omega arith)

  pub decode_subscription_accepted-Fitting :
      (envelope : WireEnvelope) (table : SubscriptionAcceptedPayload)
      → Returns Fitting (decode_subscription_accepted codec envelope table)
  unfolding decode_subscription_accepted variable_len
  decode_subscription_accepted-Fitting envelope table payload is =
      subst Fitting (ok_injective is) (omega arith)

  pub decode_subscription_rejected-Fitting :
      (envelope : WireEnvelope) (table : SubscriptionRejectedPayload)
      → Returns Fitting (decode_subscription_rejected codec envelope table)
  unfolding decode_subscription_rejected variable_len
  decode_subscription_rejected-Fitting envelope table payload is =
      let code =
        >>=-eq-ok
          (supported {E = SubscriptionRejectionCode} "subscription rejection code" table.code) _
          is in
      let reason = >>=-eq-ok (checked_control_string codec table.reason) _ code.2 in
      subst Fitting (ok_injective reason.2)
        (checked_control_string-le table.reason reason.0 reason.1)

  pub decode_entity_entered-Fitting :
      (envelope : WireEnvelope) (table : EntityEnteredPayload)
      → Returns Fitting (decode_entity_entered codec envelope table)
  unfolding decode_entity_entered variable_len
  decode_entity_entered-Fitting envelope table payload is =
      subst Fitting (ok_injective is) (omega arith)

  pub decode_entity_left-Fitting :
      (envelope : WireEnvelope) (table : EntityLeftPayload)
      → Returns Fitting (decode_entity_left codec envelope table)
  unfolding decode_entity_left variable_len
  decode_entity_left-Fitting envelope table payload is =
      let reason =
        >>=-eq-ok (supported {E = EntityLeaveReason} "entity leave reason" table.reason) _ is in
      subst Fitting (ok_injective reason.2) (omega arith)

  pub decode_snapshot_request-Fitting :
      (envelope : WireEnvelope) (table : SnapshotRequestPayload)
      → Returns Fitting (decode_snapshot_request codec envelope table)
  unfolding decode_snapshot_request variable_len
  decode_snapshot_request-Fitting envelope table payload is =
      let mirrored =
        then_eq_ok (require_channel_mirror envelope MessageKind.snapshot_request table.channel_id) _
          is in
      subst Fitting (ok_injective mirrored.1) (omega arith)

  pub decode_space_transition-Fitting :
      (envelope : WireEnvelope) (table : SpaceTransitionPayload)
      → Returns Fitting (decode_space_transition codec envelope table)
  unfolding decode_space_transition variable_len
  decode_space_transition-Fitting envelope table payload is =
      subst Fitting (ok_injective is) (omega arith)

  pub decode_ping-Fitting :
      (envelope : WireEnvelope) (table : PingPayload)
      → Returns Fitting (decode_ping codec envelope table)
  unfolding decode_ping variable_len
  decode_ping-Fitting envelope table payload is = subst Fitting (ok_injective is) (omega arith)

  pub decode_pong-Fitting :
      (envelope : WireEnvelope) (table : PongPayload)
      → Returns Fitting (decode_pong codec envelope table)
  unfolding decode_pong variable_len
  decode_pong-Fitting envelope table payload is = subst Fitting (ok_injective is) (omega arith)

  pub decode_protocol_error-Fitting :
      (envelope : WireEnvelope) (table : ProtocolErrorPayload)
      → Returns Fitting (decode_protocol_error codec envelope table)
  unfolding decode_protocol_error variable_len
  decode_protocol_error-Fitting envelope table payload is =
      let code =
        >>=-eq-ok (supported {E = ProtocolErrorCode} "protocol error code" table.code) _ is in
      let related_message_kind =
        >>=-eq-ok (supported {E = MessageKind} "related message kind" table.related_message_kind) _
          code.2 in
      let message =
        >>=-eq-ok (checked_control_string codec table.message) _ related_message_kind.2 in
      subst Fitting (ok_injective message.2)
        (checked_control_string-le table.message message.0 message.1)

  pub decode_inference_requested-Fitting :
      (envelope : WireEnvelope) (table : InferenceRequestedPayload)
      → Returns Fitting (decode_inference_requested codec envelope table)
  unfolding decode_inference_requested variable_len
  decode_inference_requested-Fitting envelope table payload is =
      let capability = >>=-eq-ok (checked_control_string codec table.capability) _ is in
      let input = >>=-eq-ok (checked_control_vector codec table.input) _ capability.2 in
      subst Fitting (ok_injective input.2) (
        checked_control_string-le table.capability capability.0 capability.1,
        checked_control_vector-le table.input input.0 input.1,
      )

  pub decode_inference_accepted-Fitting :
      (envelope : WireEnvelope) (table : InferenceAcceptedPayload)
      → Returns Fitting (decode_inference_accepted codec envelope table)
  unfolding decode_inference_accepted variable_len
  decode_inference_accepted-Fitting envelope table payload is =
      subst Fitting (ok_injective is) (omega arith)

  pub decode_inference_progress-Fitting :
      (envelope : WireEnvelope) (table : InferenceProgressPayload)
      → Returns Fitting (decode_inference_progress codec envelope table)
  unfolding decode_inference_progress variable_len
  decode_inference_progress-Fitting envelope table payload is =
      subst Fitting (ok_injective is) (omega arith)

  pub decode_inference_stream_chunk-Fitting :
      (envelope : WireEnvelope) (table : InferenceStreamChunkPayload)
      → Returns Fitting (decode_inference_stream_chunk codec envelope table)
  unfolding decode_inference_stream_chunk variable_len
  decode_inference_stream_chunk-Fitting envelope table payload is =
      let chunk = >>=-eq-ok (checked_control_vector codec table.chunk) _ is in
      subst Fitting (ok_injective chunk.2) (checked_control_vector-le table.chunk chunk.0 chunk.1)

  pub decode_inference_completed-Fitting :
      (envelope : WireEnvelope) (table : InferenceCompletedPayload)
      → Returns Fitting (decode_inference_completed codec envelope table)
  unfolding decode_inference_completed variable_len
  decode_inference_completed-Fitting envelope table payload is =
      let result = >>=-eq-ok (checked_control_vector codec table.result) _ is in
      subst Fitting (ok_injective result.2)
        (checked_control_vector-le table.result result.0 result.1)

  pub decode_inference_failed-Fitting :
      (envelope : WireEnvelope) (table : InferenceFailedPayload)
      → Returns Fitting (decode_inference_failed codec envelope table)
  unfolding decode_inference_failed variable_len
  decode_inference_failed-Fitting envelope table payload is =
      let reason = >>=-eq-ok (checked_control_string codec table.reason) _ is in
      subst Fitting (ok_injective reason.2)
        (checked_control_string-le table.reason reason.0 reason.1)

  pub decode_inference_cancelled-Fitting :
      (envelope : WireEnvelope) (table : InferenceCancelledPayload)
      → Returns Fitting (decode_inference_cancelled codec envelope table)
  unfolding decode_inference_cancelled variable_len
  decode_inference_cancelled-Fitting envelope table payload is =
      let reason = >>=-eq-ok (checked_control_string codec table.reason) _ is in
      subst Fitting (ok_injective reason.2)
        (checked_control_string-le table.reason reason.0 reason.1)

  pub decode_inference_expired-Fitting :
      (envelope : WireEnvelope) (table : InferenceExpiredPayload)
      → Returns Fitting (decode_inference_expired codec envelope table)
  unfolding decode_inference_expired variable_len
  decode_inference_expired-Fitting envelope table payload is =
      let reason = >>=-eq-ok (checked_control_string codec table.reason) _ is in
      subst Fitting (ok_injective reason.2)
        (checked_control_string-le table.reason reason.0 reason.1)

  pub decode_tool_call_proposed-Fitting :
      (envelope : WireEnvelope) (table : ToolCallProposedPayload)
      → Returns Fitting (decode_tool_call_proposed codec envelope table)
  unfolding decode_tool_call_proposed variable_len
  decode_tool_call_proposed-Fitting envelope table payload is =
      let tool_id = >>=-eq-ok (checked_control_string codec table.tool_id) _ is in
      let arguments = >>=-eq-ok (checked_control_vector codec table.arguments) _ tool_id.2 in
      subst Fitting (ok_injective arguments.2) (
        checked_control_string-le table.tool_id tool_id.0 tool_id.1,
        checked_control_vector-le table.arguments arguments.0 arguments.1,
      )

  pub decode_tool_call_accepted-Fitting :
      (envelope : WireEnvelope) (table : ToolCallAcceptedPayload)
      → Returns Fitting (decode_tool_call_accepted codec envelope table)
  unfolding decode_tool_call_accepted variable_len
  decode_tool_call_accepted-Fitting envelope table payload is =
      let tool_id = >>=-eq-ok (checked_control_string codec table.tool_id) _ is in
      subst Fitting (ok_injective tool_id.2)
        (checked_control_string-le table.tool_id tool_id.0 tool_id.1)

  pub decode_tool_call_rejected-Fitting :
      (envelope : WireEnvelope) (table : ToolCallRejectedPayload)
      → Returns Fitting (decode_tool_call_rejected codec envelope table)
  unfolding decode_tool_call_rejected variable_len
  decode_tool_call_rejected-Fitting envelope table payload is =
      let code =
        >>=-eq-ok (supported {E = ToolCallRejectionCode} "tool call rejection code" table.code) _
          is in
      let reason = >>=-eq-ok (checked_control_string codec table.reason) _ code.2 in
      subst Fitting (ok_injective reason.2)
        (checked_control_string-le table.reason reason.0 reason.1)

  pub decode_tool_call_completed-Fitting :
      (envelope : WireEnvelope) (table : ToolCallCompletedPayload)
      → Returns Fitting (decode_tool_call_completed codec envelope table)
  unfolding decode_tool_call_completed variable_len
  decode_tool_call_completed-Fitting envelope table payload is =
      let result = >>=-eq-ok (checked_control_vector codec table.result) _ is in
      subst Fitting (ok_injective result.2)
        (checked_control_vector-le table.result result.0 result.1)
