-- ===== src/Protocol/Contents.antt =====
-- crates/woven-protocol/src/semantics.rs: the checks on the contents of control payloads.
use signalweave.Prelude.{
  ℕ, true, false, not, ◌||◌, ◌&&◌, ◌==◌, ltb, leb, if◌then◌else◌, String, len, length, Result, ok,
  ◌>>◌,
}
use text.Mathlib.Text.{◌==◌ as str_eq}
use signalweave.Protocol.Numeric.{is_same}
use signalweave.Protocol.Kinds.{MessageKind, message_kind_numeric}
use signalweave.Protocol.Codes.{
  AuthenticationScheme, ProtocolErrorCode, ToolCallRejectionCode, authentication_scheme_numeric,
  protocol_error_code_numeric, tool_call_rejection_code_numeric,
}
use signalweave.Protocol.Payloads.{
  Hello, Capabilities, Authenticate, SnapshotRequest, SpaceTransition, ProtocolError,
  InferenceRequested, ToolCallProposed,
}
use signalweave.Protocol.Model.{Envelope, ControlPayload, protocol_version_one}
use signalweave.Protocol.Limits.{CodecError}
use signalweave.Protocol.Scope.{
  invalid, reject_if, require, reject_zero_option, require_space_scope, validate_optional_scope,
}

unfoldable pub validate_advertised_limits : Envelope → ℕ → ℕ → String → Result CodecError (Unit {0})
unfolding invalid reject_if
validate_advertised_limits envelope max_frame_size max_payload_size message =
    if (max_frame_size == 0) || (max_payload_size == 0)
    then invalid envelope (
        if str_eq message "Hello"
        then "Hello advertised limits must be non-zero"
        else "Capabilities advertised limits must be non-zero")
    else if ltb max_frame_size max_payload_size
    then invalid envelope (
        if str_eq message "Hello"
        then "Hello max_payload_size cannot exceed max_frame_size"
        else "Capabilities max_payload_size cannot exceed max_frame_size")
    else ok tt

unfoldable pub validate_hello : Envelope → Hello → Result CodecError (Unit {0})
unfolding invalid reject_if validate_advertised_limits
validate_hello envelope value = do
  reject_if
      ((value.min_protocol_version == 0)
        || ltb value.max_protocol_version value.min_protocol_version
        || not (
            leb value.min_protocol_version protocol_version_one
            && leb protocol_version_one value.max_protocol_version))
      envelope "Hello version range must be non-zero, ordered, and include protocol v1"
  validate_advertised_limits envelope value.max_frame_size value.max_payload_size "Hello"

unfoldable pub validate_capabilities : Envelope → Capabilities → Result CodecError (Unit {0})
unfolding invalid reject_if validate_advertised_limits
validate_capabilities envelope value = do
  reject_if (not (value.selected_protocol_version == protocol_version_one)) envelope
      "Capabilities selected_protocol_version must be protocol v1"
  validate_advertised_limits envelope value.max_frame_size value.max_payload_size "Capabilities"

unfoldable pub validate_authenticate : Envelope → Authenticate → Result CodecError (Unit {0})
unfolding invalid reject_if is_same
validate_authenticate envelope value =
    if is_same value.scheme AuthenticationScheme.unknown
    then invalid envelope "authentication scheme cannot be Unknown"
    else if length value.credentials == 0
    then invalid envelope "authentication credentials cannot be empty"
    else ok tt

unfoldable pub validate_snapshot_request : Envelope → SnapshotRequest → Result CodecError (Unit {0})
unfolding reject_zero_option
validate_snapshot_request envelope value =
    reject_zero_option value.after_server_tick envelope "after_server_tick cannot be Some(0)"

unfoldable pub validate_transition : Envelope → SpaceTransition → Result CodecError (Unit {0})
unfolding invalid reject_if require require_space_scope
validate_transition envelope value = do
  require_space_scope envelope false true
  require value.from_space_id envelope "transition from_space_id must be non-zero"
  require value.to_space_id envelope "transition to_space_id must be non-zero"
  require value.to_space_epoch envelope "transition to_space_epoch must be non-zero"
  reject_if (not (value.from_space_id == envelope.space_id)) envelope
      "transition from_space_id must match envelope space_id"
  reject_if (value.from_space_id == value.to_space_id) envelope "transition spaces must differ"

unfoldable pub validate_protocol_error : Envelope → ProtocolError → Result CodecError (Unit {0})
unfolding invalid reject_if is_same validate_optional_scope
validate_protocol_error envelope value = do
  reject_if (is_same value.code ProtocolErrorCode.unknown) envelope
      "protocol error code cannot be Unknown"
  reject_if (is_same value.related_message_kind MessageKind.unknown) envelope
      "related message kind cannot be Unknown"
  validate_optional_scope envelope

unfoldable pub validate_inference_requested :
    Envelope → InferenceRequested → Result CodecError (Unit {0})
unfolding invalid reject_if
validate_inference_requested envelope value =
    if len value.capability == 0
    then invalid envelope "inference capability cannot be empty"
    else ok tt

unfoldable pub validate_tool_call_proposed :
    Envelope → ToolCallProposed → Result CodecError (Unit {0})
unfolding invalid reject_if
validate_tool_call_proposed envelope value =
    if len value.tool_id == 0
    then invalid envelope "tool_id cannot be empty"
    else if value.tool_version == 0
    then invalid envelope "tool_version must be non-zero"
    else ok tt

-- The `match` of `validate_inference_control`, after the check of the scope.
unfoldable pub validate_inference_contents :
    Envelope → ControlPayload → Result CodecError (Unit {0})
unfolding invalid reject_if is_same validate_inference_requested validate_tool_call_proposed
validate_inference_contents envelope (ControlPayload.inference_requested value) =
    validate_inference_requested envelope value
validate_inference_contents envelope (ControlPayload.inference_progress value) =
    if ltb 100 value.percent
    then invalid envelope "inference progress percent cannot exceed 100"
    else ok tt
validate_inference_contents envelope (ControlPayload.inference_failed value) =
    if len value.reason == 0
    then invalid envelope "inference failure reason cannot be empty"
    else ok tt
validate_inference_contents envelope (ControlPayload.tool_call_proposed value) =
    validate_tool_call_proposed envelope value
validate_inference_contents envelope (ControlPayload.tool_call_accepted value) =
    if len value.tool_id == 0 then invalid envelope "tool_id cannot be empty" else ok tt
validate_inference_contents envelope (ControlPayload.tool_call_rejected value) =
    if is_same value.code ToolCallRejectionCode.unknown
    then invalid envelope "tool call rejection code cannot be Unknown"
    else ok tt
validate_inference_contents envelope _ = ok tt

unfoldable pub validate_inference_control : Envelope → ControlPayload → Result CodecError (Unit {0})
unfolding require_space_scope validate_inference_contents
validate_inference_control envelope control = do
  require_space_scope envelope false true
  validate_inference_contents envelope control
