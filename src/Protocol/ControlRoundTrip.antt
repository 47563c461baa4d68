-- ===== src/Protocol/ControlRoundTrip.antt =====
-- Decoding a control table that `encode_control` of crates/woven-protocol/src/codec.rs wrote.
use signalweave.Prelude.{◌-◌, ◌≤◌, ◌<◌, ◌≡◌, ◌≢◌, refl, some, ok, length, len, arith}
use signalweave.Ids.{u64_mod}
use signalweave.Protocol.Numeric.{value_of}
use signalweave.Protocol.Kinds.{MessageKind, message_kind_numeric}
use signalweave.Protocol.Codes.{
  authentication_scheme_numeric, subscription_rejection_code_numeric, entity_leave_reason_numeric,
  protocol_error_code_numeric, tool_call_rejection_code_numeric,
}
use signalweave.Protocol.Model.{ControlPayload, control_kind, variable_len}
use signalweave.Protocol.Wire.{ControlType, WireEnvelope, control_type_numeric}
use signalweave.Protocol.Limits.{Codec}
use signalweave.Protocol.EncodeControl.{encode_control}
use signalweave.Protocol.DecodeControl.{decode_control}
use signalweave.Protocol.Accepted.{
  saturating_add-le, checked_control_vector-ok, checked_control_string-ok,
  checked_control_strings-ok, nonzero-or_default, supported-value_of, require_channel_mirror-ok,
  require_control-ok,
}

-- Zero stands for an absent number on the wire.
abbrev pub HasNonzeroIds : ControlPayload → Type 0
HasNonzeroIds (ControlPayload.authenticated value) = value.assigned_entity_id ≢ some 0
HasNonzeroIds (ControlPayload.entity_entered value) = value.owner_entity_id ≢ some 0
HasNonzeroIds (ControlPayload.snapshot_request value) = value.after_server_tick ≢ some 0
HasNonzeroIds _ = Unit

module _ (codec : Codec) (small : codec.limits.max_payload_len < u64_mod - 1) where
  pub decode_control-encode_control :
      (envelope : WireEnvelope) (payload : ControlPayload)
      → envelope.control_type ≡ value_of (encode_control payload envelope.channel_id).0
      → envelope.control ≡ some (encode_control payload envelope.channel_id).1
      → variable_len payload ≤ codec.limits.max_payload_len
      → HasNonzeroIds payload
      → decode_control codec envelope (control_kind payload) ≡ ok payload
  unfolding encode_control decode_control control_kind variable_len
  decode_control-encode_control envelope (ControlPayload.hello value) type_named present fits ids =
      rw
        (
          require_control-ok envelope MessageKind.hello ControlType.hello_payload _ type_named
              present,
          present,
          checked_control_strings-ok codec value.client_name value.client_version fits,
        )
        refl
  decode_control-encode_control envelope (ControlPayload.capabilities value) type_named present fits
        ids =
      rw
        (
          require_control-ok envelope MessageKind.capabilities ControlType.capabilities_payload _
              type_named present,
          present,
          checked_control_strings-ok codec value.server_name value.server_version fits,
        )
        refl
  decode_control-encode_control envelope (ControlPayload.authenticate value) type_named present fits
        ids =
      rw
        (
          require_control-ok envelope MessageKind.authenticate ControlType.authenticate_payload _
              type_named present,
          present,
          supported-value_of _ value.scheme,
          checked_control_vector-ok codec value.credentials fits,
        )
        refl
  decode_control-encode_control envelope (ControlPayload.authenticated value) type_named present
        fits ids =
      rw
        (
          require_control-ok envelope MessageKind.authenticated ControlType.authenticated_payload _
              type_named present,
          present,
          nonzero-or_default value.assigned_entity_id ids,
        )
        refl
  decode_control-encode_control envelope (ControlPayload.join_session value) type_named present fits
        ids =
      rw
        (
          require_control-ok envelope MessageKind.join_session ControlType.join_session_payload _
              type_named present,
          present,
          checked_control_vector-ok codec value.resume_token fits,
        )
        refl
  decode_control-encode_control envelope (ControlPayload.leave_session value) type_named present
        fits ids =
      rw
        (
          require_control-ok envelope MessageKind.leave_session ControlType.leave_session_payload _
              type_named present,
          present,
          checked_control_string-ok codec value.reason fits,
        )
        refl
  decode_control-encode_control envelope ControlPayload.subscribe_space type_named present fits
        ids =
      rw
        (
          require_control-ok envelope MessageKind.subscribe_space
              ControlType.subscribe_space_payload _ type_named present,
          present,
          require_channel_mirror-ok envelope _,
        )
        refl
  decode_control-encode_control envelope (ControlPayload.unsubscribe_space value) type_named present
        fits ids =
      rw
        (
          require_control-ok envelope MessageKind.unsubscribe_space
              ControlType.unsubscribe_space_payload _ type_named present,
          present,
        )
        refl
  decode_control-encode_control envelope (ControlPayload.subscription_accepted value) type_named
        present fits ids =
      rw
        (
          require_control-ok envelope MessageKind.subscription_accepted
              ControlType.subscription_accepted_payload _ type_named present,
          present,
        )
        refl
  decode_control-encode_control envelope (ControlPayload.subscription_rejected value) type_named
        present fits ids =
      rw
        (
          require_control-ok envelope MessageKind.subscription_rejected
              ControlType.subscription_rejected_payload _ type_named present,
          present,
          supported-value_of _ value.code,
          checked_control_string-ok codec value.reason fits,
        )
        refl
  decode_control-encode_control envelope (ControlPayload.entity_entered value) type_named present
        fits ids =
      rw
        (
          require_control-ok envelope MessageKind.entity_entered ControlType.entity_entered_payload
              _ type_named present,
          present,
          nonzero-or_default value.owner_entity_id ids,
        )
        refl
  decode_control-encode_control envelope (ControlPayload.entity_left value) type_named present fits
        ids =
      rw
        (
          require_control-ok envelope MessageKind.entity_left ControlType.entity_left_payload _
              type_named present,
          present,
          supported-value_of _ value.reason,
        )
        refl
  decode_control-encode_control envelope (ControlPayload.snapshot_request value) type_named present
        fits ids =
      rw
        (
          require_control-ok envelope MessageKind.snapshot_request
              ControlType.snapshot_request_payload _ type_named present,
          present,
          require_channel_mirror-ok envelope _,
          nonzero-or_default value.after_server_tick ids,
        )
        refl
  decode_control-encode_control envelope (ControlPayload.space_transition value) type_named present
        fits ids =
      rw
        (
          require_control-ok envelope MessageKind.space_transition
              ControlType.space_transition_payload _ type_named present,
          present,
        )
        refl
  decode_control-encode_control envelope (ControlPayload.ping value) type_named present fits ids =
      rw
        (
          require_control-ok envelope MessageKind.ping ControlType.ping_payload _ type_named
              present,
          present,
        )
        refl
  decode_control-encode_control envelope (ControlPayload.pong value) type_named present fits ids =
      rw
        (
          require_control-ok envelope MessageKind.pong ControlType.pong_payload _ type_named
              present,
          present,
        )
        refl
  decode_control-encode_control envelope (ControlPayload.protocol_error value) type_named present
        fits ids =
      rw
        (
          require_control-ok envelope MessageKind.protocol_error ControlType.protocol_error_payload
              _ type_named present,
          present,
          supported-value_of _ value.code,
          supported-value_of _ value.related_message_kind,
          checked_control_string-ok codec value.message fits,
        )
        refl
  decode_control-encode_control envelope (ControlPayload.inference_requested value) type_named
        present fits ids =
      rw
        (
          require_control-ok envelope MessageKind.inference_requested
              ControlType.inference_requested_payload _ type_named present,
          present,
          checked_control_string-ok codec value.capability (
              omega (
                arith,
                saturating_add-le (len value.capability) (length value.input)
                    codec.limits.max_payload_len small fits,
              )),
          checked_control_vector-ok codec value.input (
              omega (
                arith,
                saturating_add-le (len value.capability) (length value.input)
                    codec.limits.max_payload_len small fits,
              )),
        )
        refl
  decode_control-encode_control envelope (ControlPayload.inference_accepted value) type_named
        present fits ids =
      rw
        (
          require_control-ok envelope MessageKind.inference_accepted
              ControlType.inference_accepted_payload _ type_named present,
          present,
        )
        refl
  decode_control-encode_control envelope (ControlPayload.inference_progress value) type_named
        present fits ids =
      rw
        (
          require_control-ok envelope MessageKind.inference_progress
              ControlType.inference_progress_payload _ type_named present,
          present,
        )
        refl
  decode_control-encode_control envelope (ControlPayload.inference_stream_chunk value) type_named
        present fits ids =
      rw
        (
          require_control-ok envelope MessageKind.inference_stream_chunk
              ControlType.inference_stream_chunk_payload _ type_named present,
          present,
          checked_control_vector-ok codec value.chunk fits,
        )
        refl
  decode_control-encode_control envelope (ControlPayload.inference_completed value) type_named
        present fits ids =
      rw
        (
          require_control-ok envelope MessageKind.inference_completed
              ControlType.inference_completed_payload _ type_named present,
          present,
          checked_control_vector-ok codec value.result fits,
        )
        refl
  decode_control-encode_control envelope (ControlPayload.inference_failed value) type_named present
        fits ids =
      rw
        (
          require_control-ok envelope MessageKind.inference_failed
              ControlType.inference_failed_payload _ type_named present,
          present,
          checked_control_string-ok codec value.reason fits,
        )
        refl
  decode_control-encode_control envelope (ControlPayload.inference_cancelled value) type_named
        present fits ids =
      rw
        (
          require_control-ok envelope MessageKind.inference_cancelled
              ControlType.inference_cancelled_payload _ type_named present,
          present,
          checked_control_string-ok codec value.reason fits,
        )
        refl
  decode_control-encode_control envelope (ControlPayload.inference_expired value) type_named present
        fits ids =
      rw
        (
          require_control-ok envelope MessageKind.inference_expired
              ControlType.inference_expired_payload _ type_named present,
          present,
          checked_control_string-ok codec value.reason fits,
        )
        refl
  decode_control-encode_control envelope (ControlPayload.tool_call_proposed value) type_named
        present fits ids =
      rw
        (
          require_control-ok envelope MessageKind.tool_call_proposed
              ControlType.tool_call_proposed_payload _ type_named present,
          present,
          checked_control_string-ok codec value.tool_id (
              omega (
                arith,
                saturating_add-le (len value.tool_id) (length value.arguments)
                    codec.limits.max_payload_len small fits,
              )),
          checked_control_vector-ok codec value.arguments (
              omega (
                arith,
                saturating_add-le (len value.tool_id) (length value.arguments)
                    codec.limits.max_payload_len small fits,
              )),
        )
        refl
  decode_control-encode_control envelope (ControlPayload.tool_call_accepted value) type_named
        present fits ids =
      rw
        (
          require_control-ok envelope MessageKind.tool_call_accepted
              ControlType.tool_call_accepted_payload _ type_named present,
          present,
          checked_control_string-ok codec value.tool_id fits,
        )
        refl
  decode_control-encode_control envelope (ControlPayload.tool_call_rejected value) type_named
        present fits ids =
      rw
        (
          require_control-ok envelope MessageKind.tool_call_rejected
              ControlType.tool_call_rejected_payload _ type_named present,
          present,
          supported-value_of _ value.code,
          checked_control_string-ok codec value.reason fits,
        )
        refl
  decode_control-encode_control envelope (ControlPayload.tool_call_completed value) type_named
        present fits ids =
      rw
        (
          require_control-ok envelope MessageKind.tool_call_completed
              ControlType.tool_call_completed_payload _ type_named present,
          present,
          checked_control_vector-ok codec value.result fits,
        )
        refl
