-- ===== src/Protocol/Codec.antt =====
-- crates/woven-protocol/src/codec.rs: encoding and decoding of envelopes. The code that writes and
-- reads the bytes of FlatBuffers is made by the build: it is a parameter of the coding functions.
mod RoundTrip
mod Bounded
mod BoundedControl
pub mod Resend
pub mod Framing
pub mod Frames
use signalweave.Prelude.{
  ℕ, ◌+◌, ◌*◌, Bool, true, false, not, ◌||◌, ◌==◌, ltb, is_some, or_default, if◌then◌else◌, Option,
  none, some, List, [], ◌∷◌, length, String, Result, ok, err, panic, ◌>>◌, ◌>>=◌, fail_if, ok_or,
  map_err,
}
use signalweave.Protocol.Numeric.{value_of, from_wire, is_same}
use signalweave.Protocol.Kinds.{
  MessageKind, DeliveryClass, message_kind_numeric, delivery_class_numeric,
}
use signalweave.Protocol.Model.{
  Envelope, ControlPayload, MessagePayload, OpaquePayload, message_kind, opaque, variable_len,
  saturating_add, protocol_version_one,
}
use signalweave.Protocol.Wire.{ControlType, ControlTable, WireEnvelope, control_type_numeric}
use signalweave.Protocol.Limits.{
  Codec, CodecError, truncated_frame, trailing_bytes, invalid_size_prefix, invalid_file_identifier,
  invalid_flatbuffer, unsupported_protocol_version, unknown_message_kind, unknown_delivery_class,
  missing_payload_type, unexpected_domain_payload, enforce_frame_limit, enforce_payload_limit,
  control_mismatch, size_prefix_len, min_encoded_len,
}
use signalweave.Protocol.Checked.{vector_len, vector_bytes, nonzero}
use signalweave.Protocol.EncodeControl.{encode_control}
use signalweave.Protocol.DecodeControl.{decode_control}
use signalweave.Protocol.Semantics.{validate}

-- What the build makes from the schema: `finish_size_prefixed_envelope_buffer`,
-- `envelope_size_prefixed_buffer_has_identifier` and `size_prefixed_root_as_envelope`.
pub record Flatbuffers : Type 0 where
  pub finish : WireEnvelope → List ℕ
  pub has_identifier : List ℕ → Bool
  pub root : List ℕ → Result String WireEnvelope

-- `u32::from_le_bytes`
unfoldable pub from_le_bytes : List ℕ → ℕ
from_le_bytes [] = 0
from_le_bytes (byte ∷ bytes) = byte + 256 * from_le_bytes bytes

-- The first four bytes, or `none` if there are fewer.
unfoldable pub size_prefix : List ℕ → Option (List ℕ)
size_prefix (a ∷ b ∷ c ∷ d ∷ bytes) = some (a ∷ b ∷ c ∷ d ∷ [])
size_prefix _ = none

unfoldable pub frame_len_of : Codec → ℕ → Result CodecError (Option ℕ)
unfolding saturating_add enforce_frame_limit
frame_len_of codec encoded_len = do
  fail_if (ltb encoded_len min_encoded_len) (invalid_size_prefix encoded_len)
  enforce_frame_limit codec (saturating_add encoded_len size_prefix_len)
  ok (some (saturating_add encoded_len size_prefix_len))

unfoldable prefixed_len : Codec → Option (List ℕ) → Result CodecError (Option ℕ)
unfolding from_le_bytes frame_len_of
prefixed_len codec none = ok none
prefixed_len codec (some bytes) = frame_len_of codec (from_le_bytes bytes)

unfoldable pub expected_frame_len : Codec → List ℕ → Result CodecError (Option ℕ)
unfolding size_prefix prefixed_len
expected_frame_len codec prefix = prefixed_len codec (size_prefix prefix)

unfoldable outbound_opaque : Codec → Envelope → OpaquePayload → Result CodecError (Unit {0})
unfolding enforce_payload_limit message_kind
outbound_opaque codec envelope payload = do
  fail_if (payload.type_id == 0) (missing_payload_type (message_kind envelope))
  enforce_payload_limit codec (length payload.bytes)

unfoldable outbound_payload : Codec → Envelope → MessagePayload → Result CodecError (Unit {0})
unfolding outbound_opaque enforce_payload_limit
outbound_payload codec envelope (MessagePayload.control control) =
    enforce_payload_limit codec (variable_len control)
outbound_payload codec envelope (MessagePayload.entity_state payload) =
    outbound_opaque codec envelope payload
outbound_payload codec envelope (MessagePayload.reliable_event payload) =
    outbound_opaque codec envelope payload
outbound_payload codec envelope (MessagePayload.snapshot payload) =
    outbound_opaque codec envelope payload

unfoldable check_version : ℕ → Result CodecError (Unit {0})
check_version version =
    fail_if (not (version == protocol_version_one)) (unsupported_protocol_version version)

unfoldable pub validate_outbound : Codec → Envelope → Result CodecError (Unit {0})
unfolding check_version is_same value_of validate outbound_payload
validate_outbound codec envelope = do
  check_version envelope.protocol_version
  fail_if (is_same envelope.delivery_class DeliveryClass.unknown)
      (unknown_delivery_class (value_of envelope.delivery_class))
  validate envelope
  outbound_payload codec envelope envelope.message

-- The control table of a message: its type, and the table or none.
unfoldable wire_control : MessagePayload → ℕ → ControlType × Option ControlTable
unfolding encode_control
wire_control (MessagePayload.control payload) channel_id =
    ((encode_control payload channel_id).0, some (encode_control payload channel_id).1)
wire_control _ channel_id = (ControlType.no_payload, none)

unfoldable wire_payload : Option OpaquePayload → Option (List ℕ)
wire_payload none = none
wire_payload (some payload) = some payload.bytes

unfoldable wire_type_id : Option OpaquePayload → ℕ
wire_type_id none = 0
wire_type_id (some payload) = payload.type_id

-- The root table of an envelope.
unfoldable pub wire_envelope : Envelope → WireEnvelope
unfolding wire_control wire_payload wire_type_id value_of message_kind opaque
wire_envelope envelope = record {
  protocol_version = envelope.protocol_version;
  message_kind = value_of (message_kind envelope);
  delivery_class = value_of envelope.delivery_class;
  namespace_id = envelope.namespace_id;
  session_id = envelope.session_id;
  space_id = envelope.space_id;
  entity_id = or_default envelope.entity_id 0;
  space_epoch = envelope.space_epoch;
  server_tick = envelope.server_tick;
  sender_sequence = envelope.sender_sequence;
  correlation_id = or_default envelope.correlation_id 0;
  payload_type_id = wire_type_id (opaque envelope.message);
  payload = wire_payload (opaque envelope.message);
  control_type = value_of (wire_control envelope.message (or_default envelope.channel_id 0)).0;
  control = (wire_control envelope.message (or_default envelope.channel_id 0)).1;
  channel_id = or_default envelope.channel_id 0;
}

unfoldable pub encode : Flatbuffers → Codec → Envelope → Result CodecError (List ℕ)
unfolding validate_outbound wire_envelope enforce_frame_limit
encode flatbuffers codec envelope = do
  validate_outbound codec envelope
  enforce_frame_limit codec (length (flatbuffers.finish (wire_envelope envelope)))
  ok (flatbuffers.finish (wire_envelope envelope))

unfoldable opaque_of : WireEnvelope → MessageKind → OpaquePayload → Result CodecError MessagePayload
unfolding control_mismatch
opaque_of envelope MessageKind.entity_state payload = ok (MessagePayload.entity_state payload)
opaque_of envelope MessageKind.reliable_event payload = ok (MessagePayload.reliable_event payload)
opaque_of envelope MessageKind.snapshot payload = ok (MessagePayload.snapshot payload)
opaque_of envelope kind payload = err (control_mismatch envelope kind)

unfoldable pub decode_opaque : Codec → WireEnvelope → MessageKind → Result CodecError MessagePayload
unfolding opaque_of value_of control_mismatch enforce_payload_limit vector_len vector_bytes
decode_opaque codec envelope kind = do
  fail_if
      (not (envelope.control_type == value_of ControlType.no_payload) || is_some envelope.control)
      (control_mismatch envelope kind)
  fail_if (envelope.payload_type_id == 0) (missing_payload_type kind)
  enforce_payload_limit codec (vector_len envelope.payload)
  opaque_of envelope kind
      (record { type_id = envelope.payload_type_id; bytes = vector_bytes envelope.payload })

unfoldable decode_domain : Codec → WireEnvelope → MessageKind → Result CodecError MessagePayload
unfolding decode_control
decode_domain codec envelope kind = do
  fail_if (not (envelope.payload_type_id == 0) || is_some envelope.payload)
      (unexpected_domain_payload kind)
  control ← decode_control codec envelope kind
  ok (MessagePayload.control control)

unfoldable decode_message : Codec → WireEnvelope → MessageKind → Result CodecError MessagePayload
unfolding decode_opaque decode_domain
decode_message codec envelope MessageKind.entity_state =
    decode_opaque codec envelope MessageKind.entity_state
decode_message codec envelope MessageKind.reliable_event =
    decode_opaque codec envelope MessageKind.reliable_event
decode_message codec envelope MessageKind.snapshot =
    decode_opaque codec envelope MessageKind.snapshot
decode_message codec envelope MessageKind.unknown = err (unknown_message_kind 0)
decode_message codec envelope kind = decode_domain codec envelope kind

-- `from_wire(number).filter(|kind| *kind != Unknown).ok_or(error)`
unfoldable known_kind : ℕ → Result CodecError MessageKind
unfolding from_wire is_same
known_kind number = do
  kind ← ok_or (from_wire number) (unknown_message_kind number)
  fail_if (is_same kind MessageKind.unknown) (unknown_message_kind number)
  ok kind

unfoldable known_class : ℕ → Result CodecError DeliveryClass
unfolding from_wire is_same
known_class number = do
  class ← ok_or (from_wire number) (unknown_delivery_class number)
  fail_if (is_same class DeliveryClass.unknown) (unknown_delivery_class number)
  ok class

unfoldable decoded_envelope : WireEnvelope → DeliveryClass → MessagePayload → Envelope
unfolding nonzero
decoded_envelope envelope delivery_class message = record {
  protocol_version = envelope.protocol_version;
  delivery_class = delivery_class;
  namespace_id = envelope.namespace_id;
  session_id = envelope.session_id;
  space_id = envelope.space_id;
  channel_id = nonzero envelope.channel_id;
  entity_id = nonzero envelope.entity_id;
  space_epoch = envelope.space_epoch;
  server_tick = envelope.server_tick;
  sender_sequence = envelope.sender_sequence;
  correlation_id = nonzero envelope.correlation_id;
  message = message;
}

unfoldable pub decode_verified : Codec → WireEnvelope → Result CodecError Envelope
unfolding check_version known_kind known_class decode_message decoded_envelope validate
decode_verified codec envelope = do
  check_version envelope.protocol_version
  kind ← known_kind envelope.message_kind
  delivery_class ← known_class envelope.delivery_class
  message ← decode_message codec envelope kind
  validate (decoded_envelope envelope delivery_class message)
  ok (decoded_envelope envelope delivery_class message)

unfoldable pub decode : Flatbuffers → Codec → List ℕ → Result CodecError Envelope
unfolding expected_frame_len decode_verified
decode flatbuffers codec frame = do
  prefix ← expected_frame_len codec frame
  expected ← ok_or prefix (truncated_frame size_prefix_len (length frame))
  fail_if (ltb (length frame) expected) (truncated_frame expected (length frame))
  fail_if (ltb expected (length frame)) (trailing_bytes expected (length frame))
  fail_if (not (flatbuffers.has_identifier frame)) invalid_file_identifier
  envelope ← map_err invalid_flatbuffer (flatbuffers.root frame)
  decode_verified codec envelope
