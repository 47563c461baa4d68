-- ===== src/Protocol/Limits.antt =====
-- crates/woven-protocol/src/codec.rs: the limits of a codec and the errors of coding.
use signalweave.Prelude.{ℕ, ◌-◌, ◌*◌, String, ◌||◌, ltb, if◌then◌else◌, Result, ok, err, ◌>>=◌}
use signalweave.Ids.{u32_mod}
use signalweave.Protocol.Numeric.{value_of}
use signalweave.Protocol.Kinds.{MessageKind, message_kind_numeric}
use signalweave.Protocol.Wire.{WireEnvelope}
use signalweave.Protocol.Model.{saturating_add}

abbrev pub size_prefix_len : ℕ
size_prefix_len = 4

abbrev pub min_encoded_len : ℕ
min_encoded_len = 8

abbrev pub min_frame_len : ℕ
min_frame_len = 12

pub record CodecLimits : Type 0 where
  pub max_frame_len : ℕ
  pub max_payload_len : ℕ

pub data CodecError : Type 0 where
  invalid_limits : (max_frame_len max_payload_len : ℕ) → CodecError
  frame_too_large payload_too_large : (actual maximum : ℕ) → CodecError
  truncated_frame trailing_bytes : (expected actual : ℕ) → CodecError
  invalid_size_prefix : ℕ → CodecError
  invalid_file_identifier : CodecError
  invalid_flatbuffer : String → CodecError
  unsupported_protocol_version : ℕ → CodecError
  unknown_message_kind : ℕ → CodecError
  unknown_delivery_class : ℕ → CodecError
  unsupported_enum_value : (name : String) (value : ℕ) → CodecError
  message_control_mismatch : (message_kind control_kind : ℕ) → CodecError
  missing_payload_type : MessageKind → CodecError
  unexpected_domain_payload : MessageKind → CodecError
  invalid_semantics : (message_kind : MessageKind) (reason : String) → CodecError

-- `usize` has 64 bits.
unfoldable pub new_limits : ℕ → ℕ → Result CodecError CodecLimits
unfolding saturating_add
new_limits max_frame_len max_payload_len =
    if ltb max_frame_len min_frame_len
      || ltb (saturating_add (u32_mod - 1) size_prefix_len) max_frame_len
      || ltb max_frame_len max_payload_len
    then err (invalid_limits max_frame_len max_payload_len)
    else ok (record { max_frame_len = max_frame_len; max_payload_len = max_payload_len })

abbrev pub default_limits : CodecLimits
default_limits = record { max_frame_len = 1024 * 1024; max_payload_len = 256 * 1024 }

pub record Codec : Type 0 where
  pub limits : CodecLimits

unfoldable pub new : CodecLimits → Result CodecError Codec
unfolding new_limits
new limits = do
  _ ← new_limits limits.max_frame_len limits.max_payload_len
  ok (record { limits = limits })

unfoldable pub enforce_frame_limit : Codec → ℕ → Result CodecError (Unit {0})
enforce_frame_limit codec actual =
    if ltb codec.limits.max_frame_len actual
    then err (frame_too_large actual codec.limits.max_frame_len)
    else ok tt

unfoldable pub enforce_payload_limit : Codec → ℕ → Result CodecError (Unit {0})
enforce_payload_limit codec actual =
    if ltb codec.limits.max_payload_len actual
    then err (payload_too_large actual codec.limits.max_payload_len)
    else ok tt

unfoldable pub control_mismatch : WireEnvelope → MessageKind → CodecError
unfolding value_of
control_mismatch envelope kind = message_control_mismatch (value_of kind) envelope.control_type
