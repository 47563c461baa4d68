-- ===== src/Protocol/Checked.antt =====
-- crates/woven-protocol/src/codec.rs: the checks that decoding makes on the parts of a control
-- table.
use signalweave.Prelude.{
  ℕ, not, ◌||◌, ◌==◌, is_some, or_default, if◌then◌else◌, Option, none, some, List, [], length,
  String, len, Result, ok, err, ◌>>◌, ◌>>=◌, fail_if, ok_or,
}
use signalweave.Protocol.Numeric.{NumericEnum, value_of, from_wire}
use signalweave.Protocol.Kinds.{MessageKind, message_kind_numeric}
use signalweave.Protocol.Model.{ControlPayload, saturating_add}
use signalweave.Protocol.Wire.{ControlType, control_type_numeric, ControlTable, WireEnvelope}
use signalweave.Protocol.Limits.{
  Codec, CodecError, unsupported_enum_value, invalid_semantics, control_mismatch,
  enforce_payload_limit,
}

unfoldable pub require_control :
    WireEnvelope → MessageKind → ControlType → Result CodecError (Unit {0})
unfolding value_of control_mismatch
require_control envelope kind expected =
    fail_if (not (envelope.control_type == value_of expected) || not (is_some envelope.control))
      (control_mismatch envelope kind)

-- `require_control`, the accessor of the table, and what is made of the table.
unfoldable pub typed_control :
    {T : Type 0}
    → WireEnvelope
    → MessageKind
    → ControlType
    → (ControlTable → Option T)
    → (T → Result CodecError ControlPayload)
    → Result CodecError ControlPayload
unfolding require_control control_mismatch
typed_control envelope kind expected accessor decode = do
  require_control envelope kind expected
  control ← ok_or envelope.control (control_mismatch envelope kind)
  table ← ok_or (accessor control) (control_mismatch envelope kind)
  decode table

-- `vector.map_or(0, |value| value.len())`
unfoldable pub vector_len : Option (List ℕ) → ℕ
vector_len none = 0
vector_len (some bytes) = length bytes

unfoldable pub vector_bytes : Option (List ℕ) → List ℕ
vector_bytes none = []
vector_bytes (some bytes) = bytes

unfoldable pub checked_control_vector : Codec → Option (List ℕ) → Result CodecError (List ℕ)
unfolding enforce_payload_limit vector_len vector_bytes
checked_control_vector codec vector = do
  enforce_payload_limit codec (vector_len vector)
  ok (vector_bytes vector)

unfoldable pub checked_control_string : Codec → Option String → Result CodecError String
unfolding enforce_payload_limit
checked_control_string codec value = do
  enforce_payload_limit codec (len (or_default value ""))
  ok (or_default value "")

unfoldable pub checked_control_strings :
    Codec → String → String → Result CodecError (String × String)
unfolding enforce_payload_limit saturating_add
checked_control_strings codec first second = do
  enforce_payload_limit codec (saturating_add (len first) (len second))
  ok (first, second)

unfoldable pub require_channel_mirror :
    WireEnvelope → MessageKind → ℕ → Result CodecError (Unit {0})
require_channel_mirror envelope kind mirrored_channel_id =
    if mirrored_channel_id == envelope.channel_id
    then ok tt
    else err (invalid_semantics kind "control channel_id must match envelope channel_id")

unfoldable pub nonzero : ℕ → Option ℕ
nonzero value = if value == 0 then none else some value

-- `from_wire`, or the error that names the enumeration.
unfoldable pub supported : {E : Type 0} ⦃numeric : NumericEnum E⦄ → String → ℕ → Result CodecError E
unfolding from_wire
supported name value = ok_or (from_wire value) (unsupported_enum_value name value)
