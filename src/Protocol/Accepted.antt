-- ===== src/Protocol/Accepted.antt =====
-- Lemmas on the checks of crates/woven-protocol/src/codec.rs at parts that a writer has written.
use signalweave.Prelude.{
  ℕ, ◌+◌, ◌-◌, ◌≤◌, ◌<◌, ◌≡◌, ◌≢◌, refl, Option, some, List, length, String, len, ok, or_default,
  arith,
}
use signalweave.Ids.{u64_mod}
use signalweave.Protocol.Numeric.{NumericEnum, value_of, numeric-RoundTrips}
use signalweave.Protocol.Kinds.{MessageKind}
use signalweave.Protocol.Model.{saturating_add}
use signalweave.Protocol.Wire.{ControlType, ControlTable, WireEnvelope, control_type_numeric}
use signalweave.Protocol.Limits.{Codec, enforce_payload_limit}
use signalweave.Protocol.Checked.{
  require_control, checked_control_vector, checked_control_string, checked_control_strings,
  require_channel_mirror, nonzero, supported,
}

pub saturating_add-le :
    (a b limit : ℕ) → limit < u64_mod - 1 → saturating_add a b ≤ limit → a + b ≤ limit
unfolding saturating_add
saturating_add-le a b limit small fits = ground arith

pub enforce_payload_limit-ok :
    (codec : Codec) (n : ℕ)
    → n ≤ codec.limits.max_payload_len
    → enforce_payload_limit codec n ≡ ok tt
unfolding enforce_payload_limit
enforce_payload_limit-ok codec n fits = ground arith

pub enforce_payload_limit-le :
    (codec : Codec) (n : ℕ)
    → enforce_payload_limit codec n ≡ ok tt
    → n ≤ codec.limits.max_payload_len
unfolding enforce_payload_limit
enforce_payload_limit-le codec n passed = ground arith

module _ (codec : Codec) where
  pub checked_control_vector-ok :
      (bytes : List ℕ)
      → length bytes ≤ codec.limits.max_payload_len
      → checked_control_vector codec (some bytes) ≡ ok bytes
  unfolding checked_control_vector
  checked_control_vector-ok bytes fits =
      rw (enforce_payload_limit-ok codec (length bytes) fits) refl

  pub checked_control_string-ok :
      (text : String)
      → len text ≤ codec.limits.max_payload_len
      → checked_control_string codec (some text) ≡ ok text
  unfolding checked_control_string
  checked_control_string-ok text fits = rw (enforce_payload_limit-ok codec (len text) fits) refl

  pub checked_control_strings-ok :
      (first second : String)
      → saturating_add (len first) (len second) ≤ codec.limits.max_payload_len
      → checked_control_strings codec first second ≡ ok (first, second)
  unfolding checked_control_strings
  checked_control_strings-ok first second fits =
      rw (enforce_payload_limit-ok codec (saturating_add (len first) (len second)) fits) refl

pub nonzero-or_default : (o : Option ℕ) → o ≢ some 0 → nonzero (or_default o 0) ≡ o
unfolding nonzero
nonzero-or_default o h = ground arith

pub supported-value_of :
    {E : Type 0} ⦃numeric : NumericEnum E⦄ (name : String) (e : E)
    → supported name (value_of e) ≡ ok e
unfolding supported
supported-value_of {E} name e = rw ((numeric-RoundTrips E).0 e) refl

module _ (envelope : WireEnvelope) where
  pub require_channel_mirror-ok :
      (kind : MessageKind) → require_channel_mirror envelope kind envelope.channel_id ≡ ok tt
  unfolding require_channel_mirror
  require_channel_mirror-ok kind = ground arith

  pub require_control-ok :
      (kind : MessageKind) (expected : ControlType) (control : ControlTable)
      → envelope.control_type ≡ value_of expected
      → envelope.control ≡ some control
      → require_control envelope kind expected ≡ ok tt
  unfolding require_control
  require_control-ok kind expected control type_named present = ground (arith, type_named, present)
