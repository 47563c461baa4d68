-- ===== src/Protocol/Scope.antt =====
-- crates/woven-protocol/src/semantics.rs: the checks on the scope of an envelope.
use signalweave.Prelude.{
  ℕ, Bool, not, ◌||◌, ◌&&◌, ◌==◌, is_some, or_default, opt_eq, if◌then◌else◌, Option, some, String,
  Result, ok, err, ◌>>◌,
}
use signalweave.Protocol.Model.{Envelope, message_kind}
use signalweave.Protocol.Limits.{CodecError, invalid_semantics}

-- `invalid(envelope, reason)`
unfoldable pub invalid : Envelope → String → Result CodecError (Unit {0})
unfolding message_kind
invalid envelope reason = err (invalid_semantics (message_kind envelope) reason)

-- `if condition { return invalid(envelope, reason); }`
unfoldable pub reject_if : Bool → Envelope → String → Result CodecError (Unit {0})
unfolding invalid
reject_if condition envelope reason = if condition then invalid envelope reason else ok tt

unfoldable pub require : ℕ → Envelope → String → Result CodecError (Unit {0})
unfolding invalid
require value envelope reason = if value == 0 then invalid envelope reason else ok tt

unfoldable pub reject_zero_option : Option ℕ → Envelope → String → Result CodecError (Unit {0})
unfolding invalid
reject_zero_option value envelope reason =
    if opt_eq value (some 0) then invalid envelope reason else ok tt

unfoldable pub reject_zero_optional_ids : Envelope → Result CodecError (Unit {0})
unfolding reject_zero_option
reject_zero_optional_ids envelope = do
  reject_zero_option envelope.channel_id envelope "channel_id cannot be Some(0)"
  reject_zero_option envelope.entity_id envelope "entity_id cannot be Some(0)"
  reject_zero_option envelope.correlation_id envelope "correlation_id cannot be Some(0)"

unfoldable pub require_unscoped : Envelope → Result CodecError (Unit {0})
unfolding invalid
require_unscoped envelope =
    if not (envelope.namespace_id == 0)
      || not (envelope.session_id == 0)
      || not (envelope.space_id == 0)
      || is_some envelope.channel_id
      || is_some envelope.entity_id
      || not (envelope.space_epoch == 0)
    then invalid envelope
        "connection-level message must not carry namespace, session, space, channel, entity, or epoch scope"
    else ok tt

unfoldable pub require_session_scope : Envelope → Result CodecError (Unit {0})
unfolding invalid reject_if require
require_session_scope envelope = do
  require envelope.namespace_id envelope "namespace_id must be non-zero"
  require envelope.session_id envelope "session_id must be non-zero"
  reject_if
      (not (envelope.space_id == 0)
        || is_some envelope.channel_id
        || is_some envelope.entity_id
        || not (envelope.space_epoch == 0))
      envelope "session-level message must not carry space, channel, entity, or epoch scope"

unfoldable require_channel_scope : Envelope → Bool → Result CodecError (Unit {0})
unfolding reject_if require
require_channel_scope envelope require_channel =
    if require_channel
    then require (or_default envelope.channel_id 0) envelope "channel_id must be non-zero"
    else reject_if (is_some envelope.channel_id) envelope "message kind must not carry channel_id"

unfoldable require_entity_scope : Envelope → Bool → Result CodecError (Unit {0})
unfolding require
require_entity_scope envelope require_entity =
    if require_entity
    then require (or_default envelope.entity_id 0) envelope "entity_id must be non-zero"
    else ok tt

unfoldable pub require_space_scope : Envelope → Bool → Bool → Result CodecError (Unit {0})
unfolding require require_channel_scope require_entity_scope
require_space_scope envelope require_channel require_entity = do
  require envelope.namespace_id envelope "namespace_id must be non-zero"
  require envelope.session_id envelope "session_id must be non-zero"
  require envelope.space_id envelope "space_id must be non-zero"
  require envelope.space_epoch envelope "space_epoch must be non-zero"
  require_channel_scope envelope require_channel
  require_entity_scope envelope require_entity

abbrev pub has_space_detail : Envelope → Bool
has_space_detail envelope =
    not (envelope.space_id == 0)
    || is_some envelope.channel_id
    || is_some envelope.entity_id
    || not (envelope.space_epoch == 0)

unfoldable pub validate_optional_scope : Envelope → Result CodecError (Unit {0})
unfolding invalid
validate_optional_scope envelope =
    if (envelope.namespace_id == 0) && (not (envelope.session_id == 0) || has_space_detail envelope)
    then invalid envelope "scoped protocol error requires namespace_id"
    else if (envelope.session_id == 0) && has_space_detail envelope
    then invalid envelope "space-scoped protocol error requires session_id"
    else if (envelope.space_id == 0)
        && (is_some envelope.channel_id
            || is_some envelope.entity_id
            || not (envelope.space_epoch == 0))
    then invalid envelope "space-scoped protocol error requires space_id"
    else ok tt
