-- ===== src/Authority/Relay.antt =====
-- The policy `RelayOwned` of crates/woven-core/src/authority.rs.
use signalweave.Prelude.{◌≡◌, ◌≢◌, ◌↔◌, ◌⊎◌, true, none, some, arith}
use signalweave.Authority.{
  AuthorityContext, ProposedMessage, accept, reject, AuthorityRejection, relay_owned,
}

-- The relay accepts exactly the messages about an entity that the sending connection owns, from a
-- member of the session who subscribes to the space; every other message it rejects, and it never
-- transforms a message or emits others.
pub relay_owned-accept :
    (c : AuthorityContext) (m : ProposedMessage)
    → ((relay_owned c m ≡ accept) ↔ (
        (c.is_session_member ≡ true)
        × (c.is_space_subscriber ≡ true)
        × (m.entity ≢ none)
        × (c.entity_owner ≡ some c.connection)))
      × ((relay_owned c m ≡ accept)
          ⊎ ((reason : AuthorityRejection) × (relay_owned c m ≡ reject reason)))
unfolding relay_owned
relay_owned-accept c m = ground arith
