-- ===== src/Authority.antt =====
-- crates/woven-core/src/authority.rs: what an authority policy sees and answers, the policy
-- `RelayOwned`, and channel definitions. A policy is the function `evaluate` of its trait.
pub mod Relay
mod Examples
use signalweave.Prelude.{
  ℕ, Bool, true, false, not, Option, none, some, List, opt_eq, is_some, if◌then◌else◌,
}
use signalweave.Ids.{ChannelId, ConnectionId, EntityId, PrincipalId, SpaceEpoch, SpaceId}
use signalweave.Message.{CoalesceKey, DeliveryClass, PersistenceClass}

pub record AuthorityContext : Type 0 where
  pub connection : ConnectionId
  pub principal : PrincipalId
  pub is_session_member : Bool
  pub is_space_subscriber : Bool
  pub entity_owner : Option ConnectionId

pub record ProposedMessage : Type 0 where
  pub space : SpaceId
  pub space_epoch : SpaceEpoch
  pub entity : Option EntityId
  pub channel : ChannelId
  pub sequence : ℕ
  pub delivery : DeliveryClass
  pub persistence : PersistenceClass
  pub coalesce_key : Option CoalesceKey
  pub payload : List ℕ

pub record AuthorityTransform : Type 0 where
  pub coalesce_key : Option CoalesceKey
  pub payload : List ℕ

pub record AuthorityEmission : Type 0 where
  pub space : SpaceId
  pub space_epoch : SpaceEpoch
  pub entity : Option EntityId
  pub channel : ChannelId
  pub sequence : ℕ
  pub delivery : DeliveryClass
  pub persistence : PersistenceClass
  pub coalesce_key : Option CoalesceKey
  pub payload : List ℕ

pub data AuthorityRejection : Type 0 where
  authentication_required session_membership_required space_subscription_required entity_required
        entity_not_owned policy_denied :
      AuthorityRejection

pub data AuthorityOutcome : Type 0 where
  accept : AuthorityOutcome
  reject : AuthorityRejection → AuthorityOutcome
  transform : AuthorityTransform → AuthorityOutcome
  emit : List AuthorityEmission → AuthorityOutcome

abbrev pub AuthorityPolicy : Type 0
AuthorityPolicy = AuthorityContext → ProposedMessage → AuthorityOutcome

unfoldable pub relay_owned : AuthorityPolicy
relay_owned context proposed =
    if not context.is_session_member
    then reject session_membership_required
    else if not context.is_space_subscriber
    then reject space_subscription_required
    else if not (is_some proposed.entity)
    then reject entity_required
    else if not (opt_eq context.entity_owner (some context.connection))
    then reject entity_not_owned
    else accept

pub record ChannelDefinition : Type 0 where
  pub id : ChannelId
  pub delivery : DeliveryClass
  pub persistence : PersistenceClass
  pub max_payload_bytes : ℕ
  pub authority : AuthorityPolicy

-- `ChannelDefinition::new` and `relay_owned`
abbrev pub relay_channel : ChannelId → DeliveryClass → PersistenceClass → ℕ → ChannelDefinition
relay_channel id delivery persistence max_payload_bytes = record {
  id = id;
  delivery = delivery;
  persistence = persistence;
  max_payload_bytes = max_payload_bytes;
  authority = relay_owned;
}
