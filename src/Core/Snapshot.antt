-- ===== src/Core/Snapshot.antt =====
-- `snapshot` of crates/woven-core/src/core.rs, with its types of crates/woven-core/src/model.rs.
pub mod Visible
use signalweave.Prelude.{
  ℕ, ◌+◌, Bool, true, false, not, ◌&&◌, Option, none, some, List, [], ◌∷◌, map, Map, Set, nat_key,
  length, same, retain, if◌then◌else◌, or_default, Result, ok, ok_or, ◌>>=◌, ◌>>◌,
}
use signalweave.Prelude.Maps
use signalweave.Ids.{
  ChannelId, ConnectionId, EntityId, PrincipalId, SessionKey, SpaceEpoch, SpaceId, SpaceKey,
  session_key_order, space_key_order,
}
use signalweave.Space.{ParentAnchor, SpaceDescriptor}
use signalweave.Auth.{
  AuthenticatedPrincipal, ChannelScope, can_read_channel, can_read_namespace, can_read_session,
  can_read_space,
}
use signalweave.Core.{
  ConnectionState, CoreError, EntityRecord, SessionState, StateKey, StateRecord, WovenCore,
  session_not_found,
}
use signalweave.Core.Access.{
  authenticated_principal, connection_of, require_membership, require_namespace_read,
  require_session_read, validate_connection_id, validate_session_key,
}

pub record SpaceSnapshot (F : Type 0) : Type 0 where
  pub descriptor : SpaceDescriptor F

pub record EntitySnapshot : Type 0 where
  pub id : EntityId
  pub owner_connection : ConnectionId
  pub owner_principal : PrincipalId
  pub space : SpaceId
  pub space_epoch : SpaceEpoch

pub record StateSnapshot : Type 0 where
  pub space : SpaceId
  pub space_epoch : SpaceEpoch
  pub entity : Option EntityId
  pub channel : ChannelId
  pub component : ℕ
  pub sequence : ℕ
  pub payload : List ℕ

pub record SessionSnapshot (F : Type 0) : Type 0 where
  pub key : SessionKey
  pub member_count : ℕ
  pub subscription_count : ℕ
  pub state_bytes : ℕ
  pub spaces : List (SpaceSnapshot F)
  pub entities : List EntitySnapshot
  pub state : List StateSnapshot

-- The parent, unless its space is not visible.
abbrev pub visible_parent : Set SpaceId → Option ParentAnchor → Option ParentAnchor
visible_parent visible none = none
visible_parent visible (some parent) =
    if not (Maps.contains parent.parent_space visible) then none else some parent

abbrev pub is_visible_state :
    SessionKey → AuthenticatedPrincipal → Set SpaceId → StateKey × StateRecord → Bool
is_visible_state key principal visible entry =
    Maps.contains entry.0.space visible
    && can_read_channel principal.grants (record { session = key; channel = entry.0.channel })

abbrev pub state_snapshot : StateKey × StateRecord → StateSnapshot
state_snapshot entry = record {
  space = entry.0.space;
  space_epoch = entry.0.space_epoch;
  entity = entry.0.entity;
  channel = entry.0.channel;
  component = entry.0.component;
  sequence = entry.1.sequence;
  payload = entry.1.payload;
}

unfoldable pub sum_payloads : List StateSnapshot → ℕ
sum_payloads [] = 0
sum_payloads (state ∷ states) = length state.payload + sum_payloads states

module _ {F : Type 0} where
  -- Whether the subscription is one of a space that the snapshot may show.
  abbrev pub is_visible : SessionKey → AuthenticatedPrincipal → SessionState F → SpaceKey → Bool
  is_visible key principal session space =
      same space.session key
      && (can_read_space principal.grants space && Maps.contains space.space session.spaces)

  unfoldable pub visible_spaces :
      SessionKey → AuthenticatedPrincipal → SessionState F → Set SpaceKey → Set SpaceId
  visible_spaces key principal session [] = []
  visible_spaces key principal session ((space, _) ∷ subscriptions) =
      let rest = visible_spaces key principal session subscriptions in
      if is_visible key principal session space then Maps.insert space.space tt rest else rest

  -- The spaces of the first set, with the parents that the second has.
  unfoldable pub shown_spaces : Set SpaceId → Set SpaceId → SessionState F → List (SpaceSnapshot F)
  shown_spaces [] visible session = []
  shown_spaces ((space, _) ∷ spaces) visible session =
      let rest = shown_spaces spaces visible session in
      elim (Maps.get space session.spaces) [
        | none ↦ rest
        | some descriptor ↦
            record {
              descriptor = record descriptor { parent = visible_parent visible descriptor.parent };
            }
            ∷ rest
      ]

  abbrev pub entity_snapshot : EntityRecord F → EntitySnapshot
  entity_snapshot entity = record {
    id = entity.id;
    owner_connection = entity.owner_connection;
    owner_principal = entity.owner_principal;
    space = entity.space;
    space_epoch = entity.space_epoch;
  }

  abbrev pub shown_entities : Set SpaceId → SessionState F → List EntitySnapshot
  shown_entities visible session = map entity_snapshot (
      retain (λ (entity : EntityRecord F). Maps.contains entity.space visible)
        (Maps.values session.entities))

  abbrev pub shown_state :
      SessionKey → AuthenticatedPrincipal → Set SpaceId → SessionState F → List StateSnapshot
  shown_state key principal visible session =
      map state_snapshot (retain (is_visible_state key principal visible) session.state)

  unfoldable pub sum_subscribers : Set SpaceId → SessionState F → ℕ
  sum_subscribers [] session = 0
  sum_subscribers ((space, _) ∷ spaces) session =
      length (or_default (Maps.get space session.subscribers) []) + sum_subscribers spaces session

  -- What a principal is shown of a session through a set of visible spaces.
  unfoldable pub snapshot_of :
      SessionKey → AuthenticatedPrincipal → Set SpaceId → SessionState F → SessionSnapshot F
  unfolding shown_spaces sum_payloads sum_subscribers
  snapshot_of key principal visible session = record {
    key = key;
    member_count = length session.members;
    subscription_count = sum_subscribers visible session;
    state_bytes = sum_payloads (shown_state key principal visible session);
    spaces = shown_spaces visible visible session;
    entities = shown_entities visible session;
    state = shown_state key principal visible session;
  }

  unfoldable pub snapshot :
      ConnectionId → SessionKey → WovenCore F → Result CoreError (SessionSnapshot F)
  unfolding visible_spaces snapshot_of
  snapshot connection key core = do
    validate_connection_id connection
    validate_session_key key
    principal ← authenticated_principal core connection
    require_namespace_read principal key.namespace
    require_session_read principal key
    require_membership core connection key
    state ← connection_of core connection
    session ← ok_or (Maps.get key core.sessions) (session_not_found key)
    ok (
        snapshot_of key principal (visible_spaces key principal session state.subscriptions)
          session)
