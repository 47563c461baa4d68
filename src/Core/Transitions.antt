-- ===== src/Core/Transitions.antt =====
-- `transition_entity` of crates/woven-core/src/core.rs: an entity moves to another space.
use signalweave.Prelude.{
  Bool, not, ◌&&◌, ◌||◌, Option, none, some, nat_key, ◌==◌, opt_eq, if◌then◌else◌, Result, ok,
  fail_if, ok_or, ◌>>=◌, ◌>>◌,
}
use signalweave.Prelude.Maps
use signalweave.Ids.{
  EntityId, SpaceId, SpaceEpoch, ConnectionId, SessionKey, SpaceKey, session_key_order,
  space_key_order,
}
use signalweave.Message.{OutboundMessage}
use signalweave.Queue
use signalweave.Core.{
  ConnectionState, CoreError, EntityRecord, IdKind, SequenceKey, StateKey, SessionState, WovenCore,
  session_not_found, space_epoch_mismatch, entity_space_mismatch,
}
use signalweave.Core.Access.{
  commit, require_nonzero, validate_session_key, validate_connection_id, authenticated_principal,
  require_namespace_write, require_session_write, require_space_write, require_membership,
  require_subscription,
}
use signalweave.Core.Keys.{sequence_key_order, state_key_order, spatial_cell_key_order}
use signalweave.Core.Removal.{recompute_state_bytes, remove_entity_from_cell}
use signalweave.Core.Entities.{space_in, found_space, owned_entity}

pub record EntityTransitionRequest : Type 0 where
  pub connection : ConnectionId
  pub session : SessionKey
  pub entity : EntityId
  pub source_space : SpaceId
  pub source_epoch : SpaceEpoch
  pub destination_space : SpaceId
  pub destination_epoch : SpaceEpoch

pub record EntityTransition : Type 0 where
  pub entity : EntityId
  pub session : SessionKey
  pub source_space : SpaceId
  pub source_epoch : SpaceEpoch
  pub destination_space : SpaceId
  pub destination_epoch : SpaceEpoch

-- A state or a sequence that the entity has in the source space.
abbrev pub is_left_behind : EntityTransitionRequest → SpaceId → SpaceEpoch → Option EntityId → Bool
is_left_behind r space epoch entity =
    space == r.source_space && (epoch == r.source_epoch && opt_eq entity (some r.entity))

abbrev pub is_old_message : EntityTransitionRequest → OutboundMessage → Bool
is_old_message r message =
    message.namespace == r.session.namespace
    && (message.session == r.session.session
        && is_left_behind r message.space message.space_epoch message.entity)

abbrev pub transition_of : EntityTransitionRequest → EntityTransition
transition_of r = record {
  entity = r.entity;
  session = r.session;
  source_space = r.source_space;
  source_epoch = r.source_epoch;
  destination_space = r.destination_space;
  destination_epoch = r.destination_epoch;
}

module _ {F : Type 0} where
  -- The space with the epoch that the request names.
  unfoldable pub check_epoch_of :
      SpaceKey → SpaceEpoch → SessionState F → Result CoreError (Unit {0})
  unfolding found_space
  check_epoch_of key epoch session = do
    descriptor ← found_space key session
    fail_if (not (descriptor.epoch == epoch)) (space_epoch_mismatch descriptor.epoch epoch)

  unfoldable pub check_transition :
      EntityTransitionRequest → WovenCore F → Result CoreError (SessionState F × EntityRecord F)
  unfolding check_epoch_of owned_entity
  check_transition r core = do
    validate_connection_id r.connection
    validate_session_key r.session
    require_nonzero r.entity IdKind.entity
    require_nonzero r.source_space IdKind.space
    require_nonzero r.source_epoch IdKind.space_epoch
    require_nonzero r.destination_space IdKind.space
    require_nonzero r.destination_epoch IdKind.space_epoch
    principal ← authenticated_principal core r.connection
    require_namespace_write principal r.session.namespace
    require_session_write principal r.session
    require_space_write principal (space_in r.session r.source_space)
    require_space_write principal (space_in r.session r.destination_space)
    require_membership core r.connection r.session
    require_subscription core r.connection (space_in r.session r.source_space)
    require_subscription core r.connection (space_in r.session r.destination_space)
    session ← ok_or (Maps.get r.session core.sessions) (session_not_found r.session)
    check_epoch_of (space_in r.session r.source_space) r.source_epoch session
    check_epoch_of (space_in r.session r.destination_space) r.destination_epoch session
    found ← owned_entity r.connection r.entity session
    fail_if (not (found.space == r.source_space) || not (found.space_epoch == r.source_epoch))
        (entity_space_mismatch r.entity)
    ok (session, found)

  unfoldable pub move_entity :
      EntityTransitionRequest → EntityRecord F → SessionState F → SessionState F
  unfolding remove_entity_from_cell recompute_state_bytes
  move_entity r found session =
      let left = remove_entity_from_cell r.entity session in
      let moved : SessionState F = record left {
        entities =
            Maps.insert r.entity
              (record found {
                space = r.destination_space;
                space_epoch = r.destination_epoch;
                position = none;
              })
              left.entities;
        state =
            Maps.keep
              (λ (key : StateKey) _. not (is_left_behind r key.space key.space_epoch key.entity))
              left.state;
      } in
      let counted = recompute_state_bytes moved in
      record counted {
        sequences =
            Maps.keep
              (λ (key : SequenceKey) _. not (is_left_behind r key.space key.space_epoch key.entity))
              counted.sequences;
      }

  unfoldable pub transition_entity :
      EntityTransitionRequest → WovenCore F → WovenCore F × Result CoreError EntityTransition
  unfolding check_transition move_entity
  transition_entity r core = commit core (check_transition r core) λ found.
      if r.source_space == r.destination_space && r.source_epoch == r.destination_epoch
      then (core, ok (transition_of r))
      else (
        record core {
          sessions = Maps.insert r.session (move_entity r found.1 found.0) core.sessions;
          connections =
              Maps.map_values
                (λ (state : ConnectionState). record state {
                  outbound = (Queue.purge (is_old_message r) state.outbound).0;
                })
                core.connections;
        },
        ok (transition_of r),
      )
