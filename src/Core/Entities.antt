-- ===== src/Core/Entities.antt =====
-- Spawning, placing and removing entities in crates/woven-core/src/core.rs.
use signalweave.Prelude.{
  ◌+◌, Bool, true, false, not, Option, none, some, [], ◌∷◌, nat_key, length, ◌==◌, if◌then◌else◌,
  Result, ok, fail_if, ok_or, map_err, ◌>>=◌, ◌>>◌, same,
}
use signalweave.Prelude.Maps
use signalweave.Ids.{
  u64_mod, EntityId, SpaceId, SpaceEpoch, ConnectionId, SessionKey, SpaceKey, session_key_order,
  space_key_order,
}
use signalweave.Space.{Floats, EntityPosition, SpaceDescriptor, validate_for_frame}
use signalweave.Auth.{AuthenticatedPrincipal}
use signalweave.Core.{
  ConnectionState, CoreError, EntityRecord, IdKind, SpatialCellKey, SessionState, WovenCore,
  session_not_found, space_not_found, space_epoch_mismatch, entity_limit_reached,
  owned_entity_limit_reached, id_exhausted, entity_not_found, entity_not_owned,
  invalid_entity_position,
}
use signalweave.Core.Access.{
  commit, require_nonzero, validate_session_key, validate_space_key, validate_connection_id,
  connection_of, authenticated_principal, require_namespace_write, require_session_write,
  require_space_write, require_membership, require_subscription,
}
use signalweave.Core.Keys.{sequence_key_order, state_key_order, spatial_cell_key_order}
use signalweave.Core.Routing.{spatial_cell_for}
use signalweave.Core.Subscriptions.{CleanupSummary}
use signalweave.Core.Removal.{
  remove_entity_from_cell, insert_entity_into_cell, remove_entities_and_anchored_spaces,
}

abbrev pub space_in : SessionKey → SpaceId → SpaceKey
space_in session space = record { session = session; space = space }

-- Equality of optional cells.
abbrev pub same_cell : Option SpatialCellKey → Option SpatialCellKey → Bool
same_cell none none = true
same_cell (some a) (some b) = same a b
same_cell _ _ = false

module _ {F : Type 0} where
  -- The session, and the space in it.
  unfoldable pub found_space : SpaceKey → SessionState F → Result CoreError (SpaceDescriptor F)
  found_space key session = ok_or (Maps.get key.space session.spaces) (space_not_found key)

  unfoldable pub check_spawn :
      ConnectionId
      → SpaceKey
      → SpaceEpoch
      → WovenCore F
      → Result CoreError (AuthenticatedPrincipal × ConnectionState × SessionState F)
  unfolding found_space
  check_spawn connection key epoch core = do
    validate_connection_id connection
    validate_space_key key
    require_nonzero epoch IdKind.space_epoch
    principal ← authenticated_principal core connection
    require_namespace_write principal key.session.namespace
    require_session_write principal key.session
    require_space_write principal key
    require_membership core connection key.session
    require_subscription core connection key
    state ← connection_of core connection
    fail_if (state.owned_entities == core.config.max_owned_entities_per_connection)
        owned_entity_limit_reached
    session ← ok_or (Maps.get key.session core.sessions) (session_not_found key.session)
    descriptor ← found_space key session
    fail_if (not (descriptor.epoch == epoch)) (space_epoch_mismatch descriptor.epoch epoch)
    fail_if (length session.entities == core.config.max_entities_per_session) entity_limit_reached
    ok (principal, state, session)

  -- The identifier is taken when the next one exists.
  unfoldable pub spawn_entity :
      ConnectionId → SpaceKey → SpaceEpoch → WovenCore F → WovenCore F × Result CoreError EntityId
  unfolding check_spawn
  spawn_entity connection key epoch core =
      commit core (check_spawn connection key epoch core) λ found.
        commit core (fail_if (core.next_entity_id + 1 == u64_mod) id_exhausted) λ _. (
          record core {
            next_entity_id = core.next_entity_id + 1;
            sessions =
                Maps.insert key.session
                  (record found.2 {
                    entities =
                        Maps.insert core.next_entity_id
                          (record {
                            id = core.next_entity_id;
                            owner_connection = connection;
                            owner_principal = found.0.principal_id;
                            space = key.space;
                            space_epoch = epoch;
                            position = none;
                          })
                          found.2.entities;
                  })
                  core.sessions;
            connections =
                Maps.insert connection
                  (record found.1 { owned_entities = found.1.owned_entities + 1 }) core.connections;
          },
          ok core.next_entity_id,
        )

  -- The entity, if the connection owns it.
  unfoldable pub owned_entity :
      ConnectionId → EntityId → SessionState F → Result CoreError (EntityRecord F)
  owned_entity connection entity session = do
    found ← ok_or (Maps.get entity session.entities) (entity_not_found entity)
    fail_if (not (found.owner_connection == connection)) (entity_not_owned entity)
    ok found

  -- The session with the entity in the cell, or in none.
  unfoldable pub move_to_cell : EntityId → Option SpatialCellKey → SessionState F → SessionState F
  unfolding remove_entity_from_cell insert_entity_into_cell
  move_to_cell entity cell session =
      if same_cell (Maps.get entity session.entity_cells) cell then session else elim cell [
        | none ↦ remove_entity_from_cell entity session
        | some c ↦ insert_entity_into_cell entity c (remove_entity_from_cell entity session)
      ]

  unfoldable pub check_removed :
      ConnectionId → SessionKey → EntityId → WovenCore F → Result CoreError (Unit {0})
  check_removed connection key entity core = do
    validate_connection_id connection
    validate_session_key key
    require_nonzero entity IdKind.entity
    _ ← authenticated_principal core connection
    require_membership core connection key
    session ← ok_or (Maps.get key core.sessions) (entity_not_found entity)
    found ← ok_or (Maps.get entity session.entities) (entity_not_found entity)
    fail_if (not (found.owner_connection == connection)) (entity_not_owned entity)

  unfoldable pub remove_entity :
      ConnectionId
      → SessionKey
      → EntityId
      → WovenCore F
      → WovenCore F × Result CoreError CleanupSummary
  unfolding check_removed remove_entities_and_anchored_spaces
  remove_entity connection key entity core =
      commit core (check_removed connection key entity core) λ _.
        let removed = remove_entities_and_anchored_spaces key ((entity, tt) ∷ []) core in
        (removed.0, ok removed.1)

module _ (f : Floats) where
  open f use {F64}

  unfoldable pub check_position :
      ConnectionId
      → SessionKey
      → EntityId
      → EntityPosition F64
      → WovenCore F64
      → Result CoreError (SessionState F64 × EntityRecord F64 × Option SpatialCellKey)
  unfolding owned_entity found_space spatial_cell_for
  check_position connection key entity position core = do
    validate_connection_id connection
    validate_session_key key
    require_nonzero entity IdKind.entity
    principal ← authenticated_principal core connection
    require_namespace_write principal key.namespace
    require_session_write principal key
    require_membership core connection key
    session ← ok_or (Maps.get key core.sessions) (session_not_found key)
    found ← owned_entity connection entity session
    require_space_write principal (space_in key found.space)
    require_subscription core connection (space_in key found.space)
    descriptor ← found_space (space_in key found.space) session
    map_err invalid_entity_position (validate_for_frame f position descriptor.local_frame)
    cell ← spatial_cell_for f position descriptor found.space_epoch
    ok (session, found, cell)

  unfoldable pub update_entity_position :
      ConnectionId
      → SessionKey
      → EntityId
      → EntityPosition F64
      → WovenCore F64
      → WovenCore F64 × Result CoreError (Unit {0})
  unfolding check_position move_to_cell
  update_entity_position connection key entity position core =
      commit core (check_position connection key entity position core) λ found.
        let moved = move_to_cell entity found.2 found.0 in
        (
          record core {
            sessions =
                Maps.insert key
                  (record moved {
                    entities =
                        Maps.insert entity (record found.1 { position = some position })
                          moved.entities;
                  })
                  core.sessions;
          },
          ok tt,
        )
