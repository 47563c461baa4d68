-- ===== src/Core/Removal.antt =====
-- The removal of entities, with what hangs on them, in crates/woven-core/src/core.rs.
use signalweave.Prelude.{
  ℕ, ◌+◌, ◌-◌, Bool, true, false, not, ◌&&◌, ◌||◌, Option, none, some, List, [], ◌∷◌, map, Map, Set,
  nat_key, length, ◌==◌, same, if◌then◌else◌, or_default, retain,
}
use signalweave.Prelude.Maps
use signalweave.Ids.{
  EntityId, SpaceId, SpaceEpoch, ConnectionId, SessionKey, SpaceKey, session_key_order,
}
use signalweave.Message.{OutboundMessage}
use signalweave.Queue
use signalweave.Core.{
  ConnectionState, EntityRecord, SequenceKey, StateKey, StateRecord, SpatialCellKey, SessionState,
  WovenCore,
}
use signalweave.Core.Keys.{sequence_key_order, state_key_order, spatial_cell_key_order}
use signalweave.Core.Cascade.{cascade}
use signalweave.Core.Subscriptions.{CleanupSummary, RemovedEntity, no_cleanup}

-- `is_none_or`
abbrev pub is_none_or : Option ℕ → (ℕ → Bool) → Bool
is_none_or none test = true
is_none_or (some n) test = test n

abbrev pub is_some_and : Option ℕ → (ℕ → Bool) → Bool
is_some_and none test = false
is_some_and (some n) test = test n

unfoldable pub payload_bytes : Map StateKey StateRecord → ℕ
payload_bytes [] = 0
payload_bytes ((key, value) ∷ state) = length value.payload + payload_bytes state

-- A state or a sequence stays if its space and its entity stay.
abbrev pub is_kept : Set EntityId → Set SpaceId → Option EntityId → SpaceId → Bool
is_kept entities spaces entity space =
    not (Maps.contains space spaces) && is_none_or entity λ e. not (Maps.contains e entities)

-- The cells without the entity, and without the cell that is empty then.
unfoldable pub leave_cell :
    EntityId
    → SpatialCellKey
    → Map SpatialCellKey (Set EntityId)
    → Map SpatialCellKey (Set EntityId)
leave_cell entity cell cells = elim (Maps.get cell cells) [
  | none ↦ cells
  | some entities ↦
      if length (Maps.remove entity entities) == 0
      then Maps.remove cell cells
      else Maps.insert cell (Maps.remove entity entities) cells
]

-- `for (owner, count) in removed_owners`
unfoldable pub release_owned :
    Map ConnectionId ℕ → Map ConnectionId ConnectionState → Map ConnectionId ConnectionState
release_owned [] connections = connections
release_owned ((owner, count) ∷ owners) connections =
    release_owned owners (elim (Maps.get owner connections) [
      | none ↦ connections
      | some state ↦
          Maps.insert owner (record state { owned_entities = state.owned_entities - count })
            connections
    ])

-- A message of a removed space or a removed entity.
abbrev pub is_about_removed : SessionKey → Set EntityId → Set SpaceId → OutboundMessage → Bool
is_about_removed key entities spaces message =
    message.namespace == key.namespace
    && (message.session == key.session
        && (Maps.contains message.space spaces
            || is_some_and message.entity λ entity. Maps.contains entity entities))

-- What the removal does to each connection.
unfoldable pub forget : SessionKey → Set EntityId → Set SpaceId → ConnectionState → ConnectionState
forget key entities spaces state = record state {
  subscriptions =
      Maps.keep
        (λ (subscription : SpaceKey) _.
          not (same subscription.session key) || not (Maps.contains subscription.space spaces))
        state.subscriptions;
  outbound = (Queue.purge (is_about_removed key entities spaces) state.outbound).0;
}

-- How many messages it takes from all queues.
unfoldable pub count_discarded : (OutboundMessage → Bool) → Map ConnectionId ConnectionState → ℕ
count_discarded test [] = 0
count_discarded test ((_, state) ∷ connections) =
    (Queue.purge test state.outbound).1 + count_discarded test connections

module _ {F : Type 0} where
  unfoldable pub recompute_state_bytes : SessionState F → SessionState F
  unfolding payload_bytes
  recompute_state_bytes session = record session { state_bytes = payload_bytes session.state }

  unfoldable pub remove_entity_from_cell : EntityId → SessionState F → SessionState F
  unfolding leave_cell
  remove_entity_from_cell entity session = elim (Maps.get entity session.entity_cells) [
    | none ↦ session
    | some cell ↦ record session {
      entity_cells = Maps.remove entity session.entity_cells;
      cell_entities = leave_cell entity cell session.cell_entities;
    }
  ]

  unfoldable pub insert_entity_into_cell :
      EntityId → SpatialCellKey → SessionState F → SessionState F
  insert_entity_into_cell entity cell session = record session {
    entity_cells = Maps.insert entity cell session.entity_cells;
    cell_entities =
        Maps.insert cell
          (Maps.insert entity tt (or_default (Maps.get cell session.cell_entities) []))
          session.cell_entities;
  }

  -- `for entity in &removed_entities`
  unfoldable pub leave_cells : Set EntityId → SessionState F → SessionState F
  unfolding remove_entity_from_cell
  leave_cells [] session = session
  leave_cells ((entity, _) ∷ entities) session =
      leave_cells entities (remove_entity_from_cell entity session)

  -- `for space in &removed_spaces`: the session, and how many subscribers the spaces had.
  unfoldable pub close_spaces : Set SpaceId → SessionState F → SessionState F × ℕ
  close_spaces [] session = (session, 0)
  close_spaces ((space, _) ∷ spaces) session =
      let tombstones : Map SpaceId SpaceEpoch = elim (Maps.get space session.spaces) [
        | none ↦ session.space_epoch_tombstones
        | some descriptor ↦
            Maps.insert descriptor.id descriptor.epoch session.space_epoch_tombstones
      ] in
      let count = length (or_default (Maps.get space session.subscribers) []) in
      let after : SessionState F = record session {
        spaces = Maps.remove space session.spaces;
        space_epoch_tombstones = tombstones;
        subscribers = Maps.remove space session.subscribers;
      } in
      let rest = close_spaces spaces after in (rest.0, count + rest.1)

  removed_entity : SessionKey → EntityRecord F → RemovedEntity
  removed_entity key entity = record {
    entity = entity.id;
    session = key;
    space = entity.space;
    space_epoch = entity.space_epoch;
  }

  -- The records of the removed entities.
  abbrev pub removed_records : Set EntityId → SessionState F → List (EntityRecord F)
  removed_records entities session =
      retain (λ (entity : EntityRecord F). Maps.contains entity.id entities)
        (Maps.values session.entities)

  -- What the removal does to the session.
  unfoldable pub shrink_session : Set EntityId → Set SpaceId → SessionState F → SessionState F
  unfolding leave_cells close_spaces recompute_state_bytes
  shrink_session entities spaces session =
      let left = leave_cells entities session in
      let kept : SessionState F = record left {
        entities = Maps.keep (λ id _. not (Maps.contains id entities)) left.entities;
      } in
      let closed = (close_spaces spaces kept).0 in
      let cleared : SessionState F = record closed {
        state =
            Maps.keep (λ (key : StateKey) _. is_kept entities spaces key.entity key.space)
              closed.state;
      } in
      let counted = recompute_state_bytes cleared in
      record counted {
        sequences =
            Maps.keep (λ (key : SequenceKey) _. is_kept entities spaces key.entity key.space)
              counted.sequences;
      }

  -- `*owners.entry(entity.owner_connection).or_insert(0) += 1`
  unfoldable pub count_owners : List (EntityRecord F) → Map ConnectionId ℕ → Map ConnectionId ℕ
  count_owners [] owners = owners
  count_owners (entity ∷ entities) owners = count_owners entities (
      Maps.insert entity.owner_connection
        (or_default (Maps.get entity.owner_connection owners) 0 + 1) owners)

  -- The removal of a session that is there, with the entities and the spaces that go.
  unfoldable pub remove_from_session :
      SessionKey
      → Set EntityId
      → Set SpaceId
      → SessionState F
      → WovenCore F
      → WovenCore F × CleanupSummary
  unfolding shrink_session count_owners release_owned forget count_discarded close_spaces
      removed_entity
  remove_from_session key entities spaces session core =
      let records = removed_records entities session in
      let released = release_owned (count_owners records []) core.connections in
      (
        record core {
          sessions = Maps.insert key (shrink_session entities spaces session) core.sessions;
          connections = Maps.map_values (forget key entities spaces) released;
        },
        record no_cleanup {
          subscriptions_removed = (close_spaces spaces session).1;
          entities_removed = length records;
          spaces_removed = length spaces;
          queued_messages_discarded =
              count_discarded (is_about_removed key entities spaces) released;
          removed_entities = map (removed_entity key) records;
        },
      )

  -- Without the session the loop ends at once: the entities are the given ones, and no space goes.
  unfoldable pub remove_entities_and_anchored_spaces :
      SessionKey → Set EntityId → WovenCore F → WovenCore F × CleanupSummary
  unfolding remove_from_session cascade forget count_discarded
  remove_entities_and_anchored_spaces key entities core = elim (Maps.get key core.sessions) [
    | none ↦ (
      record core { connections = Maps.map_values (forget key entities []) core.connections },
      record no_cleanup {
        queued_messages_discarded =
            count_discarded (is_about_removed key entities []) core.connections;
      },
    )
    | some session ↦
        let removed = or_default (cascade session entities) (entities, []) in
        remove_from_session key removed.0 removed.1 session core
  ]
