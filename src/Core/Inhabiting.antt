-- ===== src/Core/Inhabiting.antt =====
-- Spawning, placing, moving and removing entities in crates/woven-core/src/core.rs, for the agreement of
-- both records.
use signalweave.Prelude.{
  ◌+◌, ◌≡◌, refl, true, ◌&&◌, Option, some, Map, nat_key, arith, same_iff, if_cases, Result, ok,
  fail_if, ◌==◌,
}
use signalweave.Prelude.Maps.{get, insert}
use signalweave.Prelude.Maps.Laws.{get-insert}
use signalweave.Ids.{
  u64_mod, ConnectionId, EntityId, SpaceEpoch, SessionKey, SpaceKey, session_key_order,
  space_key_order,
}
use signalweave.Space.{Floats, EntityPosition}
use signalweave.Auth.{AuthenticatedPrincipal}
use signalweave.Core.{
  ConnectionState, CoreError, EntityRecord, SessionState, SpatialCellKey, WovenCore, id_exhausted,
}
use signalweave.Core.Removal.{
  remove_entity_from_cell, insert_entity_into_cell, recompute_state_bytes,
}
use signalweave.Core.Entities.{
  check_spawn, spawn_entity, move_to_cell, check_removed, remove_entity, check_position,
  update_entity_position,
}
use signalweave.Core.Transitions.{
  EntityTransition, EntityTransitionRequest, is_old_message, check_transition, move_entity,
  transition_entity,
}
use signalweave.Core.Agreement.{Agrees, commit_cases, unchanged-Agrees}
use signalweave.Core.Restricting.{Restricts-Agrees}
use signalweave.Core.Shrinking.{
  all_spaces, SameRoom, SameRolls, remove_entities_and_anchored_spaces-Agrees, keeps_member,
}
use signalweave.Core.Renewing.{purged-Restricts}

pub insert_connection-SameRolls :
    (connection : ConnectionId) (state after : ConnectionState)
    (connections : Map ConnectionId ConnectionState)
    → get connection connections ≡ some state
    → after.memberships ≡ state.memberships
    → after.subscriptions ≡ state.subscriptions
    → (c : ConnectionId)
    → SameRolls (get c connections) (get c (insert connection after connections))
insert_connection-SameRolls connection state after connections there m s c =
    let entry = get-insert connection c after connections in
    record {
      memberships = λ k. ground (arith, there, entry, m, same_iff connection c);
      subscriptions = λ k. ground (arith, there, entry, s, same_iff connection c);
      absent = λ h. ground (arith, h, there, entry, same_iff connection c);
    }

module _ {F : Type 0} where
  -- A session that keeps its members, spaces and subscribers.
  pub insert_session-Agrees :
      (key : SessionKey) (session after : SessionState F) (core : WovenCore F)
      → get key core.sessions ≡ some session
      → SameRoom session after
      → Agrees core
      → Agrees (record core { sessions = insert key after core.sessions })
  insert_session-Agrees key session after core there room v =
      let rooms = λ (k : SessionKey). get-insert key k after core.sessions in
      Restricts-Agrees core _ keeps_member (λ c k. true) all_spaces
        (record {
          is_members = λ c k. ground arith;
          has_members = λ c k. ground (arith, rooms k, there, same_iff key k, room.members);
          are_subscribed = λ c k. ground arith;
          have_subscribers = λ c k.
              ground (arith, rooms k.session, there, same_iff key k.session, room.subscribers);
          have_spaces = λ k j. ground (arith, rooms k, there, same_iff key k, room.spaces);
          have_sets = λ k j. ground (arith, rooms k, there, same_iff key k, room.subscribers);
          absent = λ c h. h;
          next = refl;
        })
        (λ c k h. refl) v

  -- Connections that keep their memberships and subscriptions.
  pub rolls-Agrees :
      (connections : Map ConnectionId ConnectionState) (core : WovenCore F)
      → ((c : ConnectionId) → SameRolls (get c core.connections) (get c connections))
      → Agrees core
      → Agrees (record core { connections = connections })
  rolls-Agrees connections core rolls v =
      Restricts-Agrees core _ keeps_member (λ c k. true) all_spaces
        (record {
          is_members = λ c k. ground (arith, (rolls c).memberships k);
          has_members = λ c k. ground arith;
          are_subscribed = λ c k. ground (arith, (rolls c).subscriptions k);
          have_subscribers = λ c k. ground arith;
          have_spaces = λ k j. ground arith;
          have_sets = λ k j. ground arith;
          absent = λ c h. (rolls c).absent h;
          next = refl;
        })
        (λ c k h. refl) v

  check_spawn-found :
      (connection : ConnectionId) (key : SpaceKey) (epoch : SpaceEpoch) (core : WovenCore F)
      (found : AuthenticatedPrincipal × ConnectionState × SessionState F)
      → check_spawn connection key epoch core ≡ ok found
      → (get connection core.connections ≡ some found.1)
        × (get key.session core.sessions ≡ some found.2)
  unfolding check_spawn
  check_spawn-found connection key epoch core found is = ground arith

  check_transition-found :
      (r : EntityTransitionRequest) (core : WovenCore F) (found : SessionState F × EntityRecord F)
      → check_transition r core ≡ ok found
      → get r.session core.sessions ≡ some found.0
  unfolding check_transition
  check_transition-found r core found is = ground arith

  pub spawn_entity-Agrees :
      (connection : ConnectionId) (key : SpaceKey) (epoch : SpaceEpoch) (core : WovenCore F)
      → Agrees core
      → Agrees (spawn_entity connection key epoch core).0
  unfolding spawn_entity
  spawn_entity-Agrees connection key epoch core v =
      commit_cases Agrees core (check_spawn connection key epoch core) _ v λ found is.
        let there = check_spawn-found connection key epoch core found is in
        commit_cases Agrees core (fail_if (core.next_entity_id + 1 == u64_mod) id_exhausted) _ v
          (λ _ _.
            unchanged-Agrees _ _
              (insert_session-Agrees key.session found.2 _ _ there.1
                (record { members = refl; spaces = refl; subscribers = refl })
                (rolls-Agrees _ core
                  (insert_connection-SameRolls connection found.1
                    (record found.1 { owned_entities = found.1.owned_entities + 1 })
                    core.connections there.0 refl refl)
                  v))
              refl refl refl)

  pub remove_entity-Agrees :
      (connection : ConnectionId) (key : SessionKey) (entity : EntityId) (core : WovenCore F)
      → Agrees core
      → Agrees (remove_entity connection key entity core).0
  unfolding remove_entity
  remove_entity-Agrees connection key entity core v =
      commit_cases Agrees core (check_removed connection key entity core) _ v
        (λ _ _. remove_entities_and_anchored_spaces-Agrees key _ core v)

  move_entity-SameRoom :
      (r : EntityTransitionRequest) (found : EntityRecord F) (session : SessionState F)
      → SameRoom session (move_entity r found session)
  unfolding move_entity remove_entity_from_cell recompute_state_bytes
  move_entity-SameRoom r found session = record {
    members = ground arith;
    spaces = ground arith;
    subscribers = ground arith;
  }

  pub transition_entity-Agrees :
      (r : EntityTransitionRequest) (core : WovenCore F)
      → Agrees core
      → Agrees (transition_entity r core).0
  unfolding transition_entity
  transition_entity-Agrees r core v =
      commit_cases Agrees core (check_transition r core) _ v λ found is.
        if_cases (λ (after : WovenCore F × Result CoreError EntityTransition). Agrees after.0)
          (r.source_space == r.destination_space && r.source_epoch == r.destination_epoch) _ _
          (λ _. v)
          (λ _.
            insert_session-Agrees r.session found.0 _ _ (check_transition-found r core found is)
              (move_entity-SameRoom r found.1 found.0)
              (Restricts-Agrees core _ _ _ _ (purged-Restricts (is_old_message r) core)
                (λ c k h. refl) v))

  move_to_cell-SameRoom :
      (entity : EntityId) (cell : Option SpatialCellKey) (session : SessionState F)
      → SameRoom session (move_to_cell entity cell session)
  unfolding move_to_cell remove_entity_from_cell insert_entity_into_cell
  move_to_cell-SameRoom entity cell session = record {
    members = ground arith;
    spaces = ground arith;
    subscribers = ground arith;
  }

module _ (f : Floats) where
  open f use {F64}

  check_position-found :
      (connection : ConnectionId) (key : SessionKey) (entity : EntityId)
      (position : EntityPosition F64) (core : WovenCore F64)
      (found : SessionState F64 × EntityRecord F64 × Option SpatialCellKey)
      → check_position f connection key entity position core ≡ ok found
      → get key core.sessions ≡ some found.0
  unfolding check_position
  check_position-found connection key entity position core found is = ground arith

  pub update_entity_position-Agrees :
      (connection : ConnectionId) (key : SessionKey) (entity : EntityId)
      (position : EntityPosition F64) (core : WovenCore F64)
      → Agrees core
      → Agrees (update_entity_position f connection key entity position core).0
  unfolding update_entity_position
  update_entity_position-Agrees connection key entity position core v =
      commit_cases Agrees core (check_position f connection key entity position core) _ v
        λ found is.
          let room = move_to_cell-SameRoom entity found.2 found.0 in
          insert_session-Agrees key found.0 _ core
            (check_position-found connection key entity position core found is)
            (record {
              members = room.members;
              spaces = room.spaces;
              subscribers = room.subscribers;
            })
            v
