-- ===== src/Core/Departing.antt =====
-- Leaving a session and losing a transport in crates/woven-core/src/core.rs, for the agreement of both
-- records.
use signalweave.Prelude.{
  ◌≡◌, refl, Bool, false, not, ◌&&◌, none, some, List, [], ◌∷◌, Set, nat_key, arith, same, same_iff,
  same_refl, if_cases, option_cases, Option-cases, inl, inr, any, ◌==◌,
}
use signalweave.Prelude.Maps.{get, remove, contains, keys, modify, values}
use signalweave.Prelude.Maps.Laws.{get-remove, get-map_values}
use signalweave.Ids.{
  ConnectionId, EntityId, SessionKey, SpaceKey, session_key_order, space_key_order,
}
use signalweave.RateLimit.{Instant}
use signalweave.Admission.{ReleaseReason, intentional, unexpected}
use signalweave.Core.{EntityRecord, WovenCore}
use signalweave.Core.Access.{connection_of, pair_order}
use signalweave.Core.Removal.{remove_entities_and_anchored_spaces}
use signalweave.Core.Departure.{
  entities_with, drop_subscribers, leave_connection, leave_members, release_session_admission,
  detach_connection_from_session, check_leave, leave_session, leave_all, release_pending,
  check_lost, transport_lost,
}
use signalweave.Core.Agreement.{Agrees, commit_cases, is_member, unchanged-Agrees}
use signalweave.Core.Restricting.{Restricts, Restricts-Agrees, contains-keep, get-modify}
use signalweave.Core.Shrinking.{
  remove_entities_and_anchored_spaces-Restricts, remove_entities_and_anchored_spaces-Agrees,
  all_spaces,
}

-- Only the connection loses the session.
abbrev leaves_member : ConnectionId → SessionKey → ConnectionId → SessionKey → Bool
leaves_member connection key c k = not (same connection c && same key k)

abbrev leaves : ConnectionId → SessionKey → ConnectionId → SpaceKey → Bool
leaves connection key c k = leaves_member connection key c k.session

any-keys :
    (k : SessionKey) (set : Set SessionKey) → any (λ key. same key k) (keys set) ≡ contains k set
unfolding any get
any-keys k [] = refl
any-keys k ((key, _) ∷ set) = ground (arith, any-keys k set)

module _ {F : Type 0} where
  -- The fields that hold memberships and subscriptions stay.
  record SameRecords (core after : WovenCore F) : Type 0 where
    connections : after.connections ≡ core.connections
    sessions : after.sessions ≡ core.sessions
    next : core.next_connection_id ≡ after.next_connection_id

  SameRecords-Agrees :
      (core after : WovenCore F) → SameRecords core after → Agrees core → Agrees after
  SameRecords-Agrees core after s v = unchanged-Agrees core after v s.connections s.sessions s.next

  release_session_admission-SameRecords :
      (connection : ConnectionId) (key : SessionKey) (reason : ReleaseReason) (now : Instant)
      (core : WovenCore F)
      → SameRecords core (release_session_admission connection key reason now core)
  unfolding release_session_admission
  release_session_admission-SameRecords connection key reason now core =
      option_cases (SameRecords core) (get (connection, key) core.admission_leases) _ _
        (λ _. record { connections = refl; sessions = refl; next = refl })
        (λ _ _. record { connections = refl; sessions = refl; next = refl })

  detached-Restricts :
      (connection : ConnectionId) (key : SessionKey) (core : WovenCore F)
      → Restricts core
          (record core {
            sessions = modify key (leave_members connection) core.sessions;
            connections = modify connection (leave_connection key) core.connections;
          })
          (leaves_member connection key)
          (leaves connection key)
          all_spaces
  unfolding leave_members leave_connection drop_subscribers
  detached-Restricts connection key core =
      let states =
        λ (c : ConnectionId). get-modify (leave_connection key) connection c core.connections in
      let rooms = λ (k : SessionKey). get-modify (leave_members connection) key k core.sessions in
      record {
        is_members = λ c k. elim (Option-cases (get c core.connections)) [
          | inl absent ↦ ground (arith, absent, states c)
          | inr (state, there) ↦ ground (arith, there, states c, get-remove key k state.memberships)
        ];
        has_members = λ c k. elim (Option-cases (get k core.sessions)) [
          | inl absent ↦ ground (arith, absent, rooms k)
          | inr (session, there) ↦
              ground (arith, there, rooms k, get-remove connection c session.members)
        ];
        are_subscribed = λ c k. elim (Option-cases (get c core.connections)) [
          | inl absent ↦ ground (arith, absent, states c)
          | inr (state, there) ↦ ground (
            arith,
            there,
            states c,
            same_iff key k.session,
            same_iff k.session key,
            contains-keep (λ (space : SpaceKey). not (same space.session key)) k
                state.subscriptions,
          )
        ];
        have_subscribers = λ c k. elim (Option-cases (get k.session core.sessions)) [
          | inl absent ↦ ground (arith, absent, rooms k.session)
          | inr (session, there) ↦ elim (Option-cases (get k.space session.subscribers)) [
            | inl empty ↦ ground (
              arith,
              there,
              empty,
              rooms k.session,
              get-map_values (remove connection) k.space session.subscribers,
            )
            | inr (set, found) ↦ ground (
              arith,
              there,
              found,
              rooms k.session,
              get-map_values (remove connection) k.space session.subscribers,
              get-remove connection c set,
            )
          ]
        ];
        have_spaces = λ k j. ground (arith, rooms k);
        have_sets = λ k j. elim (Option-cases (get k core.sessions)) [
          | inl absent ↦ ground (arith, absent, rooms k)
          | inr (session, there) ↦
              ground
                (arith, there, rooms k, get-map_values (remove connection) j session.subscribers)
        ];
        absent = λ c h. ground (arith, h, states c);
        next = refl;
      }

  -- What a departure of the connection from the sessions leaves.
  record Leaves (connection : ConnectionId) (key : SessionKey) (core after : WovenCore F)
      : Type 0 where
    agrees : Agrees after
    members :
        (k : SessionKey)
        → is_member after connection k ≡ (is_member core connection k && not (same key k))

  detach_connection_from_session-Leaves :
      (connection : ConnectionId) (key : SessionKey) (core : WovenCore F)
      → Agrees core
      → Leaves connection key core (detach_connection_from_session connection key core).0
  unfolding detach_connection_from_session
  detach_connection_from_session-Leaves connection key core v =
      let owned = elim (get key core.sessions) as (λ _. Set EntityId) [
        | none ↦ []
        | some session ↦
            entities_with (λ (entity : EntityRecord F). entity.owner_connection == connection)
              (values session.entities)
      ] in
      let removed = (remove_entities_and_anchored_spaces key owned core).0 in
      let shrunk = (remove_entities_and_anchored_spaces-Restricts key owned core).1 in
      let left = detached-Restricts connection key removed in
      record {
        agrees =
            Restricts-Agrees removed _ _ _ _ left (λ c k h. h)
              (remove_entities_and_anchored_spaces-Agrees key owned core v);
        members = λ k. ground (
          arith,
          left.is_members connection k,
          shrunk.is_members connection k,
          same_refl connection,
        );
      }

  pub leave_session-Agrees :
      (connection : ConnectionId) (key : SessionKey) (now : Instant) (core : WovenCore F)
      → Agrees core
      → Agrees (leave_session connection key now core).0
  unfolding leave_session
  leave_session-Agrees connection key now core v =
      commit_cases Agrees core (check_leave connection key core) _ v (λ _ _.
        (detach_connection_from_session-Leaves connection key _ (
          SameRecords-Agrees core _
            (release_session_admission-SameRecords connection key intentional now core) v)).agrees)

  record LeavesAll (connection : ConnectionId) (keys : List SessionKey) (core after : WovenCore F)
      : Type 0 where
    agrees : Agrees after
    members :
        (k : SessionKey)
        → is_member after connection k
          ≡ (is_member core connection k && not (any (λ key. same key k) keys))

  leave_all-LeavesAll :
      (connection : ConnectionId) (keys : List SessionKey) (now : Instant) (core : WovenCore F)
      → Agrees core
      → LeavesAll connection keys core (leave_all connection keys now core).0
  unfolding leave_all any
  leave_all-LeavesAll connection [] now core v = record { agrees = v; members = λ k. ground arith }
  leave_all-LeavesAll connection (key ∷ keys) now core v =
      let same_records = release_session_admission-SameRecords connection key unexpected now core in
      let released = release_session_admission connection key unexpected now core in
      let left =
        detach_connection_from_session-Leaves connection key released
          (SameRecords-Agrees core released same_records v) in
      let rest =
        leave_all-LeavesAll connection keys now
          (detach_connection_from_session connection key released).0 left.agrees in
      record {
        agrees = rest.agrees;
        members = λ k. ground (arith, rest.members k, left.members k, same_records.connections);
      }

  release_pending-SameRecords :
      (connection : ConnectionId) (pending : List (ConnectionId × SessionKey)) (now : Instant)
      (core : WovenCore F)
      → SameRecords core (release_pending connection pending now core)
  unfolding release_pending
  release_pending-SameRecords connection [] now core = record {
    connections = refl;
    sessions = refl;
    next = refl;
  }
  release_pending-SameRecords connection ((other, session) ∷ pending) now core =
      if_cases (λ (c : WovenCore F). SameRecords core (release_pending connection pending now c))
        (not (other == connection)) _ _
        (λ _. release_pending-SameRecords connection pending now core)
        (λ _.
          option_cases
            (λ (c : WovenCore F). SameRecords core (release_pending connection pending now c))
            (get (connection, session) core.pending_admissions) _ _
            (λ _. release_pending-SameRecords connection pending now core)
            (λ _ _.
              let rest = release_pending-SameRecords connection pending now _ in
              record {
                connections = rest.connections;
                sessions = rest.sessions;
                next = rest.next;
              }))

  -- A connection that is a member of no session can go.
  lost-Restricts :
      (connection : ConnectionId) (core : WovenCore F)
      → Agrees core
      → ((k : SessionKey) → is_member core connection k ≡ false)
      → Restricts core
          (record core { connections = remove connection core.connections })
          (λ c k. not (same connection c))
          (λ c k. not (same connection c))
          all_spaces
  lost-Restricts connection core v no_member =
      let states = λ (c : ConnectionId). get-remove connection c core.connections in
      record {
        is_members = λ c k. ground (arith, states c);
        has_members = λ c k. ground (arith, v.members c k, no_member k, same_iff connection c);
        are_subscribed = λ c k. ground (arith, states c);
        have_subscribers = λ c k.
            ground
              (arith, v.subscribers c k, v.inside c k, no_member k.session, same_iff connection c);
        have_spaces = λ k j. ground arith;
        have_sets = λ k j. ground arith;
        absent = λ c h. ground (arith, h, states c);
        next = refl;
      }

  pub transport_lost-Agrees :
      (connection : ConnectionId) (now : Instant) (core : WovenCore F)
      → Agrees core
      → Agrees (transport_lost connection now core).0
  unfolding transport_lost check_lost
  transport_lost-Agrees connection now core v =
      commit_cases Agrees core (check_lost connection core) _ v λ state is.
        let left = leave_all-LeavesAll connection (keys state.memberships) now core v in
        let detached = (leave_all connection (keys state.memberships) now core).0 in
        let same_records =
          release_pending-SameRecords connection (keys detached.pending_admissions) now detached in
        let released = release_pending connection (keys detached.pending_admissions) now detached in
        let agrees = SameRecords-Agrees detached released same_records left.agrees in
        commit_cases Agrees released (connection_of released connection) _ agrees (λ _ _.
          Restricts-Agrees released _ _ _ _
            (lost-Restricts connection released agrees (λ k.
              ground (
                arith,
                is,
                same_records.connections,
                left.members k,
                any-keys k state.memberships,
              )))
            (λ c k h. h) agrees)
