-- ===== src/Core/Departure.antt =====
-- Leaving a session, losing a transport, and a new epoch of a space in crates/woven-core/src/core.rs.
use signalweave.Prelude.{
  ℕ, ◌+◌, Bool, not, ◌&&◌, Option, none, some, List, [], ◌∷◌, ◌++◌, Map, Set, nat_key, ◌==◌, same,
  leb, if◌then◌else◌, Result, ok, fail_if, ok_or, ◌>>=◌, ◌>>◌,
}
use signalweave.Prelude.Maps
use signalweave.Ids.{
  EntityId, SpaceId, SpaceEpoch, ConnectionId, SessionKey, SpaceKey, session_key_order,
  space_key_order,
}
use signalweave.Message.{OutboundMessage}
use signalweave.Queue
use signalweave.RateLimit.{Instant}
use signalweave.Space.{SpaceDescriptor}
use signalweave.Admission.{ReleaseReason, intentional, unexpected}
use signalweave.Admission.Methods.{release_at}
use signalweave.Core.{
  ConnectionState, CoreError, EntityRecord, IdKind, SequenceKey, StateKey, SessionState, WovenCore,
  session_not_found, space_not_found, epoch_did_not_advance,
}
use signalweave.Core.Access.{
  commit, pair_order, require_nonzero, validate_session_key, validate_connection_id, connection_of,
  require_membership,
}
use signalweave.Core.Keys.{sequence_key_order, state_key_order}
use signalweave.Core.Subscriptions.{CleanupSummary, no_cleanup, is_of_space}
use signalweave.Core.Removal.{
  recompute_state_bytes, remove_entities_and_anchored_spaces, count_discarded,
}

-- `CleanupSummary::add`
abbrev pub add_cleanup : CleanupSummary → CleanupSummary → CleanupSummary
add_cleanup a b = record {
  memberships_removed = a.memberships_removed + b.memberships_removed;
  subscriptions_removed = a.subscriptions_removed + b.subscriptions_removed;
  entities_removed = a.entities_removed + b.entities_removed;
  spaces_removed = a.spaces_removed + b.spaces_removed;
  queued_messages_discarded = a.queued_messages_discarded + b.queued_messages_discarded;
  removed_entities = a.removed_entities ++ b.removed_entities;
}

abbrev pub is_of_session : SessionKey → OutboundMessage → Bool
is_of_session key message = message.namespace == key.namespace && message.session == key.session

-- The identifiers of the entities that pass a test, as a set.
unfoldable pub entities_with :
    {F : Type 0} → (EntityRecord F → Bool) → List (EntityRecord F) → Set EntityId
entities_with test [] = []
entities_with test (entity ∷ entities) =
    let rest = entities_with test entities in
    if test entity then Maps.insert entity.id tt rest else rest

-- `for subscribers in session.subscribers.values_mut()`: the sets, and how many had the connection.
unfoldable pub drop_subscribers :
    ConnectionId → Map SpaceId (Set ConnectionId) → Map SpaceId (Set ConnectionId)
drop_subscribers connection = Maps.map_values (Maps.remove connection)

unfoldable pub count_subscribed : ConnectionId → Map SpaceId (Set ConnectionId) → ℕ
count_subscribed connection [] = 0
count_subscribed connection ((_, subscribers) ∷ sets) =
    let rest = count_subscribed connection sets in
    if Maps.contains connection subscribers then 1 + rest else rest

unfoldable pub leave_connection : SessionKey → ConnectionState → ConnectionState
leave_connection key state = record state {
  memberships = Maps.remove key state.memberships;
  subscriptions =
      Maps.keep (λ (space : SpaceKey) _. not (same space.session key)) state.subscriptions;
  outbound = (Queue.purge (is_of_session key) state.outbound).0;
}

abbrev pub purge_queue : (OutboundMessage → Bool) → ConnectionState → ConnectionState
purge_queue test state = record state { outbound = (Queue.purge test state.outbound).0 }

-- What the connection adds to the summary.
connection_cleanup : SessionKey → Option ConnectionState → CleanupSummary
connection_cleanup key none = no_cleanup
connection_cleanup key (some state) = record no_cleanup {
  queued_messages_discarded = (Queue.purge (is_of_session key) state.outbound).1;
}

module _ {F : Type 0} where
  -- `release_session_admission`, at the time that the source reads from the clock.
  unfoldable pub release_session_admission :
      ConnectionId → SessionKey → ReleaseReason → Instant → WovenCore F → WovenCore F
  release_session_admission connection key reason now core =
      elim (Maps.get (connection, key) core.admission_leases) [
        | none ↦ core
        | some lease ↦ record core {
          admission_leases = Maps.remove (connection, key) core.admission_leases;
          admissions = Maps.modify key (release_at lease reason now) core.admissions;
        }
      ]

  unfoldable pub leave_members : ConnectionId → SessionState F → SessionState F
  unfolding drop_subscribers
  leave_members connection session = record session {
    members = Maps.remove connection session.members;
    subscribers = drop_subscribers connection session.subscribers;
    sequences =
        Maps.keep (λ (key : SequenceKey) _. not (key.connection == connection)) session.sequences;
  }

  -- What the session adds to the summary.
  session_cleanup : ConnectionId → Option (SessionState F) → CleanupSummary
  unfolding count_subscribed
  session_cleanup connection none = no_cleanup
  session_cleanup connection (some session) = record no_cleanup {
    memberships_removed = if Maps.contains connection session.members then 1 else 0;
    subscriptions_removed = count_subscribed connection session.subscribers;
  }

  unfoldable pub detach_connection_from_session :
      ConnectionId → SessionKey → WovenCore F → WovenCore F × CleanupSummary
  unfolding leave_members leave_connection session_cleanup connection_cleanup entities_with
  detach_connection_from_session connection key core =
      let owned = elim (Maps.get key core.sessions) as (λ _. Set EntityId) [
        | none ↦ []
        | some session ↦
            entities_with (λ (entity : EntityRecord F). entity.owner_connection == connection)
              (Maps.values session.entities)
      ] in
      let removed = remove_entities_and_anchored_spaces key owned core in
      (
        record removed.0 {
          sessions = Maps.modify key (leave_members connection) removed.0.sessions;
          connections = Maps.modify connection (leave_connection key) removed.0.connections;
        },
        add_cleanup
            (add_cleanup removed.1 (session_cleanup connection (Maps.get key removed.0.sessions)))
            (connection_cleanup key (Maps.get connection removed.0.connections)),
      )

  unfoldable pub check_leave : ConnectionId → SessionKey → WovenCore F → Result CoreError (Unit {0})
  check_leave connection key core = do
    validate_connection_id connection
    validate_session_key key
    require_membership core connection key

  unfoldable pub leave_session :
      ConnectionId
      → SessionKey
      → Instant
      → WovenCore F
      → WovenCore F × Result CoreError CleanupSummary
  unfolding check_leave release_session_admission detach_connection_from_session
  leave_session connection key now core = commit core (check_leave connection key core) λ _.
      let released = release_session_admission connection key intentional now core in
      let detached = detach_connection_from_session connection key released in
      (detached.0, ok detached.1)

  -- `for key in memberships`
  unfoldable pub leave_all :
      ConnectionId → List SessionKey → Instant → WovenCore F → WovenCore F × CleanupSummary
  unfolding release_session_admission detach_connection_from_session
  leave_all connection [] now core = (core, no_cleanup)
  leave_all connection (key ∷ keys) now core =
      let released = release_session_admission connection key unexpected now core in
      let detached = detach_connection_from_session connection key released in
      let rest = leave_all connection keys now detached.0 in (rest.0, add_cleanup detached.1 rest.1)

  -- `for session in pending_sessions`
  unfoldable pub release_pending :
      ConnectionId → List (ConnectionId × SessionKey) → Instant → WovenCore F → WovenCore F
  release_pending connection [] now core = core
  release_pending connection ((pending, session) ∷ keys) now core =
      release_pending connection keys now (
        if not (pending == connection)
        then core
        else elim (Maps.get (connection, session) core.pending_admissions) [
          | none ↦ core
          | some lease ↦ record core {
            pending_admissions = Maps.remove (connection, session) core.pending_admissions;
            admissions = Maps.modify session (release_at lease intentional now) core.admissions;
          }
        ])

  unfoldable pub check_lost : ConnectionId → WovenCore F → Result CoreError ConnectionState
  check_lost connection core = do validate_connection_id connection; connection_of core connection

  unfoldable pub transport_lost :
      ConnectionId → Instant → WovenCore F → WovenCore F × Result CoreError CleanupSummary
  unfolding check_lost leave_all release_pending
  transport_lost connection now core = commit core (check_lost connection core) λ state.
      let detached = leave_all connection (Maps.keys state.memberships) now core in
      let released =
        release_pending connection (Maps.keys detached.0.pending_admissions) now detached.0 in
      commit released (connection_of released connection) λ last. (
        record released { connections = Maps.remove connection released.connections },
        ok (record detached.1 {
          queued_messages_discarded =
              detached.1.queued_messages_discarded + Queue.len last.outbound;
        }),
      )

  unfoldable pub check_epoch :
      SessionKey → SpaceId → SpaceEpoch → WovenCore F → Result CoreError (SessionState F)
  check_epoch key space proposed core = do
    validate_session_key key
    require_nonzero space IdKind.space
    require_nonzero proposed IdKind.space_epoch
    session ← ok_or (Maps.get key core.sessions) (session_not_found key)
    descriptor ←
        ok_or (Maps.get space session.spaces)
          (space_not_found (record { session = key; space = space }))
    fail_if (leb proposed descriptor.epoch) (epoch_did_not_advance descriptor.epoch proposed)
    ok session

  -- The session with the space in its new epoch: its states and sequences are gone.
  unfoldable pub renew_space :
      SpaceId → SpaceEpoch → SpaceDescriptor F → SessionState F → SessionState F
  unfolding recompute_state_bytes
  renew_space space proposed descriptor session =
      let cleared : SessionState F = record session {
        spaces = Maps.insert space (record descriptor { epoch = proposed }) session.spaces;
        state = Maps.keep (λ (key : StateKey) _. not (key.space == space)) session.state;
      } in
      let counted = recompute_state_bytes cleared in
      record counted {
        sequences = Maps.keep (λ (key : SequenceKey) _. not (key.space == space)) counted.sequences;
      }

  -- The space of the session, looked up again after the removal.
  unfoldable pub check_renewed :
      SessionKey → SpaceId → WovenCore F → Result CoreError (SessionState F × SpaceDescriptor F)
  check_renewed key space core = do
    session ← ok_or (Maps.get key core.sessions) (session_not_found key)
    descriptor ←
        ok_or (Maps.get space session.spaces)
          (space_not_found (record { session = key; space = space }))
    ok (session, descriptor)

  unfoldable pub advance_space_epoch :
      SessionKey
      → SpaceId
      → SpaceEpoch
      → WovenCore F
      → WovenCore F × Result CoreError CleanupSummary
  unfolding check_epoch check_renewed renew_space entities_with count_discarded
  advance_space_epoch key space proposed core =
      commit core (check_epoch key space proposed core) λ session.
        let of_space = is_of_space (record { session = key; space = space }) in
        let entities =
          entities_with (λ (entity : EntityRecord F). entity.space == space)
            (Maps.values session.entities) in
        let removed = remove_entities_and_anchored_spaces key entities core in
        let purged : WovenCore F = record removed.0 {
          connections = Maps.map_values (purge_queue of_space) removed.0.connections;
        } in
        commit purged (check_renewed key space purged) λ found. (
          record purged {
            sessions = Maps.insert key (renew_space space proposed found.1 found.0) purged.sessions;
          },
          ok (record removed.1 {
            queued_messages_discarded =
                removed.1.queued_messages_discarded
                + count_discarded of_space removed.0.connections;
          }),
        )
