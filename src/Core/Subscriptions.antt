-- ===== src/Core/Subscriptions.antt =====
-- Subscriptions of crates/woven-core/src/core.rs.
use signalweave.Prelude.{
  ℕ, Bool, not, ◌&&◌, none, some, List, [], Result, ok, err, fail_if, ok_or, ◌>>=◌, ◌>>◌, Map, Set,
  nat_key, length, ◌==◌, if◌then◌else◌,
}
use signalweave.Prelude.Maps
use signalweave.Ids.{
  EntityId, SpaceId, SpaceEpoch, ConnectionId, SessionKey, SpaceKey, session_key_order,
  space_key_order,
}
use signalweave.Message.{OutboundMessage}
use signalweave.Queue
use signalweave.Core.{
  ConnectionState, CoreError, SessionState, WovenCore, session_not_found, space_not_found,
  subscription_limit_reached,
}
use signalweave.Core.Access.{
  commit, validate_space_key, validate_connection_id, connection_of, authenticated_principal,
  require_namespace_read, require_session_read, require_space_read, require_membership,
}

pub record RemovedEntity : Type 0 where
  pub entity : EntityId
  pub session : SessionKey
  pub space : SpaceId
  pub space_epoch : SpaceEpoch

pub record CleanupSummary : Type 0 where
  pub memberships_removed : ℕ
  pub subscriptions_removed : ℕ
  pub entities_removed : ℕ
  pub spaces_removed : ℕ
  pub queued_messages_discarded : ℕ
  pub removed_entities : List RemovedEntity

abbrev pub no_cleanup : CleanupSummary
no_cleanup = record {
  memberships_removed = 0;
  subscriptions_removed = 0;
  entities_removed = 0;
  spaces_removed = 0;
  queued_messages_discarded = 0;
  removed_entities = [];
}

-- A message of a space.
abbrev pub is_of_space : SpaceKey → OutboundMessage → Bool
is_of_space key message =
    message.namespace == key.session.namespace
    && (message.session == key.session.session && message.space == key.space)

module _ {F : Type 0} where
  abbrev pub add_subscriber :
      ConnectionId
      → SpaceKey
      → ConnectionState
      → SessionState F
      → Set ConnectionId
      → WovenCore F
      → WovenCore F
  add_subscriber connection key state session subscribers core = record core {
    connections =
        Maps.insert connection
          (record state { subscriptions = Maps.insert key tt state.subscriptions })
          core.connections;
    sessions =
        Maps.insert key.session
          (record session {
            subscribers =
                Maps.insert key.space (Maps.insert connection tt subscribers) session.subscribers;
          })
          core.sessions;
  }

  -- The first checks of `subscribe`, with the connection found.
  unfoldable pub check_subscriber :
      ConnectionId → SpaceKey → WovenCore F → Result CoreError ConnectionState
  check_subscriber connection key core = do
    validate_connection_id connection
    validate_space_key key
    principal ← authenticated_principal core connection
    require_namespace_read principal key.session.namespace
    require_session_read principal key.session
    require_space_read principal key
    require_membership core connection key.session
    connection_of core connection

  -- Its further checks for a new subscription, with the session found.
  unfoldable pub check_subscription :
      SpaceKey → ConnectionState → WovenCore F → Result CoreError (SessionState F)
  check_subscription key state core = do
    fail_if (length state.subscriptions == core.config.max_subscriptions_per_connection)
        subscription_limit_reached
    session ← ok_or (Maps.get key.session core.sessions) (session_not_found key.session)
    fail_if (not (Maps.contains key.space session.spaces)) (space_not_found key)
    ok session

  -- A space without a set of subscribers fails when the connection is already changed.
  unfoldable pub subscribe :
      ConnectionId → SpaceKey → WovenCore F → WovenCore F × Result CoreError (Unit {0})
  unfolding check_subscriber check_subscription
  subscribe connection key core = commit core (check_subscriber connection key core) λ state.
      if Maps.contains key state.subscriptions
      then (core, ok tt)
      else commit core (check_subscription key state core) λ session.
        elim (Maps.get key.space session.subscribers) [
          | some subscribers ↦ (add_subscriber connection key state session subscribers core, ok tt)
          | none ↦ (
            record core {
              connections =
                  Maps.insert connection
                    (record state { subscriptions = Maps.insert key tt state.subscriptions })
                    core.connections;
            },
            err (space_not_found key),
          )
        ]

  -- The sessions without the connection among the subscribers of the space.
  unfoldable pub remove_subscriber :
      ConnectionId → SpaceKey → Map SessionKey (SessionState F) → Map SessionKey (SessionState F)
  remove_subscriber connection key sessions = elim (Maps.get key.session sessions) [
    | none ↦ sessions
    | some session ↦ elim (Maps.get key.space session.subscribers) [
      | none ↦ sessions
      | some subscribers ↦
          Maps.insert key.session
            (record session {
              subscribers =
                  Maps.insert key.space (Maps.remove connection subscribers) session.subscribers;
            })
            sessions
    ]
  ]

  -- The checks of `unsubscribe`, with the connection found.
  unfoldable pub check_unsubscribe :
      ConnectionId → SpaceKey → WovenCore F → Result CoreError ConnectionState
  check_unsubscribe connection key core = do
    validate_connection_id connection
    validate_space_key key
    _ ← authenticated_principal core connection
    connection_of core connection

  -- The state without a subscription that the connection has.
  unfoldable pub drop_subscription :
      ConnectionId → SpaceKey → ConnectionState → WovenCore F → WovenCore F
  unfolding remove_subscriber
  drop_subscription connection key state core = record core {
    connections =
        Maps.insert connection
          (record state {
            subscriptions = Maps.remove key state.subscriptions;
            outbound = (Queue.purge (is_of_space key) state.outbound).0;
          })
          core.connections;
    sessions = remove_subscriber connection key core.sessions;
  }

  unfoldable pub unsubscribe :
      ConnectionId → SpaceKey → WovenCore F → WovenCore F × Result CoreError CleanupSummary
  unfolding check_unsubscribe drop_subscription
  unsubscribe connection key core = commit core (check_unsubscribe connection key core) λ state.
      if not (Maps.contains key state.subscriptions) then (core, ok no_cleanup) else (
        drop_subscription connection key state core,
        ok (record no_cleanup {
          subscriptions_removed = 1;
          queued_messages_discarded = (Queue.purge (is_of_space key) state.outbound).1;
        }),
      )
