-- ===== src/Core/Joining.antt =====
-- Joining a session and subscribing to a space in crates/woven-core/src/core.rs, for the agreement of
-- both records.
use signalweave.Prelude.{
  ◌≡◌, true, some, Result, ok, Set, nat_key, arith, same, same_iff, length, ◌==◌, if◌then◌else◌,
  if_cases, option_cases,
}
use signalweave.Prelude.Maps.{get, insert, contains}
use signalweave.Prelude.Maps.Laws.{get-insert}
use signalweave.Ids.{
  ConnectionId, SpaceId, SessionKey, SpaceKey, session_key_order, space_key_order,
}
use signalweave.Core.{ConnectionState, CoreError, SessionState, WovenCore}
use signalweave.Core.Connections.{check_join, join_session_unchecked_admission}
use signalweave.Core.Subscriptions.{add_subscriber, check_subscriber, check_subscription, subscribe}
use signalweave.Core.Agreement.{Agrees, commit_cases, add_member-Agrees}

module _ {F : Type 0} where
  abbrev Kept : {A : Type 0} → WovenCore F × Result CoreError A → Type 0
  Kept r = Agrees r.0

  check_join-found :
      (connection : ConnectionId) (key : SessionKey) (core : WovenCore F)
      (x : SessionState F × ConnectionState)
      → check_join connection key core ≡ ok x
      → (get key core.sessions ≡ some x.0) × (get connection core.connections ≡ some x.1)
  unfolding check_join
  check_join-found connection key core x h = ground arith

  pub join_session_unchecked_admission-Agrees :
      (connection : ConnectionId) (key : SessionKey) (core : WovenCore F)
      → Agrees core
      → Agrees (join_session_unchecked_admission connection key core).0
  unfolding join_session_unchecked_admission
  join_session_unchecked_admission-Agrees connection key core v =
      commit_cases Agrees core (check_join connection key core) _ v λ x h.
        if_cases Kept (contains key x.1.memberships) _ _ (λ _. v)
          λ _.
            if_cases Kept (length x.1.memberships == core.config.max_memberships_per_connection) _ _
              (λ _. v)
              λ _.
                let found = check_join-found connection key core x h in
                add_member-Agrees connection key x.1 x.0 core v found.1 found.0

  check_subscriber-found :
      (connection : ConnectionId) (key : SpaceKey) (core : WovenCore F) (state : ConnectionState)
      → check_subscriber connection key core ≡ ok state
      → (get connection core.connections ≡ some state)
        × (contains key.session state.memberships ≡ true)
  unfolding check_subscriber
  check_subscriber-found connection key core state h = ground arith

  check_subscription-found :
      (key : SpaceKey) (state : ConnectionState) (core : WovenCore F) (session : SessionState F)
      → check_subscription key state core ≡ ok session
      → (get key.session core.sessions ≡ some session) × (contains key.space session.spaces ≡ true)
  unfolding check_subscription
  check_subscription-found key state core session h = ground arith

  add_subscriber-Agrees :
      (connection : ConnectionId) (key : SpaceKey) (state : ConnectionState)
      (session : SessionState F) (others : Set ConnectionId) (core : WovenCore F)
      → Agrees core
      → get connection core.connections ≡ some state
      → contains key.session state.memberships ≡ true
      → get key.session core.sessions ≡ some session
      → get key.space session.subscribers ≡ some others
      → Agrees (add_subscriber connection key state session others core)
  add_subscriber-Agrees connection key state session others core v e m s o = record {
    members = λ c k. ground (
      arith,
      v.members c k,
      e,
      s,
      same_iff connection c,
      same_iff key.session k,
      states c,
      sessions k,
    );
    subscribers = λ c k. ground (
      arith,
      v.subscribers c k,
      e,
      s,
      o,
      same_iff connection c,
      same_iff key.session k.session,
      same_iff key k,
      same_iff key.space k.space,
      states c,
      sessions k.session,
      spaces k.space,
      get-insert key k tt state.subscriptions,
      get-insert connection c tt others,
    );
    inside = λ c k h. ground (
      arith,
      v.inside c k,
      e,
      m,
      same_iff connection c,
      same_iff key k,
      states c,
      get-insert key k tt state.subscriptions,
    );
    spaces = λ k j. ground (
      arith,
      v.spaces k j,
      s,
      o,
      same_iff key.session k,
      same_iff key.space j,
      sessions k,
      spaces j,
    );
    fresh = λ c h. ground (arith, v.fresh c h, e, same_iff connection c, states c);
  }
    where
      states :
          (c : ConnectionId)
          → get c (add_subscriber connection key state session others core).connections ≡ (
              if same connection c
              then some (record state { subscriptions = insert key tt state.subscriptions })
              else get c core.connections)
      states c = get-insert connection c _ core.connections

      sessions :
          (k : SessionKey)
          → get k (add_subscriber connection key state session others core).sessions ≡ (
              if same key.session k
              then some (record session {
                subscribers = insert key.space (insert connection tt others) session.subscribers;
              })
              else get k core.sessions)
      sessions k = get-insert key.session k _ core.sessions

      spaces :
          (j : SpaceId)
          → get j (insert key.space (insert connection tt others) session.subscribers) ≡ (
              if same key.space j
              then some (insert connection tt others)
              else get j session.subscribers)
      spaces j = get-insert key.space j _ session.subscribers

  pub subscribe-Agrees :
      (connection : ConnectionId) (key : SpaceKey) (core : WovenCore F)
      → Agrees core
      → Agrees (subscribe connection key core).0
  unfolding subscribe
  subscribe-Agrees connection key core v =
      commit_cases Agrees core (check_subscriber connection key core) _ v λ state h.
        if_cases Kept (contains key state.subscriptions) _ _ (λ _. v)
          λ _. commit_cases Agrees core (check_subscription key state core) _ v λ session i.
            let (e, m) = check_subscriber-found connection key core state h in
            let (s, w) = check_subscription-found key state core session i in
            option_cases Kept (get key.space session.subscribers) _ _
              (λ n. ground (arith, v.spaces key.session key.space))
              λ others o. add_subscriber-Agrees connection key state session others core v e m s o
