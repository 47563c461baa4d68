-- ===== src/Core/Leaving.antt =====
-- Ending a subscription in crates/woven-core/src/core.rs, for the agreement of both records.
use signalweave.Prelude.{
  ◌≡◌, not, some, Result, ok, Set, nat_key, arith, same, same_iff, if◌then◌else◌, if_cases,
  Option-cases, inl, inr,
}
use signalweave.Prelude.Maps.{get, insert, remove, contains}
use signalweave.Prelude.Maps.Laws.{get-insert, get-remove}
use signalweave.Ids.{
  ConnectionId, SpaceId, SessionKey, SpaceKey, session_key_order, space_key_order,
}
use signalweave.Queue
use signalweave.Core.{ConnectionState, CoreError, SessionState, WovenCore}
use signalweave.Core.Subscriptions.{
  CleanupSummary, is_of_space, remove_subscriber, check_unsubscribe, drop_subscription, unsubscribe,
}
use signalweave.Core.Agreement.{Agrees, commit_cases}

module _ {F : Type 0} where
  check_unsubscribe-found :
      (connection : ConnectionId) (key : SpaceKey) (core : WovenCore F) (state : ConnectionState)
      → check_unsubscribe connection key core ≡ ok state
      → get connection core.connections ≡ some state
  unfolding check_unsubscribe
  check_unsubscribe-found connection key core state h = ground arith

  -- The session of a space whose subscriber leaves.
  abbrev without : ConnectionId → SpaceId → SessionState F → Set ConnectionId → SessionState F
  without connection space session others = record session {
    subscribers = insert space (remove connection others) session.subscribers;
  }

  drop_subscription-Agrees :
      (connection : ConnectionId) (key : SpaceKey) (state : ConnectionState)
      (session : SessionState F) (others : Set ConnectionId) (core : WovenCore F)
      → Agrees core
      → get connection core.connections ≡ some state
      → get key.session core.sessions ≡ some session
      → get key.space session.subscribers ≡ some others
      → Agrees (drop_subscription connection key state core)
  unfolding drop_subscription
  drop_subscription-Agrees connection key state session others core v e s o = record {
    members = λ c k. ground (
      arith,
      v.members c k,
      e,
      s,
      same_iff connection c,
      same_iff key.session k,
      states c,
      sessions k,
    );
    subscribers = λ c k. ground (
      arith,
      v.subscribers c k,
      e,
      s,
      o,
      same_iff connection c,
      same_iff key.session k.session,
      same_iff key k,
      same_iff key.space k.space,
      states c,
      sessions k.session,
      spaces k.space,
      get-remove key k state.subscriptions,
      get-remove connection c others,
    );
    inside = λ c k h. ground (
      arith,
      v.inside c k,
      e,
      same_iff connection c,
      same_iff key k,
      states c,
      get-remove key k state.subscriptions,
    );
    spaces = λ k j. ground (
      arith,
      v.spaces k j,
      s,
      o,
      same_iff key.session k,
      same_iff key.space j,
      sessions k,
      spaces j,
    );
    fresh = λ c h. ground (arith, v.fresh c h, e, same_iff connection c, states c);
  }
    where
      states :
          (c : ConnectionId)
          → get c (drop_subscription connection key state core).connections ≡ (
              if same connection c
              then some (record state {
                subscriptions = remove key state.subscriptions;
                outbound = (Queue.purge (is_of_space key) state.outbound).0;
              })
              else get c core.connections)
      states c = get-insert connection c _ core.connections

      left :
          remove_subscriber connection key core.sessions
          ≡ insert key.session (without connection key.space session others) core.sessions
      left = unfold remove_subscriber in ground (arith, s, o)

      sessions :
          (k : SessionKey)
          → get k (drop_subscription connection key state core).sessions ≡ (
              if same key.session k
              then some (without connection key.space session others)
              else get k core.sessions)
      sessions k = rw left (get-insert key.session k _ core.sessions)

      spaces :
          (j : SpaceId)
          → get j (insert key.space (remove connection others) session.subscribers) ≡ (
              if same key.space j
              then some (remove connection others)
              else get j session.subscribers)
      spaces j = get-insert key.space j _ session.subscribers

  pub unsubscribe-Agrees :
      (connection : ConnectionId) (key : SpaceKey) (core : WovenCore F)
      → Agrees core
      → Agrees (unsubscribe connection key core).0
  unfolding unsubscribe
  unsubscribe-Agrees connection key core v =
      commit_cases Agrees core (check_unsubscribe connection key core) _ v λ state h.
        if_cases Kept (not (contains key state.subscriptions)) _ _ (λ _. v)
          λ held.
            let e = check_unsubscribe-found connection key core state h in
            let subscribed = v.subscribers connection key in
            elim (Option-cases (get key.session core.sessions)) [
              | inl n ↦ ground (arith, e, held, subscribed, n)
              | inr (session, s) ↦ elim (Option-cases (get key.space session.subscribers)) [
                | inl n ↦ ground (arith, e, held, subscribed, s, n)
                | inr (others, o) ↦
                    drop_subscription-Agrees connection key state session others core v e s o
              ]
            ]
    where
      Kept : WovenCore F × Result CoreError CleanupSummary → Type 0
      Kept r = Agrees r.0
