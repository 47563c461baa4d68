-- ===== src/Queue/Invariant.antt =====
-- The bounds of crates/woven-core/src/queue.rs: every class stays within its capacity, all of them
-- together within the total, and `latest_order` agrees with `latest`.
use signalweave.Prelude.{
  ◌+◌, ◌≤◌, ◌<◌, ◌≡◌, ◌≢◌, Bool, true, not, none, List, [], ◌∷◌, Map, refl, sym, ◌⊎◌, ok, err,
  panic, arith, length, length-append, length-retain-le, inl, inr, Option-cases, ◌↔◌,
}
use signalweave.Prelude.Maps.{get, remove}
use signalweave.Prelude.Maps.Laws.{
  get-remove, length-insert_new, length-insert_old, length-remove, length-keep-le,
}
use signalweave.Message.{
  OutboundMessage, ScopedCoalesceKey, is_replaceable, scoped_coalesce_key,
  scoped_coalesce_key_order,
}
use signalweave.Queue.Index.{
  member, IsSynced, IsSynced-push, IsSynced-replace, IsSynced-pop, IsSynced-purge, IsSynced-head,
  length-IsSynced,
}
use signalweave.Queue.{
  OutboundQueue, OutboundQueueConfig, QueueError, missing_coalesce_key, new, len, push,
  push_critical, push_latest, push_latest_at, push_best_effort, pop, purge,
}

pub record IsValid (q : OutboundQueue) : Type 0 where
  pub critical_positive : 0 < q.config.critical_capacity
  pub critical_fits : q.config.critical_capacity ≤ q.config.total_capacity
  pub critical_bound : length q.critical ≤ q.config.critical_capacity
  pub latest_bound : length q.latest ≤ q.config.latest_capacity
  pub best_effort_bound : length q.best_effort ≤ q.config.best_effort_capacity
  pub total_bound : len q ≤ q.config.total_capacity
  pub synced : IsSynced q.latest_order q.latest

-- A queue that `new` returns is valid and empty, with the configuration given.
pub new-IsValid :
    (c : OutboundQueueConfig) {q : OutboundQueue}
    → new c ≡ ok q
    → IsValid q × (len q ≡ 0) × (q.config ≡ c)
unfolding new
new-IsValid c h = ground (arith, nothing)
  where
    nothing : IsSynced {K = ScopedCoalesceKey} {V = OutboundMessage} [] []
    nothing = record { sorted = tt; distinct = tt; agree = λ k. unfold member get in refl }

-- What the eviction of the oldest keyed message finds: nothing at all, or a key that is in both.
pub evicted-IsSynced :
    (order : List ScopedCoalesceKey) (m : Map ScopedCoalesceKey OutboundMessage)
    → IsSynced order m
    → ((order ≡ []) × (length m ≡ 0))
      ⊎ ((k : ScopedCoalesceKey) × (rest : List ScopedCoalesceKey) × (order ≡ k ∷ rest)
          × IsSynced rest (remove k m)
          × (length (remove k m) + 1 ≡ length m))
evicted-IsSynced [] m s = inl (refl, sym (length-IsSynced [] m s))
evicted-IsSynced (k ∷ rest) m s = inr (
  k,
  rest,
  refl,
  IsSynced-pop k rest m s,
  ground (arith, IsSynced-head k rest m s, length-remove k m s.sorted),
)

module _ (q : OutboundQueue) (m : OutboundMessage) (v : IsValid q) where
  push_critical-IsValid : IsValid (push_critical q m).0
  unfolding push_critical
  push_critical-IsValid =
      ground (
        arith,
        length-append q.critical (m ∷ []),
        evicted-IsSynced q.latest_order q.latest v.synced,
      )

  push_best_effort-IsValid : IsValid (push_best_effort q m).0
  unfolding push_best_effort
  push_best_effort-IsValid = ground (arith, length-append q.best_effort (m ∷ []))

  push_latest_at-IsValid : (k : ScopedCoalesceKey) → IsValid (push_latest_at q k m).0
  unfolding push_latest_at
  push_latest_at-IsValid k = elim (evicted-IsSynced q.latest_order q.latest v.synced) [
    | inl (e, l) ↦ ground (
      arith,
      IsSynced-replace k m q.latest_order q.latest v.synced,
      length-insert_old k m q.latest v.synced.sorted,
      length-insert_new k m q.latest,
      IsSynced-push k m q.latest_order q.latest,
    )
    | inr (j, rest, e, s, l) ↦ ground (
      arith,
      IsSynced-replace k m q.latest_order q.latest v.synced,
      length-insert_old k m q.latest v.synced.sorted,
      length-insert_new k m q.latest,
      IsSynced-push k m q.latest_order q.latest,
      get-remove j k q.latest,
      length-insert_new k m (remove j q.latest),
      IsSynced-push k m rest (remove j q.latest),
    )
  ]

  push_latest-IsValid : IsValid (push_latest q m).0
  unfolding push_latest
  push_latest-IsValid = elim (Option-cases (scoped_coalesce_key m)) [
    | inl e ↦ rw (e, push_latest) v
    | inr (k, e) ↦ rw (e, push_latest) (push_latest_at-IsValid k)
  ]

  push_latest_at-ne-panic : (k : ScopedCoalesceKey) → (push_latest_at q k m).1 ≢ panic
  unfolding push_latest_at
  push_latest_at-ne-panic k = ground (arith, evicted-IsSynced q.latest_order q.latest v.synced)

  push_latest_at-ne-err :
      (k : ScopedCoalesceKey) (e : QueueError) → (push_latest_at q k m).1 ≢ err e
  unfolding push_latest_at
  push_latest_at-ne-err k e = ground arith

  push_latest-total :
      ((push_latest q m).1 ≢ panic)
      × (((push_latest q m).1 ≡ err missing_coalesce_key) ↔ (m.coalesce_key ≡ none))
  unfolding push_latest
  push_latest-total = elim (Option-cases m.coalesce_key) [
    | inl e ↦ rw (e, push_latest) ((λ h. cc), ((λ h. refl), (λ h. refl)))
    | inr (c, e) ↦
        rw (e, push_latest)
          (push_latest_at-ne-panic _, ((λ h. absurd (push_latest_at-ne-err _ _ h)), (λ h. cc)))
  ]

-- On a valid queue, pushing keeps every bound and the agreement of order and map, whatever the class of the message
-- and whatever the result.
pub push-IsValid : (q : OutboundQueue) (m : OutboundMessage) → IsValid q → IsValid (push q m).0
unfolding push
push-IsValid q m v =
    ground (
      arith,
      push_critical-IsValid q m v,
      push_latest-IsValid q m v,
      push_best_effort-IsValid q m v,
    )

-- On a valid queue the `expect` of `push_latest` never fails: a push does not panic. It returns an
-- error exactly when a replaceable message has no coalescing key.
pub push-total :
    (q : OutboundQueue) (m : OutboundMessage)
    → IsValid q
    → ((push q m).1 ≢ panic)
      × (((push q m).1 ≡ err missing_coalesce_key)
          ↔ ((is_replaceable m.delivery ≡ true) × (m.coalesce_key ≡ none)))
unfolding push
push-total q m v = ground (arith, push_latest-total q m v)

pub pop-IsValid : (q : OutboundQueue) → IsValid q → IsValid (pop q).0
unfolding pop
pop-IsValid q v = ground (arith, evicted-IsSynced q.latest_order q.latest v.synced)

pub purge-IsValid :
    (p : OutboundMessage → Bool) (q : OutboundQueue) → IsValid q → IsValid (purge p q).0
unfolding purge
purge-IsValid p q v = ground (
  arith,
  length-retain-le (λ message. not (p message)) q.critical,
  length-retain-le (λ message. not (p message)) q.best_effort,
  length-keep-le (λ _ message. not (p message)) q.latest,
  IsSynced-purge (λ _ message. not (p message)) q.latest_order q.latest v.synced,
)
