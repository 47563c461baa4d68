-- ===== src/Queue/Loss.antt =====
-- What a push of crates/woven-core/src/queue.rs may lose, and that the result says so.
use signalweave.Prelude.{
  ℕ, ◌+◌, ◌≡◌, ◌≢◌, ◌⊎◌, inl, inr, refl, true, false, none, some, [], ◌∷◌, ◌++◌, Result, ok, arith,
  length, length-append, same, same_iff, Option-cases,
}
use signalweave.Prelude.Maps.{get, remove}
use signalweave.Prelude.Maps.Laws.{get-insert, get-remove, length-insert_new, length-insert_old}
use signalweave.Message.{
  OutboundMessage, ScopedCoalesceKey, scoped_coalesce_key, scoped_coalesce_key_order, is_critical,
  is_replaceable, DeliveryClass,
}
use signalweave.Queue.Invariant.{IsValid, evicted-IsSynced}
use signalweave.Queue.{
  OutboundQueue, QueueError, QueuePush, queued, evicted_latest, dropped_latest,
  critical_capacity_exhausted, len, push, push_critical, push_latest, push_latest_at,
  push_best_effort,
}

-- How many messages more the queue holds after a push with this result.
abbrev pub growth : QueuePush → ℕ
growth queued = 1
growth _ = 0

-- The growth of a push that returned.
abbrev pub growth_of : Result QueueError QueuePush → ℕ
growth_of (ok r) = growth r
growth_of _ = 0

module _ (q : OutboundQueue) (m : OutboundMessage) (v : IsValid q) where
  push_critical-kept :
      ((push_critical q m ≡ (record q { exhausted = true }, critical_capacity_exhausted))
        × (length q.critical ≡ q.config.critical_capacity))
      ⊎ (((push_critical q m).1 ≢ critical_capacity_exhausted)
          × ((push_critical q m).0.critical ≡ q.critical ++ m ∷ [])
          × ((push_critical q m).0.exhausted ≡ q.exhausted))
  unfolding push_critical
  push_critical-kept = ground (arith, evicted-IsSynced q.latest_order q.latest v.synced)

  push_latest-critical :
      ((push_latest q m).0.critical ≡ q.critical) × ((push_latest q m).0.exhausted ≡ q.exhausted)
  unfolding push_latest push_latest_at
  push_latest-critical = ground arith

  push_best_effort-critical :
      ((push_best_effort q m).0.critical ≡ q.critical)
      × ((push_best_effort q m).0.exhausted ≡ q.exhausted)
  unfolding push_best_effort
  push_best_effort-critical = ground arith

  len-push_critical : len (push_critical q m).0 ≡ len q + growth (push_critical q m).1
  unfolding push_critical
  len-push_critical =
      ground (
        arith,
        evicted-IsSynced q.latest_order q.latest v.synced,
        length-append q.critical (m ∷ []),
      )

  len-push_best_effort : len (push_best_effort q m).0 ≡ len q + growth (push_best_effort q m).1
  unfolding push_best_effort
  len-push_best_effort = ground (arith, length-append q.best_effort (m ∷ []))

  len-push_latest_at :
      (k : ScopedCoalesceKey)
      → len (push_latest_at q k m).0 ≡ len q + growth_of (push_latest_at q k m).1
  unfolding push_latest_at
  len-push_latest_at k = elim (evicted-IsSynced q.latest_order q.latest v.synced) [
    | inl (e, l) ↦
        ground
          (arith, length-insert_old k m q.latest v.synced.sorted, length-insert_new k m q.latest)
    | inr (j, rest, e, s, l) ↦ ground (
      arith,
      length-insert_old k m q.latest v.synced.sorted,
      length-insert_new k m q.latest,
      get-remove j k q.latest,
      length-insert_new k m (remove j q.latest),
    )
  ]

  len-push_latest : len (push_latest q m).0 ≡ len q + growth_of (push_latest q m).1
  unfolding push_latest
  len-push_latest = elim (Option-cases (scoped_coalesce_key m)) [
    | inl e ↦ rw (e, push_latest) (omega arith)
    | inr (k, e) ↦ rw (e, push_latest) (len-push_latest_at k)
  ]

  -- What a replaceable message does to the entry of a key.
  push_latest_at-get :
      (k j : ScopedCoalesceKey)
      → let r = push_latest_at q k m in
        (r ≡ (q, ok dropped_latest))
        ⊎ ((same k j ≡ true) × (get j r.0.latest ≡ some m))
        ⊎ ((same k j ≡ false) × (get j r.0.latest ≡ get j q.latest))
        ⊎ ((same k j ≡ false) × (get j r.0.latest ≡ none) × (r.1 ≡ ok (evicted_latest j)))
  unfolding push_latest_at
  push_latest_at-get k j = elim (evicted-IsSynced q.latest_order q.latest v.synced) [
    | inl (e, l) ↦ ground (arith, get-insert k j m q.latest)
    | inr (i, rest, e, s, l) ↦ ground (
      arith,
      get-insert k j m q.latest,
      get-insert k j m (remove i q.latest),
      get-remove i j q.latest,
      same_iff i j,
    )
  ]

-- On a valid queue, a critical message is never dropped silently, and no push drops a critical message that was
-- queued: a critical push appends its message to the critical ones, or the critical class was full,
-- the result says so, and only the slow-consumer flag changes. Any other push leaves the critical
-- messages and the flag as they are.
pub critical_kept :
    (q : OutboundQueue) (m : OutboundMessage)
    → IsValid q
    → let r = push q m in
      ((is_critical m.delivery ≡ true)
        × (r.1 ≡ ok critical_capacity_exhausted)
        × (length q.critical ≡ q.config.critical_capacity)
        × (r.0 ≡ record q { exhausted = true }))
      ⊎ ((is_critical m.delivery ≡ true)
          × (r.1 ≢ ok critical_capacity_exhausted)
          × (r.0.critical ≡ q.critical ++ m ∷ [])
          × (r.0.exhausted ≡ q.exhausted))
      ⊎ ((is_critical m.delivery ≡ false)
          × (r.0.critical ≡ q.critical)
          × (r.0.exhausted ≡ q.exhausted))
unfolding push
critical_kept q m v =
    ground
      (arith, push_critical-kept q m v, push_latest-critical q m v, push_best_effort-critical q m v)

-- A valid queue grows by one message when the result of the push is `Queued`, and by none on every
-- other result.
pub len-push :
    (q : OutboundQueue) (m : OutboundMessage)
    → IsValid q
    → len (push q m).0 ≡ len q + growth_of (push q m).1
unfolding push
len-push q m v =
    ground (arith, len-push_critical q m v, len-push_latest q m v, len-push_best_effort q m v)

replaceable_not_critical : (d : DeliveryClass) → is_replaceable d ≡ true → is_critical d ≡ false
replaceable_not_critical d h = ground arith

push-replaceable :
    (q : OutboundQueue) (m : OutboundMessage) (k : ScopedCoalesceKey)
    → is_replaceable m.delivery ≡ true
    → scoped_coalesce_key m ≡ some k
    → push q m ≡ push_latest_at q k m
unfolding push push_latest
push-replaceable q m k h e =
    rw (replaceable_not_critical m.delivery h, push) (rw (h, push) (rw (e, push_latest) refl))

-- On a valid queue, a replaceable message with key `k` is either refused, with the queue unchanged and the result
-- `DroppedLatest`, or it becomes the one message under `k`; any other key keeps its message, but
-- for the one key that the result names as evicted, which has none left.
pub push-get :
    (q : OutboundQueue) (m : OutboundMessage) (k j : ScopedCoalesceKey)
    → IsValid q
    → is_replaceable m.delivery ≡ true
    → scoped_coalesce_key m ≡ some k
    → let r = push q m in
      (r ≡ (q, ok dropped_latest))
      ⊎ ((same k j ≡ true) × (get j r.0.latest ≡ some m))
      ⊎ ((same k j ≡ false) × (get j r.0.latest ≡ get j q.latest))
      ⊎ ((same k j ≡ false) × (get j r.0.latest ≡ none) × (r.1 ≡ ok (evicted_latest j)))
push-get q m k j v h e = rw (push-replaceable q m k h e) (push_latest_at-get q m v k j)
