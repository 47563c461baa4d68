-- ===== src/Queue.antt =====
-- crates/woven-core/src/queue.rs: the bounded outbound queue of a connection. A method on `&mut
-- self` returns the new queue and its result; `expect` that fails is `panic`.
pub mod Index
pub mod Invariant
pub mod Order
pub mod Loss
mod Examples
use signalweave.Prelude.{
  ℕ, zero, suc, ◌+◌, ◌-◌, Bool, true, false, not, ◌||◌, Option, none, some, List, [], ◌∷◌, ◌++◌,
  Result, ok, err, panic, ◌>>=◌, ltb, ◌==◌, if◌then◌else◌, length, retain, Map, same, is_some,
}
use signalweave.Prelude.Maps
use signalweave.Message.{
  OutboundMessage, ScopedCoalesceKey, is_critical, is_replaceable, scoped_coalesce_key,
  scoped_coalesce_key_order,
}

pub record OutboundQueueConfig : Type 0 where
  pub total_capacity : ℕ
  pub critical_capacity : ℕ
  pub latest_capacity : ℕ
  pub best_effort_capacity : ℕ

abbrev pub default_config : OutboundQueueConfig
default_config = record {
  total_capacity = 512;
  critical_capacity = 256;
  latest_capacity = 512;
  best_effort_capacity = 128;
}

pub data QueueConfigError : Type 0 where
  zero_total_capacity zero_critical_capacity class_capacity_exceeds_total : QueueConfigError

unfoldable pub validate : OutboundQueueConfig → Result QueueConfigError OutboundQueueConfig
validate c =
    if c.total_capacity == 0
    then err zero_total_capacity
    else if c.critical_capacity == 0
    then err zero_critical_capacity
    else if ltb c.total_capacity c.critical_capacity
        || ltb c.total_capacity c.latest_capacity
        || ltb c.total_capacity c.best_effort_capacity
    then err class_capacity_exceeds_total
    else ok c

pub data QueueError : Type 0 where
  missing_coalesce_key : QueueError

pub data QueueEviction : Type 0 where
  latest : ScopedCoalesceKey → QueueEviction
  best_effort : QueueEviction

pub data QueuePush : Type 0 where
  queued : QueuePush
  queued_critical_after_eviction : QueueEviction → QueuePush
  replaced_latest : QueuePush
  evicted_latest : ScopedCoalesceKey → QueuePush
  evicted_best_effort_for_latest dropped_latest dropped_best_effort critical_capacity_exhausted :
      QueuePush

pub record OutboundQueue : Type 0 where
  pub config : OutboundQueueConfig
  pub critical : List OutboundMessage
  pub latest_order : List ScopedCoalesceKey
  pub latest : Map ScopedCoalesceKey OutboundMessage
  pub best_effort : List OutboundMessage
  pub exhausted : Bool

unfoldable pub new : OutboundQueueConfig → Result QueueConfigError OutboundQueue
unfolding validate
new c = do
  config ← validate c
  ok (record {
    config = config;
    critical = [];
    latest_order = [];
    latest = [];
    best_effort = [];
    exhausted = false;
  })

abbrev pub len : OutboundQueue → ℕ
len q = length q.critical + length q.latest + length q.best_effort

abbrev pub capacity : OutboundQueue → ℕ
capacity q = q.config.total_capacity

abbrev pub is_slow_consumer : OutboundQueue → Bool
is_slow_consumer q = q.exhausted

abbrev pub insert_latest : OutboundQueue → ScopedCoalesceKey → OutboundMessage → OutboundQueue
insert_latest q key message = record q {
  latest_order = q.latest_order ++ key ∷ [];
  latest = Maps.insert key message q.latest;
}

unfoldable pub evict_oldest_latest : OutboundQueue → OutboundQueue × Option ScopedCoalesceKey
evict_oldest_latest q = elim q.latest_order [
  | [] ↦ (q, none)
  | key ∷ rest ↦ (record q { latest_order = rest; latest = Maps.remove key q.latest }, some key)
]

unfoldable pub pop_best_effort : OutboundQueue → OutboundQueue × Option OutboundMessage
pop_best_effort q = elim q.best_effort [
  | [] ↦ (q, none)
  | message ∷ rest ↦ (record q { best_effort = rest }, some message)
]

-- The eviction that makes room for a critical message.
evict_for_critical : OutboundQueue → OutboundQueue × Option QueueEviction
evict_for_critical q =
    let (r, key) = evict_oldest_latest q in
    elim key [
      | some k ↦ (r, some (QueueEviction.latest k))
      | none ↦
          (let (t, dropped) = pop_best_effort r in
            (t, elim dropped [ none ↦ none | some _ ↦ some QueueEviction.best_effort ]))
    ]

unfoldable pub push_critical : OutboundQueue → OutboundMessage → OutboundQueue × QueuePush
unfolding evict_for_critical evict_oldest_latest pop_best_effort
push_critical q message =
    if length q.critical == q.config.critical_capacity
    then (record q { exhausted = true }, critical_capacity_exhausted)
    else (let (r, eviction) =
          if len q == q.config.total_capacity then evict_for_critical q else (q, none) in
        (
          record r { critical = r.critical ++ message ∷ [] },
          elim eviction [ none ↦ queued | some e ↦ queued_critical_after_eviction e ],
        ))

-- `push_latest` once the key is known. `expect` panics where the order is empty.
push_latest_at :
    OutboundQueue
    → ScopedCoalesceKey
    → OutboundMessage
    → OutboundQueue × Result QueueError QueuePush
unfolding evict_oldest_latest pop_best_effort
push_latest_at q key message =
    if Maps.contains key q.latest
    then (
      record q {
        latest = Maps.insert key message q.latest;
        latest_order = retain (λ ordered. not (same ordered key)) q.latest_order ++ key ∷ [];
      },
      ok replaced_latest,
    )
    else if q.config.latest_capacity == 0
    then (q, ok dropped_latest)
    else if length q.latest == q.config.latest_capacity
    then (let (r, eviction) = evict_oldest_latest q in
        elim eviction [
          | some evicted ↦ (insert_latest r key message, ok (evicted_latest evicted))
          | none ↦ (r, panic)
        ])
    else if len q == q.config.total_capacity
    then (let (r, eviction) = evict_oldest_latest q in
        let (t, dropped) = pop_best_effort r in
        elim eviction [
          | some evicted ↦ (insert_latest r key message, ok (evicted_latest evicted))
          | none ↦ elim dropped [
            | some _ ↦ (insert_latest t key message, ok evicted_best_effort_for_latest)
            | none ↦ (t, ok dropped_latest)
          ]
        ])
    else (insert_latest q key message, ok queued)

unfoldable pub push_latest :
    OutboundQueue → OutboundMessage → OutboundQueue × Result QueueError QueuePush
unfolding push_latest_at
push_latest q message = elim (scoped_coalesce_key message) [
  | none ↦ (q, err missing_coalesce_key)
  | some key ↦ push_latest_at q key message
]

unfoldable pub push_best_effort : OutboundQueue → OutboundMessage → OutboundQueue × QueuePush
push_best_effort q message =
    if length q.best_effort == q.config.best_effort_capacity || len q == q.config.total_capacity
    then (q, dropped_best_effort)
    else (record q { best_effort = q.best_effort ++ message ∷ [] }, queued)

unfoldable pub push : OutboundQueue → OutboundMessage → OutboundQueue × Result QueueError QueuePush
unfolding push_critical push_latest push_best_effort
push q message =
    if is_critical message.delivery
    then (let (r, pushed) = push_critical q message in (r, ok pushed))
    else if is_replaceable message.delivery
    then push_latest q message
    else (let (r, pushed) = push_best_effort q message in (r, ok pushed))

unfoldable pub pop : OutboundQueue → OutboundQueue × Option OutboundMessage
unfolding pop_best_effort
pop q = elim q.critical [
  | message ∷ rest ↦ (record q { critical = rest }, some message)
  | [] ↦ elim q.latest_order [
    | key ∷ rest ↦
        (record q { latest_order = rest; latest = Maps.remove key q.latest }, Maps.get key q.latest)
    | [] ↦ pop_best_effort q
  ]
]

-- The queue without the messages that are to be removed, and how many those were.
unfoldable pub purge : (OutboundMessage → Bool) → OutboundQueue → OutboundQueue × ℕ
purge should_remove q =
    let latest = Maps.keep (λ _ message. not (should_remove message)) q.latest in
    let r : OutboundQueue = record q {
      critical = retain (λ message. not (should_remove message)) q.critical;
      best_effort = retain (λ message. not (should_remove message)) q.best_effort;
      latest = latest;
      latest_order = retain (λ key. Maps.contains key latest) q.latest_order;
    } in
    (r, len q - len r)

-- `while let Some(message) = self.pop()`, on fuel; `none` when the fuel runs out.
unfoldable pub drain_loop : ℕ → OutboundQueue → Option (OutboundQueue × List OutboundMessage)
drain_loop zero q = none
drain_loop (suc fuel) q =
    let (r, popped) = pop q in
    let rest = drain_loop fuel r in
    elim popped [
      | none ↦ some (r, [])
      | some message ↦ elim rest [ none ↦ none | some (s, messages) ↦ some (s, message ∷ messages) ]
    ]

unfoldable pub drain : OutboundQueue → Option (OutboundQueue × List OutboundMessage)
unfolding drain_loop pop
drain q = drain_loop (suc (len q)) q
