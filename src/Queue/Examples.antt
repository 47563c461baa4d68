-- ===== src/Queue/Examples.antt =====
-- Tests of the outbound queue at small capacities, and the theorems at a queue that holds messages.
use signalweave.Prelude.{
  ℕ, ◌+◌, ◌≡◌, ◌≢◌, ◌⊎◌, ◌↔◌, refl, Bool, true, false, not, none, some, [], ◌∷◌, ◌++◌, ok, err,
  panic, before, length, retain, count_if, head?, tail, same,
}
use signalweave.Prelude.Maps.{get, insert}
use signalweave.Message.{
  OutboundMessage, DeliveryClass, reliable_ordered, latest_value, best_effort_event, ephemeral,
  ScopedCoalesceKey, scoped_coalesce_key_order, is_critical,
}
use signalweave.Queue.Index.{arrivals}
use signalweave.Queue.{
  OutboundQueue, OutboundQueueConfig, new, push, pop, purge, drain, len, evicted_latest,
  dropped_latest, missing_coalesce_key, critical_capacity_exhausted,
}
use signalweave.Queue.Invariant.{IsValid, new-IsValid, push-IsValid, push-total}
use signalweave.Queue.Order.{contents, pop-contents, purge-contents, drain-contents}
use signalweave.Queue.Loss.{critical_kept, growth_of, len-push, push-get}

abbrev small : OutboundQueueConfig
small = record {
  total_capacity = 3;
  critical_capacity = 1;
  latest_capacity = 2;
  best_effort_capacity = 1;
}

abbrev message : DeliveryClass → ℕ → OutboundMessage
message delivery component = record {
  namespace = 1;
  session = 1;
  space = 1;
  space_epoch = 1;
  entity = none;
  channel = 7;
  sequence = component;
  delivery = delivery;
  persistence = ephemeral;
  coalesce_key = some (record { channel = 7; entity = none; component = component });
  payload = [];
}

abbrev scoped : ℕ → ScopedCoalesceKey
scoped component = record {
  namespace = 1;
  session = 1;
  space = 1;
  space_epoch = 1;
  application = record { channel = 7; entity = none; component = component };
}

abbrev empty : OutboundQueue
empty = record {
  config = small;
  critical = [];
  latest_order = [];
  latest = [];
  best_effort = [];
  exhausted = false;
}

abbrev one : OutboundQueue
one = (push empty (message latest_value 1)).0

abbrev two : OutboundQueue
two = (push one (message reliable_ordered 2)).0

empty-IsValid : IsValid empty
unfolding new
empty-IsValid = (new-IsValid small refl).0

one-IsValid : IsValid one
one-IsValid = push-IsValid empty (message latest_value 1) empty-IsValid

two-IsValid : IsValid two
two-IsValid = push-IsValid one (message reliable_ordered 2) one-IsValid

-- A critical message overtakes a keyed one, and a second one does not fit.
two-contents : contents two ≡ message reliable_ordered 2 ∷ message latest_value 1 ∷ []
unfolding contents push arrivals insert get same
two-contents = refl

two_exhausted : (push two (message reliable_ordered 3)).1 ≡ ok critical_capacity_exhausted
unfolding push insert get
two_exhausted = refl

-- The third key evicts the first.
one_evicts :
    (push (push one (message latest_value 2)).0 (message latest_value 3)).1
    ≡ ok (evicted_latest (scoped 1))
unfolding push insert get same before
one_evicts = refl

new-IsValid_example : IsValid empty × (len empty ≡ 0) × (empty.config ≡ small)
unfolding new
new-IsValid_example = new-IsValid small refl

push-IsValid_example : IsValid (push two (message latest_value 9)).0
push-IsValid_example = push-IsValid two (message latest_value 9) two-IsValid

push-total_example :
    ((push two (message latest_value 9)).1 ≢ panic)
    × (((push two (message latest_value 9)).1 ≡ err missing_coalesce_key)
        ↔ (◌≡◌ {A = Bool} true true × ((message latest_value 9).coalesce_key ≡ none)))
push-total_example = push-total two (message latest_value 9) two-IsValid

purge-contents_example :
    (contents (purge (λ m. is_critical m.delivery) two).0
      ≡ retain (λ m. not (is_critical m.delivery)) (contents two))
    × ((purge (λ m. is_critical m.delivery) two).1
        ≡ count_if (λ m. is_critical m.delivery) (contents two))
purge-contents_example = purge-contents (λ m. is_critical m.delivery) two two-IsValid

pop-contents_example :
    ((pop two).1 ≡ head? (contents two)) × (contents (pop two).0 ≡ tail (contents two))
pop-contents_example = pop-contents two two-IsValid

drain-contents_example :
    (r : OutboundQueue) × (drain two ≡ some (r, contents two)) × (contents r ≡ [])
drain-contents_example = drain-contents two two-IsValid

len-push_example :
    len (push two (message best_effort_event 3)).0
    ≡ len two + growth_of (push two (message best_effort_event 3)).1
len-push_example = len-push two (message best_effort_event 3) two-IsValid

abbrev critical : OutboundMessage
critical = message reliable_ordered 3

critical_kept_example :
    ((is_critical critical.delivery ≡ true)
      × ((push two critical).1 ≡ ok critical_capacity_exhausted)
      × (length two.critical ≡ two.config.critical_capacity)
      × ((push two critical).0 ≡ record two { exhausted = true }))
    ⊎ ((is_critical critical.delivery ≡ true)
        × ((push two critical).1 ≢ ok critical_capacity_exhausted)
        × ((push two critical).0.critical ≡ two.critical ++ critical ∷ [])
        × ((push two critical).0.exhausted ≡ two.exhausted))
    ⊎ ((is_critical critical.delivery ≡ false)
        × ((push two critical).0.critical ≡ two.critical)
        × ((push two critical).0.exhausted ≡ two.exhausted))
critical_kept_example = critical_kept two critical two-IsValid

abbrev keyed : OutboundMessage
keyed = message latest_value 4

push-get_example :
    (push one keyed ≡ (one, ok dropped_latest))
    ⊎ ((same (scoped 4) (scoped 1) ≡ true)
        × (get (scoped 1) (push one keyed).0.latest ≡ some keyed))
    ⊎ ((same (scoped 4) (scoped 1) ≡ false)
        × (get (scoped 1) (push one keyed).0.latest ≡ get (scoped 1) one.latest))
    ⊎ ((same (scoped 4) (scoped 1) ≡ false)
        × (get (scoped 1) (push one keyed).0.latest ≡ none)
        × ((push one keyed).1 ≡ ok (evicted_latest (scoped 1))))
push-get_example = push-get one keyed (scoped 4) (scoped 1) one-IsValid refl refl
