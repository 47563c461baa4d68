-- ===== src/Queue/Order.antt =====
-- crates/woven-core/src/queue.rs as one sequence of messages: what `pop`, `drain` and `purge` do to
-- it. The critical messages stand first, then the keyed ones by arrival, then the rest.
use signalweave.Prelude.{
  ℕ, zero, suc, ◌<◌, ◌≡◌, inl, inr, refl, subst, ap, Bool, not, Option-cases, some, List, [], ◌++◌,
  arith, length, length-append, retain, retain-append, count_if, head?, tail, ◌-◌, length-retain,
}
use signalweave.Message.{OutboundMessage, scoped_coalesce_key_order}
use signalweave.Queue.Index.{
  arrivals, arrivals-remove, arrivals-purge, IsSynced, length-arrivals, IsSynced-head,
}
use signalweave.Queue.Invariant.{IsValid, evicted-IsSynced, pop-IsValid, purge-IsValid}
use signalweave.Queue.{OutboundQueue, len, pop, purge, drain, drain_loop}

unfoldable pub contents : OutboundQueue → List OutboundMessage
contents q = q.critical ++ (arrivals q.latest_order q.latest ++ q.best_effort)

pub length-contents : (q : OutboundQueue) → IsValid q → length (contents q) ≡ len q
unfolding contents
length-contents q v = omega (
  arith,
  length-append q.critical (arrivals q.latest_order q.latest ++ q.best_effort),
  length-append (arrivals q.latest_order q.latest) q.best_effort,
  length-arrivals q.latest_order q.latest v.synced,
)

-- On a valid queue, `pop` returns the first message of the sequence, or none if it is empty, and leaves the others in
-- their order.
pub pop-contents :
    (q : OutboundQueue)
    → IsValid q
    → ((pop q).1 ≡ head? (contents q)) × (contents (pop q).0 ≡ tail (contents q))
unfolding contents pop arrivals
pop-contents q v = elim (evicted-IsSynced q.latest_order q.latest v.synced) [
  | inl (e, l) ↦ ground arith
  | inr (k, rest, e, s, l) ↦ ground (
    arith,
    IsSynced-head k rest q.latest (subst (λ order. IsSynced order q.latest) e v.synced),
    arrivals-remove k rest q.latest,
    (subst (λ order. IsSynced order q.latest) e v.synced).distinct,
  )
]

purge_count :
    (p : OutboundMessage → Bool) (q : OutboundQueue) → (purge p q).1 ≡ len q - len (purge p q).0
unfolding purge
purge_count p q = refl

-- On a valid queue, `purge` removes from the sequence the messages that its test names and no other, keeps the order
-- of the rest, and returns how many it removed.
pub purge-contents :
    (p : OutboundMessage → Bool) (q : OutboundQueue)
    → IsValid q
    → (contents (purge p q).0 ≡ retain (λ m. not (p m)) (contents q))
      × ((purge p q).1 ≡ count_if p (contents q))
purge-contents p q v = (kept, removed)
  where
    kept : contents (purge p q).0 ≡ retain (λ m. not (p m)) (contents q)
    kept =
        unfold contents purge in
        simp
          (retain-append, arrivals-purge (λ m. not (p m)) q.latest_order q.latest v.synced.sorted)

    removed : (purge p q).1 ≡ count_if p (contents q)
    removed = omega (
      arith,
      ap length kept,
      length-retain p (contents q),
      length-contents q v,
      length-contents (purge p q).0 (purge-IsValid p q v),
      purge_count p q,
    )

drain_loop-contents :
    (fuel : ℕ) (q : OutboundQueue)
    → IsValid q
    → length (contents q) < fuel
    → (r : OutboundQueue) × (drain_loop fuel q ≡ some (r, contents q)) × (contents r ≡ [])
unfolding drain_loop
drain_loop-contents zero q v h = elim h [ ]
drain_loop-contents (suc fuel) q v h = elim (Option-cases (pop q).1) [
  | inl e ↦ ((pop q).0, ground (arith, e, pop-contents q v), ground (arith, pop-contents q v, e))
  | inr (m, e) ↦
      (let (r, done, empty) =
          drain_loop-contents fuel (pop q).0 (pop-IsValid q v)
            (ground (arith, pop-contents q v, e)) in
        (r, ground (arith, done, e, pop-contents q v), empty))
]

-- On a valid queue, `drain` ends, returns the whole sequence in order, and leaves the queue empty.
pub drain-contents :
    (q : OutboundQueue)
    → IsValid q
    → (r : OutboundQueue) × (drain q ≡ some (r, contents q)) × (contents r ≡ [])
unfolding drain
drain-contents q v = drain_loop-contents (suc (len q)) q v (omega (arith, length-contents q v))
