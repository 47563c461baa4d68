-- ===== src/Journal/Fifo.antt =====
-- The outbox of crates/woven-core/src/journal.rs under sequences of pushes and pops.
use mathlib.Core.List.{append_assoc, append-nil}
use signalweave.Prelude.{
  ℕ, zero, suc, ◌≤◌, ◌≡◌, refl, none, some, List, [], ◌∷◌, ◌++◌, Result, ok, err, panic, arith,
  length, length-append,
}
use signalweave.Journal.{
  JournalRecord, JournalOutbox, JournalOutboxError, push, pop, len, remaining_capacity,
}

abbrev pub IsValid : JournalOutbox → Type 0
IsValid o = len o ≤ o.capacity

-- `push` of each record in turn, up to the first that is refused.
unfoldable pub push_all :
    List JournalRecord → JournalOutbox → JournalOutbox × Result JournalOutboxError (Unit {0})
push_all [] o = (o, ok tt)
push_all (r ∷ rs) o =
    let (p, pushed) = push r o in
    let rest = push_all rs p in
    elim pushed [ ok _ ↦ rest | err e ↦ (p, err e) | panic ↦ (p, panic) ]

pub push-IsValid : (r : JournalRecord) (o : JournalOutbox) → IsValid o → IsValid (push r o).0
unfolding push
push-IsValid r o v = ground (arith, length-append o.records (r ∷ []))

push-accepts :
    (r : JournalRecord) (o : JournalOutbox)
    → suc (len o) ≤ o.capacity
    → push r o ≡ (record o { records = o.records ++ r ∷ [] }, ok tt)
unfolding push
push-accepts r o h = ground arith

-- Up to `n` times `pop`.
unfoldable pub pop_all : ℕ → JournalOutbox → List JournalRecord
pop_all zero o = []
pop_all (suc n) o =
    let (p, popped) = pop o in
    let rest = pop_all n p in elim popped [ none ↦ [] | some r ↦ r ∷ rest ]

pop_records :
    (n : ℕ) (o : JournalOutbox) (rs : List JournalRecord)
    → o.records ≡ rs
    → len o ≤ n
    → pop_all n o ≡ o.records
unfolding pop_all pop
pop_records zero o rs e h = ground arith
pop_records (suc n) o [] e h = ground arith
pop_records (suc n) o (r ∷ rs) e h =
    ground (arith, pop_records n (record o { records = rs }) rs refl)

-- If the records fit in the remaining capacity, pushing them one by one succeeds for every one of
-- them, appends them in their order, and keeps the outbox within its capacity.
pub push_all-fits :
    (rs : List JournalRecord) (o : JournalOutbox)
    → IsValid o
    → length rs ≤ remaining_capacity o
    → (push_all rs o ≡ (record o { records = o.records ++ rs }, ok tt))
      × IsValid (record o { records = o.records ++ rs })
unfolding push_all
push_all-fits [] o v h = rw append-nil (refl, v)
push_all-fits (r ∷ rs) o v h = ground (
  arith,
  push-accepts r o (omega arith),
  append_assoc o.records (r ∷ []) rs,
  length-append o.records (r ∷ []),
  push_all-fits rs (record o { records = o.records ++ r ∷ [] }),
)

-- Popping at least as often as there are records returns them in the order of the outbox.
pub pop_all-records : (n : ℕ) (o : JournalOutbox) → len o ≤ n → pop_all n o ≡ o.records
pop_all-records n o h = pop_records n o o.records refl h
