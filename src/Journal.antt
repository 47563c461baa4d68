-- ===== src/Journal.antt =====
-- crates/woven-core/src/journal.rs: the bounded outbox of durable messages. The asynchronous sinks
-- are outside the model.
pub mod Fifo
mod Examples
use signalweave.Prelude.{
  ℕ, ◌-◌, Option, none, some, List, [], ◌∷◌, ◌++◌, Result, ok, err, ◌==◌, if◌then◌else◌, length,
}
use signalweave.Message.{OutboundMessage}

pub record JournalRecord : Type 0 where
  pub message : OutboundMessage

pub data JournalOutboxError : Type 0 where
  full : JournalOutboxError

pub record JournalOutbox : Type 0 where
  pub capacity : ℕ
  pub records : List JournalRecord

abbrev pub new : ℕ → JournalOutbox
new capacity = record { capacity = capacity; records = [] }

unfoldable pub push :
    JournalRecord → JournalOutbox → JournalOutbox × Result JournalOutboxError (Unit {0})
push r o =
    if length o.records == o.capacity
    then (o, err full)
    else (record o { records = o.records ++ r ∷ [] }, ok tt)

unfoldable pub pop : JournalOutbox → JournalOutbox × Option JournalRecord
pop o = elim o.records [ [] ↦ (o, none) | r ∷ rest ↦ (record o { records = rest }, some r) ]

abbrev pub len : JournalOutbox → ℕ
len o = length o.records

abbrev pub remaining_capacity : JournalOutbox → ℕ
remaining_capacity o = o.capacity - length o.records
