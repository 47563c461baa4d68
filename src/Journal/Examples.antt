-- ===== src/Journal/Examples.antt =====
-- The outbox of capacity two: a test that it refuses a third record, and the theorems at it.
use signalweave.Prelude.{ℕ, ◌≡◌, refl, none, [], ◌∷◌, ◌++◌, ok, err, arith}
use signalweave.Message.{reliable_ordered, durable}
use signalweave.Journal.{JournalOutbox, JournalRecord, full, push}
use signalweave.Journal.Fifo.{IsValid, push_all, pop_all, push_all-fits, pop_all-records}

abbrev entry : ℕ → JournalRecord
entry sequence = record {
  message = record {
    namespace = 1;
    session = 1;
    space = 1;
    space_epoch = 1;
    entity = none;
    channel = 7;
    sequence = sequence;
    delivery = reliable_ordered;
    persistence = durable;
    coalesce_key = none;
    payload = [];
  };
}

abbrev one_record : JournalOutbox
one_record = record { capacity = 2; records = entry 1 ∷ [] }

full_refuses :
    push_all (entry 2 ∷ entry 3 ∷ []) one_record
    ≡ (record one_record { records = entry 1 ∷ entry 2 ∷ [] }, err full)
unfolding push_all push
full_refuses = refl

push_all-fits_example :
    (push_all (entry 2 ∷ []) one_record
      ≡ (record one_record { records = one_record.records ++ entry 2 ∷ [] }, ok tt))
    × IsValid (record one_record { records = one_record.records ++ entry 2 ∷ [] })
push_all-fits_example = push_all-fits (entry 2 ∷ []) one_record (omega arith) (omega arith)

pop_all-records_example : pop_all 3 one_record ≡ entry 1 ∷ []
pop_all-records_example = pop_all-records 3 one_record (omega arith)
