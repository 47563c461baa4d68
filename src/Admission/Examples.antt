-- ===== src/Admission/Examples.antt =====
-- Tests of the admission controller with one slot, and the theorems at it.
use signalweave.Prelude.{
  ℕ, ◌≤◌, ◌≡◌, refl, true, ◌&&◌, none, some, List, [], ◌∷◌, nat_key, arith, same, before, ltb, ◌==◌,
  if◌then◌else◌, retain, count_if, any,
}
use signalweave.Prelude.Maps.{get, insert, keep, map_values}
use signalweave.Ids.{session_key_order}
use signalweave.RateLimit.{Instant}
use signalweave.Auth.{token_order}
use signalweave.Usage
use signalweave.Usage.{AdmissionMetadata}
use signalweave.Admission.{
  AdmissionController, CapacityUpdate, JoinRequest, QueuePolicy, ReleaseReason, new,
}
use signalweave.Admission.Control.{
  has_active_lease, lease_of, occupied, promote_at, promote_loop, activate, admit, apply_pending,
  has_queued_principal, queue_depth,
}
use signalweave.Admission.Expiry.{expire_at, expire_entries}
use signalweave.Admission.Methods.{
  Call, join, claim, release, run, step, resume_at, release_at, request_join_at, live_ticket,
  decide_join,
}
use signalweave.Admission.Capacity.{HasCapacity, held}
use signalweave.Admission.Reachable.{new-HasCapacity, run-HasCapacity, step-HasCapacity}
use signalweave.Admission.Deadline.{end_of}
use signalweave.Admission.Promotion.{Promotes, promote_at-Promotes}
use signalweave.Admission.Reconnect.{resume_at-release_at}

abbrev metadata : AdmissionMetadata
metadata = record { node_id = 1; session = record { namespace = 1; session = 2 } }

abbrev policy : QueuePolicy
policy = record {
  enabled = true;
  max_depth = 4;
  ticket_ttl = 60;
  offer_ttl = 10;
  heartbeat_timeout = 30;
  reconnect_grace = 20;
}

abbrev one_slot : CapacityUpdate
one_slot = record { allocated_ccu = 1; revision = 1 }

abbrev fresh : AdmissionController
fresh = new metadata policy one_slot (Usage.new metadata)

abbrev request : ℕ → JoinRequest
request principal = record { principal = principal; idempotency_key = some (principal ∷ []) }

-- Two clients join; the first leaves, and the second takes its slot.
abbrev history : List (Instant × Call)
history =
    (100, join (request 1))
    ∷ (101, join (request 2))
    ∷ (102, release (lease_of fresh 1 1) ReleaseReason.intentional)
    ∷ (103, claim 1)
    ∷ []

abbrev joined : AdmissionController
joined = step fresh (100, join (request 1))

abbrev waiting : AdmissionController
waiting = step joined (101, join (request 2))

run-HasCapacity_example :
    (held (run fresh history) ≤ (run fresh history).allocated_ccu)
    × (occupied (run fresh history) ≡ held (run fresh history))
run-HasCapacity_example =
    run-HasCapacity metadata policy one_slot (Usage.new metadata) history (omega arith)
      (tt, (tt, (tt, (tt, tt))))

promote_at-Promotes_example : Promotes 101 waiting (promote_at 101 waiting) waiting.waiting
promote_at-Promotes_example = promote_at-Promotes 101 waiting

joined-HasCapacity : HasCapacity joined
joined-HasCapacity =
    step-HasCapacity fresh 100 (join (request 1)) tt
      (new-HasCapacity metadata policy one_slot (Usage.new metadata) (omega arith))

first_active : has_active_lease joined (lease_of fresh 1 1) ≡ true
unfolding step request_join_at decide_join admit activate has_active_lease lease_of insert get same
    before expire_at expire_entries promote_at promote_loop apply_pending live_ticket
    has_queued_principal occupied keep map_values queue_depth retain any count_if
first_active = refl

resume_at-release_at_example :
    (resume_at 1 1 115 (release_at (lease_of fresh 1 1) ReleaseReason.unexpected 102 joined)).1 ≡ (
      if ltb 115 (end_of 102 joined.policy.reconnect_grace) && ((lease_of fresh 1 1).principal == 1)
      then some (lease_of joined 1 1)
      else none)
unfolding lease_of
resume_at-release_at_example =
    resume_at-release_at joined (lease_of fresh 1 1) 102 115 1 first_active joined-HasCapacity
