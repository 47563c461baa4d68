-- ===== src/Admission/Reachable.antt =====
-- The public methods of crates/woven-core/src/admission.rs and sequences of their calls, for the
-- capacity invariant.
use signalweave.Prelude.{
  ◌≤◌, ◌<◌, ◌≡◌, refl, true, false, not, none, some, List, [], ◌∷◌, nat_key, arith, length,
  count_if, All, Option-cases, inl, inr, Bool-cases, ltb, leb, ◌==◌,
}
use signalweave.Prelude.Maps.{get, insert, remove}
use signalweave.Prelude.Maps.Laws.{insert-IsSorted, length-insert-le}
use signalweave.Ids.{PrincipalId, u32_mod}
use signalweave.RateLimit.{Instant}
use signalweave.Usage
use signalweave.Usage.{UsageCounters}
use signalweave.Admission.{
  count, ActiveLease, AdmissionController, AdmissionLease, AdmissionMetadata, CapacityUpdate,
  JoinRequest, QueuePolicy, QueueTicketId, ReleaseReason, Reservation, ResumeToken, new,
}
use signalweave.Admission.Control.{counting, occupied, admission_limit, has_active_lease}
use signalweave.Admission.Expiry.{expire_at}
use signalweave.Admission.Methods.{
  Call, join, poll, heartbeat, cancel, claim, release, resume, set_capacity, step, run,
  request_join_at, live_ticket, queue_status_at, heartbeat_at, cancel_at, claim_offer_at,
  release_at, resume_at, apply_capacity, apply_capacity_at,
}
use signalweave.Admission.Capacity.{
  HasCapacity, held, occupied-held, counting-HasCapacity, promote_at-HasCapacity,
  apply_pending-HasCapacity, activate-HasCapacity, same-HasCapacity, if-HasCapacity,
  option-HasCapacity, state-HasCapacity,
}
use signalweave.Admission.Slots.{
  expire_at-HasCapacity, decide_join-HasCapacity, beat-HasCapacity, cancel_live-HasCapacity,
  claim_offered-HasCapacity, vacate-HasCapacity, without_lease, without_reservation, some-contains,
}

module _ (now : Instant) (c : AdmissionController) (v : HasCapacity c) where
  pub request_join_at-HasCapacity : (r : JoinRequest) → HasCapacity (request_join_at r now c).0
  unfolding request_join_at
  request_join_at-HasCapacity r =
      option-HasCapacity r.idempotency_key _ _
        (λ _. same-HasCapacity d _ dv refl refl refl refl refl)
        λ key _.
          if-HasCapacity (admission_limit d == 0) _ _
            (λ _. same-HasCapacity d _ dv refl refl refl refl refl)
            λ _.
              option-HasCapacity (live_ticket d key) _ _
                (λ _. decide_join-HasCapacity now d dv key r.principal) λ _ _. dv
    where
      d : AdmissionController
      d = expire_at now (counting Usage.increment_join_attempts c)

      dv : HasCapacity d
      dv = expire_at-HasCapacity now _ (counting-HasCapacity Usage.increment_join_attempts c v)

  pub heartbeat_at-HasCapacity : (id : QueueTicketId) → HasCapacity (heartbeat_at id now c).0
  unfolding heartbeat_at
  heartbeat_at-HasCapacity id =
      beat-HasCapacity now (expire_at now c) (expire_at-HasCapacity now c v) id

  pub cancel_at-HasCapacity : (id : QueueTicketId) → HasCapacity (cancel_at id now c).0
  unfolding cancel_at
  cancel_at-HasCapacity id =
      option-HasCapacity (get id d.tickets) _ _ (λ _. dv)
        λ entry _.
          state-HasCapacity entry.state _ _ _ _ _ (cancel_live-HasCapacity now d dv id entry)
            (λ _ _. cancel_live-HasCapacity now d dv id entry) dv dv dv
    where
      d : AdmissionController
      d = expire_at now c

      dv : HasCapacity d
      dv = expire_at-HasCapacity now c v

  pub claim_offer_at-HasCapacity : (id : QueueTicketId) → HasCapacity (claim_offer_at id now c).0
  unfolding claim_offer_at
  claim_offer_at-HasCapacity id =
      option-HasCapacity (get id d.tickets) _ _ (λ _. dv)
        λ entry e.
          state-HasCapacity entry.state _ _ _ _ _ dv
            (λ t o. claim_offered-HasCapacity now d dv id entry e (rw o refl)) dv dv dv
    where
      d : AdmissionController
      d = expire_at now c

      dv : HasCapacity d
      dv = expire_at-HasCapacity now c v

  pub release_at-HasCapacity :
      (lease : AdmissionLease) (reason : ReleaseReason)
      → HasCapacity (release_at lease reason now c)
  unfolding release_at
  release_at-HasCapacity lease reason = elim (Bool-cases (has_active_lease c lease)) [
    | inr e ↦ rw (e, release_at) v
    | inl e ↦ elim (Option-cases (get lease.id c.active)) [
      | inl n ↦ rw (e, release_at) (rw n v)
      | inr (removed, s) ↦
          rw (e, release_at)
            (rw s (
              promote_at-HasCapacity now _ (
                apply_pending-HasCapacity _ (
                  vacate-HasCapacity now (freed removed)
                    (same-HasCapacity _ _
                      (without_lease lease.id c v (some-contains lease.id c.active s)).0 refl refl
                      refl refl refl)
                    lease reason
                    (without_lease lease.id c v (some-contains lease.id c.active s)).1))))
    ]
  ]
    where
      freed : ActiveLease → AdmissionController
      freed removed = record c {
        active = remove lease.id c.active;
        counters =
            Usage.set_active_ccu (count (length (remove lease.id c.active)))
              (Usage.end_connection removed.usage_handle now c.counters);
      }

  pub resume_at-HasCapacity :
      (token : ResumeToken) (principal : PrincipalId)
      → HasCapacity (resume_at token principal now c).0
  unfolding resume_at
  resume_at-HasCapacity token principal =
      option-HasCapacity (get token d.reservations) _ _ (λ _. dv)
        λ reservation e.
          if-HasCapacity (not (reservation.principal == principal)) _ _
            (λ _. put_back reservation e)
            λ _.
              activate-HasCapacity token principal now _
                (same-HasCapacity _ _ (free reservation e).0 refl refl refl refl refl)
                (free reservation e).1
    where
      d : AdmissionController
      d = expire_at now c

      dv : HasCapacity d
      dv = expire_at-HasCapacity now c v

      free :
          (r : Reservation)
          → get token d.reservations ≡ some r
          → HasCapacity (record d { reservations = remove token d.reservations })
            × (held (record d { reservations = remove token d.reservations }) < d.allocated_ccu)
      free r e = without_reservation token d dv (some-contains token d.reservations e)

      put_back :
          (r : Reservation)
          → get token d.reservations ≡ some r
          → HasCapacity (record d { reservations = insert token r (remove token d.reservations) })
      put_back r e = record {
        active_sorted = dv.active_sorted;
        reservations_sorted =
            insert-IsSorted token r (remove token d.reservations) (free r e).0.reservations_sorted;
        tickets_sorted = dv.tickets_sorted;
        bound = omega (arith, (free r e).1, length-insert-le token r (remove token d.reservations));
        width = dv.width;
        pending = dv.pending;
      }

  pub apply_capacity-HasCapacity :
      (update : CapacityUpdate)
      → update.allocated_ccu < u32_mod
      → HasCapacity (apply_capacity update now c)
  unfolding apply_capacity
  apply_capacity-HasCapacity update h = elim (Bool-cases (leb update.revision c.revision)) [
    | inl e ↦ rw (e, apply_capacity) v
    | inr e ↦ elim (Bool-cases (ltb update.allocated_ccu (occupied d))) [
      | inl l ↦ rw (e, apply_capacity) (rw l (lowered l))
      | inr l ↦ rw (e, apply_capacity) (rw l (promote_at-HasCapacity now _ (raised l)))
    ]
  ]
    where
      d : AdmissionController
      d = counting Usage.increment_capacity_allocations (record c { revision = update.revision })

      dv : HasCapacity d
      dv = same-HasCapacity c _ v refl refl refl refl refl

      lowered :
          ltb update.allocated_ccu (occupied d) ≡ true
          → HasCapacity (record d { pending_target = some update.allocated_ccu })
      lowered l = ground (arith, occupied-held d dv)

      raised :
          ltb update.allocated_ccu (occupied d) ≡ false
          → HasCapacity (record d { allocated_ccu = update.allocated_ccu; pending_target = none })
      raised l = ground (arith, occupied-held d dv)

-- The allocation of an update is a `u32`.
abbrev pub InRange : Call → Type 0
InRange (set_capacity update) = update.allocated_ccu < u32_mod
InRange _ = Unit

-- One call of any method, whatever its arguments and its time.
pub step-HasCapacity :
    (c : AdmissionController) (now : Instant) (call : Call)
    → InRange call
    → HasCapacity c
    → HasCapacity (step c (now, call))
unfolding step queue_status_at apply_capacity_at
step-HasCapacity c now (join r) h v = request_join_at-HasCapacity now c v r
step-HasCapacity c now (poll id) h v = expire_at-HasCapacity now c v
step-HasCapacity c now (heartbeat id) h v = heartbeat_at-HasCapacity now c v id
step-HasCapacity c now (cancel id) h v = cancel_at-HasCapacity now c v id
step-HasCapacity c now (claim id) h v = claim_offer_at-HasCapacity now c v id
step-HasCapacity c now (release lease reason) h v = release_at-HasCapacity now c v lease reason
step-HasCapacity c now (resume token principal) h v = resume_at-HasCapacity now c v token principal
step-HasCapacity c now (set_capacity update) h v = apply_capacity-HasCapacity now c v update h

pub new-HasCapacity :
    (metadata : AdmissionMetadata) (policy : QueuePolicy) (capacity : CapacityUpdate)
    (counters : UsageCounters)
    → capacity.allocated_ccu < u32_mod
    → HasCapacity (new metadata policy capacity counters)
new-HasCapacity metadata policy capacity counters h = record {
  active_sorted = tt;
  reservations_sorted = tt;
  tickets_sorted = tt;
  bound = unfold count_if in omega arith;
  width = h;
  pending = tt;
}

-- From a new controller, after any calls at any times with `u32` allocations, the active leases, the reconnect
-- reservations and the offers together are at most the allocation, and the `u32` sum by which the
-- code decides is exactly their number.
pub run-HasCapacity :
    (metadata : AdmissionMetadata) (policy : QueuePolicy) (capacity : CapacityUpdate)
    (counters : UsageCounters) (calls : List (Instant × Call))
    → capacity.allocated_ccu < u32_mod
    → All (λ (call : Instant × Call). InRange call.1) calls
    → let c = run (new metadata policy capacity counters) calls in
      (held c ≤ c.allocated_ccu) × (occupied c ≡ held c)
unfolding run
run-HasCapacity metadata policy capacity counters calls h r = (w.bound, occupied-held _ w)
  where
    runs :
        (c : AdmissionController) (calls : List (Instant × Call))
        → All (λ (call : Instant × Call). InRange call.1) calls
        → HasCapacity c
        → HasCapacity (run c calls)
    runs c [] r v = v
    runs c ((now, call) ∷ calls) r v =
        runs (step c (now, call)) calls r.1 (step-HasCapacity c now call r.0 v)

    w : HasCapacity (run (new metadata policy capacity counters) calls)
    w = runs _ calls r (new-HasCapacity metadata policy capacity counters h)
