-- ===== src/Admission/Slots.antt =====
-- The parts of the methods of crates/woven-core/src/admission.rs, for the capacity invariant.
use signalweave.Prelude.{
  ℕ, ◌+◌, ◌<◌, ◌≡◌, refl, true, false, not, some, Map, nat_key, arith, Option-cases, inl, inr,
  Bool-cases, ltb, leb,
}
use signalweave.Prelude.Maps.{get, contains, insert, remove}
use signalweave.Prelude.Maps.Laws.{
  insert-IsSorted, remove-IsSorted, keep-IsSorted, map_values-IsSorted, length-insert-le,
  length-remove, length-keep-le, weight, count_values-map_values,
}
use signalweave.Ids.{PrincipalId}
use signalweave.RateLimit.{Instant}
use signalweave.Usage
use signalweave.Usage.{UsageCounters}
use signalweave.Admission.{
  deadline, AdmissionController, AdmissionLease, IdempotencyKey, QueueTicketId, ReleaseReason,
  Reservation, TicketEntry, TicketState,
}
use signalweave.Admission.Control.{
  is_waiting, is_offered, counting, occupied, admission_limit, admit, enqueue, queue_depth,
  has_queued_principal,
}
use signalweave.Admission.Expiry.{expire_entry, expire_entries, expire_at, is_held}
use signalweave.Admission.Methods.{decide_join, beat, cancel_live, claim_offered, vacate}
use signalweave.Admission.Capacity.{
  HasCapacity, held, occupied-held, offers-insert, counting-HasCapacity, promote_at-HasCapacity,
  apply_pending-HasCapacity, activate-HasCapacity, limit-le, same-HasCapacity, if-HasCapacity,
}

module _ (now : Instant) (c : AdmissionController) (v : HasCapacity c) where
  expire_entry-offered :
      (entry : TicketEntry)
      → is_offered (expire_entry c.policy now entry).state ≡ true
      → is_offered entry.state ≡ true
  unfolding expire_entry
  expire_entry-offered entry h = ground arith

  expire_entries-HasCapacity : HasCapacity (expire_entries now c)
  unfolding expire_entries
  expire_entries-HasCapacity = record {
    active_sorted = v.active_sorted;
    reservations_sorted = keep-IsSorted (λ _ r. is_held now r) c.reservations v.reservations_sorted;
    tickets_sorted = map_values-IsSorted (expire_entry c.policy now) c.tickets v.tickets_sorted;
    bound = omega (
      arith,
      v.bound,
      length-keep-le (λ (_ : ℕ) r. is_held now r) c.reservations,
      count_values-map_values (λ (x : TicketEntry). is_offered x.state) (expire_entry c.policy now)
          expire_entry-offered c.tickets,
    );
    width = v.width;
    pending = v.pending;
  }

  pub expire_at-HasCapacity : HasCapacity (expire_at now c)
  unfolding expire_at
  expire_at-HasCapacity = promote_at-HasCapacity now _ (
      apply_pending-HasCapacity _ (
        same-HasCapacity (expire_entries now c) _ expire_entries-HasCapacity refl refl refl refl
          refl))

pub admit-HasCapacity :
    (now : Instant) (c : AdmissionController)
    → HasCapacity c
    → (principal : PrincipalId) → held c < c.allocated_ccu
    → HasCapacity (admit principal now c).0
unfolding admit
admit-HasCapacity now c v principal h =
    activate-HasCapacity c.next_lease principal now _
      (same-HasCapacity c _ v refl refl refl refl refl) h

room_sound :
    (c : AdmissionController)
    → HasCapacity c
    → ltb (occupied c) (admission_limit c) ≡ true
    → held c < c.allocated_ccu
room_sound c v h = ground (arith, occupied-held c v, limit-le c v)

-- A ticket that takes no slot.
pub insert-HasCapacity :
    (id : QueueTicketId) (entry : TicketEntry) (c : AdmissionController)
    → HasCapacity c
    → is_offered entry.state ≡ false
    → HasCapacity (record c { tickets = insert id entry c.tickets })
insert-HasCapacity id entry c v h = ground (
  arith,
  offers-insert id entry c.tickets v.tickets_sorted,
  insert-IsSorted id entry c.tickets v.tickets_sorted,
)

enqueue-HasCapacity :
    (key : IdempotencyKey) (principal : PrincipalId) (now : Instant) (c : AdmissionController)
    → HasCapacity c
    → HasCapacity (enqueue key principal now c).0
unfolding enqueue
enqueue-HasCapacity key principal now c v =
    same-HasCapacity _ _ (insert-HasCapacity c.next_ticket _ c v refl) refl refl refl refl refl

offered_weight :
    (id : QueueTicketId) (entry : TicketEntry) (c : AdmissionController)
    → get id c.tickets ≡ some entry
    → is_offered entry.state ≡ true
    → weight (λ (x : TicketEntry). is_offered x.state) (get id c.tickets) ≡ 1
offered_weight id entry c e o = ground arith

module _ (now : Instant) (c : AdmissionController) (v : HasCapacity c) where
  pub decide_join-HasCapacity :
      (key : IdempotencyKey) (principal : PrincipalId)
      → HasCapacity (decide_join key principal now c).0
  unfolding decide_join
  decide_join-HasCapacity key principal =
      if-HasCapacity (has_queued_principal c principal) _ _ (λ _. unchanged)
        λ _.
          if-HasCapacity (ltb (occupied c) (admission_limit c)) _ _
            (λ room.
              admit-HasCapacity now _
                (counting-HasCapacity Usage.increment_immediate_admissions c v) principal
                (room_sound c v room))
            λ _.
              if-HasCapacity (not c.policy.enabled) _ _ (λ _. unchanged)
                λ _.
                  if-HasCapacity (leb c.policy.max_depth (queue_depth c)) _ _ (λ _. unchanged)
                    λ _. enqueue-HasCapacity key principal now _ (
                      counting-HasCapacity
                        (λ u.
                          Usage.set_queue_depth (queue_depth c + 1)
                            (Usage.increment_queued_joins u))
                        c v)
    where
      unchanged : HasCapacity (counting Usage.increment_queue_full_rejections c)
      unchanged = counting-HasCapacity Usage.increment_queue_full_rejections c v

  pub beat-HasCapacity : (id : QueueTicketId) → HasCapacity (beat id now c)
  unfolding beat
  beat-HasCapacity id = elim (Option-cases (get id c.tickets)) [
    | inl e ↦ rw (e, beat) v
    | inr (entry, e) ↦ elim (Bool-cases (is_waiting entry.state)) [
      | inl w ↦ rw (e, beat) (rw w (insert-HasCapacity id _ c v (ground arith)))
      | inr w ↦ rw (e, beat) (rw w v)
    ]
  ]

  pub cancel_live-HasCapacity :
      (id : QueueTicketId) (entry : TicketEntry) → HasCapacity (cancel_live id entry now c)
  unfolding cancel_live
  cancel_live-HasCapacity id entry = promote_at-HasCapacity now _ (
      same-HasCapacity _ _
        (insert-HasCapacity id (record entry { state = TicketState.cancelled }) c v refl) refl refl
        refl refl refl)

  -- A claim turns an offer into a lease, and the slot stays one.
  pub claim_offered-HasCapacity :
      (id : QueueTicketId) (entry : TicketEntry)
      → get id c.tickets ≡ some entry
      → is_offered entry.state ≡ true
      → HasCapacity (claim_offered id entry now c).0
  unfolding claim_offered
  claim_offered-HasCapacity id entry e o =
      admit-HasCapacity now _
        (same-HasCapacity _ _ (insert-HasCapacity id closed c v refl) refl refl refl refl refl)
        entry.ticket.principal
        (omega (
          arith,
          v.bound,
          offers-insert id closed c.tickets v.tickets_sorted,
          offered_weight id entry c e o,
        ))
    where
      closed : TicketEntry
      closed = record entry { state = TicketState.admitted }

  pub vacate-HasCapacity :
      (lease : AdmissionLease) (reason : ReleaseReason)
      → held c < c.allocated_ccu
      → HasCapacity (vacate lease reason now c)
  unfolding vacate
  vacate-HasCapacity lease ReleaseReason.intentional h = v
  vacate-HasCapacity lease ReleaseReason.unexpected h = record {
    active_sorted = v.active_sorted;
    reservations_sorted = insert-IsSorted lease.id reservation c.reservations v.reservations_sorted;
    tickets_sorted = v.tickets_sorted;
    bound = omega (arith, h, length-insert-le lease.id reservation c.reservations);
    width = v.width;
    pending = v.pending;
  }
    where
      reservation : Reservation
      reservation = record {
        principal = lease.principal;
        expires = deadline now c.policy.reconnect_grace;
      }

-- A removed lease, or a removed reservation, frees its slot.
pub without_lease :
    (id : ℕ) (c : AdmissionController)
    → HasCapacity c
    → contains id c.active ≡ true
    → HasCapacity (record c { active = remove id c.active })
      × (held (record c { active = remove id c.active }) < c.allocated_ccu)
without_lease id c v h =
    ground (
      arith,
      length-remove id c.active v.active_sorted,
      remove-IsSorted id c.active v.active_sorted,
    )

pub without_reservation :
    (id : ℕ) (c : AdmissionController)
    → HasCapacity c
    → contains id c.reservations ≡ true
    → HasCapacity (record c { reservations = remove id c.reservations })
      × (held (record c { reservations = remove id c.reservations }) < c.allocated_ccu)
without_reservation id c v h = ground (
  arith,
  length-remove id c.reservations v.reservations_sorted,
  remove-IsSorted id c.reservations v.reservations_sorted,
)

pub some-contains {ℓ} :
    {V : Type ℓ} (id : ℕ) (m : Map ℕ V) {x : V} → get id m ≡ some x → contains id m ≡ true
some-contains id m e = rw e
