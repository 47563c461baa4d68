-- ===== src/Admission/Reconnect.antt =====
-- Reconnecting in crates/woven-core/src/admission.rs: a lease that is released unexpectedly and
-- resumed later.
use signalweave.Prelude.{
  ℕ, ◌≡◌, refl, ap, length, ◌∙◌, true, ◌&&◌, none, some, List, [], ◌∷◌, nat_key, arith, ltb, ◌==◌,
  Option-cases, inl, inr, if◌then◌else◌, same_refl,
}
use signalweave.Prelude.Maps.{get, remove}
use signalweave.Prelude.Maps.Laws.{get-insert, get-keep, kept, IsSorted, insert-IsSorted}
use signalweave.Ids.{PrincipalId, session_key_order}
use signalweave.RateLimit.{Instant}
use signalweave.Usage.{set_queue_depth, set_active_ccu, end_connection}
use signalweave.Admission.{
  deadline, count, AdmissionController, AdmissionLease, QueueTicketId, ReleaseReason, Reservation,
}
use signalweave.Admission.Control.{
  counting, queue_depth, lease_of, has_active_lease, offer, apply_pending, promote_loop, promote_at,
}
use signalweave.Admission.Expiry.{expire_entries, expire_at, is_held}
use signalweave.Admission.Methods.{release_at, vacate, resume_at}
use signalweave.Admission.Capacity.{HasCapacity}
use signalweave.Admission.Deadline.{end_of, deadline-end_of}

abbrev reservation : Instant → AdmissionLease → AdmissionController → Reservation
reservation now lease c = record {
  principal = lease.principal;
  expires = deadline now c.policy.reconnect_grace;
}

-- What offering and draining leave alone.
pub record SameLeases (c d : AdmissionController) : Type 0 where
  pub reservations : d.reservations ≡ c.reservations
  pub metadata : d.metadata ≡ c.metadata

promote_loop-SameLeases :
    (now : Instant) (ids : List QueueTicketId) (c : AdmissionController)
    → SameLeases c (promote_loop now ids c)
unfolding promote_loop
promote_loop-SameLeases now [] c = record { reservations = refl; metadata = refl }
promote_loop-SameLeases now (id ∷ rest) c =
    ground (arith, promote_loop-SameLeases now rest (offer now id c))

promote_at-SameLeases : (now : Instant) (c : AdmissionController) → SameLeases c (promote_at now c)
unfolding promote_at
promote_at-SameLeases now c =
    let s = promote_loop-SameLeases now c.waiting c in
    record { reservations = s.reservations; metadata = s.metadata }

apply_pending-SameLeases : (c : AdmissionController) → SameLeases c (apply_pending c)
unfolding apply_pending
apply_pending-SameLeases c = ground arith

settle-SameLeases :
    (now : Instant) (c : AdmissionController) → SameLeases c (promote_at now (apply_pending c))
settle-SameLeases now c =
    let p = promote_at-SameLeases now (apply_pending c) in
    let q = apply_pending-SameLeases c in
    record { reservations = p.reservations ∙ q.reservations; metadata = p.metadata ∙ q.metadata }

-- Expiry drops the reservations whose time has come and no other.
expire_at-get :
    (now : Instant) (id : ℕ) (c : AdmissionController)
    → IsSorted c.reservations
    → (get id (expire_at now c).reservations ≡ kept (is_held now) (get id c.reservations))
      × ((expire_at now c).metadata ≡ c.metadata)
unfolding expire_at expire_entries
expire_at-get now id c s =
    let after =
      settle-SameLeases now
        (counting (set_queue_depth (queue_depth (expire_entries now c))) (expire_entries now c)) in
    (
      ap (get id) after.reservations ∙ get-keep (λ _ r. is_held now r) id c.reservations s,
      after.metadata,
    )

-- The reservation that an unexpected release leaves.
release_at-get :
    (now : Instant) (lease : AdmissionLease) (c : AdmissionController)
    → has_active_lease c lease ≡ true
    → IsSorted c.reservations
    → (get lease.id (release_at lease ReleaseReason.unexpected now c).reservations
        ≡ some (record {
          principal = lease.principal;
          expires = deadline now c.policy.reconnect_grace;
        }))
      × ((release_at lease ReleaseReason.unexpected now c).metadata ≡ c.metadata)
      × IsSorted (release_at lease ReleaseReason.unexpected now c).reservations
unfolding release_at has_active_lease
release_at-get now lease c h s = elim (Option-cases (get lease.id c.active)) [
  | inl n ↦ ground (arith, n)
  | inr (removed, e) ↦
      (let freed : AdmissionController = record c {
        active = remove lease.id c.active;
        counters =
            set_active_ccu (count (length (remove lease.id c.active)))
              (end_connection removed.usage_handle now c.counters);
      } in
        ground (
          arith,
          e,
          settle-SameLeases now (vacate lease ReleaseReason.unexpected now freed),
          get-insert lease.id lease.id (reservation now lease c) c.reservations,
          insert-IsSorted lease.id (reservation now lease c) c.reservations s,
          same_refl lease.id,
        ))
]

-- In a controller within its capacity, after an unexpected release of an active lease the same principal gets the same lease back until
-- the grace period ends, where a period that would end after the last instant of the clock ends at once; from then on, and for any other principal at any time, there is none.
pub resume_at-release_at :
    (c : AdmissionController) (lease : AdmissionLease) (now later : Instant)
    (principal : PrincipalId)
    → has_active_lease c lease ≡ true
    → HasCapacity c
    → (resume_at lease.id principal later (release_at lease ReleaseReason.unexpected now c)).1 ≡ (
        if ltb later (end_of now c.policy.reconnect_grace) && (lease.principal == principal)
        then some (lease_of c lease.id principal)
        else none)
unfolding resume_at lease_of
resume_at-release_at c lease now later principal h v =
    let (reserved, owner, sorted) = release_at-get now lease c h v.reservations_sorted in
    ground (
      arith,
      deadline-end_of now c.policy.reconnect_grace,
      reserved,
      owner,
      expire_at-get later lease.id (release_at lease ReleaseReason.unexpected now c) sorted,
    )
