-- ===== src/Admission/Promotion.antt =====
-- The order in which crates/woven-core/src/admission.rs offers slots to the waiting tickets.
use signalweave.Prelude.{
  ◌≡◌, ◌⊎◌, refl, ap, false, Option, none, some, List, [], ◌∷◌, ◌++◌, nat_key, arith, Bool-cases,
  Option-cases, same, same_iff, inl, inr, if◌then◌else◌,
}
use signalweave.Prelude.Maps.{get}
use signalweave.Prelude.Maps.Laws.{get-insert}
use signalweave.Queue.Index.{member}
use signalweave.RateLimit.{Instant}
use signalweave.Admission.{deadline, AdmissionController, QueueTicketId, TicketEntry, TicketState}
use signalweave.Admission.Control.{is_waiting, occupied, offer, promote_loop, promote_at}
use signalweave.Admission.Capacity.{has_room}
use signalweave.Admission.Deadline.{end_of, deadline-end_of}

-- A ticket after it was taken from the list: offered if it still waited, and as it was if not.
abbrev pub taken_entry : Instant → AdmissionController → TicketEntry → TicketEntry
taken_entry now c entry =
    if is_waiting entry.state
    then record entry { state = TicketState.offered (end_of now c.policy.offer_ttl) }
    else entry

abbrev pub taken_option : Instant → AdmissionController → Option TicketEntry → Option TicketEntry
taken_option now c none = none
taken_option now c (some entry) = some (taken_entry now c entry)

-- What promoting from the list `ids` comes to.
pub record Promotes (now : Instant) (c d : AdmissionController) (ids : List QueueTicketId)
    : Type 0 where
  -- The tickets that leave the list, from its front, oldest first.
  pub taken : List QueueTicketId
  pub in_order : ids ≡ taken ++ d.waiting
  -- Those that still waited are offered until the end of the offer's term; no other ticket changes.
  pub tickets :
      (id : QueueTicketId)
      → get id d.tickets
        ≡ (if member id taken then taken_option now c (get id c.tickets) else get id c.tickets)
  -- The loop stops only when nobody waits or no slot is free.
  pub stops : (d.waiting ≡ []) ⊎ (has_room d ≡ false)

offer-tickets :
    (now : Instant) (j id : QueueTicketId) (c : AdmissionController)
    → (get id (offer now j c).tickets
        ≡ (if same j id then taken_option now c (get id c.tickets) else get id c.tickets))
      × ((offer now j c).policy ≡ c.policy)
unfolding offer
offer-tickets now j id c = elim (Option-cases (get j c.tickets)) [
  | inl e ↦ ground (arith, e, same_iff j id)
  | inr (entry, e) ↦ ground (
    arith,
    e,
    same_iff j id,
    get-insert j id (record entry { state = TicketState.offered (deadline now c.policy.offer_ttl) })
        c.tickets,
    deadline-end_of now c.policy.offer_ttl,
  )
]

promote_loop-Promotes :
    (now : Instant) (ids : List QueueTicketId) (c : AdmissionController)
    → Promotes now c (promote_loop now ids c) ids
unfolding promote_loop member
promote_loop-Promotes now [] c = record {
  taken = [];
  in_order = refl;
  tickets = λ id. refl;
  stops = inl refl;
}
promote_loop-Promotes now (j ∷ rest) c = elim (Bool-cases (has_room c)) [
  | inl e ↦ rw e (
      let later = promote_loop-Promotes now rest (offer now j c) in
      record {
        taken = j ∷ later.taken;
        in_order = ap (◌∷◌ j) later.in_order;
        tickets = λ id. ground (arith, later.tickets id, offer-tickets now j id c);
        stops = later.stops;
      })
  | inr e ↦
      rw e (record { taken = []; in_order = refl; tickets = λ id. refl; stops = inr (rw room e) })
]
  where
    room : has_room (record c { waiting = j ∷ rest }) ≡ has_room c
    room = unfold occupied in refl

-- `promote_at` takes tickets from the front of the waiting list only, in their order; it offers
-- those that still wait, until the end of the offer's term, where a term that would end after the last instant of the clock ends at
-- once, and changes no other ticket; and it stops only when the list is empty or the slots in use have reached the admission limit.
pub promote_at-Promotes :
    (now : Instant) (c : AdmissionController) → Promotes now c (promote_at now c) c.waiting
unfolding promote_at
promote_at-Promotes now c =
    let p = promote_loop-Promotes now c.waiting c in
    record {
      taken = p.taken;
      in_order = p.in_order;
      tickets = p.tickets;
      stops = unfold occupied in p.stops;
    }
