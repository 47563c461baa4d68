-- ===== src/Admission/Capacity.antt =====
-- The capacity invariant of crates/woven-core/src/admission.rs: leases, reconnect reservations and
-- offers against the allocation.
use signalweave.Prelude.{
  ℕ, ◌+◌, ◌≤◌, ◌<◌, ◌≡◌, refl, Bool, true, false, ◌&&◌, ltb, Bool-cases, Option, none, some, List,
  [], ◌∷◌, Map, nat_key, arith, length, if◌then◌else◌, Option-cases, inl, inr,
}
use signalweave.Prelude.Maps.{get, insert}
use signalweave.Prelude.Maps.Laws.{
  IsSorted, insert-IsSorted, length-insert-le, weight, count_values-insert,
}
use signalweave.Ids.{PrincipalId, u32_mod}
use signalweave.RateLimit.{Instant}
use signalweave.Usage.{UsageCounters, set_queue_depth, start_connection}
use signalweave.Admission.{
  deadline, AdmissionController, ActiveLease, QueueTicketId, TicketEntry, TicketState,
}
use signalweave.Admission.Control.{
  is_offered, counting, occupied, offers, admission_limit, queue_depth, activate, apply_pending,
  offer, promote_loop, promote_at,
}

-- The slots in use, as an unbounded number.
abbrev pub held : AdmissionController → ℕ
held c = length c.active + length c.reservations + offers c.tickets

abbrev pub PendingFits : Option ℕ → ℕ → Type 0
PendingFits none allocated = Unit
PendingFits (some target) allocated = target ≤ allocated

pub record HasCapacity (c : AdmissionController) : Type 0 where
  pub active_sorted : IsSorted c.active
  pub reservations_sorted : IsSorted c.reservations
  pub tickets_sorted : IsSorted c.tickets
  pub bound : held c ≤ c.allocated_ccu
  pub width : c.allocated_ccu < u32_mod
  pub pending : PendingFits c.pending_target c.allocated_ccu

-- On a valid controller the `u32` sum does not wrap.
pub occupied-held : (c : AdmissionController) → HasCapacity c → occupied c ≡ held c
unfolding occupied
occupied-held c v = omega (arith, v.bound, v.width)

-- The test of the loop in `promote_at`.
abbrev pub has_room : AdmissionController → Bool
has_room c = ltb 0 (admission_limit c) && ltb (occupied c) (admission_limit c)

pub limit-le : (c : AdmissionController) → HasCapacity c → admission_limit c ≤ c.allocated_ccu
limit-le c v = ground arith

has_room_sound :
    (c : AdmissionController) → HasCapacity c → has_room c ≡ true → held c < c.allocated_ccu
has_room_sound c v e = ground (arith, occupied-held c v, limit-le c v)

-- The invariant is about five fields only.
pub same-HasCapacity :
    (c d : AdmissionController)
    → HasCapacity c
    → d.active ≡ c.active
    → d.reservations ≡ c.reservations
    → d.tickets ≡ c.tickets
    → d.allocated_ccu ≡ c.allocated_ccu
    → d.pending_target ≡ c.pending_target
    → HasCapacity d
same-HasCapacity c d v a r t n p = record {
  active_sorted = rw a v.active_sorted;
  reservations_sorted = rw r v.reservations_sorted;
  tickets_sorted = rw t v.tickets_sorted;
  bound = rw (a, r, t, n) v.bound;
  width = rw n v.width;
  pending = rw (p, n) v.pending;
}

-- A conditional keeps the invariant if both of its branches do.
pub if-HasCapacity {ℓ} :
    {A : Type ℓ} (b : Bool) (x y : AdmissionController × A)
    → (b ≡ true → HasCapacity x.0)
    → (b ≡ false → HasCapacity y.0)
    → HasCapacity (if b then x else y).0
if-HasCapacity true x y h k = h refl
if-HasCapacity false x y h k = k refl

pub option-HasCapacity {ℓ κ} :
    {A : Type ℓ} {B : Type κ} (o : Option B) (x : AdmissionController × A)
    (f : B → AdmissionController × A)
    → (o ≡ none → HasCapacity x.0)
    → ((b : B) → o ≡ some b → HasCapacity (f b).0)
    → HasCapacity (elim o as (λ _. AdmissionController × A) [ none ↦ x | some b ↦ f b ]).0
option-HasCapacity none x f h k = h refl
option-HasCapacity (some b) x f h k = k b refl

pub state-HasCapacity {ℓ} :
    {A : Type ℓ} (s : TicketState) (w e x a : AdmissionController × A)
    (o : Instant → AdmissionController × A)
    → HasCapacity w.0
    → ((t : Instant) → s ≡ TicketState.offered t → HasCapacity (o t).0)
    → HasCapacity e.0
    → HasCapacity x.0
    → HasCapacity a.0
    → HasCapacity
        (elim s as (λ _. AdmissionController × A) [
          | TicketState.waiting ↦ w
          | TicketState.offered t ↦ o t
          | TicketState.expired ↦ e
          | TicketState.cancelled ↦ x
          | TicketState.admitted ↦ a
        ]).0
state-HasCapacity TicketState.waiting w e x a o hw ho he hx ha = hw
state-HasCapacity (TicketState.offered t) w e x a o hw ho he hx ha = ho t refl
state-HasCapacity TicketState.expired w e x a o hw ho he hx ha = he
state-HasCapacity TicketState.cancelled w e x a o hw ho he hx ha = hx
state-HasCapacity TicketState.admitted w e x a o hw ho he hx ha = ha

pub counting-HasCapacity :
    (f : UsageCounters → UsageCounters) (c : AdmissionController)
    → HasCapacity c
    → HasCapacity (counting f c)
counting-HasCapacity f c v = record {
  active_sorted = v.active_sorted;
  reservations_sorted = v.reservations_sorted;
  tickets_sorted = v.tickets_sorted;
  bound = v.bound;
  width = v.width;
  pending = v.pending;
}

-- A change of a ticket's state, and the slots that it takes or frees.
pub offers-insert :
    (id : QueueTicketId) (entry : TicketEntry) (m : Map QueueTicketId TicketEntry)
    → IsSorted m
    → offers (insert id entry m) + weight (λ (x : TicketEntry). is_offered x.state) (get id m)
      ≡ offers m + (if is_offered entry.state then 1 else 0)
offers-insert id entry m s =
    count_values-insert (λ (x : TicketEntry). is_offered x.state) id entry m s

-- What `promote_at` makes of a ticket that it offers.
abbrev offered_entry : Instant → AdmissionController → TicketEntry → TicketEntry
offered_entry now c entry = record entry {
  state = TicketState.offered (deadline now c.policy.offer_ttl);
}

offer-HasCapacity :
    (now : Instant) (id : QueueTicketId) (c : AdmissionController)
    → HasCapacity c
    → held c < c.allocated_ccu
    → HasCapacity (offer now id c)
unfolding offer
offer-HasCapacity now id c v h = elim (Option-cases (get id c.tickets)) [
  | inl e ↦ rw (e, offer) v
  | inr (entry, e) ↦
      rw (e, offer)
        (ground (
          arith,
          offers-insert id (offered_entry now c entry) c.tickets v.tickets_sorted,
          insert-IsSorted id (offered_entry now c entry) c.tickets v.tickets_sorted,
        ))
]

with_waiting-HasCapacity :
    (c : AdmissionController) (ids : List QueueTicketId)
    → HasCapacity c
    → HasCapacity (record c { waiting = ids })
with_waiting-HasCapacity c ids v = record {
  active_sorted = v.active_sorted;
  reservations_sorted = v.reservations_sorted;
  tickets_sorted = v.tickets_sorted;
  bound = v.bound;
  width = v.width;
  pending = v.pending;
}

promote_loop-HasCapacity :
    (now : Instant) (ids : List QueueTicketId) (c : AdmissionController)
    → HasCapacity c
    → HasCapacity (promote_loop now ids c)
unfolding promote_loop
promote_loop-HasCapacity now [] c v = with_waiting-HasCapacity c [] v
promote_loop-HasCapacity now (id ∷ rest) c v = elim (Bool-cases (has_room c)) [
  | inl e ↦ rw e (
      promote_loop-HasCapacity now rest (offer now id c)
        (offer-HasCapacity now id c v (has_room_sound c v e)))
  | inr e ↦ rw e (with_waiting-HasCapacity c (id ∷ rest) v)
]

pub promote_at-HasCapacity :
    (now : Instant) (c : AdmissionController) → HasCapacity c → HasCapacity (promote_at now c)
unfolding promote_at
promote_at-HasCapacity now c v =
    counting-HasCapacity (set_queue_depth (queue_depth (promote_loop now c.waiting c)))
      (promote_loop now c.waiting c) (promote_loop-HasCapacity now c.waiting c v)

pub apply_pending-HasCapacity :
    (c : AdmissionController) → HasCapacity c → HasCapacity (apply_pending c)
unfolding apply_pending
apply_pending-HasCapacity c v = ground (arith, occupied-held c v)

-- A lease or a reconnect under a free slot.
pub activate-HasCapacity :
    (id : ℕ) (principal : PrincipalId) (now : Instant) (c : AdmissionController)
    → HasCapacity c
    → held c < c.allocated_ccu
    → HasCapacity (activate id principal now c)
unfolding activate
activate-HasCapacity id principal now c v h = record {
  active_sorted = insert-IsSorted id lease c.active v.active_sorted;
  reservations_sorted = v.reservations_sorted;
  tickets_sorted = v.tickets_sorted;
  bound = omega (arith, length-insert-le id lease c.active);
  width = v.width;
  pending = v.pending;
}
  where
    lease : ActiveLease
    lease = record {
      principal = principal;
      started = now;
      usage_handle = (start_connection principal now c.counters).1;
    }
