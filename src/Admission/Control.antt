-- ===== src/Admission/Control.antt =====
-- The methods of `AdmissionController` in crates/woven-core/src/admission.rs.
use signalweave.Prelude.{
  ℕ, suc, ◌+◌, ◌-◌, ◌%◌, Bool, true, false, ◌&&◌, ◌||◌, none, some, List, [], ◌∷◌, ◌++◌, Map,
  nat_key, length, retain, count_if, any, ltb, leb, ◌==◌, same, or_default, if◌then◌else◌,
}
use signalweave.Prelude.Maps
use signalweave.Ids.{PrincipalId, session_key_order, u32_mod, u64_mod}
use signalweave.RateLimit.{Instant}
use signalweave.Auth.{token_order}
use signalweave.Usage
use signalweave.Usage.{UsageCounters}
use signalweave.Admission.{
  deadline, AdmissionController, AdmissionLease, AdmissionSnapshot, IdempotencyKey, QueueStatus,
  QueueTicket, QueueTicketId, TicketEntry, TicketState, count,
}

abbrev pub is_waiting : TicketState → Bool
is_waiting TicketState.waiting = true
is_waiting _ = false

abbrev pub is_offered : TicketState → Bool
is_offered (TicketState.offered _) = true
is_offered _ = false

abbrev pub is_live : TicketState → Bool
is_live state = is_waiting state || is_offered state

abbrev pub counting : (UsageCounters → UsageCounters) → AdmissionController → AdmissionController
counting f c = record c { counters = f c.counters }

-- Offered tickets.
abbrev pub offers : Map QueueTicketId TicketEntry → ℕ
offers tickets = count_if (λ (entry : TicketEntry). is_offered entry.state) (Maps.values tickets)

-- A `u32` sum, which wraps.
unfoldable pub occupied : AdmissionController → ℕ
occupied c =
    (count (length c.active) + count (length c.reservations) + count (offers c.tickets)) % u32_mod

abbrev pub admission_limit : AdmissionController → ℕ
admission_limit c = or_default c.pending_target c.allocated_ccu

unfoldable pub has_queued_principal : AdmissionController → PrincipalId → Bool
has_queued_principal c principal =
    any (λ (entry : TicketEntry). entry.ticket.principal == principal && is_live entry.state)
      (Maps.values c.tickets)

-- Whether the ticket is there and waits.
abbrev pub waits : Map QueueTicketId TicketEntry → QueueTicketId → Bool
waits tickets id = elim (Maps.get id tickets) [ none ↦ false | some entry ↦ is_waiting entry.state ]

unfoldable pub queue_depth : AdmissionController → ℕ
queue_depth c = count_if (waits c.tickets) c.waiting

-- One plus the position of the first entry that is `id`, or zero.
position_of : QueueTicketId → List QueueTicketId → ℕ
position_of id [] = 0
position_of id (candidate ∷ rest) =
    let later = position_of id rest in
    if candidate == id then 1 else if later == 0 then 0 else suc later

status_of : AdmissionController → QueueTicketId → TicketEntry → QueueStatus
unfolding position_of
status_of c id entry = elim entry.state [
  | TicketState.waiting ↦ QueueStatus.waiting (position_of id (retain (waits c.tickets) c.waiting))
  | TicketState.offered _ ↦ QueueStatus.offered
  | TicketState.admitted ↦ QueueStatus.admitted
  | TicketState.expired ↦ QueueStatus.expired
  | TicketState.cancelled ↦ QueueStatus.cancelled
]

unfoldable pub status : AdmissionController → QueueTicketId → QueueStatus
unfolding status_of
status c id = elim (Maps.get id c.tickets) [
  | none ↦ QueueStatus.missing
  | some entry ↦ status_of c id entry
]

unfoldable pub snapshot : AdmissionController → AdmissionSnapshot
snapshot c = record {
  allocated_ccu = c.allocated_ccu;
  active_ccu = count (length c.active);
  reconnect_reservations = count (length c.reservations);
  offered_slots = count (offers c.tickets);
  available_slots = c.allocated_ccu - occupied c;
  queue_depth = queue_depth c;
  pending_target = c.pending_target;
  capacity_revision = c.revision;
}

unfoldable pub has_active_lease : AdmissionController → AdmissionLease → Bool
has_active_lease c lease =
    same lease.session c.metadata.session && (elim (Maps.get lease.id c.active) [
      | none ↦ false
      | some active ↦ active.principal == lease.principal
    ])

unfoldable pub lease_of : AdmissionController → ℕ → PrincipalId → AdmissionLease
lease_of c id principal = record {
  id = id;
  session = c.metadata.session;
  principal = principal;
  resume_token = id;
}

-- A connection starts under the lease `id`.
unfoldable pub activate : ℕ → PrincipalId → Instant → AdmissionController → AdmissionController
activate id principal now c =
    let (counters, handle) = Usage.start_connection principal now c.counters in
    let active =
      Maps.insert id (record { principal = principal; started = now; usage_handle = handle })
        c.active in
    record c { active = active; counters = Usage.set_active_ccu (count (length active)) counters }

unfoldable pub admit :
    PrincipalId → Instant → AdmissionController → AdmissionController × AdmissionLease
unfolding activate lease_of
admit principal now c = (
  activate c.next_lease principal now (record c { next_lease = (c.next_lease + 1) % u64_mod }),
  lease_of c c.next_lease principal,
)

unfoldable pub enqueue :
    IdempotencyKey → PrincipalId → Instant → AdmissionController → AdmissionController × QueueTicket
enqueue idempotency_key principal now c =
    let id = c.next_ticket in
    let ticket : QueueTicket = record {
      id = id;
      session = c.metadata.session;
      principal = principal;
      idempotency_key = idempotency_key;
    } in
    let entry : TicketEntry = record {
      ticket = ticket;
      created = now;
      last_heartbeat = now;
      state = TicketState.waiting;
    } in
    (
      record c {
        next_ticket = (id + 1) % u64_mod;
        tickets = Maps.insert id entry c.tickets;
        idempotency_index = Maps.insert idempotency_key id c.idempotency_index;
        waiting = c.waiting ++ id ∷ [];
      },
      ticket,
    )

unfoldable pub apply_pending : AdmissionController → AdmissionController
apply_pending c = elim c.pending_target [
  | none ↦ c
  | some target ↦
      if leb (occupied c) target
      then record c { allocated_ccu = target; pending_target = none }
      else c
]

-- The offer to one ticket that `promote_at` takes from the front.
unfoldable pub offer : Instant → QueueTicketId → AdmissionController → AdmissionController
offer now id c = elim (Maps.get id c.tickets) [
  | none ↦ c
  | some entry ↦
      if is_waiting entry.state
      then record c {
        tickets =
            Maps.insert id
              (record entry { state = TicketState.offered (deadline now c.policy.offer_ttl) })
              c.tickets;
      }
      else c
]

-- The loop of `promote_at`, over the tickets that still wait.
unfoldable pub promote_loop :
    Instant → List QueueTicketId → AdmissionController → AdmissionController
unfolding offer
promote_loop now [] c = record c { waiting = [] }
promote_loop now (id ∷ rest) c =
    let next = promote_loop now rest (offer now id c) in
    if ltb 0 (admission_limit c) && ltb (occupied c) (admission_limit c)
    then next
    else record c { waiting = id ∷ rest }

unfoldable pub promote_at : Instant → AdmissionController → AdmissionController
unfolding promote_loop
promote_at now c =
    let promoted = promote_loop now c.waiting c in
    counting (Usage.set_queue_depth (queue_depth promoted)) promoted
