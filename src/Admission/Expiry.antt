-- ===== src/Admission/Expiry.antt =====
-- `expire_at` of crates/woven-core/src/admission.rs.
use signalweave.Prelude.{
  ◌-◌, ◌%◌, Bool, false, not, ◌&&◌, ◌||◌, List, [], ◌∷◌, Map, nat_key, retain, count_if, ltb, leb,
  if◌then◌else◌,
}
use signalweave.Prelude.Maps
use signalweave.Ids.{u32_mod}
use signalweave.RateLimit.{Instant}
use signalweave.Auth.{token_order}
use signalweave.Usage
use signalweave.Admission.{
  AdmissionController, IdempotencyKey, QueuePolicy, QueueTicketId, Reservation, TicketEntry,
  TicketState,
}
use signalweave.Admission.Control.{
  is_waiting, counting, waits, queue_depth, apply_pending, promote_at,
}

-- A waiting ticket that is too old, or that was not heard from for too long.
abbrev pub is_stale : QueuePolicy → Instant → TicketEntry → Bool
is_stale policy now entry =
    is_waiting entry.state
    && (leb policy.ticket_ttl (now - entry.created)
        || leb policy.heartbeat_timeout (now - entry.last_heartbeat))

-- An offer that was not claimed in time.
abbrev pub is_abandoned : Instant → TicketEntry → Bool
is_abandoned now entry = elim entry.state [
  | TicketState.offered expires ↦ leb expires now
  | _ ↦ false
]

abbrev pub expires_now : QueuePolicy → Instant → TicketEntry → Bool
expires_now policy now entry = is_stale policy now entry || is_abandoned now entry

unfoldable pub expire_entry : QueuePolicy → Instant → TicketEntry → TicketEntry
expire_entry policy now entry =
    if expires_now policy now entry then record entry { state = TicketState.expired } else entry

-- The index without the keys of the tickets that expire now.
unfoldable pub drop_expired_keys :
    QueuePolicy
    → Instant
    → List TicketEntry
    → Map IdempotencyKey QueueTicketId
    → Map IdempotencyKey QueueTicketId
drop_expired_keys policy now [] index = index
drop_expired_keys policy now (entry ∷ rest) index =
    drop_expired_keys policy now rest (
      if expires_now policy now entry
      then Maps.remove entry.ticket.idempotency_key index
      else index)

abbrev pub is_held : Instant → Reservation → Bool
is_held now reservation = ltb now reservation.expires

-- The first part of `expire_at`: reservations, then tickets, then the waiting list.
unfoldable pub expire_entries : Instant → AdmissionController → AdmissionController
unfolding expire_entry drop_expired_keys
expire_entries now c =
    let expired_reservations =
      count_if (λ r. not (is_held now r)) (Maps.values c.reservations) % u32_mod in
    let entries = Maps.values c.tickets in
    let expired_tickets = count_if (is_stale c.policy now) entries % u32_mod in
    let abandoned_offers = count_if (is_abandoned now) entries % u32_mod in
    let tickets = Maps.map_values (expire_entry c.policy now) c.tickets in
    record c {
      reservations = Maps.keep (λ _ r. is_held now r) c.reservations;
      tickets = tickets;
      idempotency_index = drop_expired_keys c.policy now entries c.idempotency_index;
      waiting = retain (waits tickets) c.waiting;
      counters = Usage.increment_abandoned_offers_by abandoned_offers (
          Usage.increment_expired_tickets_by expired_tickets
            (Usage.increment_expired_tickets_by expired_reservations c.counters));
    }

unfoldable pub expire_at : Instant → AdmissionController → AdmissionController
unfolding expire_entries
expire_at now c =
    let expired = expire_entries now c in
    promote_at now (apply_pending (counting (Usage.set_queue_depth (queue_depth expired)) expired))
