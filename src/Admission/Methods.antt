-- ===== src/Admission/Methods.antt =====
-- The public methods of `AdmissionController` in crates/woven-core/src/admission.rs, and one step for
-- a call of any of them.
use signalweave.Prelude.{
  ◌+◌, not, Option, none, some, List, [], ◌∷◌, Result, ok, err, nat_key, length, retain, ltb, leb,
  ◌==◌, if◌then◌else◌,
}
use signalweave.Prelude.Maps
use signalweave.Ids.{PrincipalId, session_key_order}
use signalweave.RateLimit.{Instant}
use signalweave.Auth.{token_order}
use signalweave.Usage
use signalweave.Admission.{
  deadline, AdmissionController, AdmissionLease, AdmissionSnapshot, CancelResult, CapacityUpdate,
  ClaimError, IdempotencyKey, JoinDecision, JoinRequest, QueueStatus, QueueTicket, QueueTicketId,
  RejectionReason, ReleaseReason, ResumeToken, TicketEntry, TicketState, count,
}
use signalweave.Admission.Control.{
  is_waiting, is_live, counting, occupied, admission_limit, has_queued_principal, queue_depth,
  status, snapshot, has_active_lease, lease_of, activate, admit, enqueue, apply_pending, promote_at,
}
use signalweave.Admission.Expiry.{expire_at}

-- The ticket that a client already holds under its key.
unfoldable pub live_ticket : AdmissionController → IdempotencyKey → Option QueueTicket
live_ticket c key = elim (Maps.get key c.idempotency_index) [
  | none ↦ none
  | some id ↦ elim (Maps.get id c.tickets) [
    | none ↦ none
    | some entry ↦ if is_live entry.state then some entry.ticket else none
  ]
]

-- The decision for a principal that holds no ticket under its key.
unfoldable pub decide_join :
    IdempotencyKey
    → PrincipalId
    → Instant
    → AdmissionController
    → AdmissionController × JoinDecision
decide_join key principal now c =
    if has_queued_principal c principal
    then (
      counting Usage.increment_queue_full_rejections c,
      JoinDecision.rejected RejectionReason.already_queued,
    )
    else if ltb (occupied c) (admission_limit c)
    then (let (d, lease) = admit principal now (counting Usage.increment_immediate_admissions c) in
        (d, JoinDecision.admitted lease))
    else if not c.policy.enabled
    then (
      counting Usage.increment_queue_full_rejections c,
      JoinDecision.rejected RejectionReason.queue_disabled,
    )
    else if leb c.policy.max_depth (queue_depth c)
    then (
      counting Usage.increment_queue_full_rejections c,
      JoinDecision.rejected RejectionReason.queue_full,
    )
    else (let (d, ticket) = enqueue key principal now (
          counting (λ u. Usage.set_queue_depth (queue_depth c + 1) (Usage.increment_queued_joins u))
            c) in
        (d, JoinDecision.queued ticket))

unfoldable pub request_join_at :
    JoinRequest → Instant → AdmissionController → AdmissionController × JoinDecision
request_join_at request now c =
    let d = expire_at now (counting Usage.increment_join_attempts c) in
    elim request.idempotency_key [
      | none ↦ (
        counting Usage.increment_auth_rejections d,
        JoinDecision.rejected RejectionReason.invalid_idempotency_key,
      )
      | some key ↦
          if admission_limit d == 0
          then (counting Usage.increment_paused_rejections d, JoinDecision.paused)
          else elim (live_ticket d key) [
            | some ticket ↦ (d, JoinDecision.queued ticket)
            | none ↦ decide_join key request.principal now d
          ]
    ]

unfoldable pub queue_status_at :
    QueueTicketId → Instant → AdmissionController → AdmissionController × QueueStatus
queue_status_at id now c = let d = expire_at now c in (d, status d id)

-- The heartbeat of a ticket that still waits.
unfoldable pub beat : QueueTicketId → Instant → AdmissionController → AdmissionController
beat id now c = elim (Maps.get id c.tickets) [
  | none ↦ c
  | some entry ↦
      if is_waiting entry.state
      then record c { tickets = Maps.insert id (record entry { last_heartbeat = now }) c.tickets }
      else c
]

unfoldable pub heartbeat_at :
    QueueTicketId → Instant → AdmissionController → AdmissionController × QueueStatus
heartbeat_at id now c = let d = beat id now (expire_at now c) in (d, status d id)

-- The ticket leaves the queue in a final state, and its key is free again.
abbrev pub settle :
    TicketState → QueueTicketId → TicketEntry → AdmissionController → AdmissionController
settle state id entry c = record c {
  tickets = Maps.insert id (record entry { state = state }) c.tickets;
  idempotency_index = Maps.remove entry.ticket.idempotency_key c.idempotency_index;
}

unfoldable pub cancel_live :
    QueueTicketId → TicketEntry → Instant → AdmissionController → AdmissionController
cancel_live id entry now c =
    let settled = settle TicketState.cancelled id entry c in
    promote_at now (
      counting Usage.increment_cancelled_tickets
        (record settled { waiting = retain (λ candidate. not (candidate == id)) c.waiting }))

unfoldable pub cancel_at :
    QueueTicketId → Instant → AdmissionController → AdmissionController × CancelResult
cancel_at id now c =
    let d = expire_at now c in
    elim (Maps.get id d.tickets) [
      | none ↦ (d, CancelResult.missing)
      | some entry ↦ elim entry.state [
        | TicketState.waiting ↦ (cancel_live id entry now d, CancelResult.cancelled)
        | TicketState.offered _ ↦ (cancel_live id entry now d, CancelResult.cancelled)
        | TicketState.admitted ↦ (d, CancelResult.already_admitted)
        | TicketState.expired ↦ (d, CancelResult.already_expired)
        | TicketState.cancelled ↦ (d, CancelResult.already_expired)
      ]
    ]

unfoldable pub claim_offered :
    QueueTicketId
    → TicketEntry
    → Instant
    → AdmissionController
    → AdmissionController × AdmissionLease
claim_offered id entry now c =
    admit entry.ticket.principal now
      (counting Usage.increment_promoted_players (settle TicketState.admitted id entry c))

unfoldable pub claim_offer_at :
    QueueTicketId
    → Instant
    → AdmissionController
    → AdmissionController × Result ClaimError AdmissionLease
claim_offer_at id now c =
    let d = expire_at now c in
    elim (Maps.get id d.tickets) [
      | none ↦ (d, err ClaimError.missing)
      | some entry ↦ elim entry.state [
        | TicketState.offered _ ↦ (let (e, lease) = claim_offered id entry now d in (e, ok lease))
        | TicketState.waiting ↦ (d, err ClaimError.not_offered)
        | TicketState.expired ↦ (d, err ClaimError.expired)
        | TicketState.cancelled ↦ (d, err ClaimError.cancelled)
        | TicketState.admitted ↦ (d, err ClaimError.already_admitted)
      ]
    ]

-- The slot of a released lease: free, or reserved for a reconnect.
unfoldable pub vacate :
    AdmissionLease → ReleaseReason → Instant → AdmissionController → AdmissionController
vacate lease ReleaseReason.intentional now c = c
vacate lease ReleaseReason.unexpected now c =
    counting Usage.increment_reconnect_reservations (record c {
      reservations =
          Maps.insert lease.id
            (record {
              principal = lease.principal;
              expires = deadline now c.policy.reconnect_grace;
            })
            c.reservations;
    })

unfoldable pub release_at :
    AdmissionLease → ReleaseReason → Instant → AdmissionController → AdmissionController
unfolding vacate
release_at lease reason now c =
    if not (has_active_lease c lease) then c else elim (Maps.get lease.id c.active) [
      | none ↦ c
      | some removed ↦
          (let active = Maps.remove lease.id c.active in
            let freed : AdmissionController = record c {
              active = active;
              counters =
                  Usage.set_active_ccu (count (length active))
                    (Usage.end_connection removed.usage_handle now c.counters);
            } in
            promote_at now (apply_pending (vacate lease reason now freed)))
    ]

unfoldable pub resume_at :
    ResumeToken
    → PrincipalId
    → Instant
    → AdmissionController
    → AdmissionController × Option AdmissionLease
unfolding lease_of
resume_at token principal now c =
    let d = expire_at now c in
    elim (Maps.get token d.reservations) [
      | none ↦ (d, none)
      | some reservation ↦
          (let removed = Maps.remove token d.reservations in
            if not (reservation.principal == principal)
            then (record d { reservations = Maps.insert token reservation removed }, none)
            else (
              activate token principal now (
                  counting Usage.increment_successful_resumes
                    (record d { reservations = removed })),
              some (lease_of d token principal),
            ))
    ]

-- A revision that is not newer changes nothing.
unfoldable pub apply_capacity : CapacityUpdate → Instant → AdmissionController → AdmissionController
apply_capacity update now c =
    if leb update.revision c.revision
    then c
    else (let d =
          counting Usage.increment_capacity_allocations (record c { revision = update.revision }) in
        if ltb update.allocated_ccu (occupied d)
        then record d { pending_target = some update.allocated_ccu }
        else promote_at now
            (record d { allocated_ccu = update.allocated_ccu; pending_target = none }))

unfoldable pub apply_capacity_at :
    CapacityUpdate → Instant → AdmissionController → AdmissionController × AdmissionSnapshot
unfolding apply_capacity
apply_capacity_at update now c = let d = apply_capacity update now c in (d, snapshot d)

pub data Call : Type 0 where
  join : JoinRequest → Call
  poll heartbeat cancel claim : QueueTicketId → Call
  release : AdmissionLease → ReleaseReason → Call
  resume : ResumeToken → PrincipalId → Call
  set_capacity : CapacityUpdate → Call

unfoldable pub step : AdmissionController → Instant × Call → AdmissionController
step c (now, join request) = (request_join_at request now c).0
step c (now, poll id) = (queue_status_at id now c).0
step c (now, heartbeat id) = (heartbeat_at id now c).0
step c (now, cancel id) = (cancel_at id now c).0
step c (now, claim id) = (claim_offer_at id now c).0
step c (now, release lease reason) = release_at lease reason now c
step c (now, resume token principal) = (resume_at token principal now c).0
step c (now, set_capacity update) = (apply_capacity_at update now c).0

unfoldable pub run : AdmissionController → List (Instant × Call) → AdmissionController
run c [] = c
run c (call ∷ calls) = run (step c call) calls
