-- ===== src/Admission.antt =====
-- crates/woven-core/src/admission.rs: the admission controller of one session. Its methods take the
-- time as an argument; one that changes the controller returns the new one.
pub mod Control
pub mod Expiry
pub mod Methods
pub mod Capacity
pub mod Slots
pub mod Reachable
pub mod Deadline
pub mod Promotion
pub mod Reconnect
pub mod Issue
mod Examples
use signalweave.Prelude.{
  ℕ, zero, suc, ◌+◌, ◌-◌, ◌%◌, min, Bool, true, false, not, ◌&&◌, ◌||◌, Option, none, some, List,
  [], ◌∷◌, ◌++◌, Result, ok, err, Map, Key, nat_key, length, retain, count_if, any, ltb, leb, ◌==◌,
  same, is_some, or_default, if◌then◌else◌,
}
use signalweave.Prelude.Maps
use signalweave.Ids.{PrincipalId, SessionKey, session_key_order, u32_mod, u64_mod}
use signalweave.RateLimit.{Instant, Duration, checked_add}
use signalweave.Auth.{Token, token_order}
use signalweave.Usage
use signalweave.Usage.{AdmissionMetadata, UsageCounters, ConnectionHandle}

-- `now.checked_add(duration).unwrap_or(now)`
unfoldable pub deadline : Instant → Duration → Instant
unfolding checked_add
deadline now duration = or_default (checked_add now duration) now

-- A number of entries as a `u32`.
abbrev pub count : ℕ → ℕ
count value = min value (u32_mod - 1)

-- The bytes of a client's key, at most `max_len` of them.
abbrev pub IdempotencyKey : Type 0
IdempotencyKey = Token

abbrev pub max_len : ℕ
max_len = 256

unfoldable pub new_idempotency_key : List ℕ → Option IdempotencyKey
new_idempotency_key key = if ltb max_len (length key) then none else some key

pub record QueuePolicy : Type 0 where
  pub enabled : Bool
  pub max_depth : ℕ
  pub ticket_ttl : Duration
  pub offer_ttl : Duration
  pub heartbeat_timeout : Duration
  pub reconnect_grace : Duration

pub record CapacityUpdate : Type 0 where
  pub allocated_ccu : ℕ
  pub revision : ℕ

pub data RejectionReason : Type 0 where
  server_paused queue_full queue_disabled already_queued invalid_idempotency_key : RejectionReason

abbrev pub QueueTicketId : Type 0
QueueTicketId = ℕ

abbrev pub ResumeToken : Type 0
ResumeToken = ℕ

pub record QueueTicket : Type 0 where
  pub id : QueueTicketId
  pub session : SessionKey
  pub principal : PrincipalId
  pub idempotency_key : IdempotencyKey

pub record AdmissionLease : Type 0 where
  pub id : ℕ
  pub session : SessionKey
  pub principal : PrincipalId
  pub resume_token : ResumeToken

pub data JoinDecision : Type 0 where
  admitted : AdmissionLease → JoinDecision
  queued : QueueTicket → JoinDecision
  paused : JoinDecision
  rejected : RejectionReason → JoinDecision

pub data QueueStatus : Type 0 where
  waiting : ℕ → QueueStatus
  offered admitted expired cancelled missing : QueueStatus

pub data CancelResult : Type 0 where
  cancelled missing already_admitted already_expired already_offered : CancelResult

pub data ClaimError : Type 0 where
  not_offered missing expired cancelled already_admitted : ClaimError

pub data ReleaseReason : Type 0 where
  intentional unexpected : ReleaseReason

pub record AdmissionSnapshot : Type 0 where
  pub allocated_ccu : ℕ
  pub active_ccu : ℕ
  pub reconnect_reservations : ℕ
  pub offered_slots : ℕ
  pub available_slots : ℕ
  pub queue_depth : ℕ
  pub pending_target : Option ℕ
  pub capacity_revision : ℕ

pub data TicketState : Type 0 where
  waiting : TicketState
  offered : Instant → TicketState
  expired cancelled admitted : TicketState

pub record TicketEntry : Type 0 where
  pub ticket : QueueTicket
  pub created : Instant
  pub last_heartbeat : Instant
  pub state : TicketState

pub record Reservation : Type 0 where
  pub principal : PrincipalId
  pub expires : Instant

pub record ActiveLease : Type 0 where
  pub principal : PrincipalId
  pub started : Instant
  pub usage_handle : ConnectionHandle

pub record AdmissionController : Type 0 where
  pub metadata : AdmissionMetadata
  pub policy : QueuePolicy
  pub allocated_ccu : ℕ
  pub pending_target : Option ℕ
  pub revision : ℕ
  pub next_ticket : ℕ
  pub next_lease : ℕ
  pub active : Map ℕ ActiveLease
  pub reservations : Map ℕ Reservation
  pub tickets : Map QueueTicketId TicketEntry
  pub waiting : List QueueTicketId
  pub idempotency_index : Map IdempotencyKey QueueTicketId
  pub counters : UsageCounters

pub record JoinRequest : Type 0 where
  pub principal : PrincipalId
  pub idempotency_key : Option IdempotencyKey

abbrev pub new :
    AdmissionMetadata → QueuePolicy → CapacityUpdate → UsageCounters → AdmissionController
new metadata policy capacity counters = record {
  metadata = metadata;
  policy = policy;
  allocated_ccu = capacity.allocated_ccu;
  pending_target = none;
  revision = capacity.revision;
  next_ticket = 1;
  next_lease = 1;
  active = [];
  reservations = [];
  tickets = [];
  waiting = [];
  idempotency_index = [];
  counters = counters;
}
