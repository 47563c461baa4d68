-- ===== src/Usage.antt =====
-- crates/woven-core/src/usage.rs: the counters of a session. `fetch_add` on an atomic `u64` wraps;
-- the controller that owns the counters is the one writer, so an update is one step.

use signalweave.Prelude.{
  ℕ, ◌+◌, ◌-◌, ◌%◌, min, max, Option, none, some, List, [], ◌∷◌, ◌++◌, ◌==◌, if◌then◌else◌,
}
use Prim.Native.Nat.{◌/◌}
use signalweave.Ids.{NodeId, PrincipalId, SessionKey, u64_mod, u32_mod}
use signalweave.RateLimit.{Instant}

-- `AdmissionMetadata` of crates/woven-core/src/admission.rs
pub record AdmissionMetadata : Type 0 where
  pub node_id : NodeId
  pub session : SessionKey

abbrev pub ConnectionHandle : Type 0
ConnectionHandle = ℕ

pub record ActiveConnection : Type 0 where
  pub handle : ConnectionHandle
  pub principal : PrincipalId
  pub started : Instant

pub record UsageCounters : Type 0 where
  pub metadata : AdmissionMetadata
  pub next_handle : ℕ
  pub join_attempts : ℕ
  pub immediate_admissions : ℕ
  pub queued_joins : ℕ
  pub queue_full_rejections : ℕ
  pub paused_rejections : ℕ
  pub auth_rejections : ℕ
  pub reconnect_reservations : ℕ
  pub successful_resumes : ℕ
  pub promoted_players : ℕ
  pub expired_tickets : ℕ
  pub cancelled_tickets : ℕ
  pub abandoned_offers : ℕ
  pub events_received : ℕ
  pub events_delivered : ℕ
  pub events_dropped : ℕ
  pub bytes_received : ℕ
  pub bytes_delivered : ℕ
  pub persistence_reads : ℕ
  pub persistence_writes : ℕ
  pub inference_requests : ℕ
  pub capacity_allocations : ℕ
  pub active_ccu : ℕ
  pub peak_ccu : ℕ
  pub queue_depth : ℕ
  pub peak_queue_depth : ℕ
  pub connection_seconds : ℕ
  pub active : List ActiveConnection

abbrev pub new : AdmissionMetadata → UsageCounters
new metadata = record {
  metadata = metadata;
  next_handle = 1;
  join_attempts = 0;
  immediate_admissions = 0;
  queued_joins = 0;
  queue_full_rejections = 0;
  paused_rejections = 0;
  auth_rejections = 0;
  reconnect_reservations = 0;
  successful_resumes = 0;
  promoted_players = 0;
  expired_tickets = 0;
  cancelled_tickets = 0;
  abandoned_offers = 0;
  events_received = 0;
  events_delivered = 0;
  events_dropped = 0;
  bytes_received = 0;
  bytes_delivered = 0;
  persistence_reads = 0;
  persistence_writes = 0;
  inference_requests = 0;
  capacity_allocations = 0;
  active_ccu = 0;
  peak_ccu = 0;
  queue_depth = 0;
  peak_queue_depth = 0;
  connection_seconds = 0;
  active = [];
}

-- `fetch_add`
abbrev pub add_u64 : ℕ → ℕ → ℕ
add_u64 a b = (a + b) % u64_mod

unfoldable pub start_connection :
    PrincipalId → Instant → UsageCounters → UsageCounters × ConnectionHandle
start_connection principal now u =
    let connection : ActiveConnection = record {
      handle = u.next_handle;
      principal = principal;
      started = now;
    } in
    (
      record u { next_handle = add_u64 u.next_handle 1; active = u.active ++ connection ∷ [] },
      u.next_handle,
    )

-- `Vec::swap_remove` at the first entry that has the handle, with that entry. The last entry takes
-- its place.
last_or : ActiveConnection → List ActiveConnection → ActiveConnection
last_or c [] = c
last_or c (d ∷ ds) = last_or d ds

without_last : ActiveConnection → List ActiveConnection → List ActiveConnection
without_last c [] = []
without_last c (d ∷ ds) = c ∷ without_last d ds

swap_first : List ActiveConnection → List ActiveConnection
unfolding last_or without_last
swap_first [] = []
swap_first (d ∷ ds) = last_or d ds ∷ without_last d ds

unfoldable pub take_connection :
    ConnectionHandle → List ActiveConnection → Option (ActiveConnection × List ActiveConnection)
unfolding swap_first
take_connection handle [] = none
take_connection handle (c ∷ cs) =
    let rest = take_connection handle cs in
    if c.handle == handle
    then some (c, swap_first cs)
    else elim rest [ none ↦ none | some (found, others) ↦ some (found, c ∷ others) ]

unfoldable pub end_connection : ConnectionHandle → Instant → UsageCounters → UsageCounters
unfolding take_connection
end_connection handle now u = elim (take_connection handle u.active) [
  | none ↦ u
  | some (connection, others) ↦ record u {
    active = others;
    connection_seconds = add_u64 u.connection_seconds ((now - connection.started) / 1_000_000_000);
  }
]

abbrev pub increment_join_attempts : UsageCounters → UsageCounters
increment_join_attempts u = record u { join_attempts = add_u64 u.join_attempts 1 }

abbrev pub increment_immediate_admissions : UsageCounters → UsageCounters
increment_immediate_admissions u = record u {
  immediate_admissions = add_u64 u.immediate_admissions 1;
}

abbrev pub increment_queued_joins : UsageCounters → UsageCounters
increment_queued_joins u = record u { queued_joins = add_u64 u.queued_joins 1 }

abbrev pub increment_queue_full_rejections : UsageCounters → UsageCounters
increment_queue_full_rejections u = record u {
  queue_full_rejections = add_u64 u.queue_full_rejections 1;
}

abbrev pub increment_paused_rejections : UsageCounters → UsageCounters
increment_paused_rejections u = record u { paused_rejections = add_u64 u.paused_rejections 1 }

abbrev pub increment_auth_rejections : UsageCounters → UsageCounters
increment_auth_rejections u = record u { auth_rejections = add_u64 u.auth_rejections 1 }

abbrev pub increment_reconnect_reservations : UsageCounters → UsageCounters
increment_reconnect_reservations u = record u {
  reconnect_reservations = add_u64 u.reconnect_reservations 1;
}

abbrev pub increment_successful_resumes : UsageCounters → UsageCounters
increment_successful_resumes u = record u { successful_resumes = add_u64 u.successful_resumes 1 }

abbrev pub increment_promoted_players : UsageCounters → UsageCounters
increment_promoted_players u = record u { promoted_players = add_u64 u.promoted_players 1 }

abbrev pub increment_expired_tickets_by : ℕ → UsageCounters → UsageCounters
increment_expired_tickets_by n u = record u { expired_tickets = add_u64 u.expired_tickets n }

abbrev pub increment_cancelled_tickets : UsageCounters → UsageCounters
increment_cancelled_tickets u = record u { cancelled_tickets = add_u64 u.cancelled_tickets 1 }

abbrev pub increment_abandoned_offers_by : ℕ → UsageCounters → UsageCounters
increment_abandoned_offers_by n u = record u { abandoned_offers = add_u64 u.abandoned_offers n }

abbrev pub increment_capacity_allocations : UsageCounters → UsageCounters
increment_capacity_allocations u = record u {
  capacity_allocations = add_u64 u.capacity_allocations 1;
}

abbrev pub set_active_ccu : ℕ → UsageCounters → UsageCounters
set_active_ccu value u = record u { active_ccu = value; peak_ccu = max u.peak_ccu value }

abbrev pub set_queue_depth : ℕ → UsageCounters → UsageCounters
set_queue_depth value u =
    let bounded = min value (u32_mod - 1) in
    record u { queue_depth = bounded; peak_queue_depth = max u.peak_queue_depth bounded }
