-- ===== src/Admission/Issue.antt =====
-- Leases and tickets that crates/woven-core/src/admission.rs hands out, in the state that it leaves.
use signalweave.Prelude.{◌≡◌, true, some, nat_key}
use signalweave.Ids.{PrincipalId, session_key_order}
use signalweave.Auth.{token_order}
use signalweave.Usage
use signalweave.Admission.{AdmissionController, IdempotencyKey, JoinDecision}
use signalweave.Admission.Control.{has_active_lease}
use signalweave.Admission.Methods.{live_ticket}

-- What a decision promises of the state that it leaves.
abbrev pub Honours : AdmissionController → IdempotencyKey → PrincipalId → JoinDecision → Type 0
Honours c key principal (JoinDecision.admitted lease) =
    (has_active_lease c lease ≡ true) × (lease.principal ≡ principal)
Honours c key principal (JoinDecision.queued ticket) = live_ticket c key ≡ some ticket
Honours c key principal _ = Unit
