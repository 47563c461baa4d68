-- ===== src/Admission/Deadline.antt =====
-- The instants at which the offers and the reservations of crates/woven-core/src/admission.rs end.
use signalweave.Prelude.{◌+◌, ◌≡◌, arith, ltb, if◌then◌else◌}
use signalweave.RateLimit.{Instant, Duration, checked_add, last_instant}
use signalweave.Admission.{deadline}

-- The time from now on for a term, or now if the clock has no such time.
abbrev pub end_of : Instant → Duration → Instant
end_of now term = if ltb last_instant (now + term) then now else now + term

pub deadline-end_of : (now : Instant) (term : Duration) → deadline now term ≡ end_of now term
unfolding deadline checked_add
deadline-end_of now term = ground arith
