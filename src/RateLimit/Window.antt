-- ===== src/RateLimit/Window.antt =====
-- What the rate limiter of crates/woven-core/src/core.rs lets through.
use signalweave.Prelude.{ℕ, ◌+◌, ◌≤◌, ◌<◌, ◌≡◌, some, List, [], ◌∷◌, Result, ok, arith, All}
use signalweave.RateLimit.{Instant, PublishRateLimit, ConnectionRateLimiter, admit}

-- One when a call was let through.
abbrev pub passed : {E : Type 0} → Result E (Unit {0}) → ℕ
passed (ok _) = 1
passed _ = 0

-- How many of the calls at the given instants are let through.
unfoldable pub admitted : PublishRateLimit → ConnectionRateLimiter → List Instant → ℕ
admitted policy limiter [] = 0
admitted policy limiter (now ∷ later) =
    let (next, result) = admit policy now limiter in passed result + admitted policy next later

pub record IsValid (policy : PublishRateLimit) (limiter : ConnectionRateLimiter) : Type 0 where
  pub positive : 0 < policy.max_publishes
  pub bound : limiter.publishes ≤ policy.max_publishes

pub admit-IsValid :
    (policy : PublishRateLimit) (now : Instant) (limiter : ConnectionRateLimiter)
    → IsValid policy limiter
    → IsValid policy (admit policy now limiter).0
unfolding admit
admit-IsValid policy now limiter v = ground arith

-- A call inside the window counts itself if it passes, and leaves the window where it began.
admit_within :
    (policy : PublishRateLimit) (now started : Instant) (limiter : ConnectionRateLimiter)
    → limiter.window_started ≡ some started
    → now < started + policy.window
    → let r = admit policy now limiter in
      (r.0.window_started ≡ some started) × (r.0.publishes ≡ limiter.publishes + passed r.1)
unfolding admit
admit_within policy now started limiter e h = ground arith

-- For a valid limiter with a positive limit, while a window that began at `started` lasts, the calls let through are at most the limit less
-- those already counted, however many calls come and in whatever order of their instants.
pub admitted-le :
    (policy : PublishRateLimit) (limiter : ConnectionRateLimiter) (started : Instant)
    (times : List Instant)
    → IsValid policy limiter
    → limiter.window_started ≡ some started
    → All (λ t. t < started + policy.window) times
    → admitted policy limiter times + limiter.publishes ≤ policy.max_publishes
unfolding admitted
admitted-le policy limiter started [] v e h = omega (arith, v.bound)
admitted-le policy limiter started (now ∷ later) v e h =
    let (same_window, counted) = admit_within policy now started limiter e h.0 in
    omega (
      arith,
      counted,
      admitted-le policy (admit policy now limiter).0 started later
          (admit-IsValid policy now limiter v) same_window h.1,
    )
