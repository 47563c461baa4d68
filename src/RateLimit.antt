-- ===== src/RateLimit.antt =====
-- The publish rate limiter of crates/woven-core/src/core.rs. An instant is a number of nanoseconds
-- on the monotonic clock.
pub mod Window
mod Examples
use signalweave.Prelude.{
  ℕ, ◌+◌, ◌-◌, Bool, ◌||◌, Option, none, some, Result, ok, err, ltb, leb, ◌==◌, if◌then◌else◌,
}

abbrev pub Instant : Type 0
Instant = ℕ

abbrev pub Duration : Type 0
Duration = ℕ

-- The last instant: an `Instant` is an `i64` of seconds with a number of nanoseconds below 10^9.
abbrev pub last_instant : Instant
last_instant = 9_223_372_036_854_775_807_999_999_999

-- `Instant::checked_add`
unfoldable pub checked_add : Instant → Duration → Option Instant
checked_add now duration = if leb (now + duration) last_instant then some (now + duration) else none

pub record PublishRateLimit : Type 0 where
  pub max_publishes : ℕ
  pub window : Duration

abbrev pub default_rate_limit : PublishRateLimit
default_rate_limit = record { max_publishes = 256; window = 1_000_000_000 }

-- The errors of `admit`, and that of `validate`; `CoreError` holds them.
pub data RateLimitError : Type 0 where
  invalid_configuration : RateLimitError
  publish_rate_limited : Duration → RateLimitError
  clock_regressed : RateLimitError

unfoldable pub validate : PublishRateLimit → Result RateLimitError PublishRateLimit
validate l = if l.max_publishes == 0 || l.window == 0 then err invalid_configuration else ok l

pub record ConnectionRateLimiter : Type 0 where
  pub window_started : Option Instant
  pub publishes : ℕ

abbrev pub fresh : ConnectionRateLimiter
fresh = record { window_started = none; publishes = 0 }

unfoldable pub admit :
    PublishRateLimit
    → Instant
    → ConnectionRateLimiter
    → ConnectionRateLimiter × Result RateLimitError (Unit {0})
admit policy now limiter = elim limiter.window_started [
  | none ↦ (record { window_started = some now; publishes = 1 }, ok tt)
  | some started ↦
      if ltb now started
      then (limiter, err clock_regressed)
      else if leb policy.window (now - started)
      then (record { window_started = some now; publishes = 1 }, ok tt)
      else if limiter.publishes == policy.max_publishes
      then (limiter, err (publish_rate_limited (policy.window - (now - started))))
      else (record limiter { publishes = limiter.publishes + 1 }, ok tt)
]
