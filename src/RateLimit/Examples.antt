-- ===== src/RateLimit/Examples.antt =====
-- The rate limiter with two publishes in a window of ten.
use signalweave.Prelude.{◌+◌, ◌≤◌, ◌≡◌, refl, some, [], ◌∷◌, err, arith}
use signalweave.RateLimit.{
  PublishRateLimit, ConnectionRateLimiter, fresh, admit, publish_rate_limited,
}
use signalweave.RateLimit.Window.{admitted, admitted-le}

abbrev policy : PublishRateLimit
policy = record { max_publishes = 2; window = 10 }

abbrev begun : ConnectionRateLimiter
begun = record { window_started = some 100; publishes = 1 }

-- The third call fails, and the one after the window passes.
three_of_four : admitted policy fresh (100 ∷ 101 ∷ 105 ∷ 110 ∷ []) ≡ 3
unfolding admitted admit
three_of_four = refl

retry_after : (admit policy 104 (record begun { publishes = 2 })).1 ≡ err (publish_rate_limited 6)
unfolding admit
retry_after = refl

admitted-le_example : admitted policy begun (101 ∷ 105 ∷ 103 ∷ []) + 1 ≤ 2
admitted-le_example =
    admitted-le policy begun 100 (101 ∷ 105 ∷ 103 ∷ [])
      (record { positive = omega arith; bound = omega arith }) refl
      (omega arith, (omega arith, (omega arith, tt)))
