-- ===== src/RateLimit/Examples.antt =====
-- Two keys at a limit of two requests a minute.
use walwatch.Prelude.{ℕ, ◌*◌, ◌≤◌, ◌≡◌, refl, List, [], ◌∷◌, arith}
use walwatch.RateLimit.{Limiter, increment, rate_limit}
use walwatch.RateLimit.Window.{Request, passed_of, rate_limit-bounded}

abbrev two_a_minute : Limiter
two_a_minute = record { window_ms = 60000; max_requests = 2 }

abbrev request : ℕ → ℕ → Request
request k t = record { key = k; at = t }

-- A request at the start of a window, and three after it is over; another key between them.
abbrev requests : List Request
requests =
    request 7 0
    ∷ request 7 59990
    ∷ request 8 59995
    ∷ request 7 60001
    ∷ request 7 60002
    ∷ request 7 60003
    ∷ []

four_pass : passed_of two_a_minute 7 requests [] ≡ 4
unfolding passed_of rate_limit increment
four_pass = refl

abbrev burst : List Request
burst = request 7 59990 ∷ request 8 59995 ∷ request 7 60001 ∷ request 7 60002 ∷ []

rate_limit-bounded_example : passed_of two_a_minute 7 burst [] ≤ 2 * 2
rate_limit-bounded_example = rate_limit-bounded two_a_minute 7 59990 burst [] (
  (omega arith, omega arith),
  ((omega arith, omega arith), ((omega arith, omega arith), ((omega arith, omega arith), tt))),
)
