-- ===== src/Retry.antt =====
-- `withRetry` of the two services: api/src/lib/retry.ts and keeper/src/retry.ts. An attempt's result is
-- given for each attempt, and a wait is recorded instead of slept. Errors are a parameter here, with
-- the test that says which are retried and the escalation of the last one; `Retry.Errors` has the
-- API's. `Math.random()` is the argument `random`, a number of 2^53-ths for each wait, and the product
-- with it is rounded as an exact number, where the source has a double.
pub mod Api
pub mod Keeper
pub mod Errors
pub mod Escalation
pub mod Jobs
mod Examples
use walwatch.Prelude.{
  ℕ, zero, suc, ◌+◌, ◌*◌, ◌/◌, ◌^◌, ◌<◌, ◌≤◌, min, List, [], ◌∷◌, ◌≡◌, arith, ◌-◌,
}

-- What one attempt of `fn`, or a whole `withRetry`, ends with.
pub data Outcome (E A : Type 0) : Type 0 where
  returns : A → Outcome E A
  throws : E → Outcome E A

-- A whole run: its end, the waits in order, and the number of attempts.
pub record Run (E A : Type 0) : Type 0 where
  pub outcome : Outcome E A
  pub waits : List ℕ
  pub attempts : ℕ

abbrev pub random_unit : ℕ
random_unit = 2 ^ 53

-- `Math.round(delay * (0.5 + Math.random() * 0.5))`: half up, over a common denominator.
unfoldable pub jitter : ℕ → ℕ → ℕ
jitter delay random = (delay * (random_unit + random) + random_unit) / (2 * random_unit)

-- `Math.min(baseDelay * 2 ** k, maxDelay)`.
unfoldable pub backoff : ℕ → ℕ → ℕ → ℕ
backoff base_delay max_delay k = min (base_delay * 2 ^ k) max_delay

pub jitter_upper : (d r : ℕ) → r < random_unit → jitter d r ≤ d
unfolding jitter
jitter_upper d r h = grind arith

pub jitter_lower : (d r : ℕ) → d ≤ 2 * jitter d r
unfolding jitter
jitter_lower d r = grind arith
