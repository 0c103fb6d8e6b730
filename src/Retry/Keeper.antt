-- ===== src/Retry/Keeper.antt =====
-- keeper/src/retry.ts: the loop of `withRetry`, for `attempt = 1 .. maxRetries`. The number of attempts
-- that were made is `attempt - 1`, which the source's exponent is.
use walwatch.Prelude.{ℕ, zero, suc, ◌≡◌, refl, Bool, true, false, Option, none, some, [], arith}
use walwatch.Retry.{Outcome, returns, throws, Run, jitter, backoff}
use walwatch.Retry.Api
use walwatch.Retry.Api.{stop, retried}

-- `lastError || new Error(...)`.
abbrev pub last_or : {E : Type 0} → E → Option E → E
last_or default none = default
last_or default (some e) = e

-- `isNetworkError`, `escalateTransientToPersistent(_, operationName)`, the error that is thrown when no
-- attempt was made, `fn` at each attempt, the random numbers, and the options.
module _ {E A : Type 0} (retryable : E → Bool) (escalate : E → E) (none_made : E)
    (fn : ℕ → Outcome E A) (random : ℕ → ℕ) (base_delay max_delay : ℕ) where
  wait_of : ℕ → ℕ
  wait_of made = jitter (backoff base_delay max_delay made) (random made)

  -- An attempt that is not followed by a wait, before what follows.
  retried_last : Run E A → Run E A
  retried_last rest = record rest { attempts = suc rest.attempts }

  -- `left` is the number of attempts left, `last` is `lastError`. There is no wait after the last one.
  unfoldable pub loop : ℕ → ℕ → Option E → Run E A
  unfolding wait_of retried_last
  loop zero made last = record {
    outcome = throws (escalate (last_or none_made last));
    waits = [];
    attempts = 0;
  }
  loop (suc left) made last = elim (fn made) [
    | returns a ↦ stop (returns a)
    | throws e ↦ elim (retryable e) [
      | true ↦
          let rest = loop left (suc made) (some e) in
          elim left [ zero ↦ retried_last rest | suc _ ↦ retried (wait_of made) rest ]
      | false ↦ stop (throws e)
    ]
  ]

  unfoldable pub with_retry : ℕ → Run E A
  unfolding loop
  with_retry max_retries = loop max_retries 0 none

  abbrev SameAsApi : ℕ → ℕ → Option E → Type 0
  SameAsApi left made last =
      loop (suc left) made last
      ≡ Api.loop retryable escalate fn random base_delay max_delay left made

  last-Api : (made : ℕ) (last : Option E) (o : Outcome E A) → fn made ≡ o → SameAsApi 0 made last
  unfolding loop Api.loop
  last-Api made last (returns a) e = ground arith
  last-Api made last (throws x) e = ground arith

  next-Api :
      (left made : ℕ) (last : Option E)
      → ((x : E) → SameAsApi left (suc made) (some x))
      → (o : Outcome E A) → fn made ≡ o
      → SameAsApi (suc left) made last
  unfolding loop Api.loop
  next-Api left made last ih (returns a) e = ground arith
  next-Api left made last ih (throws x) e = ground (arith, ih x)

  loop-Api : (left made : ℕ) (last : Option E) → SameAsApi left made last
  loop-Api zero made last = last-Api made last (fn made) refl
  loop-Api (suc left) made last =
      next-Api left made last (λ x. loop-Api left (suc made) (some x)) (fn made) refl

  -- The keeper's `withRetry` with `n + 1` retries is the API's with `n`: the same result, waits and
  -- number of attempts. With none, the keeper makes no attempt and throws.
  pub with_retry-Api :
      ((n : ℕ)
        → with_retry (suc n) ≡ Api.with_retry retryable escalate fn random base_delay max_delay n)
      × (with_retry 0 ≡ record { outcome = throws (escalate none_made); waits = []; attempts = 0 })
  unfolding with_retry Api.with_retry
  with_retry-Api = (λ n. loop-Api n 0 none, refl)
