-- ===== src/Retry/Api.antt =====
-- api/src/lib/retry.ts: the loop of `withRetry`, for `attempt = 0 .. maxRetries`.
use walwatch.Prelude.{
  ℕ, zero, suc, ◌+◌, ◌*◌, ◌≤◌, ◌<◌, ◌≡◌, refl, Bool, true, false, List, [], ◌∷◌, length,
  if◌then◌else◌, arith, Bool-cases, inl, inr, subst, ◌⊎◌,
}
use walwatch.Retry.{
  Outcome, returns, throws, Run, random_unit, jitter, backoff, jitter_upper, jitter_lower,
}

abbrev pub stop : {E A : Type 0} → Outcome E A → Run E A
stop o = record { outcome = o; waits = []; attempts = 1 }

-- One more attempt, and a wait, before what follows.
abbrev pub retried : {E A : Type 0} → ℕ → Run E A → Run E A
retried wait rest = record rest { waits = wait ∷ rest.waits; attempts = suc rest.attempts }

-- `isRetryableError`, `escalateTransientToPersistent(_, label)`, `fn` at each attempt, the random
-- numbers, and the options.
module _ {E A : Type 0} (retryable : E → Bool) (escalate : E → E) (fn : ℕ → Outcome E A)
    (random : ℕ → ℕ) (base_delay max_delay : ℕ) where
  unfoldable pub wait_of : ℕ → ℕ
  wait_of attempt = jitter (backoff base_delay max_delay attempt) (random attempt)

  -- The `try` and `catch` of one attempt; `left` is `maxRetries - attempt`.
  unfoldable pub loop : ℕ → ℕ → Run E A
  unfolding wait_of
  loop zero attempt = elim (fn attempt) [
    | returns a ↦ stop (returns a)
    | throws e ↦ if retryable e then stop (throws (escalate e)) else stop (throws e)
  ]
  loop (suc left) attempt = elim (fn attempt) [
    | returns a ↦ stop (returns a)
    | throws e ↦ elim (retryable e) [
      | true ↦ retried (wait_of attempt) (loop left (suc attempt))
      | false ↦ stop (throws e)
    ]
  ]

  unfoldable pub with_retry : ℕ → Run E A
  unfolding loop
  with_retry max_retries = loop max_retries 0

  -- An attempt that fails with an error which is retried.
  abbrev pub Retried : ℕ → Type 0
  Retried i = (e : E) × (fn i ≡ throws e) × (retryable e ≡ true)

  -- The `k` attempts that begin with this one all do.
  abbrev pub AllRetried : ℕ → ℕ → Type 0
  AllRetried from k = (j : ℕ) → j < k → Retried (from + j)

  -- The waits before the `k` attempts that follow this one.
  unfoldable pub waits_from : ℕ → ℕ → List ℕ
  waits_from from zero = []
  waits_from from (suc k) = wait_of from ∷ waits_from (suc from) k

  AllRetried-head : (from k : ℕ) → AllRetried from (suc k) → Retried from
  AllRetried-head from k h = subst Retried (omega arith) (h 0 (omega arith))

  AllRetried-tail : (from k : ℕ) → AllRetried from (suc k) → AllRetried (suc from) k
  AllRetried-tail from k h = λ j lt. subst Retried (omega arith) (h (suc j) (omega arith))

  loop-retried :
      (left from : ℕ)
      → Retried from
      → loop (suc left) from ≡ retried (wait_of from) (loop left (suc from))
  unfolding loop
  loop-retried left from (e, failed, again) = ground (arith, failed, again)

  -- How a run ends that is not cut off: at an attempt which succeeds, or fails for good.
  abbrev pub Final : Outcome E A → Type 0
  Final (returns a) = Unit
  Final (throws e) = retryable e ≡ false

  loop-Final : (left from : ℕ) (o : Outcome E A) → fn from ≡ o → Final o → loop left from ≡ stop o
  unfolding loop
  loop-Final zero from (returns a) e f = ground arith
  loop-Final zero from (throws x) e f = ground arith
  loop-Final (suc left) from (returns a) e f = ground arith
  loop-Final (suc left) from (throws x) e f = ground arith

  loop_settles :
      (left from k : ℕ) (o : Outcome E A)
      → k ≤ left
      → AllRetried from k
      → fn (from + k) ≡ o
      → Final o
      → loop left from ≡ record { outcome = o; waits = waits_from from k; attempts = suc k }
  unfolding waits_from
  loop_settles left from zero o le h e f =
      loop-Final left from o (subst (λ i. fn i ≡ o) (omega arith) e) f
  loop_settles zero from (suc k) o le h e f = absurd (omega arith)
  loop_settles (suc left) from (suc k) o le h e f = rw (
    loop-retried left from (AllRetried-head from k h),
    loop_settles left (suc from) k o (omega arith) (AllRetried-tail from k h)
        (subst (λ i. fn i ≡ o) (omega arith) e) f,
  )

  loop_exhausted :
      (left from : ℕ) (e : E)
      → AllRetried from (suc left)
      → fn (from + left) ≡ throws e
      → loop left from ≡ record {
        outcome = throws (escalate e);
        waits = waits_from from left;
        attempts = suc left;
      }
  unfolding waits_from loop
  loop_exhausted zero from e h failed =
      let here : fn from ≡ throws e = subst (λ i. fn i ≡ throws e) (omega arith) failed in
      let (x, same, again) = AllRetried-head from 0 h in ground (arith, here, same, again)
  loop_exhausted (suc left) from e h failed = rw (
    loop-retried left from (AllRetried-head from (suc left) h),
    loop_exhausted left (suc from) e (AllRetried-tail from (suc left) h)
        (subst (λ i. fn i ≡ throws e) (omega arith) failed),
  )

  -- If the first `k` attempts fail with errors that are retried, `k` at most `maxRetries`, and the next
  -- one succeeds or fails with an error that is not, the run ends with that result after `k + 1`
  -- attempts. It has waited once, for the attempt's own delay, between two attempts.
  pub with_retry-Final :
      (max_retries k : ℕ) (o : Outcome E A)
      → k ≤ max_retries
      → AllRetried 0 k
      → fn k ≡ o
      → Final o
      → with_retry max_retries ≡ record { outcome = o; waits = waits_from 0 k; attempts = suc k }
  unfolding with_retry
  with_retry-Final n k o le h e f =
      loop_settles n 0 k o le h (subst (λ i. fn i ≡ o) (omega arith) e) f

  -- If all `maxRetries + 1` attempts fail with errors that are retried, the run throws the last one
  -- escalated, and has waited `maxRetries` times.
  pub with_retry-exhausted :
      (max_retries : ℕ) (e : E)
      → AllRetried 0 (suc max_retries)
      → fn max_retries ≡ throws e
      → with_retry max_retries ≡ record {
        outcome = throws (escalate e);
        waits = waits_from 0 max_retries;
        attempts = suc max_retries;
      }
  unfolding with_retry
  with_retry-exhausted n e h failed =
      loop_exhausted n 0 e h (subst (λ i. fn i ≡ throws e) (omega arith) failed)

  pub outcome_cases :
      (o : Outcome E A) → ((e : E) × (o ≡ throws e) × (retryable e ≡ true)) ⊎ Final o
  outcome_cases (returns a) = inr tt
  outcome_cases (throws e) = elim (Bool-cases (retryable e)) [
    | inl again ↦ inl (e, refl, again)
    | inr not_again ↦ inr not_again
  ]

  -- A wait is at most its backoff and at least half of it.
  abbrev pub IsWait : ℕ → ℕ → Type 0
  IsWait k w = (backoff base_delay max_delay k ≤ 2 * w) × (w ≤ backoff base_delay max_delay k)

  -- The waits are those of the attempts from this one on.
  abbrev pub AreWaits : ℕ → List ℕ → Type 0
  AreWaits k [] = Unit
  AreWaits k (w ∷ ws) = IsWait k w × AreWaits (suc k) ws

  module _ (unit : (i : ℕ) → random i < random_unit) where
    wait_of-IsWait : (i : ℕ) → IsWait i (wait_of i)
    unfolding wait_of
    wait_of-IsWait i = (jitter_lower _ (random i), jitter_upper _ (random i) (unit i))

    loop_bounds :
        (left from : ℕ)
        → let r = loop left from in
          (r.attempts ≤ suc left) × (length r.waits + 1 ≡ r.attempts) × AreWaits from r.waits
    loop_bounds zero from = elim (outcome_cases (fn from)) [
      | inl (e, failed, again) ↦ unfold loop in ground (arith, failed, again)
      | inr f ↦ rw (loop-Final zero from (fn from) refl f) (omega arith, refl, tt)
    ]
    loop_bounds (suc left) from = elim (outcome_cases (fn from)) [
      | inl (e, failed, again) ↦
          let (a, b, c) = loop_bounds left (suc from) in
          rw (loop-retried left from (e, failed, again))
            (omega arith, omega arith, (wait_of-IsWait from, c))
      | inr f ↦ rw (loop-Final (suc left) from (fn from) refl f) (omega arith, refl, tt)
    ]

    -- Whatever the attempts do, there is at least one and there are at most `maxRetries + 1`, with one
    -- wait between two of them; the wait after the k-th is at most the backoff
    -- `min(baseDelay * 2 ^ k, maxDelay)` and at least half of it.
    pub with_retry_bounds :
        (max_retries : ℕ)
        → let r = with_retry max_retries in
          (r.attempts ≤ suc max_retries) × (length r.waits + 1 ≡ r.attempts) × AreWaits 0 r.waits
    unfolding with_retry
    with_retry_bounds max_retries = loop_bounds max_retries 0
