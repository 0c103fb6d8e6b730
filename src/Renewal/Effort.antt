-- ===== src/Renewal/Effort.antt =====
-- What a renewal costs at most.
use walwatch.Prelude.{
  ℕ, zero, suc, ◌+◌, ◌≤◌, ◌<◌, ◌≡◌, refl, sym, ap, subst, ◌⊎◌, inl, inr, List, [], ◌∷◌, none,
  length, All, arith, min, ◌*◌, ◌^◌,
}
use walwatch.Retry.{Outcome, returns, throws, random_unit, backoff, jitter_upper}
use walwatch.Retry.Jobs.{ThrownError}
use walwatch.SuiPool.{SuiClientPool}
use walwatch.Renewal.{DueVault}
use walwatch.Renewal.FeeConfig.{Cache}
use walwatch.Renewal.Executor.{
  Surroundings, Renewal, FeeSearch, retry_wait, attempts_loop, execute_renewal, after_fee_config,
  searched_pool, search_fee_config, max_retries,
}
use walwatch.Renewal.Attempts.{waits_from, attempts_loop-IsReported}

module _ (vault : DueVault) (env : Surroundings) where
  min_bound : (a b w : ℕ) → w ≤ min a b → w ≤ b
  min_bound a b w h = omega (arith, h)

  waits_from-bounded :
      (made k : ℕ)
      → ((i : ℕ) → env.random i < random_unit)
      → (length (waits_from vault env made k) ≡ k)
        × All (λ w. w ≤ 30000) (waits_from vault env made k)
  unfolding retry_wait backoff
  waits_from-bounded made zero h = (refl, tt)
  waits_from-bounded made (suc k) h =
      let (size, bounded) = waits_from-bounded (suc made) k h in
      let small = jitter_upper (backoff env.retry_delay 30000 made) (env.random made) (h made) in
      (ap suc size, (min_bound (env.retry_delay * 2 ^ made) 30000 _ small, bounded))

  -- What a renewal may do: so many attempts, one wait fewer, and no wait above thirty seconds.
  abbrev pub IsBounded : Renewal → Type 0
  IsBounded run =
      (run.attempts ≤ 3)
      × ((run.attempts ≡ 0) ⊎ (length run.waits + 1 ≡ run.attempts))
      × All (λ w. w ≤ 30000) run.waits

  attempts_loop-IsBounded :
      (pool : SuiClientPool)
      → ((i : ℕ) → env.random i < random_unit)
      → IsBounded (attempts_loop vault env max_retries 0 pool none)
  attempts_loop-IsBounded pool h =
      let (k, o, le, runs, reported) = attempts_loop-IsReported vault env 2 0 pool none in
      let (size, bounded) = waits_from-bounded 0 k h in
      subst IsBounded (sym reported) (omega arith, inr (omega (arith, size)), bounded)

  after_fee-IsBounded :
      (pool : SuiClientPool) (cache : Cache) (o : Outcome ThrownError ℕ)
      → ((i : ℕ) → env.random i < random_unit)
      → IsBounded (after_fee_config vault env pool cache o).1
  after_fee-IsBounded pool cache (returns o) h = attempts_loop-IsBounded pool h
  after_fee-IsBounded pool cache (throws e) h = (omega arith, inl refl, tt)

  -- A renewal makes at most three attempts, each of them one call of the pool, with one wait fewer than
  -- attempts, none of them above thirty seconds. A random number is below one.
  pub execute_renewal-IsBounded :
      (fees : FeeSearch) (package_id system : List ℕ) (cache : Cache) (pool : SuiClientPool)
      → ((i : ℕ) → env.random i < random_unit)
      → IsBounded (execute_renewal vault env fees package_id system cache pool).1
  unfolding execute_renewal
  execute_renewal-IsBounded fees [] system cache pool h = (omega arith, inl refl, tt)
  execute_renewal-IsBounded fees (p ∷ ps) [] cache pool h = (omega arith, inl refl, tt)
  execute_renewal-IsBounded fees (p ∷ ps) (c ∷ cs) cache pool h =
      after_fee-IsBounded (searched_pool env fees (p ∷ ps) cache pool)
        (search_fee_config env fees (p ∷ ps) cache pool).1
        (search_fee_config env fees (p ∷ ps) cache pool).2 h
