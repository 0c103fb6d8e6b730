-- ===== src/SuiPool.antt =====
-- keeper/src/sui-pool.ts: the pool of RPC endpoints, each with its circuit breaker (`SuiPool`), what
-- becomes of open breakers (`SuiPool.Failover`), when a call returns (`SuiPool.Success`), and the
-- check of an endpoint's address (`SuiPool.Url`). Calls of the pool do not overlap here. An endpoint
-- is its place in the list; what the caller's function does there, and when, is a parameter. Logging
-- is left out.
pub mod Failover
pub mod Success
pub mod Url
mod Examples
use walwatch.Prelude.{
  ℕ, zero, suc, ◌+◌, ◌%◌, ◌≡◌, Bool, true, false, List, [], ◌∷◌, Option, none, some, length,
  if◌then◌else◌, map,
}
use walwatch.Breaker.{CircuitState, open_circuit, CircuitBreaker, Admission, is_admitted}
use walwatch.Breaker.Keeper.{begin, on_success, on_failure, reset}
use walwatch.Retry.{Outcome, returns, throws}

pub record SuiClientPool : Type 0 where
  pub entries : List CircuitBreaker
  pub current_index : ℕ

-- A try of an endpoint: when it begins and settles, and what `fn` does.
pub record Attempt (E A : Type 0) : Type 0 where
  pub begins : ℕ
  pub settles : ℕ
  pub result : Outcome E A

-- The error of a call: the last one of its endpoints, or the general one.
pub data PoolError (E : Type 0) : Type 0 where
  breaker_open : ℕ → PoolError E
  refused : Admission → PoolError E
  failed : E → PoolError E
  all_failed : PoolError E

abbrev pub entry_at : ℕ → List CircuitBreaker → Option CircuitBreaker
entry_at n [] = none
entry_at zero (b ∷ bs) = some b
entry_at (suc n) (b ∷ bs) = entry_at n bs

abbrev pub set_entry : ℕ → CircuitBreaker → List CircuitBreaker → List CircuitBreaker
set_entry n c [] = []
set_entry zero c (b ∷ bs) = c ∷ bs
set_entry (suc n) c (b ∷ bs) = b ∷ set_entry n c bs

abbrev pub is_open : CircuitState → Bool
is_open open_circuit = true
is_open _ = false

-- The rest of the loop, as a function of the pool and `lastError`.
abbrev pub Next : Type 0 → Type 0 → Type 0
Next E A = SuiClientPool → PoolError E → SuiClientPool × Outcome (PoolError E) A

module _ {E A : Type 0} where
  abbrev settle :
      CircuitBreaker → Attempt E A → Outcome E A → CircuitBreaker × Outcome (PoolError E) A
  settle b t (returns a) = (on_success b, returns a)
  settle b t (throws e) = (on_failure b t.settles, throws (failed e))

  -- `entry.breaker.call(() => fn(entry.client))`.
  unfoldable pub call_entry :
      CircuitBreaker → Attempt E A → CircuitBreaker × Outcome (PoolError E) A
  unfolding begin on_success on_failure
  call_entry b t =
      let (b', a) = begin b t.begins in
      if is_admitted a then settle b' t t.result else (b', throws (refused a))

  -- What follows a call through the breaker of an endpoint.
  unfoldable pub after_call :
      Next E A
      → SuiClientPool
      → ℕ
      → CircuitBreaker × Outcome (PoolError E) A
      → SuiClientPool × Outcome (PoolError E) A
  after_call next pool idx (b', returns a) = (
    record {
      entries = set_entry idx b' pool.entries;
      current_index = (idx + 1) % length pool.entries;
    },
    returns a,
  )
  after_call next pool idx (b', throws e) =
      next (record { entries = set_entry idx b' pool.entries; current_index = pool.current_index })
        e

  -- An endpoint is skipped if its breaker is open.
  unfoldable pub try_breaker :
      (ℕ → Attempt E A)
      → Next E A
      → SuiClientPool
      → ℕ
      → CircuitBreaker
      → Bool
      → SuiClientPool × Outcome (PoolError E) A
  unfolding after_call call_entry
  try_breaker attempts next pool idx b true = next pool (breaker_open b.failure_count)
  try_breaker attempts next pool idx b false =
      after_call next pool idx (call_entry b (attempts idx))

  unfoldable pub try_entry :
      (ℕ → Attempt E A)
      → Next E A
      → SuiClientPool
      → ℕ
      → Option CircuitBreaker
      → SuiClientPool × Outcome (PoolError E) A
  unfolding try_breaker
  try_entry attempts next pool idx none = (pool, throws all_failed)
  try_entry attempts next pool idx (some b) = try_breaker attempts next pool idx b (is_open b.state)

  -- The loop, with the number of endpoints that are left, the place of the next one, and `lastError`.
  -- The place is always one of the list.
  unfoldable pub call_loop :
      (ℕ → Attempt E A)
      → ℕ
      → ℕ
      → SuiClientPool
      → PoolError E
      → SuiClientPool × Outcome (PoolError E) A
  unfolding try_entry
  call_loop attempts zero at pool last_error = (pool, throws last_error)
  call_loop attempts (suc left) at pool last_error =
      let idx = at % length pool.entries in
      try_entry attempts (λ p e. call_loop attempts left (at + 1) p e) pool idx
        (entry_at idx pool.entries)

  -- `call`.
  unfoldable pub call : (ℕ → Attempt E A) → SuiClientPool → SuiClientPool × Outcome (PoolError E) A
  unfolding call_loop
  call attempts pool = call_loop attempts (length pool.entries) pool.current_index pool all_failed

-- `resetAll`.
unfoldable pub reset_all : SuiClientPool → SuiClientPool
unfolding reset
reset_all pool = record pool { entries = map reset pool.entries }
