-- ===== src/Renewal/Executor.antt =====
-- keeper/src/executor.ts: `executeRenewal`, for `attempt = 1 .. maxRetries`, over the keeper's pool of
-- endpoints; keeper/src/edge-cases.ts: the check of the chain before an attempt is repeated. The
-- number of attempts that were made is `attempt - 1`. What the endpoints and the aggregator answer,
-- and when, is given for each attempt; a wait is recorded instead of slept.
use walwatch.Prelude.{
  ℕ, zero, suc, ◌+◌, codes, leb, Bool, true, false, ◌&&◌, List, [], ◌∷◌, ◌++◌, Option, none, some,
}
use walwatch.Retry.{Outcome, returns, throws, jitter, backoff}
use walwatch.Retry.Keeper.{last_or}
use walwatch.Retry.Jobs.{ThrownError, is_retryable_job_error}
use walwatch.SuiPool.{
  SuiClientPool, Attempt, PoolError, breaker_open, refused, failed, all_failed, call,
}
use walwatch.Renewal.{DueVault, AlertEvent, RenewalResult}
use walwatch.Renewal.FeeConfig.{SuiObject, Cache, find_fee_config_object}
use walwatch.Renewal.Events.{SuiEvent, error_of, big_int, or_zero, and_then, parse_events}

-- `effects.status`, with an error that is not empty.
pub record TransactionStatus : Type 0 where
  pub is_success : Bool
  pub error : Option (List ℕ)

pub record TransactionEffects : Type 0 where
  pub status : Option TransactionStatus
  pub computation_cost : Option (List ℕ)

pub record TransactionResponse : Type 0 where
  pub digest : ℕ
  pub effects : Option TransactionEffects
  pub events : List SuiEvent

-- What the aggregator says of a blob: the epochs that `??` takes the first of.
pub record ChainState : Type 0 where
  pub epoch : Option ℕ
  pub expiry_epoch : Option ℕ

pub record StateCheck : Type 0 where
  pub verified : Bool
  pub current_state : Option ChainState

-- `verifyOnChainStateBeforeRetry`, of what the request ends with.
unfoldable pub verify_on_chain_state_before_retry :
    {E : Type 0} → Outcome E (Option ChainState) → StateCheck
verify_on_chain_state_before_retry (returns state) = record {
  verified = true;
  current_state = state;
}
verify_on_chain_state_before_retry (throws e) = record { verified = false; current_state = none }

abbrev pub current_epoch : Option ChainState → ℕ
current_epoch none = 0
current_epoch (some s) = elim s.epoch [
  | some n ↦ n
  | none ↦ elim s.expiry_epoch [ some n ↦ n | none ↦ 0 ]
]

-- The error that a call of the pool throws; the messages of the pool's own errors, which name an
-- endpoint's address, are a parameter.
unfoldable pub pool_error : (PoolError ThrownError → List ℕ) → PoolError ThrownError → ThrownError
pool_error text (failed e) = e
pool_error text (breaker_open n) = error_of (text (breaker_open n))
pool_error text (refused a) = error_of (text (refused a))
pool_error text all_failed = error_of (text all_failed)

abbrev pub succeeded : Option TransactionStatus → Bool
succeeded none = false
succeeded (some s) = s.is_success

abbrev failure_text : Option TransactionStatus → List ℕ
failure_text none = codes "Unknown failure"
failure_text (some s) = elim s.error [ some e ↦ e | none ↦ codes "Unknown failure" ]

-- `vault` at one of the attempts: its response, and the alerts of its events.
module _ (vault : DueVault) where
  abbrev pub result_of :
      TransactionResponse → TransactionEffects → List AlertEvent → Outcome ThrownError RenewalResult
  result_of response effects alerts = and_then (big_int (or_zero effects.computation_cost)) λ gas.
      returns record {
        vault_id = vault.id;
        digest = some response.digest;
        gas_used = gas;
        alerts = alerts;
      }

  abbrev pub of_failure :
      TransactionResponse → TransactionEffects → List AlertEvent → Outcome ThrownError RenewalResult
  of_failure response effects [] =
      throws (error_of (codes "Transaction failed: " ++ failure_text effects.status))
  of_failure response effects (a ∷ alerts) = result_of response effects (a ∷ alerts)

  abbrev pub of_status :
      TransactionResponse
      → TransactionEffects
      → List AlertEvent
      → Bool
      → Outcome ThrownError RenewalResult
  of_status response effects alerts true = result_of response effects alerts
  of_status response effects alerts false = of_failure response effects alerts

  abbrev pub of_effects :
      TransactionResponse
      → Option TransactionEffects
      → List AlertEvent
      → Outcome ThrownError RenewalResult
  of_effects response none alerts =
      throws (error_of (codes "Transaction effects missing from RPC response"))
  of_effects response (some effects) alerts =
      of_status response effects alerts (succeeded effects.status)

  -- The rest of the `try` block, after the call.
  unfoldable pub settle_response : ℕ → TransactionResponse → Outcome ThrownError RenewalResult
  settle_response now response =
      and_then (parse_events vault now response.events)
        λ alerts. of_effects response response.effects alerts

  -- The result for a renewal that was already applied.
  abbrev pub already_applied : RenewalResult
  already_applied = record { vault_id = vault.id; digest = none; gas_used = 0; alerts = [] }

-- A whole run: its end, the pool that is left, the waits in order, and the number of attempts,
-- each of them a call of the pool, which may submit to every endpoint in turn.
pub record Renewal : Type 0 where
  pub outcome : Outcome ThrownError RenewalResult
  pub pool : SuiClientPool
  pub waits : List ℕ
  pub attempts : ℕ

-- What a run meets: the endpoints at each attempt, the clock, the messages of the pool, whether there
-- is an aggregator, what it answers after each attempt, the random numbers, and `retryDelayMs`.
pub record Surroundings : Type 0 where
  pub rpc : ℕ → ℕ → Attempt ThrownError TransactionResponse
  pub clock : ℕ → ℕ
  pub text : PoolError ThrownError → List ℕ
  pub has_aggregator : Bool
  pub aggregator : ℕ → Outcome ThrownError (Option ChainState)
  pub random : ℕ → ℕ
  pub retry_delay : ℕ

module _ (vault : DueVault) (env : Surroundings) where
  abbrev pub settle_call :
      ℕ → Outcome (PoolError ThrownError) TransactionResponse → Outcome ThrownError RenewalResult
  settle_call made (returns response) = settle_response vault (env.clock made) response
  settle_call made (throws e) = throws (pool_error env.text e)

  -- The `try` block of an attempt: the pool it leaves, and how it ends.
  unfoldable pub attempt : ℕ → SuiClientPool → SuiClientPool × Outcome ThrownError RenewalResult
  attempt made pool = let (pool', o) = call (env.rpc made) pool in (pool', settle_call made o)

  abbrev pub epoch_reached : StateCheck → Bool
  epoch_reached s =
      s.verified
      && leb (vault.current_end_epoch + vault.renew_by_epochs) (current_epoch s.current_state)

  -- The aggregator is asked, unless this attempt is the last, and shows that the renewal is applied.
  unfoldable pub is_applied : ℕ → ℕ → Bool
  is_applied zero made = false
  is_applied (suc left) made =
      env.has_aggregator && epoch_reached (verify_on_chain_state_before_retry (env.aggregator made))

  -- `applyRetryDelay(attempt)`.
  unfoldable pub retry_wait : ℕ → ℕ
  retry_wait made = jitter (backoff env.retry_delay 30000 made) (env.random made)

  abbrev pub ended : SuiClientPool → Outcome ThrownError RenewalResult → Renewal
  ended pool o = record { outcome = o; pool = pool; waits = []; attempts = 1 }

  -- One more attempt before what follows, and a wait unless it was the last.
  unfoldable pub repeated : ℕ → ℕ → Renewal → Renewal
  repeated zero made rest = record rest { attempts = suc rest.attempts }
  repeated (suc left) made rest = record rest {
    attempts = suc rest.attempts;
    waits = retry_wait made ∷ rest.waits;
  }

  -- The `catch` block, by the tests whether the error is tried again and the renewal is applied.
  abbrev pub after_failure :
      (SuiClientPool → Option ThrownError → Renewal)
      → ℕ
      → ℕ
      → SuiClientPool
      → ThrownError
      → Bool
      → Bool
      → Renewal
  after_failure next left made pool e false done = ended pool (throws e)
  after_failure next left made pool e true true = ended pool (returns (already_applied vault))
  after_failure next left made pool e true false = repeated left made (next pool (some e))

  -- What follows an attempt; `left` is the number of attempts after it.
  unfoldable pub after_attempt :
      (SuiClientPool → Option ThrownError → Renewal)
      → ℕ
      → ℕ
      → SuiClientPool × Outcome ThrownError RenewalResult
      → Renewal
  after_attempt next left made (pool, returns r) = ended pool (returns r)
  after_attempt next left made (pool, throws e) =
      after_failure next left made pool e (is_retryable_job_error e) (is_applied left made)

  unfoldable pub attempts_loop : ℕ → ℕ → SuiClientPool → Option ThrownError → Renewal
  attempts_loop zero made pool last_error = record {
    outcome = throws (last_or (error_of (codes "Max retries exceeded")) last_error);
    pool = pool;
    waits = [];
    attempts = 0;
  }
  attempts_loop (suc left) made pool last_error =
      after_attempt (λ p e. attempts_loop left (suc made) p e) left made (attempt made pool)

abbrev pub max_retries : ℕ
max_retries = 3

-- What the search for the fee object meets: `FEE_CONFIG_CACHE_TTL_MS`, the times of the lookup and of
-- the entry, the endpoints at each query, and random numbers.
pub record FeeSearch : Type 0 where
  pub ttl : ℕ
  pub now : ℕ
  pub stored_at : ℕ
  pub query : ℕ → ℕ → Attempt ThrownError (List SuiObject)
  pub random : ℕ → ℕ

abbrev pub not_submitted : SuiClientPool → ThrownError → Renewal
not_submitted pool e = record { outcome = throws e; pool = pool; waits = []; attempts = 0 }

module _ (env : Surroundings) (fees : FeeSearch) where
  -- The pool after so many queries.
  unfoldable pub pool_after : ℕ → SuiClientPool → SuiClientPool
  pool_after zero pool = pool
  pool_after (suc made) pool = (call (fees.query made) (pool_after made pool)).0

  abbrev pub of_pool :
      Outcome (PoolError ThrownError) (List SuiObject) → Outcome ThrownError (List SuiObject)
  of_pool (returns os) = returns os
  of_pool (throws e) = throws (pool_error env.text e)

  -- A query goes through the pool that the queries before it leave.
  unfoldable pub query_at : SuiClientPool → ℕ → Outcome ThrownError (List SuiObject)
  query_at pool made = of_pool (call (fees.query made) (pool_after made pool)).1

  -- `findFeeConfigObject` over the pool: the number of queries, the cache, and how it ends.
  unfoldable pub search_fee_config :
      List ℕ → Cache → SuiClientPool → ℕ × Cache × Outcome ThrownError ℕ
  search_fee_config package_id cache pool =
      find_fee_config_object fees.ttl fees.now (query_at pool) fees.random fees.stored_at package_id
        cache

  -- The pool that the search leaves.
  abbrev pub searched_pool : List ℕ → Cache → SuiClientPool → SuiClientPool
  searched_pool package_id cache pool = pool_after (search_fee_config package_id cache pool).0 pool

abbrev pub after_fee_config :
    DueVault → Surroundings → SuiClientPool → Cache → Outcome ThrownError ℕ → Cache × Renewal
after_fee_config vault env pool cache (throws e) = (cache, not_submitted pool e)
after_fee_config vault env pool cache (returns fee_config) =
    (cache, attempts_loop vault env max_retries 0 pool none)

-- `executeRenewal`, with the package and the system object of the environment.
unfoldable pub execute_renewal :
    DueVault → Surroundings → FeeSearch → List ℕ → List ℕ → Cache → SuiClientPool → Cache × Renewal
execute_renewal vault env fees [] system cache pool = (
  cache,
  not_submitted pool
      (error_of (codes "PACKAGE_ID environment variable is required to execute renewals")),
)
execute_renewal vault env fees (p ∷ package_id) [] cache pool = (
  cache,
  not_submitted pool
      (error_of (codes "SYSTEM_OBJECT_ID environment variable is required to execute renewals")),
)
execute_renewal vault env fees (p ∷ package_id) (c ∷ system) cache pool =
    let (queries, cache', fee_config) = search_fee_config env fees (p ∷ package_id) cache pool in
    after_fee_config vault env (pool_after env fees queries pool) cache' fee_config
