-- ===== src/SuiPool/Examples.antt =====
-- A pool of two endpoints, addresses, and the theorems at them.
use walwatch.Prelude.{ℕ, zero, suc, ◌≡◌, ◌↔◌, refl, true, false, [], ◌∷◌, some, arith}
use walwatch.Breaker.{CircuitBreaker, closed, open_circuit, CircuitState}
use walwatch.Breaker.Keeper.{begin}
use walwatch.Retry.{returns, throws}
use walwatch.SuiPool.{SuiClientPool, Attempt, PoolError, entry_at, call, is_open}
use walwatch.SuiPool.Failover.{after_calls, open_stays, all_open_throws}
use walwatch.SuiPool.Success.{call-Returns, Returns}
use walwatch.SuiPool.Url.{
  is_private_ipv4, is_private_ipv4_iff, IsBlocked, validate_rpc_url, ParsedUrl, http, dotted,
  private_range, numeric,
}

abbrev breaker : CircuitState → CircuitBreaker
breaker state = record {
  state = state;
  failure_count = 5;
  last_failure_time = 1000;
  probing = false;
  threshold = 5;
  timeout = 30000;
}

abbrev half_up : SuiClientPool
half_up = record { entries = breaker open_circuit ∷ breaker closed ∷ []; current_index = 0 }

abbrev all_down : SuiClientPool
all_down = record { entries = breaker open_circuit ∷ breaker open_circuit ∷ []; current_index = 1 }

-- Both endpoints answer, a long time after the breakers opened.
abbrev answers : ℕ → Attempt ℕ ℕ
answers _ = record { begins = 900000; settles = 900001; result = returns 42 }

first_is_skipped : (call answers half_up).1 ≡ returns 42
unfolding call begin
first_is_skipped = refl

call-Returns_example : Returns (call answers half_up)
call-Returns_example =
    call-Returns answers half_up 1 (omega arith) (breaker closed, 42, refl, refl, refl)

open_stays_example :
    entry_at 0 (after_calls (answers ∷ answers ∷ []) half_up).entries ≡ some (breaker open_circuit)
open_stays_example = open_stays (answers ∷ answers ∷ []) half_up 0 (breaker open_circuit) refl refl

each_open :
    (k : ℕ) (c : CircuitBreaker) → entry_at k all_down.entries ≡ some c → is_open c.state ≡ true
each_open zero c there = ground arith
each_open (suc zero) c there = ground arith
each_open (suc (suc k)) c there = absurd (cc there)

all_open_throws_example : (e : PoolError ℕ) × (call answers all_down ≡ (all_down, throws e))
all_open_throws_example = all_open_throws answers all_down each_open

-- An address of the block 18.112.0.0/12, which is a public one.
is_private_ipv4_iff_example : (is_private_ipv4 18 120 3 4 ≡ true) ↔ IsBlocked 18 120
is_private_ipv4_iff_example =
    is_private_ipv4_iff 18 120 3 4 (omega arith) (omega arith) (omega arith) (omega arith)

abbrev loopback : ParsedUrl
loopback = record { protocol = http; hostname = dotted 127 0 0 1 }

loopback_is_refused : validate_rpc_url (some loopback) ≡ private_range
unfolding validate_rpc_url is_private_ipv4 numeric
loopback_is_refused = refl
