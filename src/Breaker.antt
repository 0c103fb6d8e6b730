-- ===== src/Breaker.antt =====
-- The circuit breakers of the two services: api/src/lib/circuit-breaker.ts (`Breaker.Api`) and
-- keeper/src/circuit-breaker.ts (`Breaker.Keeper`). A call through a breaker is two steps, since
-- `fn` is awaited between them: what is done before it, and what is done when it settles. An event
-- list is then any interleaving of overlapping calls. Logging and metrics are left out.
pub mod Api
pub mod Keeper
pub mod Agreement
mod Examples
use walwatch.Prelude.{ℕ, Bool, true, false}

pub data CircuitState : Type 0 where
  closed half_open open_circuit : CircuitState

-- `state`, `failureCount`, `lastFailureTime`, `probing`, and the two settings.
pub record CircuitBreaker : Type 0 where
  pub state : CircuitState
  pub failure_count : ℕ
  pub last_failure_time : ℕ
  pub probing : Bool
  pub threshold : ℕ
  pub timeout : ℕ

-- How a call begins: `fn` is run, or the call throws.
pub data Admission : Type 0 where
  admitted : Admission
  circuit_open : ℕ → Admission
  currently_probing : Admission

abbrev pub is_admitted : Admission → Bool
is_admitted admitted = true
is_admitted _ = false

-- What happens to a breaker: a call begins at a time, `fn` of some call succeeds, `fn` of some call
-- fails at a time, or it is reset by hand.
pub data Event : Type 0 where
  calls : ℕ → Event
  succeeds : Event
  fails : ℕ → Event
  resets : Event

abbrev pub new : ℕ → ℕ → CircuitBreaker
new threshold timeout = record {
  state = closed;
  failure_count = 0;
  last_failure_time = 0;
  probing = false;
  threshold = threshold;
  timeout = timeout;
}
