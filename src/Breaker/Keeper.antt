-- ===== src/Breaker/Keeper.antt =====
-- keeper/src/circuit-breaker.ts: the class. Unlike the API's, its success handler closes only a half
-- open breaker, and its failure handler notes the time only when the breaker opens.
use walwatch.Prelude.{
  ℕ, ◌+◌, ◌≤◌, ◌<◌, ◌≡◌, Bool, true, false, not, ◌&&◌, List, [], ◌∷◌, leb, if◌then◌else◌, arith,
}
use walwatch.Breaker.{
  CircuitState, closed, half_open, open_circuit, CircuitBreaker, Admission, admitted, circuit_open,
  currently_probing, is_admitted, Event, calls, succeeds, fails, resets,
}

abbrev is_open : CircuitState → Bool
is_open open_circuit = true
is_open _ = false

abbrev close_probe : CircuitState → CircuitState
close_probe half_open = closed
close_probe s = s

-- The first `if` of `call`.
cool_down : CircuitState → ℕ → CircuitBreaker → CircuitBreaker
cool_down open_circuit now b =
    if leb (b.last_failure_time + b.timeout) now then record b { state = half_open } else b
cool_down _ now b = b

-- The guards on `currentState`. The message of an open breaker tells the count of failures.
admit : CircuitState → CircuitBreaker → CircuitBreaker × Admission
admit open_circuit b = (b, circuit_open b.failure_count)
admit half_open b =
    if b.probing then (b, currently_probing) else (record b { probing = true }, admitted)
admit closed b = (b, admitted)

-- `call` up to `await fn()`.
unfoldable pub begin : CircuitBreaker → ℕ → CircuitBreaker × Admission
unfolding cool_down admit
begin b now = let b' = cool_down b.state now b in admit b'.state b'

-- The rest of the `try` block, and the `finally` block.
unfoldable pub on_success : CircuitBreaker → CircuitBreaker
on_success b = record b { state = close_probe b.state; failure_count = 0; probing = false }

trip : CircuitBreaker → ℕ → CircuitBreaker
trip b now =
    if leb b.threshold b.failure_count && not (is_open b.state)
    then record b { last_failure_time = now; state = open_circuit }
    else b

-- The `catch` block, and the `finally` block.
unfoldable pub on_failure : CircuitBreaker → ℕ → CircuitBreaker
unfolding trip
on_failure b now = record (trip (record b { failure_count = b.failure_count + 1 }) now) {
  probing = false;
}

unfoldable pub reset : CircuitBreaker → CircuitBreaker
reset b = record b { state = closed; failure_count = 0; last_failure_time = 0; probing = false }

unfoldable pub step : CircuitBreaker → Event → CircuitBreaker
unfolding begin on_success on_failure reset
step b (calls now) = (begin b now).0
step b succeeds = on_success b
step b (fails now) = on_failure b now
step b resets = reset b

unfoldable pub run : CircuitBreaker → List Event → CircuitBreaker
unfolding step
run b [] = b
run b (e ∷ es) = run (step b e) es

-- An open breaker with a threshold above 1, to which a call that began earlier reports a success: once
-- the timeout has passed, a probe that then fails leaves the breaker half open, and a call at any later
-- time is let through, without a timeout since that failure.
pub stale_success_disarms :
    (b : CircuitBreaker) (now failed_at later : ℕ)
    → b.state ≡ open_circuit
    → 1 < b.threshold
    → b.last_failure_time + b.timeout ≤ now
    → let b' = run b (succeeds ∷ calls now ∷ fails failed_at ∷ []) in
      (b'.state ≡ half_open) × (is_admitted (begin b' later).1 ≡ true)
unfolding run
stale_success_disarms b now failed_at later opened above cooled = ground arith
