-- ===== src/Breaker/Api.antt =====
-- api/src/lib/circuit-breaker.ts: the class, and what holds of it under any interleaving of calls.
use walwatch.Prelude.{
  ℕ, ◌+◌, ◌-◌, ◌≤◌, ◌<◌, ◌≡◌, refl, ◌⊎◌, true, false, List, [], ◌∷◌, leb, if◌then◌else◌, arith, ◌↔◌,
  ◌≢◌, map, length,
}
use walwatch.Breaker.{
  CircuitState, closed, half_open, open_circuit, CircuitBreaker, Admission, admitted, circuit_open,
  currently_probing, is_admitted, Event, calls, succeeds, fails, resets, new,
}

-- The first `if` of `execute`. `Date.now() - lastFailureTime >= timeout`, without a subtraction.
cool_down : CircuitState → ℕ → CircuitBreaker → CircuitBreaker
cool_down open_circuit now b =
    if leb (b.last_failure_time + b.timeout) now then record b { state = half_open } else b
cool_down _ now b = b

-- The guards on `currentState`. `Math.max(0, waitMs)` is the truncated difference.
admit : CircuitState → ℕ → CircuitBreaker → CircuitBreaker × Admission
admit open_circuit now b = (b, circuit_open (b.last_failure_time + b.timeout - now))
admit half_open now b =
    if b.probing then (b, currently_probing) else (record b { probing = true }, admitted)
admit closed now b = (b, admitted)

-- `execute` up to `await fn()`.
unfoldable pub begin : CircuitBreaker → ℕ → CircuitBreaker × Admission
unfolding cool_down admit
begin b now = let b' = cool_down b.state now b in admit b'.state now b'

-- `onSuccess`, and the `finally` block.
unfoldable pub on_success : CircuitBreaker → CircuitBreaker
on_success b = record b { state = closed; failure_count = 0; probing = false }

fail_state : CircuitState → ℕ → ℕ → CircuitState
fail_state half_open count threshold = open_circuit
fail_state s count threshold = if leb threshold count then open_circuit else s

-- `onFailure`, and the `finally` block.
unfoldable pub on_failure : CircuitBreaker → ℕ → CircuitBreaker
unfolding fail_state
on_failure b now = record b {
  failure_count = b.failure_count + 1;
  last_failure_time = now;
  state = fail_state b.state (b.failure_count + 1) b.threshold;
  probing = false;
}

unfoldable pub reset : CircuitBreaker → CircuitBreaker
reset b = record b { state = closed; failure_count = 0; probing = false }

unfoldable pub step : CircuitBreaker → Event → CircuitBreaker
unfolding begin on_success on_failure reset
step b (calls now) = (begin b now).0
step b succeeds = on_success b
step b (fails now) = on_failure b now
step b resets = reset b

unfoldable pub run : CircuitBreaker → List Event → CircuitBreaker
unfolding step
run b [] = b
run b (e ∷ es) = run (step b e) es

-- Closed below the threshold, open or half open from it on; half open exactly while `probing` is set.
pub record Inv (b : CircuitBreaker) : Type 0 where
  pub positive : 0 < b.threshold
  pub below : b.state ≡ closed → b.failure_count < b.threshold
  pub tripped : (b.state ≡ open_circuit) ⊎ (b.state ≡ half_open) → b.threshold ≤ b.failure_count
  pub probe_half_open : b.probing ≡ true → b.state ≡ half_open
  pub half_open_probe : b.state ≡ half_open → b.probing ≡ true

step-Inv : (b : CircuitBreaker) (e : Event) → Inv b → Inv (step b e)
unfolding step
step-Inv b (calls now) h = ground arith
step-Inv b succeeds h = ground arith
step-Inv b (fails now) h = ground arith
step-Inv b resets h = ground arith

run_from-Inv : (b : CircuitBreaker) (es : List Event) → Inv b → Inv (run b es)
unfolding run
run_from-Inv b [] h = h
run_from-Inv b (e ∷ es) h = run_from-Inv (step b e) es (step-Inv b e h)

Inv-summary :
    (b : CircuitBreaker)
    → Inv b
    → ((b.state ≡ closed) ↔ (b.failure_count < b.threshold))
      × ((b.state ≡ half_open) ↔ (b.probing ≡ true))
Inv-summary b h = ground arith

-- With a positive threshold, after any interleaving of calls, results and resets a new breaker is
-- closed exactly when its count of failures is below the threshold, and it is half open exactly when
-- its flag `probing` is set.
pub run-Inv :
    (threshold timeout : ℕ) (es : List Event)
    → 0 < threshold
    → let b = run (new threshold timeout) es in
      ((b.state ≡ closed) ↔ (b.failure_count < b.threshold))
      × ((b.state ≡ half_open) ↔ (b.probing ≡ true))
run-Inv threshold timeout es pos =
    Inv-summary _ (run_from-Inv (new threshold timeout) es (ground arith))

Inv-admission :
    (b : CircuitBreaker) (now later : ℕ)
    → Inv b
    → ((is_admitted (begin b now).1 ≡ true)
        ↔ ((b.state ≡ closed) ⊎ (b.state ≡ open_circuit) × (b.last_failure_time + b.timeout ≤ now)))
      × (b.state ≢ closed
          → is_admitted (begin b now).1 ≡ true
          → (begin (begin b now).0 later).1 ≡ currently_probing)
unfolding begin
Inv-admission b now later h = ground arith

-- With a positive threshold, after any interleaving a call is let through exactly when the breaker is
-- closed, or is open and the timeout has passed since the last failure.
pub admission :
    (threshold timeout : ℕ) (es : List Event) (now : ℕ)
    → 0 < threshold
    → let b = run (new threshold timeout) es in
      (is_admitted (begin b now).1 ≡ true)
      ↔ ((b.state ≡ closed) ⊎ (b.state ≡ open_circuit) × (b.last_failure_time + b.timeout ≤ now))
admission threshold timeout es now pos =
    (Inv-admission _ now now (run_from-Inv (new threshold timeout) es (ground arith))).0

-- A probe's flag, and the state that goes with it.
abbrev IsProbing : CircuitBreaker → Type 0
IsProbing b = (b.state ≡ half_open) × (b.probing ≡ true)

calls-IsProbing :
    (b : CircuitBreaker) (ts : List ℕ) → IsProbing b → IsProbing (run b (map calls ts))
unfolding run step
calls-IsProbing b [] h = h
calls-IsProbing b (t ∷ ts) h =
    calls-IsProbing (begin b t).0 ts (unfold begin in ground (arith, h.0, h.1))

IsProbing-refuses :
    (b : CircuitBreaker) (now : ℕ) → IsProbing b → (begin b now).1 ≡ currently_probing
unfolding begin
IsProbing-refuses b now h = ground (arith, h.0, h.1)

begin-IsProbing :
    (b : CircuitBreaker) (now : ℕ)
    → Inv b
    → b.state ≢ closed
    → is_admitted (begin b now).1 ≡ true
    → IsProbing (begin b now).0
unfolding begin
begin-IsProbing b now h = ground arith

-- With a positive threshold, after any interleaving: once a breaker that is not closed has let a call
-- through, it refuses every call, at any times and however many, until some call settles or the breaker
-- is reset.
pub single_probe :
    (threshold timeout : ℕ) (es : List Event) (now later : ℕ) (between : List ℕ)
    → 0 < threshold
    → (run (new threshold timeout) es).state ≢ closed
    → is_admitted (begin (run (new threshold timeout) es) now).1 ≡ true
    → (begin (run (begin (run (new threshold timeout) es) now).0 (map calls between)) later).1
      ≡ currently_probing
single_probe threshold timeout es now later between pos tripped let_in = IsProbing-refuses _ later (
    calls-IsProbing _ between (
      begin-IsProbing _ now (run_from-Inv (new threshold timeout) es (ground arith)) tripped
        let_in))

fails-count :
    (b : CircuitBreaker) (ts : List ℕ)
    → ((run b (map fails ts)).failure_count ≡ b.failure_count + length ts)
      × ((run b (map fails ts)).threshold ≡ b.threshold)
unfolding run step
fails-count b [] = (omega arith, refl)
fails-count b (t ∷ ts) =
    let ih = fails-count (on_failure b t) ts in
    (unfold on_failure in omega (arith, ih.0), unfold on_failure in ih.1)

fails-probing :
    (b : CircuitBreaker) (ts : List ℕ) → b.probing ≡ false → (run b (map fails ts)).probing ≡ false
unfolding run step
fails-probing b [] h = h
fails-probing b (t ∷ ts) h = fails-probing (on_failure b t) ts (unfold on_failure in refl)

-- With a positive threshold, a new breaker that sees failures only is open after that many failures
-- and on, and closed before.
pub trips_at_threshold :
    (threshold timeout : ℕ) (ts : List ℕ)
    → 0 < threshold
    → let b = run (new threshold timeout) (map fails ts) in
      (length ts < threshold → b.state ≡ closed) × (threshold ≤ length ts → b.state ≡ open_circuit)
trips_at_threshold threshold timeout ts pos =
    let n = new threshold timeout in
    let h = run_from-Inv n (map fails ts) (ground arith) in
    let c = fails-count n ts in
    let p = fails-probing n ts refl in
    tripped_cases (run n (map fails ts)) (length ts) threshold h c.0 c.1 p
  where
    tripped_cases :
        (b : CircuitBreaker) (k threshold : ℕ)
        → Inv b
        → b.failure_count ≡ 0 + k
        → b.threshold ≡ threshold
        → b.probing ≡ false
        → (k < threshold → b.state ≡ closed) × (threshold ≤ k → b.state ≡ open_circuit)
    tripped_cases b k threshold h c e p = ground arith
