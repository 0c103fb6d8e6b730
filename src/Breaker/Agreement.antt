-- ===== src/Breaker/Agreement.antt =====
-- The two breakers decide alike as long as calls do not overlap: each call settles before the next
-- one begins.
use walwatch.Prelude.{
  ℕ, ◌≤◌, ◌≡◌, refl, ap₂, ◌≢◌, Bool, true, false, List, [], ◌∷◌, if◌then◌else◌, arith,
}
use walwatch.Breaker.{half_open, open_circuit, CircuitBreaker, is_admitted, new}
use walwatch.Breaker.Api
use walwatch.Breaker.Keeper

-- A call: when it begins, and when its `fn` fails, if it does.
pub record Round : Type 0 where
  pub begins : ℕ
  pub succeeds : Bool
  pub settles : ℕ

-- A whole call of `execute`: a refused call leaves the breaker as its first part did.
unfoldable pub api_round : CircuitBreaker → Round → CircuitBreaker × Bool
api_round b r =
    let (b', a) = Api.begin b r.begins in
    if is_admitted a
    then (if r.succeeds then Api.on_success b' else Api.on_failure b' r.settles, true)
    else (b', false)

-- A whole call of `call`.
unfoldable pub keeper_round : CircuitBreaker → Round → CircuitBreaker × Bool
keeper_round b r =
    let (b', a) = Keeper.begin b r.begins in
    if is_admitted a
    then (if r.succeeds then Keeper.on_success b' else Keeper.on_failure b' r.settles, true)
    else (b', false)

-- Which calls are let through.
unfoldable pub api_decisions : CircuitBreaker → List Round → List Bool
unfolding api_round
api_decisions b [] = []
api_decisions b (r ∷ rs) = (api_round b r).1 ∷ api_decisions (api_round b r).0 rs

unfoldable pub keeper_decisions : CircuitBreaker → List Round → List Bool
unfolding keeper_round
keeper_decisions b [] = []
keeper_decisions b (r ∷ rs) = (keeper_round b r).1 ∷ keeper_decisions (keeper_round b r).0 rs

-- The two agree between calls: on all but the time of a failure that did not open the breaker.
record Alike (a k : CircuitBreaker) : Type 0 where
  state : a.state ≡ k.state
  count : a.failure_count ≡ k.failure_count
  threshold : a.threshold ≡ k.threshold
  timeout : a.timeout ≡ k.timeout
  a_idle : a.probing ≡ false
  k_idle : k.probing ≡ false
  settled : a.state ≢ half_open
  time : a.state ≡ open_circuit → a.last_failure_time ≡ k.last_failure_time
  tripped : a.state ≡ open_circuit → a.threshold ≤ a.failure_count

round-Alike :
    (a k : CircuitBreaker) (r : Round)
    → Alike a k
    → Alike (api_round a r).0 (keeper_round k r).0 × ((api_round a r).1 ≡ (keeper_round k r).1)
unfolding api_round keeper_round Api.begin Api.on_success Api.on_failure Keeper.begin
    Keeper.on_success Keeper.on_failure
round-Alike a k r h = ground arith

decisions-Alike :
    (a k : CircuitBreaker) (rs : List Round)
    → Alike a k
    → api_decisions a rs ≡ keeper_decisions k rs
unfolding api_decisions keeper_decisions
decisions-Alike a k [] h = refl
decisions-Alike a k (r ∷ rs) h =
    let (next, same) = round-Alike a k r h in
    ap₂ ◌∷◌ same (decisions-Alike (api_round a r).0 (keeper_round k r).0 rs next)

-- On any sequence of calls that do not overlap, the breaker of the API and that of the keeper, set up
-- alike, let the same calls through.
pub decisions_agree :
    (threshold timeout : ℕ) (rs : List Round)
    → api_decisions (new threshold timeout) rs ≡ keeper_decisions (new threshold timeout) rs
decisions_agree threshold timeout rs = decisions-Alike _ _ rs (ground arith)
