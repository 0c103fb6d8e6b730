-- ===== src/Breaker/Examples.antt =====
-- The breakers on concrete histories, and the theorems at them.
use walwatch.Prelude.{◌↔◌, ◌<◌, ◌≡◌, refl, true, false, List, [], ◌∷◌, arith}
use walwatch.Breaker.{
  closed, half_open, open_circuit, CircuitBreaker, is_admitted, currently_probing, Event, calls,
  succeeds, fails, new,
}
use walwatch.Breaker.Api
use walwatch.Breaker.Keeper
use walwatch.Breaker.Agreement.{Round, api_decisions, keeper_decisions, decisions_agree}

-- Three calls overlap; two fail and trip the breaker, and a probe follows.
abbrev overlapping : List Event
overlapping = calls 0 ∷ calls 1 ∷ calls 2 ∷ fails 3 ∷ fails 4 ∷ calls 40 ∷ []

run-Inv_example :
    let b = Api.run (new 2 30) overlapping in
    ((b.state ≡ closed) ↔ (b.failure_count < b.threshold))
    × ((b.state ≡ half_open) ↔ (b.probing ≡ true))
run-Inv_example = Api.run-Inv 2 30 overlapping (omega arith)

probe_runs : (Api.run (new 2 30) overlapping).state ≡ half_open
unfolding Api.run
probe_runs = refl

abbrev tripped : List Event
tripped = fails 3 ∷ fails 4 ∷ []

single_probe_example :
    (Api.begin
      (Api.run (Api.begin (Api.run (new 2 30) tripped) 34).0 (calls 35 ∷ calls 80 ∷ []))
      90).1
    ≡ currently_probing
single_probe_example =
    Api.single_probe 2 30 tripped 34 90 (35 ∷ 80 ∷ []) (omega arith)
      (unfold Api.run Api.step in λ e. cc) (unfold Api.run Api.step Api.begin in refl)

trips_at_threshold_example :
    (Api.run (new 2 30) (fails 3 ∷ fails 4 ∷ fails 5 ∷ [])).state ≡ open_circuit
trips_at_threshold_example =
    (Api.trips_at_threshold 2 30 (3 ∷ 4 ∷ 5 ∷ []) (omega arith)).1 (omega arith)

-- The keeper's breaker after three overlapping calls, of which two fail.
abbrev stale : List Event
stale = calls 0 ∷ calls 1 ∷ calls 2 ∷ fails 3 ∷ fails 4 ∷ []

abbrev keeper_open : CircuitBreaker
keeper_open = record {
  state = open_circuit;
  failure_count = 2;
  last_failure_time = 4;
  probing = false;
  threshold = 2;
  timeout = 30;
}

keeper_opens : Keeper.run (new 2 30) stale ≡ keeper_open
unfolding Keeper.run
keeper_opens = refl

stale_success_disarms_example :
    let b' = Keeper.run keeper_open (succeeds ∷ calls 34 ∷ fails 35 ∷ []) in
    (b'.state ≡ half_open) × (is_admitted (Keeper.begin b' 36).1 ≡ true)
stale_success_disarms_example =
    Keeper.stale_success_disarms keeper_open 34 35 36 refl (omega arith) (omega arith)

abbrev rounds : List Round
rounds =
    record { begins = 0; succeeds = false; settles = 1 }
    ∷ record { begins = 2; succeeds = false; settles = 3 }
    ∷ record { begins = 4; succeeds = true; settles = 5 }
    ∷ record { begins = 33; succeeds = true; settles = 34 }
    ∷ []

decisions_agree_example : api_decisions (new 2 30) rounds ≡ keeper_decisions (new 2 30) rounds
decisions_agree_example = decisions_agree 2 30 rounds

third_refused : api_decisions (new 2 30) rounds ≡ true ∷ true ∷ false ∷ true ∷ []
unfolding api_decisions Api.begin Api.on_success Api.on_failure
third_refused = refl
