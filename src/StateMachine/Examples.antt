-- ===== src/StateMachine/Examples.antt =====
-- The engine at concrete machines and states, and the theorems at them.
use walwatch.Prelude.{◌≡◌, refl, ◌↔◌, true, false, [], ◌∷◌, some, none}
use walwatch.StateMachine.{
  StateMachineName, Transition, transition, automatic, manual, ok, validate_transition,
  valid_next_states, is_terminal,
}
use walwatch.StateMachine.Machines.{blob_machine}
use walwatch.StateMachine.Validation.{Allows, validate_transition_iff}
use walwatch.StateMachine.Registry.{machines, get_machine-machines, terminal_final}

renewing_first :
    validate_transition machines StateMachineName.blob "expiring" "renewing" false
    ≡ ok (transition "expiring" "renewing" automatic (some "If protected — auto-renewal"))
unfolding machines validate_transition
renewing_first = refl

next_of_rotated :
    valid_next_states machines StateMachineName.api_key "rotated" ≡ ok (("revoked", automatic) ∷ [])
unfolding machines valid_next_states
next_of_rotated = refl

archived_is_not_final : is_terminal machines StateMachineName.blob "archived" ≡ ok false
unfolding machines is_terminal
archived_is_not_final = refl

validate_transition_iff_example :
    ((t : Transition) × (validate_transition machines StateMachineName.blob "protected" "expiring"
          false
        ≡ ok t)
      × (t.from ≡ "protected")
      × (t.to ≡ "expiring"))
    ↔ Allows blob_machine "protected" "expiring" false
validate_transition_iff_example =
    validate_transition_iff machines StateMachineName.blob blob_machine "protected" "expiring" false
      (get_machine-machines StateMachineName.blob)

terminal_final_example : ¬ (
    validate_transition machines StateMachineName.renewal "blocked_by_budget" "pending" true
    ≡ ok (transition "blocked_by_budget" "pending" manual none))
terminal_final_example =
    terminal_final StateMachineName.renewal "blocked_by_budget" "pending" true
      (transition "blocked_by_budget" "pending" manual none) refl
