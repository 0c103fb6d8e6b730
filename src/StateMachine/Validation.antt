-- ===== src/StateMachine/Validation.antt =====
-- What `validateTransition` accepts and how it refuses.
use walwatch.Prelude.{
  String, ◌≡◌, ◌⊎◌, inl, inr, Bool, true, false, ◌&&◌, List, [], ◌∷◌, some, str_eq, Any, arith,
  eq_iff, Bool-cases, Option-cases, ◌↔◌,
}
use walwatch.StateMachine.{
  StateMachineName, Transition, StateMachineDefinition, Registry, ok, err, get_machine, includes,
  find_transition, check_transition, validate_transition, state_transition, terminal_state,
  not_a_valid_state, not_defined_in_spec,
}

-- The transition leads from the one state to the other.
abbrev pub Joins : String → String → Transition → Type 0
Joins from to t = (t.from ≡ from) × (t.to ≡ to)

-- A machine allows the step, said without the engine's search.
pub record Allows (m : StateMachineDefinition) (from to : String) (override : Bool) : Type 0 where
  pub from_known : includes m.states from ≡ true
  pub to_known : includes m.states to ≡ true
  pub not_final : (includes m.terminal from ≡ false) ⊎ (override ≡ true)
  pub listed : Any (Joins from to) m.transitions

find_transition-Joins :
    (from to : String) (ts : List Transition) {t : Transition}
    → find_transition from to ts ≡ some t
    → Joins from to t × Any (Joins from to) ts
unfolding find_transition
find_transition-Joins from to [] {t} h = cc
find_transition-Joins from to (u ∷ us) {t} h =
    ground (arith, eq_iff u.from from, eq_iff u.to to, find_transition-Joins from to us {t = t})

find_transition_total :
    (from to : String) (ts : List Transition)
    → Any (Joins from to) ts
    → (t : Transition) × (find_transition from to ts ≡ some t)
unfolding find_transition
find_transition_total from to [] h = elim h [ ]
find_transition_total from to (u ∷ us) (inl h) =
    (u, ground (arith, eq_iff u.from from, eq_iff u.to to))
find_transition_total from to (u ∷ us) (inr h) =
    elim (Bool-cases (str_eq u.from from && str_eq u.to to)) [
      | inl e ↦ (u, rw e)
      | inr e ↦ rw e (find_transition_total from to us h)
    ]

check_transition-Allows :
    (m : StateMachineDefinition) (from to : String) (override : Bool) {t : Transition}
    → check_transition m from to override ≡ ok t
    → Allows m from to override × Joins from to t
unfolding check_transition find_transition
check_transition-Allows m from to override h =
    elim (Option-cases (find_transition from to m.transitions)) [
      | inl e ↦ absurd (unfold check_transition in ground (arith, e))
      | inr (u, e) ↦ ground (arith, e, find_transition-Joins from to m.transitions e)
    ]

Allows-check_transition :
    (m : StateMachineDefinition) (from to : String) (override : Bool)
    → Allows m from to override
    → (t : Transition) × (check_transition m from to override ≡ ok t)
unfolding check_transition
Allows-check_transition m from to override a =
    let (t, e) = find_transition_total from to m.transitions a.listed in (t, ground (arith, e))

pub validate_transition-Allows :
    (machines : Registry) (name : StateMachineName) (m : StateMachineDefinition) (from to : String)
    (override : Bool) {t : Transition}
    → get_machine machines name ≡ ok m
    → validate_transition machines name from to override ≡ ok t
    → Allows m from to override × Joins from to t
unfolding validate_transition
validate_transition-Allows machines name m from to override found e =
    check_transition-Allows m from to override (rw found at e)

-- On any registry and any machine in it: a step is accepted, with a transition that joins its two
-- states, exactly when both states belong to the machine, the first is not terminal or the override
-- is set, and the machine lists a transition from the first to the second.
pub validate_transition_iff :
    (machines : Registry) (name : StateMachineName) (m : StateMachineDefinition) (from to : String)
    (override : Bool)
    → get_machine machines name ≡ ok m
    → ((t : Transition) × (validate_transition machines name from to override ≡ ok t)
        × (t.from ≡ from)
        × (t.to ≡ to))
      ↔ Allows m from to override
unfolding validate_transition
validate_transition_iff machines name m from to override found = (
  λ (t, e, _, _). (validate_transition-Allows machines name m from to override found e).0,
  λ a.
      let (t, e) = Allows-check_transition m from to override a in
      let j = (check_transition-Allows m from to override e).1 in (t, rw found e, j.0, j.1),
)

-- On any registry and any machine in it: every refusal names the first test that fails, in the order
-- of the source.
pub validate_transition-err :
    (machines : Registry) (name : StateMachineName) (m : StateMachineDefinition) (from to : String)
    (override : Bool)
    → get_machine machines name ≡ ok m
    → (includes m.states from ≡ false
        → validate_transition machines name from to override
          ≡ err (state_transition m.name from to (not_a_valid_state from)))
      × (includes m.states from ≡ true
          → includes m.states to ≡ false
          → validate_transition machines name from to override
            ≡ err (state_transition m.name from to (not_a_valid_state to)))
      × (includes m.states from ≡ true
          → includes m.states to ≡ true
          → includes m.terminal from ≡ true
          → validate_transition machines name from to false
            ≡ err (state_transition m.name from to (terminal_state from)))
      × (includes m.states from ≡ true
          → includes m.states to ≡ true
          → (includes m.terminal from ≡ false) ⊎ (override ≡ true)
          → ¬ Any (Joins from to) m.transitions
          → validate_transition machines name from to override
            ≡ err (state_transition m.name from to not_defined_in_spec))
unfolding validate_transition check_transition
validate_transition-err machines name m from to override found = rw found (
  λ a. ground arith,
  λ a b. ground arith,
  λ a b c. ground arith,
  λ a b c d. elim (Option-cases (find_transition from to m.transitions)) [
    | inl e ↦ ground (arith, e)
    | inr (t, e) ↦ absurd (d (find_transition-Joins from to m.transitions e).1)
  ],
)
