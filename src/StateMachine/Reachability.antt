-- ===== src/StateMachine/Reachability.antt =====
-- Histories of an entity: the states that sequences of validated transitions lead to. Every caller
-- of the engine moves an entity from its present state by `validateTransition`, without the override.
use walwatch.Prelude.{
  ℕ, zero, suc, String, ◌≡◌, refl, sym, subst, Bool, true, false, not, ◌&&◌, List, [], ◌∷◌, all,
  any, All, Any, all-All, inl, inr, arith, eq_iff, str_eq, Bool-cases, if◌then◌else◌, ◌≢◌,
}
use walwatch.StateMachine.{
  StateMachineName, Transition, StateMachineDefinition, includes, ok, validate_transition,
}
use walwatch.StateMachine.Validation.{
  Joins, Allows, validate_transition-Allows, validate_transition_iff,
}
use walwatch.StateMachine.Registry.{
  machines, definition_of, get_machine-machines, definition_of-IsWellFormed, terminal_final,
}

-- The entity has gone from the one state to the other.
pub data Reach (name : StateMachineName) (s : String) : String → Type 0 where
  here : Reach name s s
  next :
      {u v : String}
      → Reach name s u
      → (t : Transition) → validate_transition machines name u v false ≡ ok t
      → Reach name s v

-- One pass over the transitions, and a number of passes.
expand : List Transition → List String → List String
expand [] seen = seen
expand (t ∷ ts) seen =
    let rest = expand ts seen in
    if includes rest t.from && not (includes rest t.to) then t.to ∷ rest else rest

explore : ℕ → List Transition → List String → List String
unfolding expand
explore zero ts seen = seen
explore (suc n) ts seen = expand ts (explore n ts seen)

includes-All :
    (P : String → Type 0) (xs : List String) (s : String) → All P xs → includes xs s ≡ true → P s
includes-All P [] s h e = cc
includes-All P (x ∷ xs) s h e = elim (Bool-cases (str_eq x s)) [
  | inl same ↦ subst P ((eq_iff x s).0 same) h.0
  | inr other ↦ includes-All P xs s h.1 (ground (arith, other))
]

any-All :
    (P : String → Type 0) (p : String → Bool) (xs : List String)
    → All P xs
    → any p xs ≡ true
    → (x : String) × P x × (p x ≡ true)
any-All P p [] h e = cc
any-All P p (x ∷ xs) h e = elim (Bool-cases (p x)) [
  | inl yes_here ↦ (x, h.0, yes_here)
  | inr later ↦ any-All P p xs h.1 (ground (arith, later))
]

expand-All :
    (P : String → Type 0) (ts : List Transition) (seen : List String)
    → All (λ (t : Transition). P t.from → P t.to) ts
    → All P seen
    → All P (expand ts seen)
unfolding expand
expand-All P [] seen steps h = h
expand-All P (t ∷ ts) seen steps h =
    let ih = expand-All P ts seen steps.1 h in
    elim (Bool-cases (includes (expand ts seen) t.from && not (includes (expand ts seen) t.to))) [
      | inl e ↦ rw e (steps.0 (includes-All P (expand ts seen) t.from ih (ground arith)), ih)
      | inr e ↦ rw e ih
    ]

explore-All :
    (P : String → Type 0) (n : ℕ) (ts : List Transition) (seen : List String)
    → All (λ (t : Transition). P t.from → P t.to) ts
    → All P seen
    → All P (explore n ts seen)
unfolding explore
explore-All P zero ts seen steps h = h
explore-All P (suc n) ts seen steps h =
    expand-All P ts (explore n ts seen) steps (explore-All P n ts seen steps h)

-- In a well-formed machine every listed transition is allowed.
listed-Allows :
    (m : StateMachineDefinition) (ts : List Transition)
    → ((t : Transition) → Any (Joins t.from t.to) ts → Any (Joins t.from t.to) m.transitions)
    → All (λ (t : Transition). (includes m.states t.from && includes m.states t.to) ≡ true) ts
    → All (λ (t : Transition). not (includes m.terminal t.from) ≡ true) ts
    → All (λ (t : Transition). Allows m t.from t.to false) ts
listed-Allows m [] sub a b = tt
listed-Allows m (t ∷ ts) sub a b = (
  record {
    from_known = ground (arith, a.0);
    to_known = ground (arith, a.0);
    not_final = inl (ground (arith, b.0));
    listed = sub t (inl (refl, refl));
  },
  listed-Allows m ts (λ u h. sub u (inr h)) a.1 b.1,
)

module _ (name : StateMachineName) (s : String) where
  steps-Reach :
      (ts : List Transition)
      → All (λ (t : Transition). Allows (definition_of name) t.from t.to false) ts
      → All (λ (t : Transition). Reach name s t.from → Reach name s t.to) ts
  steps-Reach [] a = tt
  steps-Reach (t ∷ ts) a = (
    λ r.
        let (u, e, _, _) =
          (validate_transition_iff machines name (definition_of name) t.from t.to false
              (get_machine-machines name)).1
            a.0 in
        next r u e,
    steps-Reach ts a.1,
  )

  explore-Reach : (n : ℕ) → All (Reach name s) (explore n (definition_of name).transitions (s ∷ []))
  explore-Reach n =
      let w = definition_of-IsWellFormed name in
      let m = definition_of name in
      explore-All (Reach name s) n m.transitions (s ∷ [])
        (steps-Reach m.transitions (listed-Allows m m.transitions (λ t h. h) w.ends w.closed))
        (here, tt)

-- Ten passes reach every state from the initial one.
all_found :
    (name : StateMachineName)
    → all
        (includes (explore 10 (definition_of name).transitions ((definition_of name).initial ∷ [])))
        (definition_of name).states
      ≡ true
unfolding explore
all_found StateMachineName.blob = refl
all_found _ = refl

-- Every state of every registered machine can be reached from its initial state by validated steps.
pub initial-Reach :
    (name : StateMachineName) (s : String)
    → includes (definition_of name).states s ≡ true
    → Reach name (definition_of name).initial s
initial-Reach name s known =
    let m = definition_of name in
    let found = explore 10 m.transitions (m.initial ∷ []) in
    includes-All (Reach name m.initial) found s (explore-Reach name m.initial 10) (
      includes-All (λ u. includes found u ≡ true) m.states s (all-All _ m.states (all_found name))
        known)

-- From a terminal state nothing else is reached.
pub Reach-terminal :
    (name : StateMachineName) {s u : String}
    → includes (definition_of name).terminal s ≡ true
    → Reach name s u
    → u ≡ s
Reach-terminal name final here = refl
Reach-terminal name {s} final (next {u = u} {v = v} r t e) = absurd (
    terminal_final name u v false t
      (subst (λ x. includes (definition_of name).terminal x ≡ true)
        (sym (Reach-terminal name final r)) final)
      e)

-- From a state of the machine only states of the machine are reached.
pub Reach-states :
    (name : StateMachineName) {s u : String}
    → includes (definition_of name).states s ≡ true
    → Reach name s u
    → includes (definition_of name).states u ≡ true
Reach-states name known here = known
Reach-states name known (next {u = u} {v = v} r t e) =
    (validate_transition-Allows machines name (definition_of name) u v false
      (get_machine-machines name) e).0.to_known

finish_found :
    (name : StateMachineName)
    → name ≢ StateMachineName.subscription
    → all
        (λ s.
          any
            (includes (definition_of name).terminal)
            (explore 10 (definition_of name).transitions (s ∷ [])))
        (definition_of name).states
      ≡ true
unfolding explore
finish_found StateMachineName.subscription h = absurd (h refl)
finish_found StateMachineName.blob h = refl
finish_found _ h = refl

-- An entity is never stuck: but for subscriptions, whose machine has no terminal state, every state
-- of every registered machine has a way of validated steps to a terminal state.
pub Reach-finish :
    (name : StateMachineName) (s : String)
    → name ≢ StateMachineName.subscription
    → includes (definition_of name).states s ≡ true
    → (f : String) × Reach name s f × (includes (definition_of name).terminal f ≡ true)
Reach-finish name s other known =
    let m = definition_of name in
    any-All (Reach name s) (includes m.terminal) (explore 10 m.transitions (s ∷ []))
      (explore-Reach name s 10)
      (includes-All (λ u. any (includes m.terminal) (explore 10 m.transitions (u ∷ [])) ≡ true)
        m.states s (all-All _ m.states (finish_found name other)) known)
