-- ===== src/StateMachine.antt =====
-- api/src/lib/state-machine.ts, the engine: the registry of machine definitions and the validation
-- of transitions against it. A state is its text, as in the source; `throw` is the result `err`.
pub mod Machines
pub mod Registry
pub mod Validation
pub mod Reachability
mod Examples
use walwatch.Prelude.{
  String, ◌≡◌, Bool, true, false, not, ◌&&◌, List, [], ◌∷◌, Option, none, some, if◌then◌else◌,
  str_eq, any, map,
}

pub data TransitionType : Type 0 where
  automatic manual : TransitionType

pub data StateMachineName : Type 0 where
  blob renewal policy alert_rule alert_event webhook notification wallet : StateMachineName
  project organization api_key budget spending_limit schedule subscription : StateMachineName

pub StateMachineName-discrete : Discrete StateMachineName
StateMachineName-discrete = hlevel

pub record Transition : Type 0 where
  pub from : String
  pub to : String
  pub type : TransitionType
  pub description : Option String

-- The source's helper `t`.
abbrev pub transition : String → String → TransitionType → Option String → Transition
transition from to type description = record {
  from = from;
  to = to;
  type = type;
  description = description;
}

pub record StateMachineDefinition : Type 0 where
  pub name : StateMachineName
  pub states : List String
  pub initial : String
  pub terminal : List String
  pub transitions : List Transition

-- What follows the states in the message of a `StateTransitionError`.
pub data Reason : Type 0 where
  not_a_valid_state : String → Reason
  terminal_state : String → Reason
  not_defined_in_spec : Reason

pub data Error : Type 0 where
  already_registered : StateMachineName → Error
  not_found : StateMachineName → Error
  state_transition : StateMachineName → String → String → Reason → Error

pub data Result {ℓ} (A : Type ℓ) : Type ℓ where
  ok : A → Result A
  err : Error → Result A

infixl 5 ◌>>=◌
abbrev pub ◌>>=◌ {ℓ κ} : {A : Type ℓ} {B : Type κ} → Result A → (A → Result B) → Result B
ok a >>= f = f a
err e >>= f = err e

-- The module's `machines` map: one definition for each name.
abbrev pub Registry : Type 0
Registry = List StateMachineDefinition

abbrev pub same_name : StateMachineName → StateMachineName → Bool
same_name a b = elim (StateMachineName-discrete a b) [ yes _ ↦ true | no _ ↦ false ]

-- `machines.get(name)`.
unfoldable pub get : Registry → StateMachineName → Option StateMachineDefinition
unfolding StateMachineName-discrete
get [] name = none
get (m ∷ ms) name = if same_name m.name name then some m else get ms name

unfoldable pub register_machine : StateMachineDefinition → Registry → Result Registry
unfolding get
register_machine def machines = elim (get machines def.name) [
  | some _ ↦ err (already_registered def.name)
  | none ↦ ok (def ∷ machines)
]

unfoldable pub get_machine : Registry → StateMachineName → Result StateMachineDefinition
unfolding get
get_machine machines name = elim (get machines name) [ some m ↦ ok m | none ↦ err (not_found name) ]

-- `list.includes(s)`.
abbrev pub includes : List String → String → Bool
includes list s = any (λ x. str_eq x s) list

-- `transitions.find((t) => t.from === from && t.to === to)`: the first one that fits.
unfoldable pub find_transition : String → String → List Transition → Option Transition
find_transition from to [] = none
find_transition from to (t ∷ ts) =
    if str_eq t.from from && str_eq t.to to then some t else find_transition from to ts

abbrev or_undefined : StateMachineName → String → String → Option Transition → Result Transition
or_undefined name from to none = err (state_transition name from to not_defined_in_spec)
or_undefined name from to (some t) = ok t

-- The body of `validateTransition` once the machine is at hand.
unfoldable pub check_transition :
    StateMachineDefinition → String → String → Bool → Result Transition
unfolding find_transition
check_transition machine from to allow_terminal_override =
    if not (includes machine.states from)
    then err (state_transition machine.name from to (not_a_valid_state from))
    else if not (includes machine.states to)
    then err (state_transition machine.name from to (not_a_valid_state to))
    else if includes machine.terminal from && not allow_terminal_override
    then err (state_transition machine.name from to (terminal_state from))
    else or_undefined machine.name from to (find_transition from to machine.transitions)

unfoldable pub validate_transition :
    Registry → StateMachineName → String → String → Bool → Result Transition
unfolding get_machine check_transition
validate_transition machines machine_name from to allow_terminal_override = do
  machine ← get_machine machines machine_name
  check_transition machine from to allow_terminal_override

-- The `filter` and the `map` of `validNextStates`.
unfoldable pub next_states : String → List Transition → List (String × TransitionType)
next_states current [] = []
next_states current (t ∷ ts) =
    let rest = next_states current ts in
    if str_eq t.from current then (t.to, t.type) ∷ rest else rest

unfoldable pub valid_next_states :
    Registry → StateMachineName → String → Result (List (String × TransitionType))
unfolding get_machine next_states
valid_next_states machines machine_name current = do
  machine ← get_machine machines machine_name
  ok (next_states current machine.transitions)

unfoldable pub is_terminal : Registry → StateMachineName → String → Result Bool
unfolding get_machine
is_terminal machines machine_name state = do
  machine ← get_machine machines machine_name
  ok (includes machine.terminal state)
