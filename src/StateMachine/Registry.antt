-- ===== src/StateMachine/Registry.antt =====
-- The registry that loading the module builds, and what holds of every machine in it.
use walwatch.Prelude.{
  String, ◌≡◌, refl, Bool, true, not, ◌&&◌, [], all, All, all-All, arith, All-Any, ap,
}
use walwatch.StateMachine.{
  StateMachineName, StateMachineDefinition, Registry, Result, ok, err, get_machine, Transition,
  includes, validate_transition,
}
use walwatch.StateMachine.Validation.{Allows, validate_transition-Allows}
use walwatch.StateMachine.Machines.{
  definitions, register_all, blob_machine, renewal_machine, policy_machine, alert_rule_machine,
  alert_event_machine, webhook_machine, api_key_machine, budget_machine, spending_limit_machine,
  organization_machine, project_machine, wallet_machine, notification_machine, schedule_machine,
  subscription_machine,
}

-- The definition that the source gives each name.
abbrev pub definition_of : StateMachineName → StateMachineDefinition
definition_of StateMachineName.blob = blob_machine
definition_of StateMachineName.renewal = renewal_machine
definition_of StateMachineName.policy = policy_machine
definition_of StateMachineName.alert_rule = alert_rule_machine
definition_of StateMachineName.alert_event = alert_event_machine
definition_of StateMachineName.webhook = webhook_machine
definition_of StateMachineName.notification = notification_machine
definition_of StateMachineName.wallet = wallet_machine
definition_of StateMachineName.project = project_machine
definition_of StateMachineName.organization = organization_machine
definition_of StateMachineName.api_key = api_key_machine
definition_of StateMachineName.budget = budget_machine
definition_of StateMachineName.spending_limit = spending_limit_machine
definition_of StateMachineName.schedule = schedule_machine
definition_of StateMachineName.subscription = subscription_machine

loaded_or_empty : Result Registry → Registry
loaded_or_empty (ok r) = r
loaded_or_empty (err _) = []

-- `machines` after the module is loaded.
unfoldable pub machines : Registry
unfolding register_all loaded_or_empty
machines = loaded_or_empty (register_all definitions [])

-- No call of `registerMachine` throws, and every name then has its definition.
pub load-ok : register_all definitions [] ≡ ok machines
unfolding machines
load-ok = refl

pub get_machine-machines :
    (name : StateMachineName) → get_machine machines name ≡ ok (definition_of name)
unfolding machines get_machine
get_machine-machines StateMachineName.blob = refl
get_machine-machines _ = refl

-- The four checks of a definition, as tests.
initial_known : StateMachineDefinition → Bool
initial_known m = includes m.states m.initial

terminal_known : StateMachineDefinition → Bool
terminal_known m = all (λ s. includes m.states s) m.terminal

ends_known : StateMachineDefinition → Bool
ends_known m =
    all (λ (t : Transition). includes m.states t.from && includes m.states t.to) m.transitions

terminal_closed : StateMachineDefinition → Bool
terminal_closed m = all (λ (t : Transition). not (includes m.terminal t.from)) m.transitions

pub record IsWellFormed (m : StateMachineDefinition) : Type 0 where
  pub initial : includes m.states m.initial ≡ true
  pub terminal : All (λ s. includes m.states s ≡ true) m.terminal
  pub ends :
      All
        (λ (t : Transition). (includes m.states t.from && includes m.states t.to) ≡ true)
        m.transitions
  pub closed : All (λ (t : Transition). not (includes m.terminal t.from) ≡ true) m.transitions

checked-IsWellFormed :
    (m : StateMachineDefinition)
    → initial_known m ≡ true
    → terminal_known m ≡ true
    → ends_known m ≡ true
    → terminal_closed m ≡ true
    → IsWellFormed m
unfolding initial_known terminal_known ends_known terminal_closed
checked-IsWellFormed m a b c d = record {
  initial = a;
  terminal = all-All _ m.terminal b;
  ends = all-All _ m.transitions c;
  closed = all-All _ m.transitions d;
}

-- The initial and the terminal states of each of the fifteen registered machines are states of the
-- machine, its transitions join states of the machine, and none of them leaves a terminal state.
pub definition_of-IsWellFormed : (name : StateMachineName) → IsWellFormed (definition_of name)
unfolding initial_known terminal_known ends_known terminal_closed
definition_of-IsWellFormed StateMachineName.blob = checked-IsWellFormed _ refl refl refl refl
definition_of-IsWellFormed _ = checked-IsWellFormed _ refl refl refl refl

pub terminal-not-Allows :
    (m : StateMachineDefinition) (from to : String) (override : Bool)
    → IsWellFormed m
    → includes m.terminal from ≡ true
    → ¬ Allows m from to override
terminal-not-Allows m from to override w final a =
    All-Any m.transitions w.closed a.listed
      λ t leaves joins. ground (arith, ap (includes m.terminal) joins.0)

-- No step out of a terminal state of a registered machine is accepted, whether or not the override
-- of terminal states is asked for.
pub terminal_final :
    (name : StateMachineName) (from to : String) (override : Bool) (t : Transition)
    → includes (definition_of name).terminal from ≡ true
    → ¬ (validate_transition machines name from to override ≡ ok t)
terminal_final name from to override t final h =
    terminal-not-Allows (definition_of name) from to override (definition_of-IsWellFormed name)
      final
      (validate_transition-Allows machines name (definition_of name) from to override
        (get_machine-machines name) h).0
