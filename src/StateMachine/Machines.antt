-- ===== src/StateMachine/Machines.antt =====
-- api/src/lib/state-machine.ts: the machine definitions, and the registry that the module's
-- `registerMachine` calls build when it is loaded.
mod Lifecycles
mod Accounts
pub use Lifecycles.*
pub use Accounts.*
use walwatch.Prelude.{List, [], ◌∷◌}
use walwatch.StateMachine.{StateMachineDefinition, Registry, Result, ok, ◌>>=◌, register_machine}

-- In the order of the calls.
abbrev pub definitions : List StateMachineDefinition
definitions =
    blob_machine ∷ renewal_machine ∷ policy_machine ∷ alert_rule_machine ∷ alert_event_machine
    ∷ webhook_machine ∷ api_key_machine ∷ budget_machine ∷ spending_limit_machine
    ∷ organization_machine ∷ project_machine ∷ wallet_machine ∷ notification_machine
    ∷ schedule_machine ∷ subscription_machine ∷ []

unfoldable pub register_all : List StateMachineDefinition → Registry → Result Registry
unfolding register_machine
register_all [] machines = ok machines
register_all (def ∷ defs) machines = do
  machines' ← register_machine def machines
  register_all defs machines'
