-- ===== src/StateMachine/Machines/Accounts.antt =====
-- api/src/lib/state-machine.ts: the machines of webhooks, keys, budgets and accounts.
use walwatch.Prelude.{[], ◌∷◌, none, some}
use walwatch.StateMachine.{automatic, manual, StateMachineName, StateMachineDefinition, transition}

abbrev pub webhook_machine : StateMachineDefinition
webhook_machine = record {
  name = StateMachineName.webhook;
  states = "created" ∷ "active" ∷ "failing" ∷ "disabled" ∷ "deleted" ∷ [];
  initial = "created";
  terminal = "deleted" ∷ [];
  transitions =
      transition "created" "active" manual none
      ∷ transition "created" "deleted" manual (some "Delete before activation")
      ∷ transition "active" "failing" automatic (some "Delivery failures cross threshold")
      ∷ transition "failing" "active" automatic (some "Subsequent delivery succeeds")
      ∷ transition "failing" "disabled" automatic (some "Threshold exhausted")
      ∷ transition "disabled" "active" manual (some "Re-enabled after fix")
      ∷ transition "active" "deleted" manual none
      ∷ transition "disabled" "deleted" manual none
      ∷ [];
}

abbrev pub api_key_machine : StateMachineDefinition
api_key_machine = record {
  name = StateMachineName.api_key;
  states = "created" ∷ "active" ∷ "rotated" ∷ "revoked" ∷ [];
  initial = "created";
  terminal = "revoked" ∷ [];
  transitions =
      transition "created" "active" manual (some "Activated for use")
      ∷ transition "active" "rotated" manual (some "New key issued, old key in overlap window")
      ∷ transition "active" "revoked" manual (some "Immediate revocation")
      ∷ transition "rotated" "revoked" automatic (some "Overlap window expired")
      ∷ [];
}

abbrev pub budget_machine : StateMachineDefinition
budget_machine = record {
  name = StateMachineName.budget;
  states = "defined" ∷ "active" ∷ "window_closed" ∷ "archived" ∷ [];
  initial = "defined";
  terminal = "archived" ∷ [];
  transitions =
      transition "defined" "active" manual (some "Published")
      ∷ transition "active" "window_closed" automatic (some "Period end")
      ∷ transition "window_closed" "active" automatic (some "Next window rollover")
      ∷ transition "active" "archived" manual none
      ∷ transition "window_closed" "archived" manual none
      ∷ transition "defined" "archived" manual none
      ∷ [];
}

abbrev pub spending_limit_machine : StateMachineDefinition
spending_limit_machine = record {
  name = StateMachineName.spending_limit;
  states = "defined" ∷ "active" ∷ "paused" ∷ "archived" ∷ [];
  initial = "defined";
  terminal = "archived" ∷ [];
  transitions =
      transition "defined" "active" manual (some "Published")
      ∷ transition "active" "paused" manual none
      ∷ transition "paused" "active" manual none
      ∷ transition "active" "archived" manual none
      ∷ transition "paused" "archived" manual none
      ∷ transition "defined" "archived" manual none
      ∷ [];
}

abbrev pub organization_machine : StateMachineDefinition
organization_machine = record {
  name = StateMachineName.organization;
  states = "active" ∷ "suspended" ∷ "deleted" ∷ [];
  initial = "active";
  terminal = "deleted" ∷ [];
  transitions =
      transition "active" "suspended" manual (some "Suspend organization")
      ∷ transition "suspended" "active" manual (some "Unsuspend organization")
      ∷ transition "active" "deleted" manual (some "Delete organization")
      ∷ transition "suspended" "deleted" manual (some "Delete suspended organization")
      ∷ [];
}

abbrev pub project_machine : StateMachineDefinition
project_machine = record {
  name = StateMachineName.project;
  states = "active" ∷ "archived" ∷ "deleted" ∷ [];
  initial = "active";
  terminal = "deleted" ∷ [];
  transitions =
      transition "active" "archived" manual (some "Archive project")
      ∷ transition "archived" "active" manual (some "Unarchive project")
      ∷ transition "active" "deleted" manual (some "Delete project")
      ∷ transition "archived" "deleted" manual (some "Delete archived project")
      ∷ [];
}

abbrev pub wallet_machine : StateMachineDefinition
wallet_machine = record {
  name = StateMachineName.wallet;
  states = "active" ∷ "delegation_revoked" ∷ "deleted" ∷ [];
  initial = "active";
  terminal = "deleted" ∷ [];
  transitions =
      transition "active" "delegation_revoked" manual (some "Revoke delegation")
      ∷ transition "delegation_revoked" "active" manual (some "Reconnect delegation")
      ∷ transition "active" "deleted" manual (some "Delete wallet")
      ∷ [];
}

abbrev pub notification_machine : StateMachineDefinition
notification_machine = record {
  name = StateMachineName.notification;
  states = "queued" ∷ "sent" ∷ "delivered" ∷ "failed" ∷ [];
  initial = "queued";
  terminal = "delivered" ∷ "failed" ∷ [];
  transitions =
      transition "queued" "sent" automatic (some "Delivery attempt started")
      ∷ transition "sent" "delivered" automatic (some "Delivery confirmed")
      ∷ transition "sent" "failed" automatic (some "Permanent delivery failure")
      ∷ [];
}

abbrev pub schedule_machine : StateMachineDefinition
schedule_machine = record {
  name = StateMachineName.schedule;
  states = "active" ∷ "paused" ∷ "deleted" ∷ [];
  initial = "active";
  terminal = "deleted" ∷ [];
  transitions =
      transition "active" "paused" manual none
      ∷ transition "paused" "active" manual none
      ∷ transition "active" "deleted" manual none
      ∷ transition "paused" "deleted" manual none
      ∷ [];
}

abbrev pub subscription_machine : StateMachineDefinition
subscription_machine = record {
  name = StateMachineName.subscription;
  states = "free" ∷ "pro" ∷ "team" ∷ "enterprise" ∷ [];
  initial = "free";
  terminal = [];
  transitions =
      transition "free" "pro" manual (some "Upgrade")
      ∷ transition "pro" "team" manual (some "Upgrade")
      ∷ transition "team" "enterprise" manual (some "Upgrade")
      ∷ transition "enterprise" "team" manual (some "Downgrade")
      ∷ transition "team" "pro" manual (some "Downgrade")
      ∷ transition "pro" "free" manual (some "Downgrade / cancel")
      ∷ transition "enterprise" "free" manual (some "Cancel")
      ∷ transition "team" "free" manual (some "Cancel")
      ∷ [];
}
