-- ===== src/StateMachine/Machines/Lifecycles.antt =====
-- api/src/lib/state-machine.ts: the machines of blobs, renewals, policies and alerts.
use walwatch.Prelude.{[], ◌∷◌, none, some}
use walwatch.StateMachine.{automatic, manual, StateMachineName, StateMachineDefinition, transition}

abbrev pub blob_machine : StateMachineDefinition
blob_machine = record {
  name = StateMachineName.blob;
  states =
      "discovered" ∷ "verified" ∷ "tracked" ∷ "protected" ∷ "expiring" ∷ "renewing" ∷ "renewed"
      ∷ "expired" ∷ "archived" ∷ "deleted" ∷ [];
  initial = "discovered";
  terminal = "deleted" ∷ [];
  transitions =
      transition "discovered" "verified" automatic (some "On first successful verification")
      ∷ transition "verified" "tracked" automatic none
      ∷ transition "tracked" "protected" automatic (some "Policy match")
      ∷ transition "protected" "tracked" automatic (some "Policy unmatch")
      ∷ transition "protected" "expiring" automatic (some "Threshold crossed")
      ∷ transition "expiring" "renewing" automatic (some "If protected — auto-renewal")
      ∷ transition "expiring" "renewing" manual (some "If tracked — manual request")
      ∷ transition "renewing" "renewed" automatic (some "Renewal succeeded")
      ∷ transition "renewing" "expiring" automatic (some "Renewal terminal failure")
      ∷ transition "renewed" "tracked" automatic none
      ∷ transition "renewed" "protected" automatic none
      ∷ transition "expiring" "expired" automatic (some "Epoch passed without renewal")
      ∷ transition "tracked" "archived" manual none
      ∷ transition "protected" "archived" manual none
      ∷ transition "discovered" "archived" manual none
      ∷ transition "verified" "archived" manual none
      ∷ transition "expiring" "archived" manual none
      ∷ transition "renewing" "archived" manual none
      ∷ transition "renewed" "archived" manual none
      ∷ transition "expired" "archived" manual none
      ∷ transition "tracked" "deleted" manual none
      ∷ transition "protected" "deleted" manual none
      ∷ transition "archived" "deleted" manual none
      ∷ transition "expired" "deleted" manual none
      ∷ [];
}

abbrev pub renewal_machine : StateMachineDefinition
renewal_machine = record {
  name = StateMachineName.renewal;
  states =
      "estimated" ∷ "pending" ∷ "in_progress" ∷ "succeeded" ∷ "retrying" ∷ "failed_final"
      ∷ "blocked_by_budget" ∷ [];
  initial = "estimated";
  terminal = "succeeded" ∷ "failed_final" ∷ "blocked_by_budget" ∷ [];
  transitions =
      transition "estimated" "pending" automatic (some "Cost check passed (spec 25)")
      ∷ transition "pending" "in_progress" automatic (some "Dequeued for execution")
      ∷ transition "pending" "blocked_by_budget" automatic
          (some "Hard spending limit would be exceeded")
      ∷ transition "in_progress" "succeeded" automatic (some "Renewal completed")
      ∷ transition "in_progress" "retrying" automatic
          (some "Transient failure, retry budget remaining")
      ∷ transition "in_progress" "failed_final" automatic (some "Retries exhausted")
      ∷ transition "retrying" "in_progress" automatic (some "Next attempt")
      ∷ [];
}

abbrev pub policy_machine : StateMachineDefinition
policy_machine = record {
  name = StateMachineName.policy;
  states = "draft" ∷ "active" ∷ "paused" ∷ "archived" ∷ [];
  initial = "draft";
  terminal = "archived" ∷ [];
  transitions =
      transition "draft" "active" manual (some "Published")
      ∷ transition "active" "paused" manual none
      ∷ transition "paused" "active" manual none
      ∷ transition "active" "archived" manual none
      ∷ transition "paused" "archived" manual none
      ∷ [];
}

abbrev pub alert_rule_machine : StateMachineDefinition
alert_rule_machine = record {
  name = StateMachineName.alert_rule;
  states = "active" ∷ "paused" ∷ "deleted" ∷ [];
  initial = "active";
  terminal = "deleted" ∷ [];
  transitions =
      transition "active" "paused" manual none
      ∷ transition "paused" "active" manual none
      ∷ transition "active" "deleted" manual none
      ∷ transition "paused" "deleted" manual none
      ∷ [];
}

abbrev pub alert_event_machine : StateMachineDefinition
alert_event_machine = record {
  name = StateMachineName.alert_event;
  states =
      "fired" ∷ "delivered" ∷ "acknowledged" ∷ "delivery_failed" ∷ "delivery_failed_final"
      ∷ "escalated" ∷ [];
  initial = "fired";
  terminal = "acknowledged" ∷ "escalated" ∷ [];
  transitions =
      transition "fired" "delivered" automatic (some "All channels delivered")
      ∷ transition "fired" "delivery_failed" automatic (some "All channels failed")
      ∷ transition "delivery_failed" "delivered" automatic (some "Retry succeeded")
      ∷ transition "delivery_failed" "delivery_failed_final" automatic (some "Retries exhausted")
      ∷ transition "delivery_failed_final" "escalated" automatic
          (some "Escalated for human intervention")
      ∷ transition "delivered" "acknowledged" manual (some "User acknowledged")
      ∷ [];
}
