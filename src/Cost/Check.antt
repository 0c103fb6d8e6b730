-- ===== src/Cost/Check.antt =====
-- `getEffectiveSpendingLimits` and `checkBudgetBeforeExecution` of api/src/lib/cost-engine.ts. The
-- events that are emitted come back beside the result, in order. What the query of a limit's spending
-- ends with is a parameter, an error or a sum: each of its texts names an alias, `cr`, that its `FROM`
-- lacks, so that the database refuses it. The arithmetic of doubles is a parameter as well.
use walwatch.Prelude.{
  ℕ, ◌+◌, Bool, true, false, not, ◌&&◌, List, [], ◌∷◌, Option, none, some, ltb, ◌==◌, if◌then◌else◌,
  select, any,
}
use walwatch.Cost.{
  LimitScope, wallet, project, organization, policy, LimitStatus, BudgetStatus, SpendingLimit,
  Budget, Db,
}
use walwatch.Retry.{Outcome, returns, throws}
use walwatch.Cost.Spent.{is_some, get_budget_spent}

pub data Event : Type 0 where
  spending_limit_blocked : ℕ → Event
  budget_threshold_crossed policy_threshold_breached : Event

pub record BudgetCheckResult : Type 0 where
  pub allowed : Bool
  pub soft_threshold_crossed : Bool
  pub hard_limit_blocked : Bool
  pub blocking_limit_id : Option ℕ

-- What an execution is checked for. An identifier that is empty counts as absent.
pub record Execution : Type 0 where
  pub org_id : ℕ
  pub project_id : Option ℕ
  pub wallet_id : Option ℕ
  pub policy_id : Option ℕ
  pub estimated_cost : ℕ

abbrev pub targets : Execution → LimitScope → ℕ → Bool
targets e wallet target = is_some e.wallet_id target
targets e project target = is_some e.project_id target
targets e organization target = e.org_id == target
targets e policy target = is_some e.policy_id target

abbrev pub is_active_limit : LimitStatus → Bool
is_active_limit LimitStatus.active = true
is_active_limit _ = false

abbrev pub is_active_budget : BudgetStatus → Bool
is_active_budget BudgetStatus.active = true
is_active_budget _ = false

unfoldable pub is_effective : Execution → SpendingLimit → Bool
is_effective e l =
    l.org_id == e.org_id && (is_active_limit l.status && targets e l.scope l.scope_target_id)

unfoldable pub get_effective_spending_limits : Db → Execution → List SpendingLimit
unfolding is_effective
get_effective_spending_limits db e = select (is_effective e) db.spending_limits

-- The double-precision numbers of the platform, as the check of a budget uses them.
pub record Doubles (D : Type 0) : Type 0 where
  pub of_number : ℕ → D
  pub divided : D → D → D
  pub times : D → D → D
  pub at_least : D → D → Bool

abbrev pub passed : Bool → BudgetCheckResult
passed soft = record {
  allowed = true;
  soft_threshold_crossed = soft;
  hard_limit_blocked = false;
  blocking_limit_id = none;
}

abbrev pub blocked : SpendingLimit → BudgetCheckResult
blocked l = record {
  allowed = false;
  soft_threshold_crossed = false;
  hard_limit_blocked = true;
  blocking_limit_id = some l.id;
}

abbrev pub crossed_events : Bool → List Event
crossed_events soft = if soft then budget_threshold_crossed ∷ policy_threshold_breached ∷ [] else []

-- The budgets that are looked at: those of the project, if there is one, and those of the organization.
unfoldable pub is_checked : Execution → Budget → Bool
is_checked e b =
    b.org_id == e.org_id
    && (is_active_budget b.status
        && elim b.project_id [ none ↦ true | some p ↦ is_some e.project_id p ])

module _ {D : Type 0} (doubles : Doubles D) where
  -- `((spent + estimatedCost) / amount) * 100 >= threshold`.
  unfoldable pub crosses : ℕ → ℕ → ℕ → Bool
  crosses threshold amount total =
      doubles.at_least
        (doubles.times (doubles.divided (doubles.of_number total) (doubles.of_number amount))
          (doubles.of_number 100))
        (doubles.of_number threshold)

  -- `if (budget.alertThreshold)` and what follows.
  unfoldable pub budget_crossed : Db → ℕ → Budget → Bool
  unfolding crosses
  budget_crossed db cost b = elim b.alert_threshold [
    | none ↦ false
    | some t ↦ not (t == 0) && crosses t b.amount (get_budget_spent db b + cost)
  ]

  unfoldable pub any_crossed : Db → Execution → Bool
  unfolding is_checked budget_crossed
  any_crossed db e = any (λ b. is_checked e b && budget_crossed db e.estimated_cost b) db.budgets

module _ {D E : Type 0} (doubles : Doubles D) (spent : SpendingLimit → Outcome E ℕ) where
  -- The body of the loop over the limits, before the rest of them.
  abbrev pub of_spent :
      ℕ
      → SpendingLimit
      → Outcome E (Option SpendingLimit)
      → Outcome E ℕ
      → Outcome E (Option SpendingLimit)
  of_spent cost l rest (throws x) = throws x
  of_spent cost l rest (returns n) = if ltb l.amount (n + cost) then returns (some l) else rest

  -- The loop: the first limit that would be exceeded.
  unfoldable pub find_exceeded : ℕ → List SpendingLimit → Outcome E (Option SpendingLimit)
  find_exceeded cost [] = returns none
  find_exceeded cost (l ∷ ls) = let rest = find_exceeded cost ls in of_spent cost l rest (spent l)

  -- After the loop over the limits.
  abbrev pub check_budgets :
      Db → Execution → Outcome E (Option SpendingLimit) → Outcome E (BudgetCheckResult × List Event)
  check_budgets db e (throws x) = throws x
  check_budgets db e (returns (some l)) = returns (blocked l, spending_limit_blocked l.id ∷ [])
  check_budgets db e (returns none) =
      let soft = any_crossed doubles db e in returns (passed soft, crossed_events soft)

  unfoldable pub check_budget_before_execution :
      Db → Execution → Bool → Outcome E (BudgetCheckResult × List Event)
  check_budget_before_execution db e spending_limit_overridden =
      if spending_limit_overridden
      then returns (passed false, [])
      else check_budgets db e (find_exceeded e.estimated_cost (get_effective_spending_limits db e))
