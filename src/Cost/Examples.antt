-- ===== src/Cost/Examples.antt =====
-- Budgets and limits on a concrete database, and the theorems at it.
use walwatch.Prelude.{ℕ, ◌*◌, leb, ◌≡◌, refl, true, false, [], ◌∷◌, none, some}
use walwatch.Cost.{
  SpendingLimit, Budget, BudgetStatus, CostRecord, RenewalJob, BlobRegistration, Publisher, Db,
  LimitStatus, organization, daily,
}
use walwatch.Retry.{Outcome, returns, throws}
use walwatch.Cost.Spent.{get_budget_spent}
use walwatch.Cost.Check.{
  get_effective_spending_limits, any_crossed, Execution, Doubles, passed, crossed_events,
  find_exceeded, check_budget_before_execution,
}
use walwatch.Cost.Record.{Records, record_actual_cost, record_actual_cost-Records, find_job}
use walwatch.Cost.Verdict.{Decides, check_budget_before_execution-Decides}

abbrev daily_limit : SpendingLimit
daily_limit = record {
  id = 1;
  org_id = 7;
  scope = organization;
  scope_target_id = 7;
  amount = 100;
  period = daily;
  status = LimitStatus.active;
}

abbrev january : Budget
january = record {
  id = 5;
  org_id = 7;
  project_id = none;
  amount = 100;
  status = BudgetStatus.active;
  alert_threshold = some 80;
  window_start = 1000;
  window_end = some 3000;
}

abbrev spent_before : CostRecord
spent_before = record {
  renewal_job_id = 10;
  actual_cost = 30;
  recorded_at = 1500;
  org_id = 7;
  project_id = none;
}

abbrev open_job : RenewalJob
open_job = record {
  id = 11;
  org_id = 7;
  blob_registration_id = 20;
  actual_cost = none;
  completed_at = none;
}

abbrev blob : BlobRegistration
blob = record { id = 20; org_id = 7; wallet_id = none; size_bytes = some 25 }

abbrev vaulted : Publisher
vaulted = record { org_id = 7; endpoint = 3; is_active = true; sui_vault_id = some 1 }

abbrev db : Db
db = record {
  spending_limits = daily_limit ∷ [];
  budgets = january ∷ [];
  cost_records = spent_before ∷ [];
  renewal_jobs = open_job ∷ [];
  blob_registrations = blob ∷ [];
  policy_assignments = [];
  publishers = vaulted ∷ [];
}

abbrev execution : Execution
execution = record {
  org_id = 7;
  project_id = none;
  wallet_id = none;
  policy_id = none;
  estimated_cost = 55;
}

-- Fractions in place of doubles.
abbrev fractions : Doubles (ℕ × ℕ)
fractions = record {
  of_number = λ n. (n, 1);
  divided = λ x y. (x.0 * y.1, x.1 * y.0);
  times = λ x y. (x.0 * y.0, x.1 * y.1);
  at_least = λ x y. leb (y.0 * x.1) (x.0 * y.1);
}

-- 30 were spent under any limit, or the query is refused.
abbrev told : SpendingLimit → Outcome ℕ ℕ
told _ = returns 30

abbrev query_refused : SpendingLimit → Outcome ℕ ℕ
query_refused _ = throws 42

-- The limit has room for 70 more, and the budget's threshold is reached.
soft_warning :
    check_budget_before_execution fractions told db execution false
    ≡ returns (passed true, crossed_events true)
unfolding check_budget_before_execution get_budget_spent find_exceeded get_effective_spending_limits
    any_crossed
soft_warning = refl

check_budget_before_execution-Decides_example :
    Decides fractions told db execution
      (check_budget_before_execution fractions told db execution false)
    × (check_budget_before_execution fractions told db execution true ≡ returns (passed false, []))
check_budget_before_execution-Decides_example =
    check_budget_before_execution-Decides fractions told db execution

record_actual_cost-Records_example :
    Records db 11 50 2000 none (record_actual_cost db 11 50 2000 none) (find_job 11 db.renewal_jobs)
record_actual_cost-Records_example = record_actual_cost-Records db 11 50 2000 none
