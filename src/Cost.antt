-- ===== src/Cost.antt =====
-- api/src/lib/cost-engine.ts: estimates (`Cost.Estimate`), what a budget spent (`Cost.Spent`), the check
-- before an execution (`Cost.Check`, `Cost.Verdict`), the record of the actual cost (`Cost.Record`) and the rollover
-- of a budget's window (`Cost.Window`). The tables are lists of rows; identifiers are numbers, and
-- amounts are whole units. A query's rows come in the order of the table.
pub mod Estimate
pub mod Spent
pub mod Check
pub mod Record
pub mod Verdict
pub mod Window
mod Examples
use walwatch.Prelude.{ℕ, Bool, true, false, List, Option}

pub data LimitScope : Type 0 where
  wallet project organization policy : LimitScope

pub data LimitStatus : Type 0 where
  defined active paused archived : LimitStatus

pub data BudgetStatus : Type 0 where
  defined active window_closed archived : BudgetStatus

pub data Period : Type 0 where
  daily weekly monthly other_period : Period

pub record SpendingLimit : Type 0 where
  pub id : ℕ
  pub org_id : ℕ
  pub scope : LimitScope
  pub scope_target_id : ℕ
  pub amount : ℕ
  pub period : Period
  pub status : LimitStatus

pub record Budget : Type 0 where
  pub id : ℕ
  pub org_id : ℕ
  pub project_id : Option ℕ
  pub amount : ℕ
  pub status : BudgetStatus
  pub alert_threshold : Option ℕ
  pub window_start : ℕ
  pub window_end : Option ℕ

pub record CostRecord : Type 0 where
  pub renewal_job_id : ℕ
  pub actual_cost : ℕ
  pub recorded_at : ℕ
  pub org_id : ℕ
  pub project_id : Option ℕ

pub record RenewalJob : Type 0 where
  pub id : ℕ
  pub org_id : ℕ
  pub blob_registration_id : ℕ
  pub actual_cost : Option ℕ
  pub completed_at : Option ℕ

pub record BlobRegistration : Type 0 where
  pub id : ℕ
  pub org_id : ℕ
  pub wallet_id : Option ℕ
  pub size_bytes : Option ℕ

pub record PolicyAssignment : Type 0 where
  pub policy_id : ℕ
  pub blob_registration_id : ℕ

pub record Publisher : Type 0 where
  pub org_id : ℕ
  pub endpoint : ℕ
  pub is_active : Bool
  pub sui_vault_id : Option ℕ

pub record Db : Type 0 where
  pub spending_limits : List SpendingLimit
  pub budgets : List Budget
  pub cost_records : List CostRecord
  pub renewal_jobs : List RenewalJob
  pub blob_registrations : List BlobRegistration
  pub policy_assignments : List PolicyAssignment
  pub publishers : List Publisher
