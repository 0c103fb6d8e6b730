-- ===== src/Cost/Spent.antt =====
-- `getBudgetSpent` of api/src/lib/cost-engine.ts: a sum over the cost records of a budget. The sum of a
-- limit, `getSpendingLimitSpent`, is a parameter of `Cost.Check`.
use walwatch.Prelude.{
  ℕ, ◌+◌, ◌*◌, Bool, true, false, ◌&&◌, List, [], ◌∷◌, Option, none, some, leb, ◌==◌, if◌then◌else◌,
}
use walwatch.Cost.{Budget, CostRecord, Db}

-- A column that may be null equals a value; it does not if it is null.
abbrev pub is_some : Option ℕ → ℕ → Bool
is_some none n = false
is_some (some m) n = m == n

abbrev pub is_null : Option ℕ → Bool
is_null none = true
is_null (some _) = false

-- `COALESCE(SUM(actual_cost), 0)` over the records, each with the number of its rows.
unfoldable pub sum_costs : (CostRecord → ℕ) → List CostRecord → ℕ
sum_costs rows [] = 0
sum_costs rows (r ∷ rs) = rows r * r.actual_cost + sum_costs rows rs

abbrev same_project : Option ℕ → Option ℕ → Bool
same_project none r = is_null r
same_project (some p) r = is_some r p

abbrev before_end : Option ℕ → ℕ → Bool
before_end none t = true
before_end (some e) t = leb t e

-- The conditions of `getBudgetSpent`: the records of the budget's project, or of none, in its window.
unfoldable pub in_budget : Budget → CostRecord → Bool
in_budget budget r =
    r.org_id == budget.org_id
    && (leb budget.window_start r.recorded_at
        && (same_project budget.project_id r.project_id
            && before_end budget.window_end r.recorded_at))

unfoldable pub get_budget_spent : Db → Budget → ℕ
unfolding sum_costs in_budget
get_budget_spent db budget = sum_costs (λ r. if in_budget budget r then 1 else 0) db.cost_records
