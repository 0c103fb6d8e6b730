-- ===== src/Cost/Verdict.antt =====
-- What the check before an execution decides.
use walwatch.Prelude.{
  ℕ, ◌+◌, ◌≤◌, ◌<◌, ◌≡◌, ◌≢◌, refl, sym, Bool, true, false, not, ◌&&◌, List, [], ◌∷◌, Option, none,
  some, ltb, ◌==◌, arith, All, Any, select, select-keep, select-skip, subst, any, ◌↔◌, ◌⊎◌, inl,
  inr, Bool-cases,
}
use walwatch.Retry.{Outcome, returns, throws}
use walwatch.Cost.{
  LimitScope, wallet, project, organization, policy, LimitStatus, BudgetStatus, SpendingLimit,
  Budget, Db,
}
use walwatch.Cost.Spent.{get_budget_spent}
use walwatch.Cost.Check.{
  Event, spending_limit_blocked, BudgetCheckResult, Execution, Doubles, passed, blocked,
  crossed_events, is_effective, get_effective_spending_limits, is_checked, crosses, budget_crossed,
  any_crossed, of_spent, find_exceeded, check_budgets, check_budget_before_execution,
}

-- The limit is active, of the organization, and of the execution's wallet, project, organization or policy.
abbrev pub OfScope : Execution → LimitScope → ℕ → Type 0
OfScope e wallet target = e.wallet_id ≡ some target
OfScope e project target = e.project_id ≡ some target
OfScope e organization target = e.org_id ≡ target
OfScope e policy target = e.policy_id ≡ some target

abbrev pub Targets : Execution → SpendingLimit → Type 0
Targets e l =
    (l.org_id ≡ e.org_id) × (l.status ≡ LimitStatus.active) × OfScope e l.scope l.scope_target_id

is_effective-Targets : (e : Execution) (l : SpendingLimit) → (is_effective e l ≡ true) ↔ Targets e l
unfolding is_effective
is_effective-Targets e l = of_fields l.org_id l.status l.scope l.scope_target_id
  where
    of_fields :
        (org : ℕ) (status : LimitStatus) (scope : LimitScope) (target : ℕ)
        → (is_effective e
              (record l { org_id = org; status = status; scope = scope; scope_target_id = target })
            ≡ true)
          ↔ ((org ≡ e.org_id) × (status ≡ LimitStatus.active) × OfScope e scope target)
    of_fields org status wallet target = ground arith
    of_fields org status project target = ground arith
    of_fields org status organization target = ground arith
    of_fields org status policy target = ground arith

-- The budget is active, and of the execution's project, or of its organization as a whole.
abbrev pub Watches : Execution → Budget → Type 0
Watches e b =
    (b.org_id ≡ e.org_id)
    × (b.status ≡ BudgetStatus.active)
    × ((b.project_id ≡ none) ⊎ (b.project_id ≡ e.project_id))

is_checked-Watches : (e : Execution) (b : Budget) → (is_checked e b ≡ true) ↔ Watches e b
unfolding is_checked
is_checked-Watches e b = ground arith

module _ {D E : Type 0} (doubles : Doubles D) (spent : SpendingLimit → Outcome E ℕ) where
  -- What was spent under the limit is told, and leaves room for the cost, or does not.
  abbrev pub HasRoom : ℕ → SpendingLimit → Type 0
  HasRoom cost l = (n : ℕ) × (spent l ≡ returns n) × (n + cost ≤ l.amount)

  abbrev pub Exceeds : ℕ → SpendingLimit → Type 0
  Exceeds cost l = (n : ℕ) × (spent l ≡ returns n) × (l.amount < n + cost)

  -- The first limit that targets the execution and has no room is this one, and it is so.
  abbrev pub First :
      Execution → (SpendingLimit → Type 0) → List SpendingLimit → SpendingLimit → Type 0
  First e P [] l = ⊥
  First e P (k ∷ ks) l =
      (k ≡ l) × Targets e k × P k ⊎ (Targets e k → HasRoom e.estimated_cost k) × First e P ks l

  -- Some active budget of the project or of the organization reaches its threshold, which is not 0.
  abbrev pub ReachesAt : ℕ → ℕ → Option ℕ → Type 0
  ReachesAt amount total none = ⊥
  ReachesAt amount total (some t) = (t ≢ 0) × (crosses doubles t amount total ≡ true)

  abbrev pub Reaches : Db → Execution → Budget → Type 0
  Reaches db e b = ReachesAt b.amount (get_budget_spent db b + e.estimated_cost) b.alert_threshold

  abbrev pub Soft : Db → Execution → Bool → Type 0
  Soft db e soft = (soft ≡ true) ↔ Any (λ b. Watches e b × Reaches db e b) db.budgets

  -- What a check without the override ends with.
  abbrev pub Decides : Db → Execution → Outcome E (BudgetCheckResult × List Event) → Type 0
  Decides db e (throws x) =
      (l : SpendingLimit) × First e (λ k. spent k ≡ throws x) db.spending_limits l
  Decides db e (returns (r, events)) =
      All (λ l. Targets e l → HasRoom e.estimated_cost l) db.spending_limits
        × ((soft : Bool) × Soft db e soft × (r ≡ passed soft) × (events ≡ crossed_events soft))
      ⊎ ((l : SpendingLimit) × First e (Exceeds e.estimated_cost) db.spending_limits l
          × (r ≡ blocked l)
          × (events ≡ spending_limit_blocked l.id ∷ []))

  -- What the loop over the limits that target the execution finds.
  abbrev Finds : Execution → List SpendingLimit → Outcome E (Option SpendingLimit) → Type 0
  Finds e ls (throws x) = (l : SpendingLimit) × First e (λ k. spent k ≡ throws x) ls l
  Finds e ls (returns none) = All (λ l. Targets e l → HasRoom e.estimated_cost l) ls
  Finds e ls (returns (some l)) = First e (Exceeds e.estimated_cost) ls l

  next-Finds :
      (e : Execution) (k : SpendingLimit) (ks : List SpendingLimit)
      (o : Outcome E (Option SpendingLimit))
      → (Targets e k → HasRoom e.estimated_cost k)
      → Finds e ks o
      → Finds e (k ∷ ks) o
  next-Finds e k ks (throws x) room (l, first) = (l, inr (room, first))
  next-Finds e k ks (returns none) room all = (room, all)
  next-Finds e k ks (returns (some l)) room first = inr (room, first)

  of_spent-Finds :
      (e : Execution) (k : SpendingLimit) (ks : List SpendingLimit)
      (rest : Outcome E (Option SpendingLimit)) (s : Outcome E ℕ)
      → spent k ≡ s
      → Targets e k
      → Finds e ks rest
      → Finds e (k ∷ ks) (of_spent doubles spent e.estimated_cost k rest s)
  of_spent-Finds e k ks rest (throws x) asked on h = (k, inl (refl, on, asked))
  of_spent-Finds e k ks rest (returns n) asked on h =
      elim (Bool-cases (ltb k.amount (n + e.estimated_cost))) [
        | inl over ↦ rw over (inl (refl, on, (n, asked, ground (arith, over))))
        | inr room ↦ rw room (next-Finds e k ks rest (λ _. (n, asked, ground (arith, room))) h)
      ]

  find_exceeded-Finds :
      (e : Execution) (ls : List SpendingLimit)
      → Finds e ls (find_exceeded doubles spent e.estimated_cost (select (is_effective e) ls))
  unfolding find_exceeded
  find_exceeded-Finds e [] = tt
  find_exceeded-Finds e (k ∷ ks) = elim (Bool-cases (is_effective e k)) [
    | inl on ↦
        subst (λ ls. Finds e (k ∷ ks) (find_exceeded doubles spent e.estimated_cost ls))
          (sym (select-keep (is_effective e) k ks on))
          (of_spent-Finds e k ks _ (spent k) refl ((is_effective-Targets e k).0 on)
            (find_exceeded-Finds e ks))
    | inr off ↦
        subst (λ ls. Finds e (k ∷ ks) (find_exceeded doubles spent e.estimated_cost ls))
          (sym (select-skip (is_effective e) k ks off))
          (next-Finds e k ks _ (λ t. absurd (cc (off, (is_effective-Targets e k).1 t)))
            (find_exceeded-Finds e ks))
  ]

  budget_crossed-Reaches :
      (db : Db) (e : Execution) (b : Budget)
      → (budget_crossed doubles db e.estimated_cost b ≡ true) ↔ Reaches db e b
  unfolding budget_crossed
  budget_crossed-Reaches db e b =
      of_threshold b.amount (get_budget_spent db b + e.estimated_cost) b.alert_threshold
    where
      of_threshold :
          (amount total : ℕ) (o : Option ℕ)
          → (elim o [ none ↦ false | some t ↦ not (t == 0) && crosses doubles t amount total ]
              ≡ true)
            ↔ ReachesAt amount total o
      of_threshold amount total none = ((λ bad. absurd (cc bad)), λ bad. absurd bad)
      of_threshold amount total (some t) = ground arith

  any-Any :
      (db : Db) (e : Execution) (bs : List Budget)
      → (any (λ b. is_checked e b && budget_crossed doubles db e.estimated_cost b) bs ≡ true)
        ↔ Any (λ b. Watches e b × Reaches db e b) bs
  any-Any db e [] = ((λ bad. absurd (cc bad)), λ bad. absurd bad)
  any-Any db e (b ∷ bs) =
      ground (arith, is_checked-Watches e b, budget_crossed-Reaches db e b, any-Any db e bs)

  check_budgets-Decides :
      (db : Db) (e : Execution) (o : Outcome E (Option SpendingLimit))
      → Finds e db.spending_limits o
      → Decides db e (check_budgets doubles spent db e o)
  unfolding any_crossed
  check_budgets-Decides db e (throws x) h = h
  check_budgets-Decides db e (returns none) h =
      inl (h, (any_crossed doubles db e, any-Any db e db.budgets, refl, refl))
  check_budgets-Decides db e (returns (some l)) h = inr (l, h, refl, refl)

  -- Without the override, the check goes through the active limits of the organization that target the
  -- execution, of its wallet, project, organization or policy, in order. If what was spent under the
  -- first of them that is not told to leave room for the cost is an error, the check ends with it; if it
  -- is told and leaves none, the execution is blocked, that limit is named and an event is emitted for
  -- it. If all leave room the execution is allowed; the soft flag is then set, and two events are
  -- emitted, exactly if some active budget of the project or of the organization reaches its threshold,
  -- by whatever doubles. With the override everything is allowed and nothing is emitted.
  pub check_budget_before_execution-Decides :
      (db : Db) (e : Execution)
      → Decides db e (check_budget_before_execution doubles spent db e false)
        × (check_budget_before_execution doubles spent db e true ≡ returns (passed false, []))
  unfolding check_budget_before_execution get_effective_spending_limits
  check_budget_before_execution-Decides db e =
      (check_budgets-Decides db e _ (find_exceeded-Finds e db.spending_limits), refl)
