-- ===== src/Cost/Window.antt =====
-- `rolloverBudgetWindow` of api/src/lib/cost-engine.ts. `none` is an error that is thrown before
-- anything is written. A window does not end before it starts. The row of the audit log that is
-- written afterwards is left out.
use walwatch.Prelude.{
  ℕ, ◌+◌, ◌-◌, ◌≡◌, ◌≢◌, refl, List, [], ◌∷◌, Option, none, some, ◌==◌, if◌then◌else◌, arith, sym,
  subst, ◌∙◌,
}
use walwatch.Cost.{BudgetStatus, Budget}

unfoldable pub find_budget : ℕ → List Budget → Option Budget
find_budget id [] = none
find_budget id (b ∷ bs) = if b.id == id then some b else find_budget id bs

-- `UPDATE budgets SET ... WHERE id = ...`.
unfoldable pub update_budget : ℕ → (Budget → Budget) → List Budget → List Budget
update_budget id f [] = []
update_budget id f (b ∷ bs) =
    let rest = update_budget id f bs in if b.id == id then f b ∷ rest else b ∷ rest

abbrev close_window : Budget → Budget
close_window b = record b { status = BudgetStatus.window_closed }

abbrev open_window : ℕ → ℕ → Budget → Budget
open_window start end b = record b {
  status = BudgetStatus.active;
  window_start = start;
  window_end = some end;
}

-- The transaction: the window is closed, and the next one, as long as the last, is opened at its end.
unfoldable pub roll_window : Budget → ℕ → List Budget → List Budget
unfolding update_budget
roll_window b end budgets =
    update_budget b.id (open_window end (end + (end - b.window_start)))
      (update_budget b.id close_window budgets)

roll_found : Option Budget → List Budget → Option (List Budget)
unfolding roll_window
roll_found none budgets = none
roll_found (some b) budgets = elim b.window_end [
  | none ↦ none
  | some end ↦ some (roll_window b end budgets)
]

unfoldable pub rollover_budget_window : ℕ → List Budget → Option (List Budget)
unfolding roll_found find_budget
rollover_budget_window budget_id budgets = roll_found (find_budget budget_id budgets) budgets

find_budget-update :
    (id : ℕ) (f : Budget → Budget) (bs : List Budget) {b : Budget}
    → ((x : Budget) → (f x).id ≡ x.id)
    → find_budget id bs ≡ some b
    → find_budget id (update_budget id f bs) ≡ some (f b)
unfolding find_budget update_budget
find_budget-update id f [] {b} same h = cc
find_budget-update id f (x ∷ xs) {b} same h =
    ground (arith, same x, find_budget-update id f xs {b = b} same)

find_budget-update_ne :
    (id other : ℕ) (f : Budget → Budget) (bs : List Budget)
    → ((x : Budget) → (f x).id ≡ x.id)
    → other ≢ id
    → find_budget other (update_budget id f bs) ≡ find_budget other bs
unfolding find_budget update_budget
find_budget-update_ne id other f [] same h = refl
find_budget-update_ne id other f (x ∷ xs) same h =
    ground (arith, same x, find_budget-update_ne id other f xs same h)

find_budget-id : (id : ℕ) (bs : List Budget) {b : Budget} → find_budget id bs ≡ some b → b.id ≡ id
unfolding find_budget
find_budget-id id [] {b} h = cc
find_budget-id id (x ∷ xs) {b} h = ground (arith, find_budget-id id xs {b = b})

-- The budget is rolled over: the next window begins where the last one ended and is as long, the
-- budget is active, and the rest of it and every other budget are as they were.
abbrev pub RolledOver : ℕ → ℕ → Budget → List Budget → List Budget → Type 0
RolledOver id end b before after =
    (find_budget id after
      ≡ some (record b {
        status = BudgetStatus.active;
        window_start = end;
        window_end = some (end + (end - b.window_start));
      }))
    × ((other : ℕ) → other ≢ id → find_budget other after ≡ find_budget other before)

roll_own :
    (end : ℕ) (b : Budget) (budgets : List Budget)
    → find_budget b.id budgets ≡ some b
    → RolledOver b.id end b budgets (roll_window b end budgets)
unfolding roll_window
roll_own end b budgets found =
    let f = open_window end (end + (end - b.window_start)) in
    (
      find_budget-update b.id f (update_budget b.id close_window budgets) (λ x. refl)
          (find_budget-update b.id close_window budgets (λ x. refl) found),
      λ other ne.
          find_budget-update_ne b.id other f (update_budget b.id close_window budgets) (λ x. refl)
            ne
          ∙ find_budget-update_ne b.id other close_window budgets (λ x. refl) ne,
    )

roll_window-RolledOver :
    (id end : ℕ) (b : Budget) (budgets : List Budget)
    → find_budget id budgets ≡ some b
    → RolledOver id end b budgets (roll_window b end budgets)
roll_window-RolledOver id end b budgets found =
    let same = find_budget-id id budgets found in
    subst (λ i. RolledOver i end b budgets (roll_window b end budgets)) same
      (roll_own end b budgets (subst (λ i. find_budget i budgets ≡ some b) (sym same) found))

-- What a call of `rolloverBudgetWindow` does, by the budget and the end of its window.
abbrev pub Rollover : ℕ → List Budget → Option Budget → Option (List Budget) → Type 0
Rollover id budgets none result = result ≡ none
Rollover id budgets (some b) result =
    (b.window_end ≡ none → result ≡ none)
    × ((end : ℕ)
        → b.window_end ≡ some end
        → (after : List Budget) × (result ≡ some after) × RolledOver id end b budgets after)

roll_found-Rollover :
    (id : ℕ) (budgets : List Budget) (o : Option Budget)
    → find_budget id budgets ≡ o
    → Rollover id budgets o (roll_found o budgets)
unfolding roll_found
roll_found-Rollover id budgets none e = refl
roll_found-Rollover id budgets (some b) e = (
  (λ open_ended. ground (arith, open_ended)),
  λ end ends.
      (roll_window b end budgets, ground (arith, ends), roll_window-RolledOver id end b budgets e),
)

-- The rollover of an unknown budget, or of one whose window has no end, throws and writes nothing.
-- Otherwise the budget's next window begins where the last one ended and is as long, the budget is
-- active, the rest of it is as it was, and so is every other budget.
pub rollover_budget_window-Rollover :
    (id : ℕ) (budgets : List Budget)
    → Rollover id budgets (find_budget id budgets) (rollover_budget_window id budgets)
unfolding rollover_budget_window
rollover_budget_window-Rollover id budgets =
    roll_found-Rollover id budgets (find_budget id budgets) refl
