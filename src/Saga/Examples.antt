-- ===== src/Saga/Examples.antt =====
-- Actions on a number: one that adds, and one that always fails.
use walwatch.Prelude.{ℕ, ◌+◌, ◌-◌, ◌≡◌, refl, List, [], ◌∷◌, arith}
use walwatch.Retry.{returns, throws}
use walwatch.Saga.{
  CompensableAction, IsUndone, IsAtomic, compensate_all, execute_loop, execute_with_compensation,
  execute_with_compensation-IsAtomic,
}

abbrev adds : ℕ → CompensableAction ℕ ℕ ℕ
adds n = record { execute = λ s. (s + n, returns s); compensate = λ s. (s - n, returns tt) }

abbrev fails : CompensableAction ℕ ℕ ℕ
fails = record { execute = λ s. (s, throws 500); compensate = λ s. (s, throws 500) }

adds-IsUndone : (n : ℕ) → IsUndone (adds n)
adds-IsUndone n = record { undoes = λ s a e. omega arith; fails_clean = λ s e bad. absurd (cc bad) }

fails-IsUndone : IsUndone fails
fails-IsUndone = record { undoes = λ s a bad. absurd (cc bad); fails_clean = λ s e h. refl }

abbrev actions : List (CompensableAction ℕ ℕ ℕ)
actions = adds 3 ∷ adds 4 ∷ fails ∷ adds 5 ∷ []

is_undone : execute_with_compensation actions 10 ≡ (10, throws 500)
unfolding execute_with_compensation execute_loop compensate_all
is_undone = refl

execute_with_compensation-IsAtomic_example :
    IsAtomic actions 10 [] 10 (execute_with_compensation actions 10)
execute_with_compensation-IsAtomic_example =
    execute_with_compensation-IsAtomic actions 10
      (adds-IsUndone 3, (adds-IsUndone 4, (fails-IsUndone, (adds-IsUndone 5, tt))))
