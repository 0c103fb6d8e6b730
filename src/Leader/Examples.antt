-- ===== src/Leader/Examples.antt =====
-- Two instances on the counted lock.
use walwatch.Prelude.{List, ◌≡◌, ◌⊎◌, refl, true, false, ℕ, [], ◌∷◌, none, some, arith}
use walwatch.AdvisoryLock.Counted.{postgres, holder}
use walwatch.Leader.{LeaderElector, new_elector, renew, start, try_acquire}
use walwatch.Leader.Fleet.{
  Call, starts, renews, stops, ends, Ended, perform, perform_all, standing_by,
}
use walwatch.Leader.Election.{one_leader}
use walwatch.Leader.Handover.{renew-other_connection, takes_over}

abbrev first_instance : ℕ
first_instance = 1

abbrev second_instance : ℕ
second_instance = 2

-- The connection of the first instance that holds the lock is closed, and the second one starts.
abbrev idle : List Call
idle = starts 1 0 (some 0) ∷ ends 1 0 ∷ starts 2 25 (some 0) ∷ []

-- Both lead.
one_leader_example :
    (first_instance ≡ second_instance) ⊎ (Ended first_instance idle ⊎ Ended second_instance idle)
unfolding perform perform_all start try_acquire
one_leader_example = one_leader postgres idle none first_instance second_instance refl refl

takes_over_example :
    ((perform postgres (renews 2 40 (some 0)) (
        perform postgres (stops 1 none true) (
          perform_all postgres
            (starts 1 0 (some 0) ∷ starts 2 5 (some 0) ∷ [])
            (standing_by postgres none)))).electors
      2).is_leader
    ≡ true
unfolding perform perform_all start try_acquire
takes_over_example =
    takes_over postgres (starts 1 0 (some 0) ∷ starts 2 5 (some 0) ∷ []) none 1 2 0 40 none refl
      (λ h. h) (λ h. omega (arith, h)) refl

abbrev leading : LeaderElector
leading = record new_elector { is_leader = true }

renew-other_connection_example :
    ((renew postgres 30000 (some (1, 4)) leading (some ((1, 0), 1))).1.is_leader ≡ false)
    × (holder (renew postgres 30000 (some (1, 4)) leading (some ((1, 0), 1))).0 ≡ some (1, 0))
renew-other_connection_example =
    renew-other_connection postgres 1 0 4 30000 leading (some ((1, 0), 1)) refl
      (λ h. omega (arith, h)) refl
