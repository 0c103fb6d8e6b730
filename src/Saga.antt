-- ===== src/Saga.antt =====
-- api/src/lib/compensating-actions.ts: `executeWithCompensation`, on a state that the actions change. A
-- compensation that fails, or takes longer than its timeout, is logged and changes what follows in
-- nothing; what it does to the state is its own. One that goes on after its timeout is left out.
mod Examples
use walwatch.Prelude.{◌≡◌, refl, sym, ap, subst, ◌∙◌, List, [], ◌∷◌, ◌++◌, append_nil, append_assoc}
use walwatch.Retry.{Outcome, returns, throws}

-- `CompensableAction`: what its two functions do to the state.
pub record CompensableAction (S E A : Type 0) : Type 0 where
  pub execute : S → S × Outcome E A
  pub compensate : S → S × Outcome E Unit

-- The action's compensation undoes it, in any state; an action that fails changes nothing.
pub record IsUndone {S E A : Type 0} (action : CompensableAction S E A) : Type 0 where
  pub undoes :
      (s : S) (a : A)
      → (action.execute s).1 ≡ returns a
      → (action.compensate (action.execute s).0).0 ≡ s
  pub fails_clean : (s : S) (e : E) → (action.execute s).1 ≡ throws e → (action.execute s).0 ≡ s

module _ {S E A : Type 0} where
  -- The actions that were completed, the latest first, are compensated in that order.
  unfoldable pub compensate_all : List (CompensableAction S E A) → S → S
  compensate_all [] s = s
  compensate_all (done ∷ more) s = compensate_all more (done.compensate s).0

  abbrev pub after_execute :
      List (CompensableAction S E A)
      → S × Outcome E A
      → (A → S → S × Outcome E (List A))
      → S × Outcome E (List A)
  after_execute completed (s, returns a) next = next a s
  after_execute completed (s, throws e) next = (compensate_all completed s, throws e)

  -- The loop, with the completed actions, the latest first, and the results so far.
  unfoldable pub execute_loop :
      List (CompensableAction S E A)
      → List (CompensableAction S E A)
      → List A
      → S
      → S × Outcome E (List A)
  execute_loop [] completed results s = (s, returns results)
  execute_loop (action ∷ actions) completed results s =
      after_execute completed (action.execute s)
        (λ a s. execute_loop actions (action ∷ completed) (results ++ (a ∷ [])) s)

  -- `executeWithCompensation`.
  unfoldable pub execute_with_compensation :
      List (CompensableAction S E A) → S → S × Outcome E (List A)
  execute_with_compensation actions s = execute_loop actions [] [] s

  -- Every action is executed in turn, with these results.
  pub data Completes : List (CompensableAction S E A) → S → S → List A → Type 0 where
    done : (s : S) → Completes [] s s []
    then :
        (action : CompensableAction S E A) (actions : List (CompensableAction S E A)) (s t : S)
        (a : A) (bs : List A)
        → (action.execute s).1 ≡ returns a
        → Completes actions (action.execute s).0 t bs
        → Completes (action ∷ actions) s t (a ∷ bs)

  abbrev pub AllUndone : List (CompensableAction S E A) → Type 0
  AllUndone [] = Unit
  AllUndone (action ∷ actions) = IsUndone action × AllUndone actions

  -- All or nothing: the results of all actions, or an error and the state from before.
  abbrev pub IsAtomic :
      List (CompensableAction S E A) → S → List A → S → S × Outcome E (List A) → Type 0
  IsAtomic actions s results before (t, returns all) =
      (bs : List A) × Completes actions s t bs × (all ≡ results ++ bs)
  IsAtomic actions s results before (t, throws e) = t ≡ before

  later-IsAtomic :
      (action : CompensableAction S E A) (actions : List (CompensableAction S E A))
      (results : List A) (s t before : S) (a : A) (c : S × Outcome E (List A))
      → action.execute s ≡ (t, returns a)
      → IsAtomic actions t (results ++ (a ∷ [])) before c
      → IsAtomic (action ∷ actions) s results before c
  later-IsAtomic action actions results s t before a (u, returns all) e (bs, completes, same) = (
    a ∷ bs,
    then action actions s u a bs (ap (λ c. c.1) e)
        (subst (λ x. Completes actions x u bs) (sym (ap (λ c. c.0) e)) completes),
    same ∙ append_assoc results (a ∷ []) bs,
  )
  later-IsAtomic action actions results s t before a (u, throws x) e same = same

  step-IsAtomic :
      (action : CompensableAction S E A) (actions completed : List (CompensableAction S E A))
      (results : List A) (s before : S) (c : S × Outcome E A)
      → action.execute s ≡ c
      → IsUndone action
      → compensate_all completed s ≡ before
      → ((a : A) (t : S)
          → (action.compensate t).0 ≡ s
          → IsAtomic actions t
              (results ++ (a ∷ []))
              before
              (execute_loop actions (action ∷ completed) (results ++ (a ∷ [])) t))
      → IsAtomic (action ∷ actions) s results before (
          after_execute completed c
            (λ a t. execute_loop actions (action ∷ completed) (results ++ (a ∷ [])) t))
  step-IsAtomic action actions completed results s before (t, returns a) e undone back ih =
      later-IsAtomic action actions results s t before a _ e (
        ih a t (subst (λ c. (action.compensate c.0).0 ≡ s) e (undone.undoes s a (ap (λ c. c.1) e))))
  step-IsAtomic action actions completed results s before (t, throws x) e undone back ih =
      ap (compensate_all completed)
        (sym (ap (λ c. c.0) e) ∙ undone.fails_clean s x (ap (λ c. c.1) e))
      ∙ back

  loop-IsAtomic :
      (actions completed : List (CompensableAction S E A)) (results : List A) (s before : S)
      → AllUndone actions
      → compensate_all completed s ≡ before
      → IsAtomic actions s results before (execute_loop actions completed results s)
  unfolding execute_loop compensate_all
  loop-IsAtomic [] completed results s before h back = ([], done s, sym (append_nil results))
  loop-IsAtomic (action ∷ actions) completed results s before h back =
      step-IsAtomic action actions completed results s before (action.execute s) refl h.0 back
        (λ a t undone.
          loop-IsAtomic actions (action ∷ completed) (results ++ (a ∷ [])) t before h.1
            (ap (compensate_all completed) undone ∙ back))

  -- If every action is undone by its compensation and changes nothing when it fails, then a run is all or
  -- nothing: it returns the results of all actions, executed in turn, or it throws and the state is as
  -- it was before.
  pub execute_with_compensation-IsAtomic :
      (actions : List (CompensableAction S E A)) (s : S)
      → AllUndone actions
      → IsAtomic actions s [] s (execute_with_compensation actions s)
  unfolding execute_with_compensation compensate_all
  execute_with_compensation-IsAtomic actions s h = loop-IsAtomic actions [] [] s s h refl
