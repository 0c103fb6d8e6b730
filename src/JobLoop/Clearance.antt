-- ===== src/JobLoop/Clearance.antt =====
-- When the loop executes a renewal.
use walwatch.Prelude.{
  ℕ, ap₂, ◌||◌, ◌==◌, ◌≡◌, refl, sym, ap, subst, ◌∙◌, ◌⊎◌, inl, inr, Bool, true, false, not, ◌&&◌,
  List, [], ◌∷◌, Option, none, some, any, arith, if◌then◌else◌,
}
use walwatch.Renewal.{DueVault}
use walwatch.JobLoop.{
  JobStatus, estimated, pending, in_progress, succeeded, retrying, failed_final, blocked_by_budget,
  RenewalJob, Store, Answers, validates, update_jobs, same_job, set_job, with_status, move_blob,
  is_registered, is_succeeded, is_in_progress, has_other, Processed, skipped, thrown, settle,
  of_renewal, finished, refused, with_vault, run_job, is_free_job, pick_up, attached, check_others,
  to_pending, over_budget, check_budget, refreshed, re_estimate, of_status, process_job, picked,
  expiring, renewing,
}
use walwatch.Cost.Estimate.{is_estimate_fresh}
use walwatch.JobLoop.Settled.{AllSettled, of_renewal-settled}

-- What has to hold for a renewal to be executed.
abbrev pub needs_budget : JobStatus → Bool
needs_budget estimated = true
needs_budget pending = true
needs_budget _ = false

abbrev pub IsReady : Answers → Type 0
IsReady answers =
    (answers.auto_renewal_enabled ≡ true)
    × (answers.publisher_available ≡ true)
    × ((v : DueVault) × (answers.vault ≡ some v))

abbrev pub IsAlone : RenewalJob → Store → Type 0
IsAlone job s = (has_other is_succeeded job s ≡ false) × (has_other is_in_progress job s ≡ false)

abbrev pub IsAllowed : Answers → RenewalJob → Type 0
IsAllowed answers job = (needs_budget job.status ≡ false) ⊎ (answers.is_allowed ≡ true)

both_tests :
    (r a : Bool) (w x y : Processed)
    → x.executed ≡ false
    → y.executed ≡ false
    → (if r then if a then w else x else y).executed ≡ true
    → (a ≡ true) × (w ≡ (if r then if a then w else x else y))
both_tests true true w x y e g h = (refl, refl)
both_tests true false w x y e g h = absurd (cc (e, h))
both_tests false a w x y e g h = absurd (cc (g, h))

neither_test :
    (b c : Bool) (x y w : Processed)
    → x.executed ≡ false
    → y.executed ≡ false
    → (if b then x else if c then y else w).executed ≡ true
    → (b ≡ false) × (c ≡ false) × (w ≡ (if b then x else if c then y else w))
neither_test true c x y w e g h = absurd (cc (e, h))
neither_test false true x y w e g h = absurd (cc (g, h))
neither_test false false x y w e g h = (refl, refl, refl)

-- What the executions of a renewal leave holds of every store that the loop leaves after one.
module _ (answers : Answers) (job : RenewalJob) (Q : Store → Type 0)
    (settles : (s : Store) → Q (of_renewal answers job answers.renewal s)) where
  vault-settled :
      (o : Option DueVault) (s : Store)
      → (with_vault answers job o s).executed ≡ true
      → (answers.publisher_available ≡ true)
        × ((v : DueVault) × (o ≡ some v))
        × Q (with_vault answers job o s).store
  vault-settled none s h = absurd (cc h)
  vault-settled (some v) s h = of_publisher answers.publisher_available h
    where
      of_publisher :
          (b : Bool)
          → (if b then finished answers job s else refused answers job failed_final s).executed
            ≡ true
          → (b ≡ true)
            × ((w : DueVault) × (some v ≡ some w))
            × Q (if b then finished answers job s else refused answers job failed_final s).store
      of_publisher true e = (refl, (v, refl), settles s)
      of_publisher false e = absurd (cc e)

  -- The renewal was executed with everything ready, and it has left the store so.
  abbrev ReadyAnd : Processed → Type 0
  ReadyAnd p = IsReady answers × Q p.store

  run_job-settled :
      (s : Store) → (run_job answers job s).executed ≡ true → ReadyAnd (run_job answers job s)
  unfolding run_job
  run_job-settled s h =
      let (enabled, same) =
        both_tests (is_registered job.blob_registration_id s) answers.auto_renewal_enabled
          (with_vault answers job answers.vault s) (refused answers job blocked_by_budget s)
          (refused answers job failed_final s) refl refl h in
      let (available, vault, settled) =
        vault-settled answers.vault s (ap (λ p. p.executed) same ∙ h) in
      ((enabled, available, vault), subst (λ p. Q p.store) same settled)

  pick_up-settled :
      (s : Store) → (pick_up answers job s).executed ≡ true → ReadyAnd (pick_up answers job s)
  unfolding pick_up
  pick_up-settled s h = of_free (any (is_free_job answers job) s.renewal_jobs) h
    where
      marked : Store
      marked = move_blob job.blob_registration_id expiring renewing (record s {
        renewal_jobs = update_jobs (is_free_job answers job) (picked answers job) s.renewal_jobs;
      })

      of_free :
          (b : Bool)
          → (if b then run_job answers job marked else skipped s).executed ≡ true
          → ReadyAnd (if b then run_job answers job marked else skipped s)
      of_free true e = run_job-settled marked e
      of_free false e = absurd (cc e)

  check_others-settled :
      (s : Store)
      → (check_others answers job s).executed ≡ true
      → IsAlone job s × ReadyAnd (check_others answers job s)
  unfolding check_others
  check_others-settled s h =
      let (none_done, none_active, same) =
        neither_test (has_other is_succeeded job s) (has_other is_in_progress job s)
          (skipped (settle answers job succeeded s))
          (skipped (set_job job.id (attached answers job) s)) (pick_up answers job s) refl refl h in
      (
        (none_done, none_active),
        subst ReadyAnd same (pick_up-settled s (ap (λ p. p.executed) same ∙ h)),
      )

  has_other-set_job :
      (p : JobStatus → Bool) (f : RenewalJob → RenewalJob) (s : Store)
      → ((j : RenewalJob) → (f j).id ≡ j.id)
      → has_other p job (set_job job.id f s) ≡ has_other p job s
  has_other-set_job p f s keeps = of_rows s.renewal_jobs
    where
      excluded : (a b c : Bool) → c ≡ true → (a && b && not c) ≡ false
      excluded a b c h = ground (arith, h)

      row :
          (j : RenewalJob) (b : Bool)
          → same_job job.id j ≡ b
          → (let k = if b then f j else j in
              k.blob_registration_id == job.blob_registration_id
              && p k.status
              && not (k.id == job.id))
            ≡ (j.blob_registration_id == job.blob_registration_id
                && p j.status
                && not (j.id == job.id))
      row j false e = refl
      row j true e =
          excluded ((f j).blob_registration_id == job.blob_registration_id) (p (f j).status)
            ((f j).id == job.id) (ap (λ n. n == job.id) (keeps j) ∙ e)
          ∙ sym (
              excluded (j.blob_registration_id == job.blob_registration_id) (p j.status)
                (j.id == job.id) e)

      of_rows :
          (js : List RenewalJob)
          → any
              (λ j.
                j.blob_registration_id == job.blob_registration_id
                && p j.status
                && not (j.id == job.id))
              (update_jobs (same_job job.id) f js)
            ≡ any
                (λ j.
                  j.blob_registration_id == job.blob_registration_id
                  && p j.status
                  && not (j.id == job.id))
                js
      of_rows [] = refl
      of_rows (j ∷ js) = ap₂ (◌||◌) (row j (same_job job.id j) refl) (of_rows js)

  has_other-settle :
      (p : JobStatus → Bool) (status : JobStatus) (s : Store)
      → has_other p job (settle answers job status s) ≡ has_other p job s
  has_other-settle p status s = has_other-set_job p (with_status status) s (λ j. refl)

  has_other-refreshed :
      (p : JobStatus → Bool) (o : Option ℕ) (s : Store)
      → has_other p job (refreshed answers job o s) ≡ has_other p job s
  has_other-refreshed p none s = refl
  has_other-refreshed p (some t) s =
      of_test (is_estimate_fresh answers.max_staleness_ms answers.now t)
    where
      of_test :
          (b : Bool)
          → has_other p job (if b then s else set_job job.id (re_estimate answers job) s)
            ≡ has_other p job s
      of_test true = refl
      of_test false = has_other-set_job p (re_estimate answers job) s (λ j. refl)

  has_other-to_pending :
      (p : JobStatus → Bool) (st : JobStatus) (s : Store)
      → has_other p job (to_pending answers job st s) ≡ has_other p job s
  has_other-to_pending p estimated s = has_other-settle p pending s
  has_other-to_pending p pending s = refl
  has_other-to_pending p in_progress s = refl
  has_other-to_pending p succeeded s = refl
  has_other-to_pending p retrying s = refl
  has_other-to_pending p failed_final s = refl
  has_other-to_pending p blocked_by_budget s = refl

  has_other-checked :
      (p : JobStatus → Bool) (s : Store)
      → has_other p job
          (to_pending answers job job.status (refreshed answers job job.estimated_at s))
        ≡ has_other p job s
  has_other-checked p s =
      has_other-to_pending p job.status (refreshed answers job job.estimated_at s)
      ∙ has_other-refreshed p job.estimated_at s

  over_budget-executed : (s : Store) → (over_budget answers job s).executed ≡ false
  over_budget-executed s = of_test (validates job.status blocked_by_budget)
    where
      of_test :
          (b : Bool)
          → (if b then skipped (settle answers job blocked_by_budget s) else thrown s).executed
            ≡ false
      of_test true = refl
      of_test false = refl

  -- The renewal was executed as it may be, and it has left the store so.
  abbrev pub ClearedFor : Store → Processed → Type 0
  ClearedFor s p = IsAllowed answers job × IsAlone job s × IsReady answers × Q p.store

  budgeted-ClearedFor :
      (s : Store)
      → (check_budget answers job s).executed ≡ true
      → ClearedFor s (check_budget answers job s)
  unfolding check_budget
  budgeted-ClearedFor s h =
      let s' = refreshed answers job job.estimated_at s in
      let (allowed, same) =
        both_tests (is_registered job.blob_registration_id s) answers.is_allowed
          (check_others answers job (to_pending answers job job.status s'))
          (over_budget answers job s') (skipped (settle answers job failed_final s))
          (over_budget-executed s') refl h in
      let ((none_done, none_active), (ready, settled)) =
        check_others-settled (to_pending answers job job.status s')
          (ap (λ p. p.executed) same ∙ h) in
      (
        inr allowed,
        (
          sym (has_other-checked is_succeeded s) ∙ none_done,
          sym (has_other-checked is_in_progress s) ∙ none_active,
        ),
        ready,
        subst (λ p. Q p.store) same settled,
      )

  unbudgeted-ClearedFor :
      (s : Store)
      → needs_budget job.status ≡ false
      → (check_others answers job s).executed ≡ true
      → ClearedFor s (check_others answers job s)
  unbudgeted-ClearedFor s free h =
      let (alone, (ready, settled)) = check_others-settled s h in (inl free, alone, ready, settled)

  status-ClearedFor :
      (st : JobStatus) (s : Store)
      → job.status ≡ st
      → (of_status answers job st s).executed ≡ true
      → ClearedFor s (of_status answers job st s)
  status-ClearedFor estimated s e h = budgeted-ClearedFor s h
  status-ClearedFor pending s e h = budgeted-ClearedFor s h
  status-ClearedFor in_progress s e h = unbudgeted-ClearedFor s (ap needs_budget e) h
  status-ClearedFor succeeded s e h = unbudgeted-ClearedFor s (ap needs_budget e) h
  status-ClearedFor retrying s e h = unbudgeted-ClearedFor s (ap needs_budget e) h
  status-ClearedFor failed_final s e h = unbudgeted-ClearedFor s (ap needs_budget e) h
  status-ClearedFor blocked_by_budget s e h = unbudgeted-ClearedFor s (ap needs_budget e) h

  pub executed-ClearedFor :
      (s : Store)
      → (process_job answers job s).executed ≡ true
      → ClearedFor s (process_job answers job s)
  unfolding process_job
  executed-ClearedFor s h = status-ClearedFor job.status s refl h

-- The renewal was executed as it may be, and the job is settled.
abbrev pub IsCleared : Answers → RenewalJob → Store → Processed → Type 0
IsCleared answers job s p =
    IsAllowed answers job × IsAlone job s × IsReady answers × AllSettled job p.store

-- If the loop executes the renewal of a job, then the budget allows it, unless the job is neither
-- estimated nor pending; no other job of the blob has succeeded or is in progress; the policy renews,
-- there are a vault and a publisher; and the job's rows are left succeeded, failed for good or to be
-- tried again.
pub executed-IsCleared :
    (answers : Answers) (job : RenewalJob) (s : Store)
    → (process_job answers job s).executed ≡ true
    → IsCleared answers job s (process_job answers job s)
executed-IsCleared answers job s h =
    executed-ClearedFor answers job (AllSettled job)
      (of_renewal-settled answers job answers.renewal) s h
