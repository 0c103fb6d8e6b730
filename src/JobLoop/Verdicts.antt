-- ===== src/JobLoop/Verdicts.antt =====
-- What the loop does to a job, and to those behind it.
use walwatch.Prelude.{◌≡◌, ◌≢◌, refl, ap, ◌∙◌, ◌⊎◌, true, false, List, ◌∷◌, All, if◌then◌else◌}
use walwatch.StateMachine.{validate_transition}
use walwatch.StateMachine.Registry.{machines}
use walwatch.JobLoop.{
  JobStatus, estimated, failed_final, blocked_by_budget, RenewalJob, Store, Answers, validates,
  is_registered, skipped, thrown, settle, refused, check_others, to_pending, over_budget,
  check_budget, of_status, process_job, process_jobs, refreshed, has_other, is_succeeded,
  is_in_progress, succeeded, set_job, attached,
}

-- The job's rows have this status.
abbrev pub HasStatus : JobStatus → RenewalJob → List RenewalJob → Type 0
HasStatus status job js = All (λ j. (j.id ≢ job.id) ⊎ (j.status ≡ status)) js

-- What the loop makes of a job that it cannot pick up.
abbrev pub passed_over : Answers → RenewalJob → Store → Store
passed_over answers job s =
    if has_other is_succeeded job s
    then settle answers job succeeded s
    else if has_other is_in_progress job s
    then set_job job.id (attached answers job) s
    else s

estimated_not_blocked : validates estimated blocked_by_budget ≡ false
unfolding validates machines validate_transition
estimated_not_blocked = refl

over_budget-thrown :
    (answers : Answers) (job : RenewalJob) (s : Store)
    → job.status ≡ estimated
    → over_budget answers job s ≡ thrown s
over_budget-thrown answers job s new =
    ap (λ b. if b then skipped (settle answers job blocked_by_budget s) else thrown s)
      (ap (λ st. validates st blocked_by_budget) new ∙ estimated_not_blocked)

estimated-thrown :
    (answers : Answers) (job : RenewalJob) (s : Store)
    → job.status ≡ estimated
    → is_registered job.blob_registration_id s ≡ true
    → answers.is_allowed ≡ false
    → process_job answers job s ≡ thrown (refreshed answers job job.estimated_at s)
unfolding process_job check_budget
estimated-thrown answers job s new registered denied =
    let s' = refreshed answers job job.estimated_at s in
    ap (λ st. of_status answers job st s) new
    ∙ ap
        (λ b.
          if b
          then if answers.is_allowed
            then check_others answers job (to_pending answers job job.status s')
            else over_budget answers job s'
          else skipped (settle answers job failed_final s))
        registered
    ∙ ap
        (λ b.
          if b
          then check_others answers job (to_pending answers job job.status s')
          else over_budget answers job s')
        denied
    ∙ over_budget-thrown answers job s' new

-- An estimated job that the budget refuses stops the loop: its refusal is no transition of the machine of
-- renewals, and the exception leaves that job and those behind it as they are, but for the estimate of
-- that job, which was made again if it was not fresh.
pub over_budget-stops :
    (answers : RenewalJob → Answers) (job : RenewalJob) (behind : List RenewalJob) (s : Store)
    → job.status ≡ estimated
    → is_registered job.blob_registration_id s ≡ true
    → (answers job).is_allowed ≡ false
    → process_jobs answers (job ∷ behind) s ≡ refreshed (answers job) job job.estimated_at s
unfolding process_jobs
over_budget-stops answers job behind s new registered refused =
    ap (λ p. if p.aborted then p.store else process_jobs answers behind p.store)
      (estimated-thrown (answers job) job s new registered refused)
