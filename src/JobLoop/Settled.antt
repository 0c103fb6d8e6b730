-- ===== src/JobLoop/Settled.antt =====
-- How the loop leaves a job whose renewal it executed.
use walwatch.Prelude.{
  ℕ, ◌+◌, ltb, ◌≡◌, ◌≢◌, refl, ◌⊎◌, inl, inr, Bool, true, false, ◌&&◌, List, [], ◌∷◌, All, arith,
  if◌then◌else◌,
}
use walwatch.Retry.{Outcome, returns, throws}
use walwatch.Retry.Jobs.{ThrownError, is_retryable_job_error}
use walwatch.Renewal.{RenewalResult}
use walwatch.JobLoop.{
  JobStatus, succeeded, retrying, failed_final, RenewalJob, Store, Answers, update_jobs, same_job,
  set_job, with_status, move_blob, settle, roll_back, max_attempts_or, retried_job, failed_job,
  after_error, of_renewal, renewing, renewed, protected, tracked,
}

-- A job's rows have a status that ends an attempt.
abbrev pub IsSettled : JobStatus → Type 0
IsSettled st = (st ≡ succeeded) ⊎ ((st ≡ retrying) ⊎ (st ≡ failed_final))

abbrev pub AllSettled : RenewalJob → Store → Type 0
AllSettled job s = All (λ j. (j.id ≢ job.id) ⊎ IsSettled j.status) s.renewal_jobs

pub update_jobs-All :
    (P : JobStatus → Type 0) (id : ℕ) (f : RenewalJob → RenewalJob)
    → ((j : RenewalJob) → P (f j).status)
    → (js : List RenewalJob) → All (λ j. (j.id ≢ id) ⊎ P j.status) (update_jobs (same_job id) f js)
update_jobs-All P id f h [] = tt
update_jobs-All P id f h (j ∷ js) = (row (same_job id j) refl, update_jobs-All P id f h js)
  where
    row :
        (b : Bool)
        → same_job id j ≡ b
        → ((if b then f j else j).id ≢ id) ⊎ P (if b then f j else j).status
    row true e = inr (h j)
    row false e = inl (λ same. ground (arith, e, same))

module _ (answers : Answers) (job : RenewalJob) where
  after_error-settled : (e : ThrownError) (s : Store) → AllSettled job (after_error answers job e s)
  unfolding after_error
  after_error-settled e s =
      of_tests (is_retryable_job_error e)
        (ltb (job.attempt + 1) (max_attempts_or answers job job.max_attempts))
    where
      of_tests :
          (again more : Bool)
          → AllSettled job (
              if again
              then if more
                then set_job job.id (retried_job answers job) s
                else set_job job.id (failed_job answers job) (roll_back answers job s)
              else set_job job.id (failed_job answers job) (roll_back answers job s))
      of_tests true true =
          update_jobs-All IsSettled job.id (retried_job answers job) (λ j. inr (inl refl))
            s.renewal_jobs
      of_tests true false =
          update_jobs-All IsSettled job.id (failed_job answers job) (λ j. inr (inr refl))
            s.renewal_jobs
      of_tests false more =
          update_jobs-All IsSettled job.id (failed_job answers job) (λ j. inr (inr refl))
            s.renewal_jobs

  pub of_renewal-settled :
      (o : Outcome ThrownError RenewalResult) (s : Store)
      → AllSettled job (of_renewal answers job o s)
  of_renewal-settled (throws e) s = after_error-settled e s
  of_renewal-settled (returns r) s =
      of_policy (answers.auto_renewal_enabled && answers.has_policy_id)
    where
      done : Store
      done = move_blob job.blob_registration_id renewing renewed (settle answers job succeeded s)

      of_policy :
          (b : Bool)
          → AllSettled job (
              if b
              then move_blob job.blob_registration_id renewed protected done
              else move_blob job.blob_registration_id renewed tracked done)
      of_policy true =
          update_jobs-All IsSettled job.id (with_status succeeded) (λ j. inl refl) s.renewal_jobs
      of_policy false =
          update_jobs-All IsSettled job.id (with_status succeeded) (λ j. inl refl) s.renewal_jobs
