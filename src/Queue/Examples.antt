-- ===== src/Queue/Examples.antt =====
-- A queue of three jobs, and the theorems at it.
use walwatch.Prelude.{ℕ, ◌≡◌, refl, Option, [], ◌∷◌, none, some}
use walwatch.Queue.{
  JobStatus, queued, processing, JobMessage, Store, claim_next_job, select_queued, claim_selected,
  send_to_dlq,
}
use walwatch.Queue.Claims.{Claims, waiting, claim_next_job-Claims}

abbrev job : ℕ → ℕ → ℕ → JobStatus → JobMessage
job id priority scheduled_for status = record {
  id = id;
  payload = 0;
  priority = priority;
  status = status;
  scheduled_for = scheduled_for;
  started_at = none;
  completed_at = none;
  error = none;
}

abbrev store : Store
store = record {
  job_queue =
      job 1 50 300 queued ∷ job 2 10 200 queued ∷ job 3 10 100 queued ∷ job 4 1 0 processing ∷ [];
  job_dlq = [];
}

third_is_claimed : (claim_next_job 900 store).1 ≡ some (job 3 10 100 queued)
unfolding claim_next_job
third_is_claimed = refl

buried : (send_to_dlq 1 7 store).job_dlq ≡ (job 1 50 300 queued, 7) ∷ []
unfolding send_to_dlq
buried = refl

claim_next_job-Claims_example :
    Claims 900 store (waiting store.job_queue) (claim_next_job 900 store)
claim_next_job-Claims_example = claim_next_job-Claims 900 store

-- Two claims whose reads both come before their updates return one job.
abbrev both_read : Option JobMessage × Option JobMessage
both_read =
    let seen = select_queued store in
    let (s', first) = claim_selected 900 seen store in (first, (claim_selected 901 seen s').1)

double_claim : both_read ≡ (some (job 3 10 100 queued), some (job 3 10 100 queued))
unfolding select_queued
double_claim = refl
