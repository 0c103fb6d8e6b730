-- ===== src/JobLoop/Examples.antt =====
-- A pending job whose renewal succeeds, one that is to be tried again, and one over the budget.
use walwatch.Prelude.{
  ◌≡◌, refl, String, Bool, true, false, List, [], ◌∷◌, none, some, codes, sort_by, insert_by, map,
}
use walwatch.StateMachine.{StateMachineName, validate_transition}
use walwatch.StateMachine.Registry.{machines}
use walwatch.Retry.{returns}
use walwatch.Renewal.{DueVault}
use walwatch.Cost.Estimate.{is_estimate_fresh}
use walwatch.JobLoop.{
  JobStatus, estimated, pending, succeeded, BlobStatus, expiring, protected, RenewalJob, Store,
  Answers, is_ok, process_job, process_jobs, check_budget, check_others, pick_up, run_job,
  process_renewal_queue, pending_jobs, recover_stale_in_progress_jobs,
}
use walwatch.JobLoop.Verdicts.{over_budget-stops}
use walwatch.JobLoop.Clearance.{executed-IsCleared, IsCleared}

abbrev job_with : JobStatus → RenewalJob
job_with status = record {
  id = 1;
  blob_registration_id = 7;
  status = status;
  priority = 1;
  scheduled_for = none;
  created_at = 0;
  attempt = 0;
  max_attempts = none;
  started_at = none;
  heartbeat_at = none;
  estimated_cost = 3;
  estimated_at = some 400;
}

abbrev store_with : RenewalJob → Store
store_with job = record {
  renewal_jobs = job ∷ [];
  blob_registrations = record { id = 7; status = expiring } ∷ [];
}

abbrev vault : DueVault
vault = record {
  id = codes "0xv";
  beneficiary = codes "0xb";
  blob_id = codes "77";
  wal_balance = 1000;
  renew_threshold_epochs = 5;
  renew_by_epochs = 30;
  max_total_epochs = none;
  active = true;
  current_end_epoch = 100;
}

abbrev answers : Answers
answers = record {
  now = 1000;
  max_staleness_ms = 500;
  new_estimate = 5;
  is_allowed = true;
  auto_renewal_enabled = true;
  has_policy_id = true;
  vault = some vault;
  publisher_available = true;
  renewal =
      returns (record { vault_id = codes "0xv"; digest = some 4242; gas_used = 750; alerts = [] });
  random = 0;
}

abbrev statuses : Store → List JobStatus × List BlobStatus
statuses s = (map (λ j. j.status) s.renewal_jobs, map (λ b. b.status) s.blob_registrations)

estimated_is_renewed :
    statuses (process_renewal_queue (λ _. answers) 0 1000 (store_with (job_with estimated)))
    ≡ (succeeded ∷ [], protected ∷ [])
unfolding is_estimate_fresh process_renewal_queue pending_jobs recover_stale_in_progress_jobs
    process_jobs process_job check_budget check_others pick_up run_job sort_by insert_by
estimated_is_renewed = refl

-- The transitions that the loop asks for are allowed, but for the one of an estimated job that is blocked.
abbrev allows : StateMachineName → String → String → Bool
allows name from to = is_ok (validate_transition machines name from to false)

blob_steps_are_allowed :
    map
      (λ (step : String × String). allows StateMachineName.blob step.0 step.1)
      (("expiring", "renewing")
        ∷ ("renewing", "expiring")
        ∷ ("renewing", "renewed")
        ∷ ("renewed", "protected")
        ∷ ("renewed", "tracked")
        ∷ [])
    ≡ true ∷ true ∷ true ∷ true ∷ true ∷ []
unfolding machines validate_transition
blob_steps_are_allowed = refl

job_steps_are_allowed :
    map
      (λ (step : String × String). allows StateMachineName.renewal step.0 step.1)
      (("estimated", "pending")
        ∷ ("pending", "in_progress")
        ∷ ("pending", "blocked_by_budget")
        ∷ ("in_progress", "succeeded")
        ∷ ("in_progress", "retrying")
        ∷ ("in_progress", "failed_final")
        ∷ ("estimated", "blocked_by_budget")
        ∷ [])
    ≡ true ∷ true ∷ true ∷ true ∷ true ∷ true ∷ false ∷ []
unfolding machines validate_transition
job_steps_are_allowed = refl

abbrev denied : Answers
denied = record answers { is_allowed = false }

-- The estimate is too old, and made again.
over_budget-stops_example :
    process_jobs
      (λ _. denied)
      (job_with estimated ∷ job_with pending ∷ [])
      (store_with (job_with estimated))
    ≡ store_with (record (job_with estimated) { estimated_cost = 5; estimated_at = some 1000 })
unfolding is_estimate_fresh
over_budget-stops_example =
    over_budget-stops (λ _. denied) (job_with estimated) (job_with pending ∷ [])
      (store_with (job_with estimated)) refl refl refl

executed-IsCleared_example :
    IsCleared answers
      (job_with pending)
      (store_with (job_with pending))
      (process_job answers (job_with pending) (store_with (job_with pending)))
unfolding is_estimate_fresh process_job check_budget check_others pick_up run_job
executed-IsCleared_example =
    executed-IsCleared answers (job_with pending) (store_with (job_with pending)) refl
