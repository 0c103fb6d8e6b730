-- ===== src/JobLoop.antt =====
-- keeper/src/index.ts: `processRenewalQueue` with `recoverStaleInProgressJobs`: the jobs of renewal in
-- their order, each checked against the budget, picked up, executed and settled, and the status of its
-- blob with it. The other components' answers for a job are given; every status is checked by the
-- registered machines of StateMachine. Events, metrics and the history of attempts are left out, and
-- no other worker comes between the steps. A query that throws is left out.
pub mod Verdicts
pub mod Settled
pub mod Clearance
mod Examples
use walwatch.Prelude.{
  ℕ, zero, suc, ◌+◌, ltb, leb, ◌==◌, String, Bool, true, false, not, ◌&&◌, ◌||◌, List, [], ◌∷◌,
  Option, none, some, any, if◌then◌else◌, take, select, sort_by,
}
use walwatch.StateMachine.{StateMachineName, Result, ok, err, validate_transition, Transition}
use walwatch.StateMachine.Registry.{machines}
use walwatch.Retry.{Outcome, returns, throws, jitter, backoff}
use walwatch.Retry.Jobs.{ThrownError, is_retryable_job_error}
use walwatch.Cost.Estimate.{is_estimate_fresh}
use walwatch.Renewal.{DueVault, RenewalResult}

pub data JobStatus : Type 0 where
  estimated pending in_progress succeeded retrying failed_final blocked_by_budget : JobStatus

abbrev pub job_status : JobStatus → String
job_status estimated = "estimated"
job_status pending = "pending"
job_status in_progress = "in_progress"
job_status succeeded = "succeeded"
job_status retrying = "retrying"
job_status failed_final = "failed_final"
job_status blocked_by_budget = "blocked_by_budget"

-- The statuses of a blob that the loop sets or asks for; any other one is `elsewhere`.
pub data BlobStatus : Type 0 where
  expiring renewing renewed protected tracked elsewhere : BlobStatus

pub record RenewalJob : Type 0 where
  pub id : ℕ
  pub blob_registration_id : ℕ
  pub status : JobStatus
  pub priority : ℕ
  pub scheduled_for : Option ℕ
  pub created_at : ℕ
  pub attempt : ℕ
  pub max_attempts : Option ℕ
  pub started_at : Option ℕ
  pub heartbeat_at : Option ℕ
  pub estimated_cost : ℕ
  pub estimated_at : Option ℕ

pub record BlobRegistration : Type 0 where
  pub id : ℕ
  pub status : BlobStatus

pub record Store : Type 0 where
  pub renewal_jobs : List RenewalJob
  pub blob_registrations : List BlobRegistration

-- What the other components answer for a job: a new estimate and how old one may be, the budget check
-- of the estimate, whether the policy renews, and if so
-- whether it has an identifier, the vault, whether there is a publisher, the renewal, and its random
-- number.
pub record Answers : Type 0 where
  pub now : ℕ
  pub max_staleness_ms : ℕ
  pub new_estimate : ℕ
  pub is_allowed : Bool
  pub auto_renewal_enabled : Bool
  pub has_policy_id : Bool
  pub vault : Option DueVault
  pub publisher_available : Bool
  pub renewal : Outcome ThrownError RenewalResult
  pub random : ℕ

-- `validateTransition('renewal', from, to)` does not throw.
abbrev pub is_ok : Result Transition → Bool
is_ok (ok t) = true
is_ok (err e) = false

unfoldable pub validates : JobStatus → JobStatus → Bool
validates from to =
    is_ok (
      validate_transition machines StateMachineName.renewal (job_status from) (job_status to) false)

-- `UPDATE ... WHERE id = ...`.
abbrev pub update_jobs :
    (RenewalJob → Bool) → (RenewalJob → RenewalJob) → List RenewalJob → List RenewalJob
update_jobs p f [] = []
update_jobs p f (j ∷ js) = (if p j then f j else j) ∷ update_jobs p f js

abbrev pub same_job : ℕ → RenewalJob → Bool
same_job id j = j.id == id

abbrev pub set_job : ℕ → (RenewalJob → RenewalJob) → Store → Store
set_job id f s = record s { renewal_jobs = update_jobs (same_job id) f s.renewal_jobs }

abbrev pub with_status : JobStatus → RenewalJob → RenewalJob
with_status status j = record j { status = status }

abbrev pub is_status : BlobStatus → BlobStatus → Bool
is_status expiring expiring = true
is_status renewing renewing = true
is_status renewed renewed = true
is_status protected protected = true
is_status tracked tracked = true
is_status elsewhere elsewhere = true
is_status _ _ = false

abbrev update_blobs : ℕ → BlobStatus → BlobStatus → List BlobRegistration → List BlobRegistration
update_blobs id from to [] = []
update_blobs id from to (b ∷ bs) =
    (if b.id == id && is_status b.status from then record b { status = to } else b)
    ∷ update_blobs id from to bs

-- `UPDATE blob_registrations SET status = to WHERE id = ... AND status = from`.
abbrev pub move_blob : ℕ → BlobStatus → BlobStatus → Store → Store
move_blob id from to s = record s {
  blob_registrations = update_blobs id from to s.blob_registrations;
}

abbrev pub is_registered : ℕ → Store → Bool
is_registered blob s = any (λ b. b.id == blob) s.blob_registrations

abbrev pub is_succeeded : JobStatus → Bool
is_succeeded succeeded = true
is_succeeded _ = false

abbrev pub is_in_progress : JobStatus → Bool
is_in_progress in_progress = true
is_in_progress _ = false

abbrev pub is_pending : JobStatus → Bool
is_pending pending = true
is_pending _ = false

-- Another job of the same blob has such a status.
abbrev pub has_other : (JobStatus → Bool) → RenewalJob → Store → Bool
has_other p job s =
    any
      (λ j.
        j.blob_registration_id == job.blob_registration_id && p j.status && not (j.id == job.id))
      s.renewal_jobs

-- What the loop does for a job: the store it leaves, whether the renewal was executed, and whether an
-- exception left the loop.
pub record Processed : Type 0 where
  pub store : Store
  pub executed : Bool
  pub aborted : Bool

abbrev pub skipped : Store → Processed
skipped s = record { store = s; executed = false; aborted = false }

abbrev pub thrown : Store → Processed
thrown s = record { store = s; executed = false; aborted = true }

module _ (answers : Answers) (job : RenewalJob) where
  abbrev pub settle : JobStatus → Store → Store
  settle status s = set_job job.id (with_status status) s

  -- `rollbackBlobToExpiring`.
  abbrev pub roll_back : Store → Store
  roll_back s = move_blob job.blob_registration_id renewing expiring s

  abbrev pub max_attempts_or : Option ℕ → ℕ
  max_attempts_or none = 5
  max_attempts_or (some zero) = 5
  max_attempts_or (some (suc n)) = suc n

  abbrev pub retry_at : ℕ
  retry_at = answers.now + jitter (backoff 5000 60000 job.attempt) answers.random

  abbrev pub retried_job : RenewalJob → RenewalJob
  retried_job j = record j {
    status = retrying;
    attempt = job.attempt + 1;
    scheduled_for = some retry_at;
  }

  abbrev pub failed_job : RenewalJob → RenewalJob
  failed_job j = record j { status = failed_final; attempt = job.attempt + 1 }

  -- The `catch` block.
  unfoldable pub after_error : ThrownError → Store → Store
  after_error e s =
      if is_retryable_job_error e
      then if ltb (job.attempt + 1) (max_attempts_or job.max_attempts)
        then set_job job.id retried_job s
        else set_job job.id failed_job (roll_back s)
      else set_job job.id failed_job (roll_back s)

  -- `transitionRenewedBlob`, after the blob is renewed.
  abbrev pub after_success : Store → Store
  after_success s =
      let s' = move_blob job.blob_registration_id renewing renewed (settle succeeded s) in
      if answers.auto_renewal_enabled && answers.has_policy_id
      then move_blob job.blob_registration_id renewed protected s'
      else move_blob job.blob_registration_id renewed tracked s'

  abbrev pub of_renewal : Outcome ThrownError RenewalResult → Store → Store
  of_renewal (returns r) s = after_success s
  of_renewal (throws e) s = after_error e s

  abbrev pub finished : Store → Processed
  finished s = record { store = of_renewal answers.renewal s; executed = true; aborted = false }

  abbrev pub refused : JobStatus → Store → Processed
  refused status s = skipped (settle status (roll_back s))

  abbrev pub with_vault : Option DueVault → Store → Processed
  with_vault none s = refused failed_final s
  with_vault (some v) s = if answers.publisher_available then finished s else refused failed_final s

  -- The `try` block, once the job is picked up and its blob marked.
  unfoldable pub run_job : Store → Processed
  run_job s =
      if is_registered job.blob_registration_id s
      then if answers.auto_renewal_enabled
        then with_vault answers.vault s
        else refused blocked_by_budget s
      else refused failed_final s

  abbrev pub is_free_job : RenewalJob → Bool
  is_free_job j = j.id == job.id && is_pending j.status

  abbrev pub picked : RenewalJob → RenewalJob
  picked j = record j {
    status = in_progress;
    started_at = some answers.now;
    heartbeat_at = some answers.now;
  }

  -- The optimistic lock, which asks for a pending job; then the blob is marked.
  unfoldable pub pick_up : Store → Processed
  pick_up s =
      if any is_free_job s.renewal_jobs
      then run_job (
          move_blob job.blob_registration_id expiring renewing
            (record s { renewal_jobs = update_jobs is_free_job picked s.renewal_jobs }))
      else skipped s

  abbrev pub attached : RenewalJob → RenewalJob
  attached j = record j { status = in_progress; started_at = some answers.now }

  -- The two checks for other jobs of the blob.
  unfoldable pub check_others : Store → Processed
  check_others s =
      if has_other is_succeeded job s
      then skipped (settle succeeded s)
      else if has_other is_in_progress job s
      then skipped (set_job job.id attached s)
      else pick_up s

  abbrev pub to_pending : JobStatus → Store → Store
  to_pending estimated s = settle pending s
  to_pending _ s = s

  abbrev pub over_budget : Store → Processed
  over_budget s =
      if validates job.status blocked_by_budget
      then skipped (settle blocked_by_budget s)
      else thrown s

  abbrev pub re_estimate : RenewalJob → RenewalJob
  re_estimate j = record j {
    estimated_cost = answers.new_estimate;
    estimated_at = some answers.now;
  }

  -- An estimate that is not fresh is made again.
  abbrev pub refreshed : Option ℕ → Store → Store
  refreshed none s = s
  refreshed (some t) s =
      if is_estimate_fresh answers.max_staleness_ms answers.now t
      then s
      else set_job job.id re_estimate s

  unfoldable pub check_budget : Store → Processed
  check_budget s =
      let s' = refreshed job.estimated_at s in
      if is_registered job.blob_registration_id s
      then if answers.is_allowed then check_others (to_pending job.status s') else over_budget s'
      else skipped (settle failed_final s)

  abbrev pub of_status : JobStatus → Store → Processed
  of_status estimated s = check_budget s
  of_status pending s = check_budget s
  of_status _ s = check_others s

  -- The body of the loop.
  unfoldable pub process_job : Store → Processed
  process_job s = of_status job.status s

-- The loop over the jobs, which an exception ends.
unfoldable pub process_jobs : (RenewalJob → Answers) → List RenewalJob → Store → Store
process_jobs answers [] s = s
process_jobs answers (j ∷ js) s =
    let done = process_job (answers j) j s in
    let rest = process_jobs answers js done.store in if done.aborted then done.store else rest

abbrev is_waiting : JobStatus → Bool
is_waiting estimated = true
is_waiting pending = true
is_waiting retrying = true
is_waiting _ = false

abbrev is_due : ℕ → Option ℕ → Bool
is_due now none = true
is_due now (some t) = leb t now

-- `priority ASC, scheduled_for ASC NULLS FIRST, created_at ASC`.
abbrev first_or_equal : Option ℕ → Option ℕ → Bool → Bool
first_or_equal none none ties = ties
first_or_equal none (some t) ties = true
first_or_equal (some s) none ties = false
first_or_equal (some s) (some t) ties = if s == t then ties else ltb s t

abbrev pub sooner : RenewalJob → RenewalJob → Bool
sooner a b =
    if a.priority == b.priority
    then first_or_equal a.scheduled_for b.scheduled_for (leb a.created_at b.created_at)
    else ltb a.priority b.priority

-- The jobs that are taken up.
unfoldable pub pending_jobs : ℕ → Store → List RenewalJob
pending_jobs now s = take 20 (
    sort_by sooner (select (λ j. is_waiting j.status && is_due now j.scheduled_for) s.renewal_jobs))

abbrev is_before : ℕ → Option ℕ → Bool
is_before t none = false
is_before t (some u) = ltb u t

-- The condition of `recoverStaleInProgressJobs`: the heartbeat, or else the start, is before the threshold.
abbrev pub is_stale : ℕ → RenewalJob → Bool
is_stale threshold j =
    is_in_progress j.status
    && elim j.heartbeat_at [ some t ↦ ltb t threshold | none ↦ is_before threshold j.started_at ]

abbrev recovered : RenewalJob → RenewalJob
recovered j = record j { status = pending; attempt = j.attempt + 1 }

abbrev move_blobs : List RenewalJob → Store → Store
move_blobs [] s = s
move_blobs (j ∷ js) s = move_blobs js (move_blob j.blob_registration_id renewing expiring s)

-- `recoverStaleInProgressJobs`, with the threshold.
unfoldable pub recover_stale_in_progress_jobs : ℕ → Store → Store
recover_stale_in_progress_jobs threshold s =
    move_blobs (select (is_stale threshold) s.renewal_jobs)
      (record s { renewal_jobs = update_jobs (is_stale threshold) recovered s.renewal_jobs })

-- `processRenewalQueue`.
unfoldable pub process_renewal_queue : (RenewalJob → Answers) → ℕ → ℕ → Store → Store
process_renewal_queue answers threshold now s =
    let s' = recover_stale_in_progress_jobs threshold s in
    process_jobs answers (pending_jobs now s') s'
