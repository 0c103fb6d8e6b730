-- ===== src/Queue.antt =====
-- api/src/lib/queue.ts: the job queue and its dead letters. Jobs carry what the queue reads of them; a
-- payload is a number. `claimNextJob` reads a job and then updates it, in two statements, so it is two
-- steps here (`select_queued`, `mark_processing`), which other calls may come between.
pub mod Claims
mod Examples
use walwatch.Prelude.{
  ℕ, ◌≡◌, Bool, true, false, ◌&&◌, ◌||◌, List, [], ◌∷◌, Option, none, some, ltb, leb, ◌==◌,
  if◌then◌else◌, select, sort_by,
}

pub data JobStatus : Type 0 where
  queued processing completed failed dlq : JobStatus

pub record JobMessage : Type 0 where
  pub id : ℕ
  pub payload : ℕ
  pub priority : ℕ
  pub status : JobStatus
  pub scheduled_for : ℕ
  pub started_at : Option ℕ
  pub completed_at : Option ℕ
  pub error : Option ℕ

-- The two tables; a dead letter is the job with the reason.
pub record Store : Type 0 where
  pub job_queue : List JobMessage
  pub job_dlq : List (JobMessage × ℕ)

abbrev pub is_queued : JobStatus → Bool
is_queued queued = true
is_queued _ = false

-- `ORDER BY priority ASC, scheduled_for ASC`.
unfoldable pub sooner : JobMessage → JobMessage → Bool
sooner a b =
    if a.priority == b.priority
    then leb a.scheduled_for b.scheduled_for
    else ltb a.priority b.priority

abbrev pub first_job : List JobMessage → Option JobMessage
first_job [] = none
first_job (j ∷ _) = some j

-- The `SELECT ... LIMIT 1` of `claimNextJob`.
unfoldable pub select_queued : Store → Option JobMessage
unfolding sort_by sooner
select_queued s = first_job (sort_by sooner (select (λ j. is_queued j.status) s.job_queue))

-- `UPDATE job_queue SET ... WHERE id = ...`.
unfoldable pub update_jobs : ℕ → (JobMessage → JobMessage) → List JobMessage → List JobMessage
update_jobs id f [] = []
update_jobs id f (j ∷ js) =
    let rest = update_jobs id f js in if j.id == id then f j ∷ rest else j ∷ rest

abbrev pub started : ℕ → JobMessage → JobMessage
started now j = record j { status = processing; started_at = some now }

-- The `UPDATE` of `claimNextJob`.
unfoldable pub mark_processing : ℕ → ℕ → Store → Store
unfolding update_jobs
mark_processing id now s = record s { job_queue = update_jobs id (started now) s.job_queue }

abbrev pub claim_selected : ℕ → Option JobMessage → Store → Store × Option JobMessage
claim_selected now none s = (s, none)
claim_selected now (some j) s = (mark_processing j.id now s, some j)

-- `claimNextJob` with nothing in between.
unfoldable pub claim_next_job : ℕ → Store → Store × Option JobMessage
unfolding select_queued mark_processing
claim_next_job now s = claim_selected now (select_queued s) s

-- The id is given by the database.
unfoldable pub publish_job : ℕ → ℕ → ℕ → ℕ → Store → Store
publish_job id payload priority scheduled_for s = record s {
  job_queue =
      record {
        id = id;
        payload = payload;
        priority = priority;
        status = queued;
        scheduled_for = scheduled_for;
        started_at = none;
        completed_at = none;
        error = none;
      }
      ∷ s.job_queue;
}

unfoldable pub complete_job : ℕ → ℕ → Store → Store
unfolding update_jobs
complete_job id now s = record s {
  job_queue =
      update_jobs id (λ j. record j { status = completed; completed_at = some now }) s.job_queue;
}

unfoldable pub fail_job : ℕ → ℕ → ℕ → Store → Store
unfolding update_jobs
fail_job id error now s = record s {
  job_queue =
      update_jobs id
        (λ j. record j { status = failed; error = some error; completed_at = some now })
        s.job_queue;
}

unfoldable pub find_job : ℕ → List JobMessage → Option JobMessage
find_job id [] = none
find_job id (j ∷ js) = if j.id == id then some j else find_job id js

-- `DELETE FROM job_queue WHERE id = ...`.
unfoldable pub delete_jobs : ℕ → List JobMessage → List JobMessage
delete_jobs id [] = []
delete_jobs id (j ∷ js) = let rest = delete_jobs id js in if j.id == id then rest else j ∷ rest

abbrev bury : ℕ → Option JobMessage → Store → Store
bury reason none s = s
bury reason (some j) s = record {
  job_queue = delete_jobs j.id s.job_queue;
  job_dlq = (j, reason) ∷ s.job_dlq;
}

-- `sendToDLQ`, in one transaction.
unfoldable pub send_to_dlq : ℕ → ℕ → Store → Store
unfolding find_job delete_jobs
send_to_dlq id reason s = bury reason (find_job id s.job_queue) s
