-- ===== src/Cost/Record.antt =====
-- `recordActualCost` of api/src/lib/cost-engine.ts: the two reads, then the update of the job and the
-- insertion of the record in one transaction.
use mathlib.Core.Option.{some-injective}
use walwatch.Prelude.{
  ◌∙◌, ℕ, ◌≡◌, ◌≢◌, refl, sym, ap, List, [], ◌∷◌, Option, none, some, ◌==◌, if◌then◌else◌, arith,
}
use walwatch.Cost.{CostRecord, RenewalJob, Db}

pub data RecordError : Type 0 where
  conflict : ℕ → RecordError
  job_not_found : RecordError

unfoldable pub find_job : ℕ → List RenewalJob → Option RenewalJob
find_job id [] = none
find_job id (j ∷ js) = if j.id == id then some j else find_job id js

-- `UPDATE renewal_jobs SET ... WHERE id = ...`.
unfoldable pub complete_jobs : ℕ → ℕ → ℕ → List RenewalJob → List RenewalJob
complete_jobs id cost now [] = []
complete_jobs id cost now (j ∷ js) =
    let rest = complete_jobs id cost now js in
    if j.id == id
    then record j { actual_cost = some cost; completed_at = some now } ∷ rest
    else j ∷ rest

abbrev pub new_record : RenewalJob → ℕ → ℕ → Option ℕ → CostRecord
new_record j cost now project_id = record {
  renewal_job_id = j.id;
  actual_cost = cost;
  recorded_at = now;
  org_id = j.org_id;
  project_id = project_id;
}

-- The result is the new database, or the error that is thrown with the database as it was.
pub data RecordResult : Type 0 where
  recorded : Db → RecordResult
  refused : RecordError → RecordResult

record_for : Db → ℕ → ℕ → ℕ → Option ℕ → Option RenewalJob → RecordResult
unfolding complete_jobs
record_for db id cost now project_id none = refused job_not_found
record_for db id cost now project_id (some j) = elim j.actual_cost [
  | some existing ↦ refused (conflict existing)
  | none ↦ recorded (record db {
    renewal_jobs = complete_jobs id cost now db.renewal_jobs;
    cost_records = new_record j cost now project_id ∷ db.cost_records;
  })
]

unfoldable pub record_actual_cost : Db → ℕ → ℕ → ℕ → Option ℕ → RecordResult
unfolding record_for find_job
record_actual_cost db renewal_job_id actual_cost now project_id =
    record_for db renewal_job_id actual_cost now project_id
      (find_job renewal_job_id db.renewal_jobs)

find_job_complete :
    (id cost now : ℕ) (js : List RenewalJob) (j : RenewalJob)
    → find_job id js ≡ some j
    → find_job id (complete_jobs id cost now js)
      ≡ some (record j { actual_cost = some cost; completed_at = some now })
unfolding find_job complete_jobs
find_job_complete id cost now [] j h = cc
find_job_complete id cost now (k ∷ ks) j h = ground (arith, find_job_complete id cost now ks j)

find_job_complete_ne :
    (id other cost now : ℕ) (js : List RenewalJob)
    → other ≢ id
    → find_job other (complete_jobs id cost now js) ≡ find_job other js
unfolding find_job complete_jobs
find_job_complete_ne id other cost now [] h = refl
find_job_complete_ne id other cost now (k ∷ ks) h =
    ground (arith, find_job_complete_ne id other cost now ks h)

-- The outcome of a call in full.
abbrev pub Records : Db → ℕ → ℕ → ℕ → Option ℕ → RecordResult → Option RenewalJob → Type 0
Records db id cost now project_id result none = result ≡ refused job_not_found
Records db id cost now project_id result (some j) =
    ((old : ℕ) → j.actual_cost ≡ some old → result ≡ refused (conflict old))
    × (j.actual_cost ≡ none
        → (db' : Db) × (result ≡ recorded db')
          × (db'.cost_records ≡ new_record j cost now project_id ∷ db.cost_records)
          × (find_job id db'.renewal_jobs
              ≡ some (record j { actual_cost = some cost; completed_at = some now }))
          × ((other : ℕ)
              → other ≢ id
              → find_job other db'.renewal_jobs ≡ find_job other db.renewal_jobs)
          × ((cost' now' : ℕ) (project' : Option ℕ)
              → record_actual_cost db' id cost' now' project' ≡ refused (conflict cost)))

record_for-found :
    (db : Db) (id cost now : ℕ) (project_id : Option ℕ) (j : RenewalJob) (old : Option ℕ)
    → j.actual_cost ≡ old
    → find_job id db.renewal_jobs ≡ some j
    → Records db id cost now project_id (record_for db id cost now project_id (some j)) (some j)
unfolding record_for record_actual_cost
record_for-found db id cost now project_id j (some x) e found = (
  (λ old same. rw e (ap (λ (o : ℕ). refused (conflict o)) (some-injective _ _ (sym e ∙ same)))),
  λ free. cc,
)
record_for-found db id cost now project_id j none e found = (
  (λ old same. cc),
  λ _. (
    record db {
      renewal_jobs = complete_jobs id cost now db.renewal_jobs;
      cost_records = new_record j cost now project_id ∷ db.cost_records;
    },
    ground (arith, e),
    refl,
    find_job_complete id cost now db.renewal_jobs j found,
    (λ other ne. find_job_complete_ne id other cost now db.renewal_jobs ne),
    λ cost' now' project'. rw (find_job_complete id cost now db.renewal_jobs j found) refl,
  ),
)

found_Records :
    (db : Db) (id cost now : ℕ) (project_id : Option ℕ) (o : Option RenewalJob)
    → find_job id db.renewal_jobs ≡ o
    → Records db id cost now project_id (record_for db id cost now project_id o) o
unfolding record_for
found_Records db id cost now project_id none e = refl
found_Records db id cost now project_id (some j) e =
    record_for-found db id cost now project_id j j.actual_cost refl e

-- An unknown job is an error, and so is a job with an actual cost, which is kept. Otherwise one record
-- of the cost is added for the job, the job has the cost, no other job is changed, and every later
-- call for the job is refused with that cost.
pub record_actual_cost-Records :
    (db : Db) (id cost now : ℕ) (project_id : Option ℕ)
    → Records db id cost now project_id
        (record_actual_cost db id cost now project_id)
        (find_job id db.renewal_jobs)
unfolding record_actual_cost
record_actual_cost-Records db id cost now project_id =
    found_Records db id cost now project_id (find_job id db.renewal_jobs) refl
