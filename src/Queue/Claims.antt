-- ===== src/Queue/Claims.antt =====
-- What a claim takes, and two claims at once.
use mathlib.Core.Option.{some-injective}
use walwatch.Prelude.{
  ℕ, ◌≤◌, ◌<◌, ◌≡◌, ◌≢◌, refl, sym, subst, ◌∙◌, ◌⊎◌, inl, inr, Bool, true, List, [], ◌∷◌, Option,
  none, some, ltb, leb, ◌==◌, if◌then◌else◌, select, sort_by, IsTotal, IsTransitive, first-sort_by,
  All, Any, arith, Bool-cases, All-Any, ℕ_discrete,
}
use walwatch.Queue.{
  JobMessage, Store, is_queued, sooner, first_job, select_queued, update_jobs, started,
  mark_processing, claim_selected, claim_next_job,
}

abbrev earlier : ℕ → ℕ → ℕ → ℕ → Bool
earlier p s q t = if p == q then leb s t else ltb p q

earlier_total : (p s q t : ℕ) → (earlier p s q t ≡ true) ⊎ (earlier q t p s ≡ true)
earlier_total p s q t = ground arith

earlier_trans :
    (p s q t r u : ℕ) → earlier p s q t ≡ true → earlier q t r u ≡ true → earlier p s r u ≡ true
earlier_trans p s q t r u h g = ground arith

sooner-IsTotal : IsTotal sooner
unfolding sooner
sooner-IsTotal a b = earlier_total a.priority a.scheduled_for b.priority b.scheduled_for

sooner-IsTransitive : IsTransitive sooner
unfolding sooner
sooner-IsTransitive a b c =
    earlier_trans a.priority a.scheduled_for b.priority b.scheduled_for c.priority c.scheduled_for

-- The first job has the lower priority number, or the same one and is not scheduled later.
abbrev pub IsSooner : JobMessage → JobMessage → Type 0
IsSooner a b =
    (a.priority < b.priority) ⊎ (a.priority ≡ b.priority) × (a.scheduled_for ≤ b.scheduled_for)

sooner-IsSooner : (a b : JobMessage) → sooner a b ≡ true → IsSooner a b
unfolding sooner
sooner-IsSooner a b h = ground arith

-- The jobs that may be claimed.
abbrev pub waiting : List JobMessage → List JobMessage
waiting js = select (λ j. is_queued j.status) js

-- A claim of a job: it is waiting, no waiting job is sooner, and it is marked with the time.
abbrev pub Claims : ℕ → Store → List JobMessage → Store × Option JobMessage → Type 0
Claims now s [] (s', o) = (s' ≡ s) × (o ≡ none)
Claims now s (j ∷ js) (s', o) =
    (w : JobMessage) × (o ≡ some w)
    × Any (λ x. x ≡ w) (j ∷ js)
    × All (IsSooner w) (j ∷ js)
    × (s' ≡ record s { job_queue = update_jobs w.id (started now) s.job_queue })

claim_waiting :
    (now : ℕ) (s : Store) (js : List JobMessage)
    → Claims now s js (claim_selected now (first_job (sort_by sooner js)) s)
unfolding sort_by mark_processing
claim_waiting now s [] = (refl, refl)
claim_waiting now s (j ∷ js) =
    let (w, rest, sorted, (there, wins)) =
      first-sort_by sooner sooner-IsTotal sooner-IsTransitive j js in
    subst (λ xs. Claims now s (j ∷ js) (claim_selected now (first_job xs) s)) (sym sorted)
      (w, refl, there, each w (j ∷ js) wins, refl)
  where
    each :
        (w : JobMessage) (xs : List JobMessage)
        → All (λ x. sooner w x ≡ true) xs
        → All (IsSooner w) xs
    each w [] h = tt
    each w (x ∷ xs) h = (sooner-IsSooner w x h.0, each w xs h.1)

-- With nothing in between, a claim takes a waiting job than which none is sooner, by priority and
-- then by the time that it is scheduled for, and marks it as being processed; without a waiting job it
-- takes none and changes nothing.
pub claim_next_job-Claims :
    (now : ℕ) (s : Store) → Claims now s (waiting s.job_queue) (claim_next_job now s)
unfolding claim_next_job select_queued
claim_next_job-Claims now s = claim_waiting now s (waiting s.job_queue)

claimed :
    (now : ℕ) (s : Store) (js : List JobMessage) (r : Store × Option JobMessage) {w : JobMessage}
    → Claims now s js r
    → r.1 ≡ some w
    → (r.0 ≡ record s { job_queue = update_jobs w.id (started now) s.job_queue })
      × Any (λ x. x ≡ w) js
claimed now s [] (s', o) {w} h e = absurd (cc (h.1, e))
claimed now s (j ∷ js) (s', o) {w} (v, is_v, there, best, after) e =
    let same : v ≡ w = some-injective v w (sym is_v ∙ e) in
    (
      subst (λ x. s' ≡ record s { job_queue = update_jobs x.id (started now) s.job_queue }) same
          after,
      subst (λ x. Any (λ y. y ≡ x) (j ∷ js)) same there,
    )

-- None of the waiting jobs has the identifier of a job that is marked.
not_waiting :
    (id now : ℕ) (js : List JobMessage)
    → All (λ x. x.id ≢ id) (waiting (update_jobs id (started now) js))
unfolding update_jobs
not_waiting id now [] = tt
not_waiting id now (j ∷ js) = elim (ℕ_discrete j.id id) [
  | yes same ↦ ground (arith, same, not_waiting id now js)
  | no other ↦ elim (Bool-cases (is_queued j.status)) [
    | inl kept ↦ ground (arith, other, kept, not_waiting id now js)
    | inr dropped ↦ ground (arith, other, dropped, not_waiting id now js)
  ]
]

-- A claim that comes after another one, with nothing else in between, does not take the same job.
pub claims_differ :
    (now later : ℕ) (s : Store) (j k : JobMessage)
    → (claim_next_job now s).1 ≡ some j
    → (claim_next_job later (claim_next_job now s).0).1 ≡ some k
    → k.id ≢ j.id
claims_differ now later s j k first second =
    let s' = (claim_next_job now s).0 in
    let (after, _) =
      claimed now s (waiting s.job_queue) (claim_next_job now s) (claim_next_job-Claims now s)
        first in
    let (_, there) =
      claimed later s' (waiting s'.job_queue) (claim_next_job later s')
        (claim_next_job-Claims later s') second in
    let free =
      subst (λ (x : Store). All (λ y. y.id ≢ j.id) (waiting x.job_queue)) (sym after)
        (not_waiting j.id now s.job_queue) in
    All-Any (waiting s'.job_queue) free there
      (λ x ne same. subst (λ (y : JobMessage). y.id ≢ j.id) same ne)
