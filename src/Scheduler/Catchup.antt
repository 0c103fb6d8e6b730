-- ===== src/Scheduler/Catchup.antt =====
-- What the catching up of missed runs queues, of `handleMissedRuns` in keeper/src/scheduler.ts.
use mathlib.Core.List.{append-nil}
use walwatch.Prelude.{
  ℕ, zero, suc, ◌+◌, ◌≤◌, ◌<◌, ◌≡◌, refl, ◌&&◌, List, [], ◌∷◌, ◌++◌, some, leb, ltb, ◌==◌, length,
  min, arith, ap, inl, inr, last?, Bool-cases, sym, subst, ◌↔◌, ◌≢◌,
}
use walwatch.Scheduler.Cron.{Interval, parse_cron_interval}
use walwatch.Scheduler.Missed.{
  compute_missed_windows, missed_window_escalation_threshold, missed_window_catchup_batch_limit,
  ScheduleConfig, Effect, missed, missed_critical, catchup_job, caught_up, is_critical, escalation,
  or_minute, missed_at, catchup_jobs, or_staleness, catch_up, respond, handle_since,
  handle_missed_runs,
}

abbrev pub job_times : List Effect → List ℕ
job_times [] = []
job_times (catchup_job t ∷ es) = t ∷ job_times es
job_times (_ ∷ es) = job_times es

missed_at-le :
    (interval : Interval) (now i : ℕ)
    → 0 < interval.denominator
    → missed_at interval now (suc i) ≤ missed_at interval now i
unfolding missed_at
missed_at-le interval now i pos = grind arith

missed_at-one :
    (interval : Interval) (now : ℕ) → 0 < interval.denominator → missed_at interval now 1 ≡ now
unfolding missed_at
missed_at-one interval now pos = grind arith

-- Each time is at most the next one.
abbrev pub IsAscending : List ℕ → Type 0
IsAscending [] = Unit
IsAscending (a ∷ []) = Unit
IsAscending (a ∷ b ∷ ts) = (a ≤ b) × IsAscending (b ∷ ts)

jobs-IsAscending :
    (interval : Interval) (now n : ℕ)
    → 0 < interval.denominator
    → IsAscending (job_times (catchup_jobs interval now n))
unfolding catchup_jobs
jobs-IsAscending interval now zero pos = tt
jobs-IsAscending interval now (suc zero) pos = tt
jobs-IsAscending interval now (suc (suc n)) pos =
    (missed_at-le interval now (suc n) pos, jobs-IsAscending interval now (suc n) pos)

jobs-last :
    (interval : Interval) (now n : ℕ)
    → 0 < interval.denominator
    → last? (job_times (catchup_jobs interval now (suc n))) ≡ some now
unfolding catchup_jobs
jobs-last interval now zero pos = ap some (missed_at-one interval now pos)
jobs-last interval now (suc n) pos = jobs-last interval now n pos

length-jobs :
    (interval : Interval) (now n : ℕ) → length (job_times (catchup_jobs interval now n)) ≡ n
unfolding catchup_jobs
length-jobs interval now zero = refl
length-jobs interval now (suc n) = ap suc (length-jobs interval now n)

-- The catch-up jobs of a number of missed windows are that many, oldest first, and the last one is
-- for the present time.
pub catchup_jobs-oldest_first :
    (interval : Interval) (now n : ℕ)
    → 0 < interval.denominator
    → let times = job_times (catchup_jobs interval now (suc n)) in
      (length times ≡ suc n) × IsAscending times × (last? times ≡ some now)
catchup_jobs-oldest_first interval now n pos = (
  length-jobs interval now (suc n),
  jobs-IsAscending interval now (suc n) pos,
  jobs-last interval now n pos,
)

job_times-append : (es fs : List Effect) → job_times (es ++ fs) ≡ job_times es ++ job_times fs
job_times-append [] fs = refl
job_times-append (missed _ ∷ es) fs = job_times-append es fs
job_times-append (missed_critical _ ∷ es) fs = job_times-append es fs
job_times-append (catchup_job t ∷ es) fs = ap (◌∷◌ t) (job_times-append es fs)
job_times-append (caught_up _ ∷ es) fs = job_times-append es fs

escalation-jobs : (schedule : ScheduleConfig) (n : ℕ) → job_times (escalation schedule n) ≡ []
unfolding escalation
escalation-jobs schedule n =
    elim (Bool-cases (is_critical schedule && leb missed_window_escalation_threshold n)) [
      | inl e ↦ ground (arith, e)
      | inr e ↦ ground (arith, e)
    ]

length-catch_up :
    (schedule : ScheduleConfig) (now n : ℕ)
    → length (job_times (catch_up schedule now n)) ≡ min n missed_window_catchup_batch_limit
unfolding catch_up
length-catch_up schedule now n =
    let jobs = catchup_jobs (or_minute (parse_cron_interval schedule.cron_expr)) now (min n 50) in
    rw
      (
        job_times-append (escalation schedule n) (jobs ++ (caught_up (min n 50) ∷ [])),
        escalation-jobs schedule n,
        job_times-append jobs (caught_up (min n 50) ∷ []),
        append-nil,
      )
      (length-jobs (or_minute (parse_cron_interval schedule.cron_expr)) now (min n 50))

catch_up-ne-nil : (schedule : ScheduleConfig) (now n : ℕ) → catch_up schedule now n ≢ []
unfolding catch_up
catch_up-ne-nil schedule now n e = cc

respond_lem :
    (schedule : ScheduleConfig) (now last n : ℕ)
    → ((respond schedule now last n ≡ [])
        ↔ ((n ≡ 0) × (now < last + or_staleness schedule.max_staleness_ms)))
      × (length (job_times (respond schedule now last n)) ≡ min n missed_window_catchup_batch_limit)
unfolding respond
respond_lem schedule now last n =
    let jobs = length-catch_up schedule now n in
    let busy = catch_up-ne-nil schedule now n in
    elim (Bool-cases (n == 0 && ltb now (last + or_staleness schedule.max_staleness_ms))) [
      | inl quiet ↦ rw quiet (ground (arith, quiet))
      | inr noisy ↦ rw noisy (((λ e. absurd (busy e)), λ h. absurd (ground (arith, noisy))), jobs)
    ]

-- A schedule that has completed is left alone exactly when it has missed no window and its last
-- completion is less than its staleness limit ago; otherwise as many jobs are queued as windows were
-- missed, 50 at most.
pub handle_missed_runs_lem :
    (schedule : ScheduleConfig) (now last : ℕ)
    → schedule.last_completed_at ≡ some last
    → let n = compute_missed_windows (parse_cron_interval schedule.cron_expr) (some last) now in
      ((handle_missed_runs schedule now ≡ [])
        ↔ ((n ≡ 0) × (now < last + or_staleness schedule.max_staleness_ms)))
      × (length (job_times (handle_missed_runs schedule now))
          ≡ min n missed_window_catchup_batch_limit)
unfolding handle_missed_runs
handle_missed_runs_lem schedule now last e =
    subst
      (λ o.
        let n = compute_missed_windows (parse_cron_interval schedule.cron_expr) (some last) now in
        ((handle_since schedule now o ≡ [])
          ↔ ((n ≡ 0) × (now < last + or_staleness schedule.max_staleness_ms)))
        × (length (job_times (handle_since schedule now o))
            ≡ min n missed_window_catchup_batch_limit))
      (sym e)
      (respond_lem schedule now last
        (compute_missed_windows (parse_cron_interval schedule.cron_expr) (some last) now))
