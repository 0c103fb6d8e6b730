-- ===== src/Scheduler/Missed.antt =====
-- `computeMissedWindows` and `handleMissedRuns` of keeper/src/scheduler.ts. What the handler emits and
-- queues is a list of effects, in order; logging is left out.
use walwatch.Prelude.{
  ◌⊎◌, ℕ, zero, suc, ◌+◌, ◌-◌, ◌*◌, ◌/◌, ◌≤◌, ◌<◌, ◌≡◌, Bool, ◌&&◌, List, [], ◌∷◌, ◌++◌, Option,
  none, some, leb, ltb, ◌==◌, if◌then◌else◌, any, codes, same_text, min, arith,
}
use walwatch.Scheduler.Cron.{Interval, millis, parse_cron_interval}

-- `lastCompletedAt` and `now`. The difference of the times is positive where it is divided.
missed_of : Interval → ℕ → ℕ
missed_of interval elapsed =
    if interval.numerator == 0 then 1 else elapsed * interval.denominator / interval.numerator - 1

unfoldable pub compute_missed_windows : Interval → Option ℕ → ℕ → ℕ
unfolding missed_of
compute_missed_windows interval none now = 0
compute_missed_windows interval (some last_completed_at) now =
    if leb now last_completed_at then 0 else missed_of interval (now - last_completed_at)

abbrev pub missed_window_escalation_threshold : ℕ
missed_window_escalation_threshold = 3

abbrev pub missed_window_catchup_batch_limit : ℕ
missed_window_catchup_batch_limit = 50

abbrev pub non_critical_escalation_threshold : ℕ
non_critical_escalation_threshold = 10

abbrev pub critical_schedule_types : List (List ℕ)
critical_schedule_types = codes "expiry_check" ∷ codes "budget_rollover" ∷ codes "expire_blobs" ∷ []

-- The columns of a schedule that the handler reads; `config_type` is `config.type || 'unknown'`.
pub record ScheduleConfig : Type 0 where
  pub cron_expr : List ℕ
  pub last_completed_at : Option ℕ
  pub max_staleness_ms : Option ℕ
  pub config_type : List ℕ
  pub critical : Option Bool

pub data Effect : Type 0 where
  missed : ℕ → Effect
  missed_critical : ℕ → Effect
  catchup_job : ℕ → Effect
  caught_up : ℕ → Effect

-- `schedule.critical ?? CRITICAL_SCHEDULE_TYPES.has(configType)`.
unfoldable pub is_critical : ScheduleConfig → Bool
is_critical schedule = elim schedule.critical [
  | some b ↦ b
  | none ↦ any (λ t. same_text schedule.config_type t) critical_schedule_types
]

unfoldable pub escalation : ScheduleConfig → ℕ → List Effect
unfolding is_critical
escalation schedule missed_windows =
    if is_critical schedule && leb missed_window_escalation_threshold missed_windows
    then missed_critical missed_windows ∷ []
    else []

-- `parseCronInterval(...) || 60_000`.
abbrev pub or_minute : Interval → Interval
or_minute interval = if interval.numerator == 0 then millis 60000 else interval

-- `new Date(now.getTime() - (i - 1) * intervalMs)`, a whole number of milliseconds.
unfoldable pub missed_at : Interval → ℕ → ℕ → ℕ
missed_at interval now i =
    (now * interval.denominator - (i - 1) * interval.numerator) / interval.denominator

-- `for (let i = missedCount; i > 0; i--)`.
unfoldable pub catchup_jobs : Interval → ℕ → ℕ → List Effect
unfolding missed_at
catchup_jobs interval now zero = []
catchup_jobs interval now (suc i) =
    catchup_job (missed_at interval now (suc i)) ∷ catchup_jobs interval now i

abbrev pub or_staleness : Option ℕ → ℕ
or_staleness none = 300000
or_staleness (some n) = n

-- The handler after its early returns.
unfoldable pub catch_up : ScheduleConfig → ℕ → ℕ → List Effect
unfolding escalation catchup_jobs
catch_up schedule now missed_windows =
    let missed_count = min missed_windows missed_window_catchup_batch_limit in
    missed missed_windows
    ∷ (escalation schedule missed_windows
        ++ (catchup_jobs (or_minute (parse_cron_interval schedule.cron_expr)) now missed_count
            ++ (caught_up missed_count ∷ [])))

-- The early return, for the number of missed windows.
unfoldable pub respond : ScheduleConfig → ℕ → ℕ → ℕ → List Effect
respond schedule now last missed_windows =
    if missed_windows == 0 && ltb now (last + or_staleness schedule.max_staleness_ms)
    then []
    else catch_up schedule now missed_windows

unfoldable pub handle_since : ScheduleConfig → ℕ → Option ℕ → List Effect
unfolding respond
handle_since schedule now none = []
handle_since schedule now (some last) =
    respond schedule now last
      (compute_missed_windows (parse_cron_interval schedule.cron_expr) (some last) now)

unfoldable pub handle_missed_runs : ScheduleConfig → ℕ → List Effect
unfolding handle_since
handle_missed_runs schedule now = handle_since schedule now schedule.last_completed_at

-- With a known interval, the number of missed windows is one less than that of the whole intervals
-- that have gone by since the last completion, if there is one, and otherwise 0.
pub compute_missed_windows_lem :
    (interval : Interval) (last now : ℕ)
    → 0 < interval.numerator
    → last < now
    → let missed_windows = compute_missed_windows interval (some last) now in
      let elapsed = (now - last) * interval.denominator in
      (elapsed < (missed_windows + 2) * interval.numerator)
      × ((missed_windows ≡ 0) ⊎ ((missed_windows + 1) * interval.numerator ≤ elapsed))
unfolding compute_missed_windows
compute_missed_windows_lem interval last now known later = (grind arith, grind arith)
