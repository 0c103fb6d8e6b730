-- ===== src/Scheduler/Examples.antt =====
-- Cron expressions, missed runs and executions on concrete inputs, and the theorems at them.
use walwatch.Prelude.{ap, arith, ◌≡◌, ◌≢◌, refl, [], ◌∷◌, none, some, codes, same_text, true}
use walwatch.Scheduler.Cron.{millis, parse_cron_interval}
use walwatch.Scheduler.Missed.{
  ScheduleConfig, compute_missed_windows, handle_missed_runs, catchup_job, catch_up, caught_up,
  missed,
}
use walwatch.AdvisoryLock.{Session}
use walwatch.AdvisoryLock.Counted.{postgres}
use walwatch.Scheduler.Execute.{
  Schedule, World, Driver, IsDue, moved, execute_schedule, execute_schedule-no_rows,
  execute_schedule-stays_locked, returned, handled, locked_elsewhere,
}

scan_schedule : parse_cron_interval (codes "*/2 * * * *") ≡ millis 120000
unfolding parse_cron_interval same_text
scan_schedule = refl

quarters :
    parse_cron_interval (codes "30,0,45,15 * * * *")
    ≡ record { numerator = 3600000; denominator = 4 }
unfolding parse_cron_interval same_text
quarters = refl

daily : parse_cron_interval (codes "0 5 * * *") ≡ millis 86400000
unfolding parse_cron_interval same_text
daily = refl

abbrev every_minute : ScheduleConfig
every_minute = record {
  cron_expr = codes "*/1 * * * *";
  last_completed_at = some 1000;
  max_staleness_ms = none;
  config_type = codes "report";
  critical = none;
}

three_minutes_late :
    handle_missed_runs every_minute 181000
    ≡ missed 2 ∷ catchup_job 121000 ∷ catchup_job 181000 ∷ caught_up 2 ∷ []
unfolding handle_missed_runs same_text parse_cron_interval compute_missed_windows catch_up
three_minutes_late = refl

-- A driver that gives no rows.
abbrev silent : Driver
silent _ = []

abbrev due : Schedule
due = record { last_run_at = some 100; last_completed_at = none; min_interval_ms = some 50 }

abbrev idle : World
idle = record { schedule = some due; runs = [] }

-- Two connections of one instance, and one of another.
abbrev first : Session
first = (1, 0)

abbrev second : Session
second = (1, 1)

abbrev elsewhere : Session
elsewhere = (2, 0)

execute_schedule-no_rows_example :
    let (l', w', exit) =
      execute_schedule postgres silent (some (returned true)) first (some first) none idle 200 in
    (exit ≢ handled)
    × (w'.runs ≡ [])
    × ((postgres.try_lock first none).1 ≡ true
        → IsDue (some due) 200
        → w'.schedule ≡ moved 200 (some due))
execute_schedule-no_rows_example =
    execute_schedule-no_rows postgres silent (some (returned true)) first (some first) none idle 200
      (λ n. refl)

execute_schedule-stays_locked_example :
    let l' =
      (execute_schedule postgres silent
        (some (returned true))
        first
        (some second)
        none
        idle
        200).0 in
    (postgres.holder l' ≡ some first)
    × (((execute_schedule postgres silent (some (returned true)) elsewhere none l' idle 300).2
          ≡ locked_elsewhere)
        × ((execute_schedule postgres silent (some (returned true)) elsewhere none l' idle 300).1
            ≡ idle))
execute_schedule-stays_locked_example =
    execute_schedule-stays_locked postgres silent (some (returned true)) first second elsewhere none
      idle 200 none idle 300 refl (λ h. omega (arith, ap (λ x. x.1) h))
      (λ h. omega (arith, ap (λ x. x.0) h))
