-- ===== src/Scheduler/Execute.antt =====
-- `executeSchedule` of keeper/src/scheduler.ts, on the one schedule that it is called for. The lock is
-- AdvisoryLock's; its two queries run on connections of the pool. The other database calls are taken to
-- succeed. What the driver hands back for an `UPDATE` with no `RETURNING` clause is
-- a parameter, since the source takes its first row apart.
use walwatch.Prelude.{
  ℕ, zero, suc, ◌+◌, ◌≡◌, ◌≢◌, Bool, true, false, not, ◌||◌, List, [], ◌∷◌, Option, none, some, leb,
  ltb, ◌==◌, if◌then◌else◌, arith, refl, sym, ap, ◌∙◌,
}
use walwatch.AdvisoryLock.{Session, AdvisoryLock}

pub record Schedule : Type 0 where
  pub last_run_at : Option ℕ
  pub last_completed_at : Option ℕ
  pub min_interval_ms : Option ℕ

pub data RunStatus : Type 0 where
  running completed failed : RunStatus

-- The tables as the function sees them: the schedule's row, and the runs that were recorded, the latest
-- first.
pub record World : Type 0 where
  pub schedule : Option Schedule
  pub runs : List RunStatus

-- What a handler does: it returns whether it succeeded, or throws.
pub data HandlerResult : Type 0 where
  returned : Bool → HandlerResult
  threw : HandlerResult

-- Why the call ends, and whether a handler was called.
pub data Exit : Type 0 where
  locked_elsewhere not_found deferred already_updated update_error no_handler handled : Exit

-- Rows of a result, each with its `count` property, if it has one.
abbrev pub Driver : Type 0
Driver = ℕ → List (Option ℕ)

abbrev pub min_elapsed : Schedule → ℕ → Bool
min_elapsed s now = elim s.last_run_at [
  | none ↦ true
  | some last ↦ elim s.min_interval_ms [ none ↦ true | some m ↦ m == 0 || leb (last + m) now ]
]

-- `last_run_at IS NULL OR last_run_at < now`.
abbrev pub is_earlier : Option ℕ → ℕ → Bool
is_earlier none now = true
is_earlier (some last) now = ltb last now

-- The `UPDATE`, with the number of rows that it changes.
unfoldable pub claim_run : Schedule → ℕ → Schedule × ℕ
claim_run s now =
    if is_earlier s.last_run_at now then (record s { last_run_at = some now }, 1) else (s, 0)

abbrev is_success : HandlerResult → Bool
is_success (returned b) = b
is_success threw = false

-- `recordRunStart`, and `recordRunComplete` of the run that was started last.
unfoldable pub record_run_start : World → World
record_run_start w = record w { runs = running ∷ w.runs }

abbrev complete_first : RunStatus → List RunStatus → List RunStatus
complete_first status [] = []
complete_first status (_ ∷ runs) = status ∷ runs

unfoldable pub record_run_complete : RunStatus → World → World
record_run_complete status w = record w { runs = complete_first status w.runs }

-- What is recorded after the handler.
unfoldable pub record_completion : World → Schedule → ℕ → Bool → World
unfolding record_run_complete
record_completion w s now true =
    record_run_complete completed
      (record w { schedule = some (record s { last_completed_at = some now }) })
record_completion w s now false = record_run_complete failed (record w { schedule = some s })

-- From `recordRunStart` on.
unfoldable pub dispatch : Option HandlerResult → World → Schedule → ℕ → World × Exit
unfolding record_run_start record_completion
dispatch none w s now = (record_completion (record_run_start w) s now false, no_handler)
dispatch (some r) w s now = (record_completion (record_run_start w) s now (is_success r), handled)

-- `const [updatedResult] = ...; if (updatedResult.count === 0) return;`
unfoldable pub after_claim :
    List (Option ℕ) → Option HandlerResult → World → Schedule → ℕ → World × Exit
unfolding dispatch
after_claim [] handler w s now = (record w { schedule = some s }, update_error)
after_claim (some zero ∷ _) handler w s now = (record w { schedule = some s }, already_updated)
after_claim (some (suc n) ∷ _) handler w s now = dispatch handler w s now
after_claim (none ∷ _) handler w s now = dispatch handler w s now

-- The body of the `try`, with the lock held.
unfoldable pub locked_body : Driver → Option HandlerResult → World → ℕ → World × Exit
unfolding claim_run after_claim
locked_body driver handler w now = elim w.schedule [
  | none ↦ (w, not_found)
  | some s ↦
      if not (min_elapsed s now)
      then (w, deferred)
      else let (s', count) = claim_run s now in after_claim (driver count) handler w s' now
]

-- The schedule is there, its minimum interval has gone by, and it was last run before now.
abbrev pub IsDue : Option Schedule → ℕ → Type 0
IsDue none now = ⊥
IsDue (some s) now = (min_elapsed s now ≡ true) × (is_earlier s.last_run_at now ≡ true)

-- The time of the last run is moved to now.
abbrev pub moved : ℕ → Option Schedule → Option Schedule
moved now none = none
moved now (some s) = some (record s { last_run_at = some now })

-- The driver's documented behaviour: a statement with no `RETURNING` clause gives no rows.
abbrev pub ReturnsNoRows : Driver → Type 0
ReturnsNoRows driver = (n : ℕ) → driver n ≡ []

module _ {L : Type 0} (db : AdvisoryLock L) (driver : Driver) (handler : Option HandlerResult) where
  -- The `finally` block: the query runs on one of the connections, or fails, which is ignored.
  abbrev pub released : Option Session → L → L
  released none l = l
  released (some u) l = db.unlock u l

  abbrev pub after_lock : Option Session → World → ℕ → L × Bool → L × World × Exit
  after_lock u w now (l, true) =
      let (w', exit) = locked_body driver handler w now in (released u l, w', exit)
  after_lock u w now (l, false) = (l, w, locked_elsewhere)

  -- `pg_try_advisory_lock` on one connection, the body, and `pg_advisory_unlock` on one, maybe another.
  unfoldable pub execute_schedule : Session → Option Session → L → World → ℕ → L × World × Exit
  execute_schedule s u l w now = after_lock u w now (db.try_lock s l)

  no_rows-tables :
      (schedule : Option Schedule) (runs : List RunStatus) (now : ℕ)
      → ReturnsNoRows driver
      → let (w', exit) =
          locked_body driver handler (record { schedule = schedule; runs = runs }) now in
        (exit ≢ handled)
        × (w'.runs ≡ runs)
        × (IsDue schedule now → w'.schedule ≡ moved now schedule)
  unfolding locked_body
  no_rows-tables none runs now none_back = ((λ e. cc e), refl, λ bad. absurd bad)
  no_rows-tables (some s) runs now none_back = ground (arith, none_back 0, none_back 1)

  -- A driver that gives no rows: no handler is ever called and no run recorded; and if the lock was got
  -- and the schedule is due, the time of its last run is moved all the same.
  pub execute_schedule-no_rows :
      (s : Session) (u : Option Session) (l : L) (w : World) (now : ℕ)
      → ReturnsNoRows driver
      → let (l', w', exit) = execute_schedule s u l w now in
        (exit ≢ handled)
        × (w'.runs ≡ w.runs)
        × ((db.try_lock s l).1 ≡ true → IsDue w.schedule now → w'.schedule ≡ moved now w.schedule)
  unfolding execute_schedule
  execute_schedule-no_rows s u l w now none_back = of_try (db.try_lock s l)
    where
      of_try :
          (x : L × Bool)
          → let (l', w', exit) = after_lock u w now x in
            (exit ≢ handled)
            × (w'.runs ≡ w.runs)
            × (x.1 ≡ true → IsDue w.schedule now → w'.schedule ≡ moved now w.schedule)
      of_try (l', true) =
          let (out, same, moves) = no_rows-tables w.schedule w.runs now none_back in
          (out, same, λ _ due. moves due)
      of_try (l', false) = ((λ e. cc e), refl, λ bad. absurd (cc bad))

  -- The unlock on another connection than the one that got the lock leaves it held, whatever the body
  -- did: a call whose lock query runs on any connection but that one ends without a look at the schedule.
  pub execute_schedule-stays_locked :
      (s u t : Session) (l : L) (w : World) (now : ℕ) (v : Option Session) (w2 : World) (later : ℕ)
      → (db.try_lock s l).1 ≡ true
      → s ≢ u
      → s ≢ t
      → let l' = (execute_schedule s (some u) l w now).0 in
        (db.holder l' ≡ some s)
        × (((execute_schedule t v l' w2 later).2 ≡ locked_elsewhere)
            × ((execute_schedule t v l' w2 later).1 ≡ w2))
  unfolding execute_schedule
  execute_schedule-stays_locked s u t l w now v w2 later got other third =
      let held = still_held s u l w now (db.try_lock s l) refl got other in
      (held, refused t v w2 later _ (db.is_held t s _ held third))
    where
      still_held :
          (s u : Session) (l : L) (w : World) (now : ℕ) (x : L × Bool)
          → db.try_lock s l ≡ x
          → (db.try_lock s l).1 ≡ true
          → s ≢ u
          → db.holder (after_lock (some u) w now x).0 ≡ some s
      still_held s u l w now (l', true) tried got other =
          db.keeps_unlock u s l' (sym (ap (λ y. db.holder y.0) tried) ∙ (db.acquires s l got).1)
            other
      still_held s u l w now (l', false) tried got other = absurd (cc (ap (λ y. y.1) tried, got))

      refused :
          (t : Session) (v : Option Session) (w2 : World) (later : ℕ) (x : L × Bool)
          → x.1 ≡ false
          → ((after_lock v w2 later x).2 ≡ locked_elsewhere) × ((after_lock v w2 later x).1 ≡ w2)
      refused t v w2 later (l', true) bad = absurd (cc bad)
      refused t v w2 later (l', false) missed = (refl, refl)
