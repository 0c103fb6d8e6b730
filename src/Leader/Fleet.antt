-- ===== src/Leader/Fleet.antt =====
-- Several instances on one lock, by the calls that they make.
use walwatch.Prelude.{ℕ, ◌==◌, ◌≡◌, ◌⊎◌, Bool, List, [], ◌∷◌, Option, none, some, if◌then◌else◌}
use walwatch.AdvisoryLock.{Session, AdvisoryLock}
use walwatch.Leader.{LeaderElector, new_elector, renew, start, confirm_leadership, stop}

-- The lock, and the elector of each instance.
pub record Fleet (L : Type 0) : Type 0 where
  pub lock : L
  pub electors : ℕ → LeaderElector

-- A call, with the instance, the time and the connection on which its query runs, if it does not fail; a
-- stop tells whether its connections are closed. `ends` is no call: a connection of the instance is
-- closed, as the pool does with one that is idle for 20 seconds.
pub data Call : Type 0 where
  starts renews : ℕ → ℕ → Option ℕ → Call
  confirms : ℕ → ℕ → ℕ → Option ℕ → Call
  stops : ℕ → Option ℕ → Bool → Call
  ends : ℕ → ℕ → Call

-- A connection of the instance was closed but by `stop`.
abbrev pub Ended : ℕ → List Call → Type 0
Ended i [] = ⊥
Ended i (ends j c ∷ cs) = (i ≡ j) ⊎ Ended i cs
Ended i (_ ∷ cs) = Ended i cs

abbrev pub session : ℕ → Option ℕ → Option Session
session i none = none
session i (some c) = some (i, c)

abbrev pub replaced : ℕ → LeaderElector → (ℕ → LeaderElector) → ℕ → LeaderElector
replaced i e electors j = if i == j then e else electors j

module _ {L : Type 0} (db : AdvisoryLock L) where
  abbrev pub put : ℕ → Fleet L → L × LeaderElector → Fleet L
  put i f (l, e) = record { lock = l; electors = replaced i e f.electors }

  abbrev pub without_answer : L × LeaderElector × Bool → L × LeaderElector
  without_answer (l, e, ok) = (l, e)

  unfoldable pub perform : Call → Fleet L → Fleet L
  perform (starts i now c) f = put i f (start db now (session i c) (f.electors i) f.lock)
  perform (renews i now c) f = put i f (renew db now (session i c) (f.electors i) f.lock)
  perform (confirms i interval now c) f =
      put i f
        (without_answer (confirm_leadership db interval now (session i c) (f.electors i) f.lock))
  perform (stops i c ended) f = put i f (stop db i (session i c) ended (f.electors i) f.lock)
  perform (ends i c) f = record f { lock = db.end_session (i, c) f.lock }

  unfoldable pub perform_all : List Call → Fleet L → Fleet L
  perform_all [] f = f
  perform_all (c ∷ cs) f = perform_all cs (perform c f)

  -- The instance holds the lock, on some connection.
  abbrev pub Holds : ℕ → L → Type 0
  Holds i l = (c : ℕ) × (db.holder l ≡ some (i, c))

  -- The instances before any call.
  abbrev pub standing_by : L → Fleet L
  standing_by l = record { lock = l; electors = λ i. new_elector }
