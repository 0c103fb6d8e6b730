-- ===== src/Leader.antt =====
-- keeper/src/leader.ts: the elector of each keeper instance (`Leader`) and what several of them do on one
-- advisory lock (`Leader.Election`, `Leader.Handover`). The lock is the parameter of AdvisoryLock. The table `leader_locks`, which
-- nothing reads, and the callbacks' effects are left out.
pub mod Fleet
pub mod Election
pub mod Handover
mod Examples
use walwatch.Prelude.{
  ℕ, ◌+◌, ◌/◌, ltb, ◌==◌, ◌≡◌, ◌≢◌, ◌⊎◌, Bool, true, false, not, ◌&&◌, List, [], ◌∷◌, ◌++◌, Option,
  none, some, if◌then◌else◌,
}
use walwatch.AdvisoryLock.{Session, AdvisoryLock}

pub data Change : Type 0 where
  gained lost : Change

-- `LeaderElector`, with the calls of `onLeadershipGained` and `onLeadershipLost`.
pub record LeaderElector : Type 0 where
  pub is_leader : Bool
  pub stopped : Bool
  pub last_leadership_confirmed_at : ℕ
  pub changes : List Change

-- `constructor`.
abbrev pub new_elector : LeaderElector
new_elector = record {
  is_leader = false;
  stopped = false;
  last_leadership_confirmed_at = 0;
  changes = [];
}

-- `setLeader`.
abbrev pub set_leader : Bool → LeaderElector → LeaderElector
set_leader true e = record e {
  is_leader = true;
  changes = e.changes ++ (if e.is_leader then [] else gained ∷ []);
}
set_leader false e = record e {
  is_leader = false;
  changes = e.changes ++ (if e.is_leader then lost ∷ [] else []);
}

module _ {L : Type 0} (db : AdvisoryLock L) where
  abbrev pub confirmed : ℕ → LeaderElector → LeaderElector
  confirmed now e = record (set_leader true e) { last_leadership_confirmed_at = now }

  abbrev pub after_try : ℕ → LeaderElector → L × Bool → L × LeaderElector × Bool
  after_try now e (l, true) = (l, confirmed now e, true)
  after_try now e (l, false) = (l, e, false)

  -- `tryAcquire`: the query runs on one of the instance's connections, or fails.
  unfoldable pub try_acquire : ℕ → Option Session → LeaderElector → L → L × LeaderElector × Bool
  try_acquire now none e l = (l, e, false)
  try_acquire now (some s) e l = after_try now e (db.try_lock s l)

  abbrev pub renewed : L × LeaderElector × Bool → L × LeaderElector
  renewed (l, e, true) = (l, e)
  renewed (l, e, false) = (l, if e.is_leader then set_leader false e else e)

  -- The timer of `start`.
  unfoldable pub renew : ℕ → Option Session → LeaderElector → L → L × LeaderElector
  renew now query e l = if e.stopped then (l, e) else renewed (try_acquire now query e l)

  -- The first call of `start`.
  unfoldable pub start : ℕ → Option Session → LeaderElector → L → L × LeaderElector
  start now query e l = let (l', e', ok) = try_acquire now query e l in (l', e')

  abbrev pub of_confirm : L × LeaderElector × Bool → L × LeaderElector × Bool
  of_confirm (l, e, true) = (l, e, true)
  of_confirm (l, e, false) = (l, set_leader false e, false)

  -- `Date.now() - lastLeadershipConfirmedAt < renewIntervalMs / 2`.
  abbrev pub is_recent : ℕ → ℕ → LeaderElector → Bool
  is_recent interval now e =
      ltb (now + now) (e.last_leadership_confirmed_at + e.last_leadership_confirmed_at + interval)

  -- `confirmLeadership`; as `tryAcquire` throws nothing, its `catch` is never entered.
  unfoldable pub confirm_leadership :
      ℕ → ℕ → Option Session → LeaderElector → L → L × LeaderElector × Bool
  confirm_leadership interval now query e l =
      if not e.is_leader
      then (l, e, false)
      else if e.stopped
      then (l, e, false)
      else if is_recent interval now e
      then (l, e, true)
      else of_confirm (try_acquire now query e l)

  abbrev pub unlocked : Option Session → Bool → L → L
  unlocked none leads l = l
  unlocked (some s) leads l = if leads then db.unlock s l else l

  -- `closeDb`: an `end()` that fails on every try is only logged.
  abbrev pub closed : ℕ → Bool → L → L
  closed i ended l = if ended then db.close_all i l else l

  -- `stop`, of the instance: the lock is released on one of its connections, unless that fails, and then
  -- all are closed, unless that fails. No callback is called.
  unfoldable pub stop : ℕ → Option Session → Bool → LeaderElector → L → L × LeaderElector
  stop i query ended e l = (
    closed i ended (unlocked query e.is_leader l),
    record e { stopped = true; is_leader = false },
  )
