-- ===== src/AdvisoryLock.antt =====
-- The advisory lock of the database, which keeper/src/leader.ts and keeper/src/scheduler.ts use: an
-- interface, with what is documented of `pg_try_advisory_lock`, `pg_advisory_unlock` and the end of a
-- session as laws. A session is an instance and one of the connections of its pool.
pub mod Counted
use walwatch.Prelude.{ℕ, ◌≡◌, ◌≢◌, ◌⊎◌, Bool, true, false, Option, none, some}

abbrev pub Session : Type 0
Session = ℕ × ℕ

-- The advisory lock of the database, and the session that holds it.
pub record AdvisoryLock (L : Type 0) : Type 0 where
  pub holder : L → Option Session
  pub try_lock : Session → L → L × Bool
  pub unlock : Session → L → L
  -- All connections of an instance are closed, which ends their sessions.
  pub close_all : ℕ → L → L
  -- One connection is closed, which ends its session.
  pub end_session : Session → L → L
  pub acquires :
      (s : Session) (l : L)
      → (try_lock s l).1 ≡ true
      → ((holder l ≡ none) ⊎ (holder l ≡ some s)) × (holder (try_lock s l).0 ≡ some s)
  pub refuses :
      (s : Session) (l : L) → (try_lock s l).1 ≡ false → holder (try_lock s l).0 ≡ holder l
  pub is_free : (s : Session) (l : L) → holder l ≡ none → (try_lock s l).1 ≡ true
  pub is_held : (s t : Session) (l : L) → holder l ≡ some t → t ≢ s → (try_lock s l).1 ≡ false
  pub keeps_unlock :
      (s t : Session) (l : L) → holder l ≡ some t → t ≢ s → holder (unlock s l) ≡ some t
  pub owns_unlock :
      (s : Session) (l : L)
      → (t : Session) → holder l ≡ some t
      → (holder (unlock s l) ≡ some t) ⊎ (holder (unlock s l) ≡ none)
  pub keeps_close_all :
      (i : ℕ) (t : Session) (l : L) → holder l ≡ some t → t.0 ≢ i → holder (close_all i l) ≡ some t
  pub ends_close_all : (i c : ℕ) (l : L) → holder l ≡ some (i, c) → holder (close_all i l) ≡ none
  pub stays_free : (i : ℕ) (l : L) → holder l ≡ none → holder (close_all i l) ≡ none
  pub keeps_end_session :
      (s t : Session) (l : L) → holder l ≡ some t → t ≢ s → holder (end_session s l) ≡ some t
  pub ends_end_session : (s : Session) (l : L) → holder l ≡ some s → holder (end_session s l) ≡ none
