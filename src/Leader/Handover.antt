-- ===== src/Leader/Handover.antt =====
-- How the leadership is lost and passed on.
use walwatch.Prelude.{
  ◌⊎◌, ℕ, ◌==◌, ◌≡◌, ◌≢◌, refl, sym, ap, ◌∙◌, inl, inr, Bool, true, false, List, Option, none, some,
  arith, Bool-cases, if◌then◌else◌, eq-path,
}
use walwatch.AdvisoryLock.{Session, AdvisoryLock}
use walwatch.Leader.{LeaderElector, try_acquire, after_try, renewed, renew, stop, unlocked}
use walwatch.Leader.Fleet.{
  Call, renews, stops, Ended, session, replaced, perform, perform_all, Holds, standing_by,
}
use walwatch.Leader.Election.{given_up, leader-Holds}

replaced-same : (j : ℕ) (e : LeaderElector) (es : ℕ → LeaderElector) → replaced j e es j ≡ e
replaced-same j e es = ground arith

replaced-other :
    (i j : ℕ) (e : LeaderElector) (es : ℕ → LeaderElector) → j ≢ i → replaced i e es j ≡ es j
replaced-other i j e es ne = elim (Bool-cases (i == j)) [
  | inl same ↦ absurd (ne (sym (eq-path i j same)))
  | inr differs ↦ ap (λ b. if b then e else es j) differs
]

module _ {L : Type 0} (db : AdvisoryLock L) where
  missed_try :
      (i now : ℕ) (s : Session) (e : LeaderElector) (l : L) (x : L × Bool)
      → db.try_lock s l ≡ x
      → (db.try_lock s l).1 ≡ false
      → ((renewed db (after_try db now e x)).1.is_leader ≡ false)
        × (db.holder (renewed db (after_try db now e x)).0 ≡ db.holder l)
  missed_try i now s e l (l', true) tried refused = absurd (cc (ap (λ y. y.1) tried, refused))
  missed_try i now s e l (l', false) tried refused =
      (given_up e, sym (ap (λ y. db.holder y.0) tried) ∙ db.refuses s l refused)

  -- An instance whose renewal runs on another of its connections than the one that holds the lock does not
  -- lead after it, while the lock stays held by the first connection.
  pub renew-other_connection :
      (i c d now : ℕ) (e : LeaderElector) (l : L)
      → db.holder l ≡ some (i, c)
      → c ≢ d
      → e.stopped ≡ false
      → ((renew db now (some (i, d)) e l).1.is_leader ≡ false)
        × (db.holder (renew db now (some (i, d)) e l).0 ≡ some (i, c))
  unfolding renew try_acquire
  renew-other_connection i c d now e l held ne on =
      let refused = db.is_held (i, d) (i, c) l held (λ same. ne (ap (λ s. s.1) same)) in
      let (gone, kept) = missed_try i now (i, d) e l (db.try_lock (i, d) l) refl refused in
      (
        ap
              (λ b.
                (if b
                  then (l, e)
                  else renewed db (after_try db now e (db.try_lock (i, d) l))).1.is_leader)
              on
            ∙ gone,
        ap
              (λ b.
                db.holder
                  (if b then (l, e) else renewed db (after_try db now e (db.try_lock (i, d) l))).0)
              on
            ∙ kept
            ∙ held,
      )

  freed_by_stop :
      (i : ℕ) (c : Option ℕ) (leads : Bool) (l : L)
      → Holds db i l
      → db.holder (db.close_all i (unlocked db (session i c) leads l)) ≡ none
  freed_by_stop i none leads l (d, held) = db.ends_close_all i d l held
  freed_by_stop i (some c) false l (d, held) = db.ends_close_all i d l held
  freed_by_stop i (some c) true l (d, held) = elim (db.owns_unlock (i, c) l (i, d) held) [
    | inl kept ↦ db.ends_close_all i d _ kept
    | inr free ↦ db.stays_free i _ free
  ]

  acquired_by_try :
      (now : ℕ) (s : Session) (e : LeaderElector) (l : L) (x : L × Bool)
      → db.try_lock s l ≡ x
      → (db.try_lock s l).1 ≡ true
      → (renewed db (after_try db now e x)).1.is_leader ≡ true
  acquired_by_try now s e l (l', true) tried ok = refl
  acquired_by_try now s e l (l', false) tried ok = absurd (cc (ap (λ y. y.1) tried, ok))

  renew-free :
      (now : ℕ) (s : Session) (e : LeaderElector) (l : L)
      → e.stopped ≡ false
      → db.holder l ≡ none
      → (renew db now (some s) e l).1.is_leader ≡ true
  unfolding renew try_acquire
  renew-free now s e l on free =
      ap
        (λ b. (if b then (l, e) else renewed db (after_try db now e (db.try_lock s l))).1.is_leader)
        on
      ∙ acquired_by_try now s e l (db.try_lock s l) refl (db.is_free s l free)

  Holds-still :
      (i : ℕ) (l : L) (cs : List Call) → Holds db i l ⊎ Ended i cs → (Ended i cs → ⊥) → Holds db i l
  Holds-still i l cs (inl held) ne = held
  Holds-still i l cs (inr ended) ne = absurd (ne ended)

  -- After any calls whatever: once the leader, of which no connection was closed before, has stopped and
  -- has closed its connections, even if the release of its lock failed, the next renewal of any instance
  -- that is not stopped makes it the leader, if the query of that renewal does not fail.
  pub takes_over :
      (cs : List Call) (l : L) (i j c now : ℕ) (d : Option ℕ)
      → ((perform_all db cs (standing_by db l)).electors i).is_leader ≡ true
      → (Ended i cs → ⊥)
      → j ≢ i
      → ((perform_all db cs (standing_by db l)).electors j).stopped ≡ false
      → ((perform db
            (renews j now (some c))
            (perform db (stops i d true) (perform_all db cs (standing_by db l)))).electors
          j).is_leader
        ≡ true
  unfolding perform stop
  takes_over cs l i j c now d leads whole ne on =
      let f = perform_all db cs (standing_by db l) in
      let held = Holds-still i f.lock cs (leader-Holds db cs l i leads) whole in
      ap (λ e. e.is_leader) (replaced-same j _ (perform db (stops i d true) f).electors)
      ∙ renew-free now (j, c) _ _ (ap (λ e. e.stopped) (replaced-other i j _ f.electors ne) ∙ on)
          (freed_by_stop i d (f.electors i).is_leader f.lock held)
