-- ===== src/Leader/Election.antt =====
-- At most one instance leads.
use mathlib.Core.Option.{some-injective}
use walwatch.Prelude.{
  ℕ, ◌==◌, ◌≡◌, ◌≢◌, refl, sym, ap, subst, ◌∙◌, ◌⊎◌, inl, inr, Bool, true, false, not, List, [],
  ◌∷◌, Option, none, some, arith, Bool-cases, if◌then◌else◌, eq-path,
}
use walwatch.AdvisoryLock.{AdvisoryLock}
use walwatch.Leader.{
  LeaderElector, set_leader, try_acquire, after_try, renewed, renew, start, confirm_leadership,
  of_confirm, stop, is_recent, unlocked, closed,
}
use walwatch.Leader.Fleet.{
  Fleet, Call, starts, renews, confirms, stops, ends, Ended, session, put, without_answer, perform,
  perform_all, Holds, standing_by,
}

pub given_up :
    (e : LeaderElector) → (if e.is_leader then set_leader false e else e).is_leader ≡ false
given_up e = ground arith

module _ {L : Type 0} (db : AdvisoryLock L) where
  -- Every leader holds the lock, but for those that are excepted.
  abbrev pub LeadersHold : (ℕ → Type 0) → Fleet L → Type 0
  LeadersHold E f = (i : ℕ) → (f.electors i).is_leader ≡ true → Holds db i f.lock ⊎ E i

differ : (i j : ℕ) → (i == j) ≡ false → j ≢ i
differ i j h e = ground (arith, e)

-- An instance whose connection this ends is excepted.
abbrev pub Excepts : (ℕ → Type 0) → Call → Type 0
Excepts E (ends i c) = E i
Excepts E _ = Unit

abbrev pub AllExcept : (ℕ → Type 0) → List Call → Type 0
AllExcept E [] = Unit
AllExcept E (c ∷ cs) = Excepts E c × AllExcept E cs

module _ {L : Type 0} (db : AdvisoryLock L) (E : ℕ → Type 0) where
  kept : {A B C : Type 0} → (A → B) → A ⊎ C → B ⊎ C
  kept f (inl a) = inl (f a)
  kept f (inr c) = inr c

  -- What a call of an instance may do: if it leads afterwards it holds the lock or is excepted, and what another
  -- instance held before, that instance holds still.
  record Fair (i : ℕ) (l : L) (after : L × LeaderElector) : Type 0 where
    own : after.1.is_leader ≡ true → Holds db i after.0 ⊎ E i
    others : (j : ℕ) → j ≢ i → Holds db j l → Holds db j after.0

  Fair-put :
      (i : ℕ) (f : Fleet L) (after : L × LeaderElector)
      → Fair i f.lock after
      → LeadersHold db E f
      → LeadersHold db E (put db i f after)
  Fair-put i f (l, e) fair h j leads = elim (Bool-cases (i == j)) [
    | inl same ↦
        subst (λ k. Holds db k l ⊎ E k) (eq-path i j same)
          (fair.own (sym (ap (λ b. (if b then e else f.electors j).is_leader) same) ∙ leads))
    | inr differs ↦
        kept (fair.others j (differ i j differs))
          (h j (sym (ap (λ b. (if b then e else f.electors j).is_leader) differs) ∙ leads))
  ]

  -- What a query of an instance may do.
  record FairTry (i : ℕ) (e : LeaderElector) (l : L) (after : L × LeaderElector × Bool)
      : Type 0 where
    got : after.2 ≡ true → Holds db i after.0
    missed : after.2 ≡ false → (after.1 ≡ e) × (Holds db i l → Holds db i after.0)
    others : (j : ℕ) → j ≢ i → Holds db j l → Holds db j after.0

  not_other :
      (i j c : ℕ) (l : L)
      → (db.holder l ≡ none) ⊎ (db.holder l ≡ some (i, c))
      → j ≢ i
      → Holds db j l
      → ⊥
  not_other i j c l (inl free) ne (d, held) = cc (free, held)
  not_other i j c l (inr mine) ne (d, held) =
      ne (ap (λ s. s.0) (some-injective (j, d) (i, c) (sym held ∙ mine)))

  after_try-Fair :
      (i now c : ℕ) (e : LeaderElector) (l : L) (x : L × Bool)
      → db.try_lock (i, c) l ≡ x
      → FairTry i e l (after_try db now e x)
  after_try-Fair i now c e l (l', true) tried = record {
    got = λ _. (c, subst (λ y. db.holder y.0 ≡ some (i, c)) tried acquired.1);
    missed = λ bad. absurd (cc bad);
    others = λ j ne held. absurd (not_other i j c l acquired.0 ne held);
  }
    where
      acquired :
          ((db.holder l ≡ none) ⊎ (db.holder l ≡ some (i, c)))
          × (db.holder (db.try_lock (i, c) l).0 ≡ some (i, c))
      acquired = db.acquires (i, c) l (ap (λ y. y.1) tried)
  after_try-Fair i now c e l (l', false) tried = record {
    got = λ bad. absurd (cc bad);
    missed = λ _. (refl, λ held. (held.0, same ∙ held.1));
    others = λ j ne held. (held.0, same ∙ held.1);
  }
    where
      same : db.holder l' ≡ db.holder l
      same = sym (ap (λ y. db.holder y.0) tried) ∙ db.refuses (i, c) l (ap (λ y. y.1) tried)

  try_acquire-Fair :
      (i now : ℕ) (c : Option ℕ) (e : LeaderElector) (l : L)
      → FairTry i e l (try_acquire db now (session i c) e l)
  unfolding try_acquire
  try_acquire-Fair i now none e l = record {
    got = λ bad. absurd (cc bad);
    missed = λ _. (refl, λ held. held);
    others = λ j ne held. held;
  }
  try_acquire-Fair i now (some c) e l = after_try-Fair i now c e l (db.try_lock (i, c) l) refl

  abbrev Leads : ℕ → LeaderElector → L → Type 0
  Leads i e l = e.is_leader ≡ true → Holds db i l ⊎ E i

  unchanged-Fair : (i : ℕ) (e : LeaderElector) (l : L) → Leads i e l → Fair i l (l, e)
  unchanged-Fair i e l lead = record { own = lead; others = λ j ne held. held }

  start-Fair :
      (i : ℕ) (e : LeaderElector) (l : L) (r : L × LeaderElector × Bool)
      → Leads i e l
      → FairTry i e l r
      → Fair i l (without_answer db r)
  start-Fair i e l (l', e', true) lead fair = record {
    own = λ _. inl (fair.got refl);
    others = fair.others;
  }
  start-Fair i e l (l', e', false) lead fair = record {
    own = λ leads.
        kept (fair.missed refl).1 (lead (sym (ap (λ x. x.is_leader) (fair.missed refl).0) ∙ leads));
    others = fair.others;
  }

  renewed-Fair :
      (i : ℕ) (e : LeaderElector) (l : L) (r : L × LeaderElector × Bool)
      → FairTry i e l r
      → Fair i l (renewed db r)
  renewed-Fair i e l (l', e', true) fair = record {
    own = λ _. inl (fair.got refl);
    others = fair.others;
  }
  renewed-Fair i e l (l', e', false) fair = record {
    own = λ leads. absurd (cc (leads, given_up e'));
    others = fair.others;
  }

  renew-Fair :
      (i now : ℕ) (c : Option ℕ) (e : LeaderElector) (l : L) (stopped : Bool)
      → Leads i e l
      → Fair i l (if stopped then (l, e) else renewed db (try_acquire db now (session i c) e l))
  renew-Fair i now c e l true lead = unchanged-Fair i e l lead
  renew-Fair i now c e l false lead = renewed-Fair i e l _ (try_acquire-Fair i now c e l)

  of_confirm-Fair :
      (i : ℕ) (e : LeaderElector) (l : L) (r : L × LeaderElector × Bool)
      → FairTry i e l r
      → Fair i l (without_answer db (of_confirm db r))
  of_confirm-Fair i e l (l', e', true) fair = record {
    own = λ _. inl (fair.got refl);
    others = fair.others;
  }
  of_confirm-Fair i e l (l', e', false) fair = record {
    own = λ leads. absurd (cc leads);
    others = fair.others;
  }

  confirm-Fair :
      (i interval now : ℕ) (c : Option ℕ) (e : LeaderElector) (l : L)
      (standby stopped recent : Bool)
      → Leads i e l
      → Fair i l (
          without_answer db (
            if standby
            then (l, e, false)
            else if stopped
            then (l, e, false)
            else if recent
            then (l, e, true)
            else of_confirm db (try_acquire db now (session i c) e l)))
  confirm-Fair i interval now c e l true stopped recent lead = unchanged-Fair i e l lead
  confirm-Fair i interval now c e l false true recent lead = unchanged-Fair i e l lead
  confirm-Fair i interval now c e l false false true lead = unchanged-Fair i e l lead
  confirm-Fair i interval now c e l false false false lead =
      of_confirm-Fair i e l _ (try_acquire-Fair i now c e l)

  unlocked-others :
      (i : ℕ) (c : Option ℕ) (leads : Bool) (l : L) (j : ℕ)
      → j ≢ i
      → Holds db j l
      → Holds db j (unlocked db (session i c) leads l)
  unlocked-others i none leads l j ne held = held
  unlocked-others i (some c) false l j ne held = held
  unlocked-others i (some c) true l j ne (d, held) =
      (d, db.keeps_unlock (i, c) (j, d) l held (λ e. ne (ap (λ s. s.0) e)))

  closed-others :
      (i : ℕ) (ended : Bool) (l : L) (j : ℕ)
      → j ≢ i
      → Holds db j l
      → Holds db j (closed db i ended l)
  closed-others i true l j ne (d, held) = (d, db.keeps_close_all i (j, d) l held ne)
  closed-others i false l j ne held = held

  -- What the end of another session leaves.
  after_end : (i c j : ℕ) (l : L) → E i → Holds db j l → Holds db j (db.end_session (i, c) l) ⊎ E j
  after_end i c j l excepted (d, held) = elim (Bool-cases (i == j)) [
    | inl same ↦ inr (subst E (eq-path i j same) excepted)
    | inr differs ↦
        inl
          (d, db.keeps_end_session (i, c) (j, d) l held (λ e. differ i j differs (ap (λ s. s.0) e)))
  ]

  perform-LeadersHold :
      (c : Call) (f : Fleet L)
      → Excepts E c
      → LeadersHold db E f
      → LeadersHold db E (perform db c f)
  unfolding perform start renew confirm_leadership stop
  perform-LeadersHold (starts i now c) f ok h =
      Fair-put i f _
        (start-Fair i (f.electors i) f.lock _ (h i)
          (try_acquire-Fair i now c (f.electors i) f.lock))
        h
  perform-LeadersHold (renews i now c) f ok h =
      Fair-put i f _ (renew-Fair i now c (f.electors i) f.lock (f.electors i).stopped (h i)) h
  perform-LeadersHold (confirms i interval now c) f ok h =
      Fair-put i f _
        (confirm-Fair i interval now c (f.electors i) f.lock (not (f.electors i).is_leader)
          (f.electors i).stopped (is_recent db interval now (f.electors i)) (h i))
        h
  perform-LeadersHold (stops i c ended) f ok h =
      Fair-put i f _
        record {
          own = λ leads. absurd (cc leads);
          others = λ j ne held.
              closed-others i ended _ j ne
                (unlocked-others i c (f.electors i).is_leader f.lock j ne held);
        }
        h
  perform-LeadersHold (ends i c) f ok h = λ j leads. elim (h j leads) [
    | inl held ↦ after_end i c j f.lock ok held
    | inr excepted ↦ inr excepted
  ]

  pub perform_all-LeadersHold :
      (cs : List Call) (f : Fleet L)
      → AllExcept E cs
      → LeadersHold db E f
      → LeadersHold db E (perform_all db cs f)
  unfolding perform_all
  perform_all-LeadersHold [] f ok h = h
  perform_all-LeadersHold (c ∷ cs) f ok h =
      perform_all-LeadersHold cs (perform db c f) ok.1 (perform-LeadersHold c f ok.0 h)

-- The instances with an ended connection are excepted.
Ended-AllExcept : (cs : List Call) (E : ℕ → Type 0) → ((i : ℕ) → Ended i cs → E i) → AllExcept E cs
Ended-AllExcept [] E h = tt
Ended-AllExcept (starts i now c ∷ cs) E h = (tt, Ended-AllExcept cs E h)
Ended-AllExcept (renews i now c ∷ cs) E h = (tt, Ended-AllExcept cs E h)
Ended-AllExcept (confirms i interval now c ∷ cs) E h = (tt, Ended-AllExcept cs E h)
Ended-AllExcept (stops i c ended ∷ cs) E h = (tt, Ended-AllExcept cs E h)
Ended-AllExcept (ends i c ∷ cs) E h =
    (h i (inl refl), Ended-AllExcept cs E (λ j later. h j (inr later)))

module _ {L : Type 0} (db : AdvisoryLock L) where
  -- After any calls, a leader holds the lock, unless a connection of it was closed.
  pub leader-Holds :
      (cs : List Call) (l : L) (i : ℕ)
      → ((perform_all db cs (standing_by db l)).electors i).is_leader ≡ true
      → Holds db i (perform_all db cs (standing_by db l)).lock ⊎ Ended i cs
  leader-Holds cs l i leads =
      perform_all-LeadersHold db (λ k. Ended k cs) cs (standing_by db l)
        (Ended-AllExcept cs (λ k. Ended k cs) (λ k h. h)) (λ k bad. absurd (cc bad)) i leads

  one_holder : (i j : ℕ) (l : L) → Holds db i l → Holds db j l → i ≡ j
  one_holder i j l (c, mine) (d, theirs) =
      ap (λ s. s.0) (some-injective (i, c) (j, d) (sym mine ∙ theirs))

  -- After any calls of any instances, on any of their connections, with any queries failing and any
  -- connections ending in between, two instances that lead are the same, unless a connection of one of
  -- them was closed otherwise than by its `stop`.
  pub one_leader :
      (cs : List Call) (l : L) (i j : ℕ)
      → ((perform_all db cs (standing_by db l)).electors i).is_leader ≡ true
      → ((perform_all db cs (standing_by db l)).electors j).is_leader ≡ true
      → (i ≡ j) ⊎ (Ended i cs ⊎ Ended j cs)
  one_leader cs l i j leads others = elim (leader-Holds cs l i leads) [
    | inr ended ↦ inr (inl ended)
    | inl mine ↦ elim (leader-Holds cs l j others) [
      | inr ended ↦ inr (inr ended)
      | inl theirs ↦ inl (one_holder i j _ mine theirs)
    ]
  ]
