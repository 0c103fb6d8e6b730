-- ===== src/Renewal/Attempts.antt =====
-- The attempts of a renewal: when the run is over, and how much it does.
use walwatch.Prelude.{
  ℕ, zero, suc, ◌≤◌, ◌≡◌, refl, Bool, true, false, List, [], ◌∷◌, Option, some, arith, ap, ◌∙◌, ◌⊎◌,
  inl, inr, ◌≢◌,
}
use walwatch.Retry.{Outcome, returns, throws}
use walwatch.Retry.Jobs.{ThrownError, is_retryable_job_error}
use walwatch.SuiPool.{SuiClientPool}
use walwatch.Renewal.{DueVault, RenewalResult}
use walwatch.Renewal.Executor.{
  Surroundings, Renewal, attempt, is_applied, retry_wait, repeated, after_attempt, attempts_loop,
  already_applied, ended,
}

module _ (vault : DueVault) (env : Surroundings) where
  -- The pool before an attempt, if every attempt before it is followed by another.
  abbrev pub pool_at : ℕ → SuiClientPool → ℕ → SuiClientPool
  pool_at from pool zero = pool
  pool_at from pool (suc k) = pool_at (suc from) (attempt vault env from pool).0 k

  -- An attempt that is followed by another: its error is tried again, and the renewal is not yet applied.
  abbrev pub GoesOn : ℕ → ℕ → SuiClientPool → Type 0
  GoesOn left made pool =
      (e : ThrownError) × ((attempt vault env made pool).1 ≡ throws e)
      × (is_retryable_job_error e ≡ true)
      × (is_applied vault env left made ≡ false)

  -- How an attempt ends the run, with what outcome; `left` is the number of attempts after it.
  pub data Ends (left made : ℕ) (pool : SuiClientPool)
      : Outcome ThrownError RenewalResult → Type 0 where
    settled :
        (r : RenewalResult)
        → (attempt vault env made pool).1 ≡ returns r
        → Ends left made pool (returns r)
    escalated :
        (e : ThrownError)
        → (attempt vault env made pool).1 ≡ throws e
        → is_retryable_job_error e ≡ false
        → Ends left made pool (throws e)
    applied :
        (e : ThrownError)
        → (attempt vault env made pool).1 ≡ throws e
        → is_retryable_job_error e ≡ true
        → is_applied vault env left made ≡ true
        → Ends left made pool (returns (already_applied vault))
    exhausted :
        (e : ThrownError)
        → (attempt vault env made pool).1 ≡ throws e
        → is_retryable_job_error e ≡ true
        → left ≡ 0
        → Ends left made pool (throws e)

  -- `k` attempts go on, and the one after them ends the run.
  abbrev pub RunsTo : ℕ → ℕ → SuiClientPool → ℕ → Outcome ThrownError RenewalResult → Type 0
  RunsTo left made pool zero o = Ends left made pool o
  RunsTo zero made pool (suc k) o = ⊥
  RunsTo (suc left) made pool (suc k) o =
      GoesOn (suc left) made pool × RunsTo left (suc made) (attempt vault env made pool).0 k o

  abbrev pub waits_from : ℕ → ℕ → List ℕ
  waits_from made zero = []
  waits_from made (suc k) = retry_wait vault env made ∷ waits_from (suc made) k

  -- What is reported when the attempt after `k` others ends the run.
  abbrev pub report : ℕ → SuiClientPool → ℕ → Outcome ThrownError RenewalResult → Renewal
  report made pool k o = record {
    outcome = o;
    pool = pool_at made pool (suc k);
    waits = waits_from made k;
    attempts = suc k;
  }

  module _ (next : SuiClientPool → Option ThrownError → Renewal) (left made : ℕ) where
    after-returns :
        (c : SuiClientPool × Outcome ThrownError RenewalResult) (r : RenewalResult)
        → c.1 ≡ returns r
        → after_attempt vault env next left made c ≡ ended vault env c.0 (returns r)
    unfolding after_attempt
    after-returns (p, returns x) r h = ground arith
    after-returns (p, throws x) r h = ground arith

    after-escalated :
        (c : SuiClientPool × Outcome ThrownError RenewalResult) (e : ThrownError)
        → c.1 ≡ throws e
        → is_retryable_job_error e ≡ false
        → after_attempt vault env next left made c ≡ ended vault env c.0 (throws e)
    unfolding after_attempt
    after-escalated (p, returns x) e h final = ground arith
    after-escalated (p, throws x) e h final = ground arith

    after-applied :
        (c : SuiClientPool × Outcome ThrownError RenewalResult) (e : ThrownError)
        → c.1 ≡ throws e
        → is_retryable_job_error e ≡ true
        → is_applied vault env left made ≡ true
        → after_attempt vault env next left made c
          ≡ ended vault env c.0 (returns (already_applied vault))
    unfolding after_attempt
    after-applied (p, returns x) e h again done = ground arith
    after-applied (p, throws x) e h again done = ground arith

    after-repeated :
        (c : SuiClientPool × Outcome ThrownError RenewalResult) (e : ThrownError)
        → c.1 ≡ throws e
        → is_retryable_job_error e ≡ true
        → is_applied vault env left made ≡ false
        → after_attempt vault env next left made c
          ≡ repeated vault env left made (next c.0 (some e))
    unfolding after_attempt
    after-repeated (p, returns x) e h again not_yet = ground arith
    after-repeated (p, throws x) e h again not_yet = ground arith

  abbrev after : ℕ → ℕ → SuiClientPool → Option ThrownError → Renewal
  after left made p e = attempts_loop vault env left (suc made) p e

  never_last : (made : ℕ) → is_applied vault env 0 made ≡ false
  unfolding is_applied
  never_last made = refl

  loop-Ends :
      (left made : ℕ) (pool : SuiClientPool) (last : Option ThrownError)
      (o : Outcome ThrownError RenewalResult)
      → Ends left made pool o
      → attempts_loop vault env (suc left) made pool last ≡ report made pool 0 o
  unfolding attempts_loop repeated
  loop-Ends left made pool last o (settled r e) =
      after-returns (after left made) left made (attempt vault env made pool) r e
  loop-Ends left made pool last o (escalated x e final) =
      after-escalated (after left made) left made (attempt vault env made pool) x e final
  loop-Ends left made pool last o (applied x e again done) =
      after-applied (after left made) left made (attempt vault env made pool) x e again done
  loop-Ends zero made pool last o (exhausted x e again no_more) =
      after-repeated (after 0 made) 0 made (attempt vault env made pool) x e again (never_last made)
  loop-Ends (suc left) made pool last o (exhausted x e again no_more) = absurd (omega arith)

  -- If `k` attempts go on and the next ends the run, then the run makes these and no others, waits
  -- after each that goes on, and leaves the pool as the calls of these attempts do.
  pub attempts_loop-RunsTo :
      (left made : ℕ) (pool : SuiClientPool) (last : Option ThrownError) (k : ℕ)
      (o : Outcome ThrownError RenewalResult)
      → RunsTo left made pool k o
      → attempts_loop vault env (suc left) made pool last ≡ report made pool k o
  unfolding attempts_loop repeated
  attempts_loop-RunsTo left made pool last zero o h = loop-Ends left made pool last o h
  attempts_loop-RunsTo zero made pool last (suc k) o h = absurd h
  attempts_loop-RunsTo (suc left) made pool last (suc k) o ((e, failed, again, not_yet), h) =
      after-repeated (after (suc left) made) (suc left) made (attempt vault env made pool) e failed
        again not_yet
      ∙ ap (repeated vault env (suc left) made)
          (attempts_loop-RunsTo left (suc made) (attempt vault env made pool).0 (some e) k o h)

  -- The test on the error of an attempt, if it has one.
  is_retried : Outcome ThrownError RenewalResult → Bool
  is_retried (returns r) = true
  is_retried (throws e) = is_retryable_job_error e

  -- An attempt ends the run, or goes on.
  end_or_repeat :
      (left made : ℕ) (pool : SuiClientPool) (c : Outcome ThrownError RenewalResult)
      (again done : Bool)
      → (attempt vault env made pool).1 ≡ c
      → is_retried c ≡ again
      → is_applied vault env left made ≡ done
      → ((o : Outcome ThrownError RenewalResult) × Ends left made pool o)
        ⊎ ((left ≢ 0) × GoesOn left made pool)
  unfolding is_retried
  end_or_repeat left made pool (returns r) again done e h d = inl (returns r, settled r e)
  end_or_repeat left made pool (throws x) false done e h d = inl (throws x, escalated x e h)
  end_or_repeat left made pool (throws x) true true e h d =
      inl (returns (already_applied vault), applied x e h d)
  end_or_repeat zero made pool (throws x) true false e h d = inl (throws x, exhausted x e h refl)
  end_or_repeat (suc left) made pool (throws x) true false e h d =
      inr ((λ z. omega (arith, z)), (x, e, h, d))

  split :
      (left made : ℕ) (pool : SuiClientPool)
      → ((o : Outcome ThrownError RenewalResult) × Ends left made pool o)
        ⊎ ((left ≢ 0) × GoesOn left made pool)
  split left made pool =
      end_or_repeat left made pool (attempt vault env made pool).1
        (is_retried (attempt vault env made pool).1) (is_applied vault env left made) refl refl refl

  -- Some number of attempts go on, and the one after them ends the run.
  abbrev pub IsDescribed : ℕ → ℕ → SuiClientPool → Type 0
  IsDescribed left made pool =
      (k : ℕ) × (o : Outcome ThrownError RenewalResult) × (k ≤ left) × RunsTo left made pool k o

  described : (left made : ℕ) (pool : SuiClientPool) → IsDescribed left made pool
  described zero made pool = elim (split zero made pool) [
    | inl (o, e) ↦ (0, o, omega arith, e)
    | inr (more, g) ↦ absurd (more refl)
  ]
  described (suc left) made pool = elim (split (suc left) made pool) [
    | inl (o, e) ↦ (0, o, omega arith, e)
    | inr (more, g) ↦
        let (k, o, le, h) = described left (suc made) (attempt vault env made pool).0 in
        (suc k, o, omega arith, (g, h))
  ]

  -- Some number of attempts go on and the one after them ends the run, as the run reports.
  abbrev pub IsReported : ℕ → ℕ → SuiClientPool → Option ThrownError → Type 0
  IsReported left made pool last =
      (k : ℕ) × (o : Outcome ThrownError RenewalResult) × (k ≤ left)
      × RunsTo left made pool k o
      × (attempts_loop vault env (suc left) made pool last ≡ report made pool k o)

  -- A run with attempts left makes some of them that go on and one that ends it, no more than it may,
  -- and reports just these: their number, the waits between them, the pool they leave, the outcome
  -- of the last.
  pub attempts_loop-IsReported :
      (left made : ℕ) (pool : SuiClientPool) (last : Option ThrownError)
      → IsReported left made pool last
  attempts_loop-IsReported left made pool last =
      let (k, o, le, h) = described left made pool in
      (k, o, le, h, attempts_loop-RunsTo left made pool last k o h)
