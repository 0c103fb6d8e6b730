-- ===== src/Renewal/Outcomes.antt =====
-- What a renewal returns.
use walwatch.Prelude.{
  ℕ, zero, suc, ◌≡◌, ◌≢◌, refl, sym, ap, ◌∙◌, ◌⊎◌, inl, inr, Bool, true, false, List, [], ◌∷◌,
  Option, none, some,
}
use walwatch.Retry.{Outcome, returns, throws}
use walwatch.Retry.Jobs.{ThrownError}
use walwatch.SuiPool.{SuiClientPool, PoolError, call}
use walwatch.Renewal.{DueVault, AlertEvent, RenewalResult}
use walwatch.Renewal.FeeConfig.{Cache}
use walwatch.Renewal.Events.{and_then, parse_events, big_int, or_zero}
use walwatch.Renewal.Executor.{
  Surroundings, Renewal, FeeSearch, TransactionResponse, TransactionEffects, succeeded, result_of,
  settle_response, settle_call, attempt, is_applied, attempts_loop, already_applied,
  execute_renewal, after_fee_config, searched_pool, search_fee_config, max_retries, of_effects,
  of_status,
}
use walwatch.Renewal.Attempts.{
  Ends, settled, escalated, applied, exhausted, RunsTo, attempts_loop-IsReported,
}

-- The effects of the response show a success.
abbrev pub IsSuccess : Option TransactionEffects → Type 0
IsSuccess none = ⊥
IsSuccess (some effects) = succeeded effects.status ≡ true

-- A result is of this response, whose transaction succeeded or gave an alert.
abbrev pub IsResultOf : TransactionResponse → RenewalResult → Type 0
IsResultOf response r =
    (r.digest ≡ some response.digest) × (IsSuccess response.effects ⊎ (r.alerts ≢ []))

-- A block that returns has steps that return.
and_then-returns :
    {E A B : Type 0} (x : Outcome E A) (f : A → Outcome E B) (b : B)
    → and_then x f ≡ returns b
    → (a : A) × (x ≡ returns a) × (f a ≡ returns b)
and_then-returns (returns a) f b h = (a, refl, h)
and_then-returns (throws e) f b h = absurd (cc h)

abbrev value_of : RenewalResult → Outcome ThrownError RenewalResult → RenewalResult
value_of default (returns r) = r
value_of default (throws e) = default

module _ (vault : DueVault) (response : TransactionResponse) where
  result_of-fields :
      (effects : TransactionEffects) (alerts : List AlertEvent) (r : RenewalResult)
      → result_of vault response effects alerts ≡ returns r
      → (r.digest ≡ some response.digest) × (r.alerts ≡ alerts)
  result_of-fields effects alerts r h =
      let (gas, read, same) = and_then-returns (big_int (or_zero effects.computation_cost)) _ r h in
      (sym (ap (λ o. (value_of r o).digest) same), sym (ap (λ o. (value_of r o).alerts) same))

  of_status-IsResultOf :
      (effects : TransactionEffects) (alerts : List AlertEvent) (r : RenewalResult) (ok : Bool)
      → of_status vault response effects alerts ok ≡ returns r
      → (r.digest ≡ some response.digest) × ((ok ≡ true) ⊎ (r.alerts ≢ []))
  of_status-IsResultOf effects alerts r true h =
      let (digest, same) = result_of-fields effects alerts r h in (digest, inl refl)
  of_status-IsResultOf effects [] r false h = absurd (cc h)
  of_status-IsResultOf effects (a ∷ alerts) r false h =
      let (digest, same) = result_of-fields effects (a ∷ alerts) r h in
      (digest, inr (λ empty. cc (empty, same)))

  of_effects-IsResultOf :
      (o : Option TransactionEffects) (alerts : List AlertEvent) (r : RenewalResult)
      → of_effects vault response o alerts ≡ returns r
      → (r.digest ≡ some response.digest) × (IsSuccess o ⊎ (r.alerts ≢ []))
  of_effects-IsResultOf none alerts r h = absurd (cc h)
  of_effects-IsResultOf (some effects) alerts r h =
      of_status-IsResultOf effects alerts r (succeeded effects.status) h

  settle_response-IsResultOf :
      (now : ℕ) (r : RenewalResult)
      → settle_response vault now response ≡ returns r
      → IsResultOf response r
  unfolding settle_response
  settle_response-IsResultOf now r h =
      let (alerts, read, rest) = and_then-returns (parse_events vault now response.events) _ r h in
      of_effects-IsResultOf response.effects alerts r rest

module _ (vault : DueVault) (env : Surroundings) where
  settle_call-response :
      (made : ℕ) (o : Outcome (PoolError ThrownError) TransactionResponse) (r : RenewalResult)
      → settle_call vault env made o ≡ returns r
      → (response : TransactionResponse) × (o ≡ returns response) × IsResultOf response r
  settle_call-response made (returns response) r h =
      (response, refl, settle_response-IsResultOf vault response (env.clock made) r h)
  settle_call-response made (throws e) r h = absurd (cc h)

  -- One of the attempts, of which `left` are to follow this one, is so; each has the pool that the
  -- calls before it leave.
  abbrev pub Some : (ℕ → ℕ → SuiClientPool → Type 0) → ℕ → ℕ → SuiClientPool → Type 0
  Some P zero made pool = P zero made pool
  Some P (suc left) made pool =
      P (suc left) made pool ⊎ Some P left (suc made) (attempt vault env made pool).0

  -- The attempt's call responds with this result, or the result says that the renewal is applied, which
  -- the aggregator shows after the attempt.
  abbrev pub Gives : RenewalResult → ℕ → ℕ → SuiClientPool → Type 0
  Gives r left made pool =
      ((response : TransactionResponse) × ((call (env.rpc made) pool).1 ≡ returns response)
        × IsResultOf response r)
      ⊎ ((is_applied vault env left made ≡ true) × (r ≡ already_applied vault))

  abbrev gives : RenewalResult → Outcome ThrownError RenewalResult
  gives r = returns r

  value_of-returns : (x r : RenewalResult) → gives x ≡ gives r → x ≡ r
  value_of-returns x r h = ap (value_of r) h

  Ends-Gives :
      (left made : ℕ) (pool : SuiClientPool) (o : Outcome ThrownError RenewalResult)
      (r : RenewalResult)
      → Ends vault env left made pool o
      → o ≡ returns r
      → Gives r left made pool
  unfolding attempt
  Ends-Gives left made pool o r (settled x e) same =
      inl (settle_call-response made (call (env.rpc made) pool).1 r (e ∙ same))
  Ends-Gives left made pool o r (escalated x e final) same = absurd (cc same)
  Ends-Gives left made pool o r (exhausted x e again no_more) same = absurd (cc same)
  Ends-Gives left made pool o r (applied x e again done) same =
      inr (done, sym (value_of-returns _ r same))

  here :
      (P : ℕ → ℕ → SuiClientPool → Type 0) (left made : ℕ) (pool : SuiClientPool)
      → P left made pool
      → Some P left made pool
  here P zero made pool p = p
  here P (suc left) made pool p = inl p

  RunsTo-Gives :
      (left made : ℕ) (pool : SuiClientPool) (k : ℕ) (o : Outcome ThrownError RenewalResult)
      (r : RenewalResult)
      → RunsTo vault env left made pool k o
      → o ≡ returns r
      → Some (Gives r) left made pool
  RunsTo-Gives left made pool zero o r h same =
      here (Gives r) left made pool (Ends-Gives left made pool o r h same)
  RunsTo-Gives zero made pool (suc k) o r h same = absurd h
  RunsTo-Gives (suc left) made pool (suc k) o r h same =
      inr (RunsTo-Gives left (suc made) (attempt vault env made pool).0 k o r h.1 same)

  attempts_loop-Gives :
      (pool : SuiClientPool) (r : RenewalResult)
      → (attempts_loop vault env max_retries 0 pool none).outcome ≡ returns r
      → Some (Gives r) 2 0 pool
  attempts_loop-Gives pool r h =
      let (k, o, le, runs, reported) = attempts_loop-IsReported vault env 2 0 pool none in
      RunsTo-Gives 2 0 pool k o r runs (sym (ap Renewal.outcome reported) ∙ h)

  after_fee :
      (pool : SuiClientPool) (cache : Cache) (o : Outcome ThrownError ℕ) (r : RenewalResult)
      → (after_fee_config vault env pool cache o).1.outcome ≡ returns r
      → Some (Gives r) 2 0 pool
  after_fee pool cache (returns o) r h = attempts_loop-Gives pool r h
  after_fee pool cache (throws e) r h = absurd (cc h)

  -- A renewal returns a result only if the call of one of its three attempts responds with it, by a
  -- transaction that succeeded or gave an alert, or if after one of the first two the aggregator shows
  -- that the renewal is applied. The first attempt has the pool that the search for the fee object
  -- leaves, each later one that of the attempt before.
  pub execute_renewal-Gives :
      (fees : FeeSearch) (package_id system : List ℕ) (cache : Cache) (pool : SuiClientPool)
      (r : RenewalResult)
      → (execute_renewal vault env fees package_id system cache pool).1.outcome ≡ returns r
      → Some (Gives r) 2 0 (searched_pool env fees package_id cache pool)
  unfolding execute_renewal
  execute_renewal-Gives fees [] system cache pool r h = absurd (cc h)
  execute_renewal-Gives fees (p ∷ ps) [] cache pool r h = absurd (cc h)
  execute_renewal-Gives fees (p ∷ ps) (c ∷ cs) cache pool r h =
      after_fee (searched_pool env fees (p ∷ ps) cache pool)
        (search_fee_config env fees (p ∷ ps) cache pool).1
        (search_fee_config env fees (p ∷ ps) cache pool).2 r h
