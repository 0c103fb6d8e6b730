-- ===== src/SuiPool/Success.antt =====
-- When a call of a pool returns.
use walwatch.Prelude.{
  ℕ, zero, suc, ◌+◌, ◌%◌, ◌≤◌, ◌<◌, ◌≡◌, ◌≢◌, refl, sym, ap, subst, ◌∙◌, Bool, true, false, List,
  [], ◌∷◌, some, length, arith,
}
use walwatch.Breaker.{closed, CircuitBreaker}
use walwatch.Retry.{Outcome, returns, throws}
use walwatch.Breaker.Keeper.{begin}
use walwatch.SuiPool.Failover.{length-set_entry}
use walwatch.SuiPool.{
  SuiClientPool, Attempt, PoolError, all_failed, entry_at, set_entry, is_open, call_entry,
  call_loop, call, Next, after_call, try_breaker, try_entry,
}

entry_at-set_entry_ne :
    (n k : ℕ) (b : CircuitBreaker) (bs : List CircuitBreaker)
    → n ≢ k
    → entry_at k (set_entry n b bs) ≡ entry_at k bs
entry_at-set_entry_ne n k b [] ne = refl
entry_at-set_entry_ne zero zero b (x ∷ bs) ne = absurd (ne refl)
entry_at-set_entry_ne zero (suc k) b (x ∷ bs) ne = refl
entry_at-set_entry_ne (suc n) zero b (x ∷ bs) ne = refl
entry_at-set_entry_ne (suc n) (suc k) b (x ∷ bs) ne =
    entry_at-set_entry_ne n k b bs (λ e. ne (ap suc e))

places_differ : (at i n : ℕ) → suc i < n → (at % n) ≢ ((at + 1 + i) % n)
places_differ at i n h = grind arith

call_entry-closed :
    {E A : Type 0} (b : CircuitBreaker) (t : Attempt E A) (a : A)
    → b.state ≡ closed
    → t.result ≡ returns a
    → (call_entry b t).1 ≡ returns a
unfolding call_entry begin
call_entry-closed b t a shut good = ground arith

entry_at-some :
    (n : ℕ) (bs : List CircuitBreaker)
    → n < length bs
    → (b : CircuitBreaker) × (entry_at n bs ≡ some b)
entry_at-some n [] h = absurd (omega arith)
entry_at-some zero (b ∷ bs) h = (b, refl)
entry_at-some (suc n) (b ∷ bs) h = entry_at-some n bs (omega arith)

place_lt : (at n : ℕ) → 0 < n → at % n < n
place_lt at n h = grind arith

add_zero : (n : ℕ) → n + 0 ≡ n
add_zero n = omega arith

add_suc : (n i : ℕ) → n + suc i ≡ n + 1 + i
add_suc n i = omega arith

-- The call ends with a value.
abbrev pub Returns : {E A : Type 0} → SuiClientPool × Outcome (PoolError E) A → Type 0
Returns {A = A} r = (a : A) × (r.1 ≡ returns a)

after_call-returns :
    {E A : Type 0} (next : Next E A) (p : SuiClientPool) (k : ℕ) (a : A)
    (c : CircuitBreaker × Outcome (PoolError E) A)
    → c.1 ≡ returns a
    → (after_call next p k c).1 ≡ returns a
unfolding after_call
after_call-returns next p k a (b', returns x) h = h
after_call-returns next p k a (b', throws e) h = absurd (cc h)

module _ {E A : Type 0} (attempts : ℕ → Attempt E A) where
  -- The endpoint at a place is closed, and its try succeeds.
  abbrev pub IsUsable : SuiClientPool → ℕ → Type 0
  IsUsable p k =
      (b : CircuitBreaker) × (a : A) × (entry_at k p.entries ≡ some b)
      × (b.state ≡ closed)
      × ((attempts k).result ≡ returns a)

  usable_now :
      (next : Next E A) (p : SuiClientPool) (k : ℕ)
      → IsUsable p k
      → Returns (try_entry attempts next p k (entry_at k p.entries))
  unfolding try_entry try_breaker
  usable_now next p k (b, a, there, shut, good) = (
    a,
    ap (λ o. (try_entry attempts next p k o).1) there
        ∙ ap (λ x. (try_breaker attempts next p k b x).1) (ap is_open shut)
        ∙ after_call-returns next p k a (call_entry b (attempts k))
            (call_entry-closed b (attempts k) a shut good),
  )

  later_call :
      (next : Next E A) (p : SuiClientPool) (n k : ℕ) (c : CircuitBreaker × Outcome (PoolError E) A)
      → n ≢ k
      → IsUsable p k
      → ((q : SuiClientPool) (e : PoolError E)
          → length q.entries ≡ length p.entries
          → IsUsable q k
          → Returns (next q e))
      → Returns (after_call next p n c)
  unfolding after_call
  later_call next p n k (b', returns x) ne usable h = (x, refl)
  later_call next p n k (b', throws e) ne (b, a, there, shut, good) h =
      h _ e (length-set_entry n b' p.entries)
        (b, a, entry_at-set_entry_ne n k b' p.entries ne ∙ there, shut, good)

  later_breaker :
      (next : Next E A) (p : SuiClientPool) (n k : ℕ) (b : CircuitBreaker) (x : Bool)
      → n ≢ k
      → IsUsable p k
      → ((q : SuiClientPool) (e : PoolError E)
          → length q.entries ≡ length p.entries
          → IsUsable q k
          → Returns (next q e))
      → Returns (try_breaker attempts next p n b x)
  unfolding try_breaker
  later_breaker next p n k b true ne usable h = h p _ refl usable
  later_breaker next p n k b false ne usable h =
      later_call next p n k (call_entry b (attempts n)) ne usable h

  usable_later :
      (next : Next E A) (p : SuiClientPool) (n k : ℕ)
      → n < length p.entries
      → n ≢ k
      → IsUsable p k
      → ((q : SuiClientPool) (e : PoolError E)
          → length q.entries ≡ length p.entries
          → IsUsable q k
          → Returns (next q e))
      → Returns (try_entry attempts next p n (entry_at n p.entries))
  unfolding try_entry
  usable_later next p n k small ne usable h =
      let (b, there) = entry_at-some n p.entries small in
      subst (λ o. Returns (try_entry attempts next p n o)) (sym there)
        (later_breaker next p n k b (is_open b.state) ne usable h)

  usable_loop :
      (left at i : ℕ) (p : SuiClientPool) (e : PoolError E)
      → i < left
      → left ≤ length p.entries
      → IsUsable p ((at + i) % length p.entries)
      → Returns (call_loop attempts left at p e)
  unfolding call_loop
  usable_loop zero at i p e lt fits usable = absurd (omega arith)
  usable_loop (suc left) at zero p e lt fits usable =
      usable_now (λ q e. call_loop attempts left (at + 1) q e) p (at % length p.entries)
        (subst (λ m. IsUsable p (m % length p.entries)) (add_zero at) usable)
  usable_loop (suc left) at (suc i) p e lt fits usable =
      usable_later (λ q e. call_loop attempts left (at + 1) q e) p (at % length p.entries)
        ((at + 1 + i) % length p.entries) (place_lt at (length p.entries) (omega arith))
        (places_differ at i (length p.entries) (omega arith))
        (subst (λ m. IsUsable p (m % length p.entries)) (add_suc at i) usable)
        (λ q e size usable.
          usable_loop left (at + 1) i q e (omega arith) (omega (arith, size))
            (subst (λ m. IsUsable q ((at + 1 + i) % m)) (sym size) usable))

-- A call returns a value if the breaker of some endpoint is closed and the try of that endpoint
-- succeeds, wherever it stands in the round.
pub call-Returns :
    {E A : Type 0} (attempts : ℕ → Attempt E A) (p : SuiClientPool) (i : ℕ)
    → i < length p.entries
    → IsUsable attempts p ((p.current_index + i) % length p.entries)
    → Returns (call attempts p)
unfolding call
call-Returns attempts p i lt usable =
    usable_loop attempts (length p.entries) p.current_index i p all_failed lt (omega arith) usable
