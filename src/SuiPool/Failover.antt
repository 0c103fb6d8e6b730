-- ===== src/SuiPool/Failover.antt =====
-- What becomes of the endpoints of a pool.
use walwatch.Prelude.{
  ℕ, zero, suc, ◌+◌, ◌%◌, ◌≡◌, refl, ap, ◌∙◌, Bool, true, false, List, [], ◌∷◌, Option, none, some,
  length, arith,
}
use walwatch.Breaker.{open_circuit, CircuitBreaker}
use walwatch.Retry.{Outcome, returns, throws}
use walwatch.SuiPool.{
  SuiClientPool, Attempt, PoolError, breaker_open, all_failed, entry_at, set_entry, is_open,
  call_entry, call_loop, call, Next, after_call, try_breaker, try_entry,
}

-- The endpoint's breaker is open, with so many failures counted.
abbrev pub IsOpen : CircuitBreaker → Type 0
IsOpen b = b.state ≡ open_circuit

pub length-set_entry :
    (n : ℕ) (c : CircuitBreaker) (bs : List CircuitBreaker) → length (set_entry n c bs) ≡ length bs
length-set_entry n c [] = refl
length-set_entry zero c (b ∷ bs) = refl
length-set_entry (suc n) c (b ∷ bs) = ap suc (length-set_entry n c bs)

-- Another entry is kept by an update; the updated one was not open.
set_entry-open :
    (n k : ℕ) (b b' c : CircuitBreaker) (bs : List CircuitBreaker)
    → entry_at n bs ≡ some b
    → is_open b.state ≡ false
    → entry_at k bs ≡ some c
    → IsOpen c
    → entry_at k (set_entry n b' bs) ≡ some c
set_entry-open n k b b' c [] at shut there opened = there
set_entry-open zero zero b b' c (x ∷ bs) at shut there opened = absurd (ground arith)
set_entry-open zero (suc k) b b' c (x ∷ bs) at shut there opened = there
set_entry-open (suc n) zero b b' c (x ∷ bs) at shut there opened = there
set_entry-open (suc n) (suc k) b b' c (x ∷ bs) at shut there opened =
    set_entry-open n k b b' c bs at shut there opened

-- The pool keeps its endpoints, and those of them that are open exactly as they are.
record Keeps (p q : SuiClientPool) : Type 0 where
  size : length q.entries ≡ length p.entries
  opened :
      (k : ℕ) (c : CircuitBreaker)
      → entry_at k p.entries ≡ some c
      → IsOpen c
      → entry_at k q.entries ≡ some c

Keeps-refl : (p : SuiClientPool) → Keeps p p
Keeps-refl p = record { size = refl; opened = λ k c there o. there }

Keeps-trans : (p q r : SuiClientPool) → Keeps p q → Keeps q r → Keeps p r
Keeps-trans p q r h g = record {
  size = g.size ∙ h.size;
  opened = λ k c there o. g.opened k c (h.opened k c there o) o;
}

Keeps-set :
    (p : SuiClientPool) (n i : ℕ) (b b' : CircuitBreaker)
    → entry_at n p.entries ≡ some b
    → is_open b.state ≡ false
    → Keeps p (record { entries = set_entry n b' p.entries; current_index = i })
Keeps-set p n i b b' at shut = record {
  size = length-set_entry n b' p.entries;
  opened = λ k c there o. set_entry-open n k b b' c p.entries at shut there o;
}

module _ {E A : Type 0} (attempts : ℕ → Attempt E A) where
  entry-Keeps :
      (next : Next E A) (p : SuiClientPool) (n : ℕ) (o : Option CircuitBreaker)
      → ((q : SuiClientPool) (e : PoolError E) → Keeps q (next q e).0)
      → entry_at n p.entries ≡ o
      → Keeps p (try_entry attempts next p n o).0
  unfolding try_entry
  entry-Keeps next p n none h at = Keeps-refl p
  entry-Keeps next p n (some b) h at = of_state (is_open b.state) refl
    where
      of_call :
          (c : CircuitBreaker × Outcome (PoolError E) A)
          → is_open b.state ≡ false
          → Keeps p (after_call next p n c).0
      of_call (b', returns a) shut = Keeps-set p n _ b b' at shut
      of_call (b', throws e) shut =
          Keeps-trans p _ _ (Keeps-set p n p.current_index b b' at shut) (h _ e)

      of_state : (x : Bool) → is_open b.state ≡ x → Keeps p (try_breaker attempts next p n b x).0
      of_state true e = h p _
      of_state false e = of_call (call_entry b (attempts n)) e

  loop-Keeps :
      (left at : ℕ) (p : SuiClientPool) (e : PoolError E)
      → Keeps p (call_loop attempts left at p e).0
  unfolding call_loop
  loop-Keeps zero at p e = Keeps-refl p
  loop-Keeps (suc left) at p e =
      entry-Keeps (λ q e. call_loop attempts left (at + 1) q e) p (at % length p.entries)
        (entry_at (at % length p.entries) p.entries) (λ q e. loop-Keeps left (at + 1) q e) refl

  all_open_entry :
      (next : Next E A) (p : SuiClientPool) (n : ℕ) (o : Option CircuitBreaker)
      → ((e : PoolError E) → (e' : PoolError E) × (next p e ≡ (p, throws e')))
      → ((c : CircuitBreaker) → o ≡ some c → is_open c.state ≡ true)
      → (e' : PoolError E) × (try_entry attempts next p n o ≡ (p, throws e'))
  unfolding try_entry
  all_open_entry next p n none h opened = (all_failed, refl)
  all_open_entry next p n (some b) h opened =
      let (e', stuck) = h (breaker_open b.failure_count) in
      (e', ap (try_breaker attempts next p n b) (opened b refl) ∙ stuck)

  all_open_loop :
      (left at : ℕ) (p : SuiClientPool) (e : PoolError E)
      → ((k : ℕ) (c : CircuitBreaker) → entry_at k p.entries ≡ some c → is_open c.state ≡ true)
      → (e' : PoolError E) × (call_loop attempts left at p e ≡ (p, throws e'))
  unfolding call_loop
  all_open_loop zero at p e opened = (e, refl)
  all_open_loop (suc left) at p e opened =
      all_open_entry (λ q e. call_loop attempts left (at + 1) q e) p (at % length p.entries)
        (entry_at (at % length p.entries) p.entries) (λ e. all_open_loop left (at + 1) p e opened)
        (opened (at % length p.entries))

-- The pool after several calls, each with what the caller's function does.
unfoldable pub after_calls : {E A : Type 0} → List (ℕ → Attempt E A) → SuiClientPool → SuiClientPool
unfolding call
after_calls [] p = p
after_calls (attempts ∷ more) p = after_calls more (call attempts p).0

after_calls-Keeps :
    {E A : Type 0} (calls : List (ℕ → Attempt E A)) (p : SuiClientPool)
    → Keeps p (after_calls calls p)
unfolding after_calls call
after_calls-Keeps [] p = Keeps-refl p
after_calls-Keeps (attempts ∷ more) p =
    Keeps-trans p _ _ (loop-Keeps attempts (length p.entries) p.current_index p all_failed)
      (after_calls-Keeps more (call attempts p).0)

-- An endpoint whose breaker is open is never tried again: after any calls, at any times, its breaker
-- is exactly as it was.
pub open_stays :
    {E A : Type 0} (calls : List (ℕ → Attempt E A)) (p : SuiClientPool) (k : ℕ) (b : CircuitBreaker)
    → entry_at k p.entries ≡ some b
    → IsOpen b
    → entry_at k (after_calls calls p).entries ≡ some b
open_stays calls p k b there opened = (after_calls-Keeps calls p).opened k b there opened

-- Once every breaker is open, a call throws whatever the endpoints would do and however much time has
-- gone by, and leaves the pool as it was.
pub all_open_throws :
    {E A : Type 0} (attempts : ℕ → Attempt E A) (p : SuiClientPool)
    → ((k : ℕ) (c : CircuitBreaker) → entry_at k p.entries ≡ some c → is_open c.state ≡ true)
    → (e : PoolError E) × (call attempts p ≡ (p, throws e))
unfolding call
all_open_throws attempts p opened =
    all_open_loop attempts (length p.entries) p.current_index p all_failed opened
