-- ===== src/RateLimit/Window.antt =====
-- How many requests of a key are passed on.
use walwatch.Prelude.{
  ℕ, ◌+◌, ◌-◌, ◌*◌, ◌≤◌, ltb, ◌==◌, ◌≡◌, refl, sym, ap, ◌∙◌, Bool, true, false, not, ◌&&◌, List, [],
  ◌∷◌, Option, none, some, select, All, arith, eq-path, if◌then◌else◌,
}
use walwatch.RateLimit.{
  RateLimitEntry, Limiter, Row, is_row, get_entry, set_entry, next_entry, first_entry, counted,
  Increment, increment, Answer, too_many_requests, passed_on, answer, rate_limit,
}

pub record Request : Type 0 where
  pub key : ℕ
  pub at : ℕ

abbrev pub is_passed : Answer → Bool
is_passed (too_many_requests t) = false
is_passed (passed_on n) = true

abbrev pub one_if : Bool → ℕ
one_if true = 1
one_if false = 0

-- How many of the requests of a key are passed on, among those of all keys.
unfoldable pub passed_of : Limiter → ℕ → List Request → List Row → ℕ
passed_of l k [] rows = 0
passed_of l k (r ∷ rs) rows =
    let (rows', a) = rate_limit l r.key r.at rows in
    one_if (r.key == k && is_passed a) + passed_of l k rs rows'

-- The same of the entry of the key alone.
passed_from : Limiter → ℕ → List Request → Option RateLimitEntry → ℕ
passed_from l k [] o = 0
passed_from l k (r ∷ rs) o =
    let e = next_entry l r.at o in
    let same = passed_from l k rs (some e) in
    let other = passed_from l k rs o in
    if r.key == k then one_if (not (ltb l.max_requests e.count)) + same else other

is_passed-answer :
    (l : Limiter) (i : Increment) → is_passed (answer l i) ≡ not (ltb l.max_requests i.count)
is_passed-answer l i = ground arith

is_row_self :
    (l : Limiter) (k : ℕ) (e : RateLimitEntry)
    → is_row l k (record { limiter = l; key = k; entry = e }) ≡ true
is_row_self l k e = ground arith

get-set_same :
    (l : Limiter) (k : ℕ) (e : RateLimitEntry) (rows : List Row)
    → get_entry l k (set_entry l k e rows) ≡ some e
get-set_same l k e rows = ground arith

get-select_other :
    (l : Limiter) (k j : ℕ) (rows : List Row)
    → (j == k) ≡ false
    → get_entry l k (select (λ r. not (is_row l j r)) rows) ≡ get_entry l k rows
get-select_other l k j [] h = refl
get-select_other l k j (r ∷ rows) h = ground (arith, get-select_other l k j rows h)

get-set_other :
    (l : Limiter) (k j : ℕ) (e : RateLimitEntry) (rows : List Row)
    → (j == k) ≡ false
    → get_entry l k (set_entry l j e rows) ≡ get_entry l k rows
get-set_other l k j e rows h = ground (arith, get-select_other l k j rows h)

counts_in :
    (b p q : Bool) (x y z : ℕ)
    → b ≡ true
    → p ≡ q
    → x ≡ y
    → one_if (b && p) + x ≡ (if b then one_if q + y else z)
counts_in b p q x y z h e g = ground arith

counts_out :
    (b p q : Bool) (x y z : ℕ)
    → b ≡ false
    → x ≡ z
    → one_if (b && p) + x ≡ (if b then one_if q + y else z)
counts_out b p q x y z h g = ground arith

module _ (l : Limiter) (k : ℕ) where
  passed_of-step :
      (r : Request) (rs : List Request) (rows : List Row) (b : Bool)
      → ((rows' : List Row) → passed_of l k rs rows' ≡ passed_from l k rs (get_entry l k rows'))
      → (r.key == k) ≡ b
      → passed_of l k (r ∷ rs) rows ≡ passed_from l k (r ∷ rs) (get_entry l k rows)
  unfolding passed_of passed_from rate_limit increment
  passed_of-step r rs rows true ih h =
      let e = next_entry l r.at (get_entry l r.key rows) in
      let same = ap (λ j. next_entry l r.at (get_entry l j rows)) (eq-path r.key k h) in
      let there =
        ap (λ j. get_entry l j (set_entry l r.key e rows)) (sym (eq-path r.key k h))
        ∙ get-set_same l r.key e rows
        ∙ ap some same in
      counts_in (r.key == k) _ _ _ _ _ h
        (is_passed-answer l (increment l r.key r.at rows).1
          ∙ ap (λ x. not (ltb l.max_requests x.count)) same)
        (ih (set_entry l r.key e rows) ∙ ap (passed_from l k rs) there)
  passed_of-step r rs rows false ih h =
      counts_out (r.key == k) _ _ _ _ _ h
        (ih _ ∙ ap (passed_from l k rs) (get-set_other l k r.key _ rows h))

  -- The window of the entry lasts to the end of the requests.
  passed_from-entry :
      (rs : List Request) (e : RateLimitEntry)
      → All (λ r. r.at ≤ e.window_start + l.window_ms) rs
      → passed_from l k rs (some e) ≤ l.max_requests - e.count
  unfolding passed_from
  passed_from-entry [] e h = omega arith
  passed_from-entry (r ∷ rs) e h =
      ground (arith, passed_from-entry rs e h.1, passed_from-entry rs (counted e) h.1, h.0)

  abbrev pub WithinWindow : ℕ → Request → Type 0
  WithinWindow from r = (from ≤ r.at) × (r.at ≤ from + l.window_ms)

  abbrev count_of : Option RateLimitEntry → ℕ
  count_of none = 0
  count_of (some e) = e.count

  within-later :
      (from : ℕ) (r : Request) (rs : List Request)
      → from ≤ r.at
      → All (WithinWindow from) rs
      → All (λ x. x.at ≤ r.at + l.window_ms) rs
  within-later from r [] h all = tt
  within-later from r (x ∷ rs) h all = (omega (arith, all.0.1), within-later from r rs h all.1)

  passed_from-span :
      (from : ℕ) (rs : List Request) (o : Option RateLimitEntry)
      → All (WithinWindow from) rs
      → passed_from l k rs o ≤ (l.max_requests - count_of o) + l.max_requests
  unfolding passed_from
  passed_from-span from [] o h = omega arith
  passed_from-span from (r ∷ rs) none h =
      let fresh = passed_from-entry rs (first_entry r.at) (within-later from r rs h.0.0 h.1) in
      ground (arith, fresh, passed_from-span from rs none h.1)
  passed_from-span from (r ∷ rs) (some e) h =
      let fresh = passed_from-entry rs (first_entry r.at) (within-later from r rs h.0.0 h.1) in
      ground (
        arith,
        fresh,
        passed_from-span from rs (some e) h.1,
        passed_from-span from rs (some (counted e)) h.1,
      )

  passed_from-none :
      (from : ℕ) (rs : List Request)
      → All (WithinWindow from) rs
      → passed_from l k rs none ≤ l.max_requests
  unfolding passed_from
  passed_from-none from [] h = omega arith
  passed_from-none from (r ∷ rs) h = ground (
    arith,
    passed_from-entry rs (first_entry r.at) (within-later from r rs h.0.0 h.1),
    passed_from-none from rs h.1,
  )

  passed_of-from :
      (rs : List Request) (rows : List Row)
      → passed_of l k rs rows ≡ passed_from l k rs (get_entry l k rows)
  unfolding passed_of passed_from
  passed_of-from [] rows = refl
  passed_of-from (r ∷ rs) rows = passed_of-step r rs rows (r.key == k) (passed_of-from rs) refl

  -- Of requests, in any order of the keys, that come within a time as long as the window, at most twice the
  -- maximum are passed on for a key, whatever the store holds.
  pub rate_limit-bounded :
      (from : ℕ) (rs : List Request) (rows : List Row)
      → All (WithinWindow from) rs
      → passed_of l k rs rows ≤ 2 * l.max_requests
  rate_limit-bounded from rs rows h =
      omega (arith, passed_of-from rs rows, passed_from-span from rs (get_entry l k rows) h)

  -- If the store has no entry of a key, then of requests that come within a time as long as the window
  -- at most the maximum are passed on for the key.
  pub rate_limit-fresh :
      (from : ℕ) (rs : List Request) (rows : List Row)
      → All (WithinWindow from) rs
      → get_entry l k rows ≡ none
      → passed_of l k rs rows ≤ l.max_requests
  rate_limit-fresh from rs rows h absent =
      omega
        (arith, passed_of-from rs rows ∙ ap (passed_from l k rs) absent, passed_from-none from rs h)
