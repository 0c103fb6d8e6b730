-- ===== src/RateLimit.antt =====
-- api/src/middleware/rate-limit.ts: the in-memory store, and the decision of `rateLimit`. A store is
-- named by its window and its maximum; the model has the rows of all of them in one list. A key is a
-- number. The Redis store, which runs a script on a server, is left out.
pub mod Window
mod Examples
use walwatch.Prelude.{
  ℕ, suc, ◌+◌, ◌-◌, ltb, ◌==◌, Bool, true, false, not, ◌&&◌, List, [], ◌∷◌, Option, none, some,
  select, if◌then◌else◌,
}

pub record RateLimitEntry : Type 0 where
  pub count : ℕ
  pub window_start : ℕ

-- `windowMs` and `max`, which name a store.
pub record Limiter : Type 0 where
  pub window_ms : ℕ
  pub max_requests : ℕ

pub record Row : Type 0 where
  pub limiter : Limiter
  pub key : ℕ
  pub entry : RateLimitEntry

abbrev pub is_row : Limiter → ℕ → Row → Bool
is_row l k r =
    r.limiter.window_ms == l.window_ms && r.limiter.max_requests == l.max_requests && r.key == k

-- `store.get(key)`.
abbrev pub get_entry : Limiter → ℕ → List Row → Option RateLimitEntry
get_entry l k [] = none
get_entry l k (r ∷ rows) =
    let rest = get_entry l k rows in if is_row l k r then some r.entry else rest

-- `store.set(key, entry)`, and the change of an entry in place.
abbrev pub set_entry : Limiter → ℕ → RateLimitEntry → List Row → List Row
set_entry l k e rows =
    record { limiter = l; key = k; entry = e } ∷ select (λ r. not (is_row l k r)) rows

-- `now - entry.windowStart > windowMs`.
abbrev pub is_over : Limiter → ℕ → RateLimitEntry → Bool
is_over l now e = ltb (e.window_start + l.window_ms) now

pub record Increment : Type 0 where
  pub count : ℕ
  pub ttl : ℕ

abbrev pub first_entry : ℕ → RateLimitEntry
first_entry now = record { count = 1; window_start = now }

abbrev pub counted : RateLimitEntry → RateLimitEntry
counted e = record e { count = suc e.count }

-- The entry after a request.
abbrev pub next_entry : Limiter → ℕ → Option RateLimitEntry → RateLimitEntry
next_entry l now none = first_entry now
next_entry l now (some e) = if is_over l now e then first_entry now else counted e

-- `Math.max(0, windowMs - elapsed)` of the entry after the request.
abbrev time_left : Limiter → ℕ → RateLimitEntry → ℕ
time_left l now e = l.window_ms - (now - e.window_start)

-- `increment`.
unfoldable pub increment : Limiter → ℕ → ℕ → List Row → List Row × Increment
increment l k now rows =
    let e = next_entry l now (get_entry l k rows) in
    (set_entry l k e rows, record { count = e.count; ttl = time_left l now e })

-- The interval of a store that removes the entries whose window is over.
unfoldable pub clean_up : Limiter → ℕ → List Row → List Row
clean_up l now rows = select (λ r. not (is_row l r.key r && is_over l now r.entry)) rows

-- The answer to a request: refused with `Retry-After` in milliseconds, or passed on with what remains.
pub data Answer : Type 0 where
  too_many_requests : ℕ → Answer
  passed_on : ℕ → Answer

abbrev pub answer : Limiter → Increment → Answer
answer l i =
    if ltb l.max_requests i.count
    then too_many_requests i.ttl
    else passed_on (l.max_requests - i.count)

-- `rateLimit`, for a request with this key.
unfoldable pub rate_limit : Limiter → ℕ → ℕ → List Row → List Row × Answer
rate_limit l k now rows = let (rows', i) = increment l k now rows in (rows', answer l i)
