-- ===== src/Pagination/Limits.antt =====
-- `parsePagination` of api/src/lib/cursor-pagination.ts. A query parameter is its list of character
-- codes; `parseInt(s, 10)` is written out for white space, a sign and digits.
use walwatch.Prelude.{
  is_digit, is_space, value_from, ℕ, zero, suc, ◌+◌, ◌-◌, ◌*◌, ◌≤◌, ◌≡◌, refl, List, [], ◌∷◌,
  Option, none, some, min, max, ◌==◌, if◌then◌else◌, arith, All,
}

-- What `parseInt` gives: no number, a number, or a number below zero.
pub data Parsed : Type 0 where
  nan : Parsed
  number : ℕ → Parsed
  negative : ℕ → Parsed

-- The digits up to the first other character, after those that were read.
unfoldable pub digits_after : ℕ → List ℕ → ℕ
digits_after acc [] = acc
digits_after acc (c ∷ s) =
    let rest = digits_after (acc * 10 + (c - 48)) s in if is_digit c then rest else acc

unsigned : (ℕ → Parsed) → List ℕ → Parsed
unfolding digits_after
unsigned sign [] = nan
unsigned sign (c ∷ s) = if is_digit c then sign (digits_after 0 (c ∷ s)) else nan

signed : List ℕ → Parsed
unfolding unsigned
signed [] = nan
signed (c ∷ s) =
    if c == 45
    then unsigned negative s
    else if c == 43
    then unsigned number s
    else unsigned number (c ∷ s)

unfoldable pub parse_int : List ℕ → Parsed
unfolding signed
parse_int [] = nan
parse_int (c ∷ s) = let rest = parse_int s in if is_space c then rest else signed (c ∷ s)

-- `parseInt(..., 10) || 50`, then `Math.max(1, ...)` and `Math.min(100, ...)`.
clamp : Parsed → ℕ
clamp nan = 50
clamp (number zero) = 50
clamp (number (suc n)) = min 100 (max 1 (suc n))
clamp (negative zero) = 50
clamp (negative (suc n)) = 1

abbrev or_fifty : Option (List ℕ) → List ℕ
or_fifty none = 53 ∷ 48 ∷ []
or_fifty (some []) = 53 ∷ 48 ∷ []
or_fifty (some (c ∷ s)) = c ∷ s

-- The limit of `parsePagination`.
unfoldable pub parse_limit : Option (List ℕ) → ℕ
unfolding parse_int clamp
parse_limit limit_str = clamp (parse_int (or_fifty limit_str))

clamp_bounds : (p : Parsed) → (1 ≤ clamp p) × (clamp p ≤ 100)
unfolding clamp
clamp_bounds nan = omega arith
clamp_bounds (number zero) = omega arith
clamp_bounds (number (suc n)) = omega arith
clamp_bounds (negative zero) = omega arith
clamp_bounds (negative (suc n)) = omega arith

-- The number that a text of decimal digits denotes.
abbrev IsDigits : List ℕ → Type 0
IsDigits = All (λ c. (48 ≤ c) × (c ≤ 57))

digits_after-value : (acc : ℕ) (s : List ℕ) → IsDigits s → digits_after acc s ≡ value_from acc s
unfolding digits_after
digits_after-value acc [] h = refl
digits_after-value acc (c ∷ s) h = ground (arith, digits_after-value (acc * 10 + (c - 48)) s)

parse_int-value :
    (c : ℕ) (s : List ℕ) → IsDigits (c ∷ s) → parse_int (c ∷ s) ≡ number (value_from 0 (c ∷ s))
unfolding parse_int digits_after
parse_int-value c s h = ground (arith, digits_after-value (0 * 10 + (c - 48)) s)

-- Whatever the parameter, the limit is from 1 to 100; a parameter of decimal digits gives the number
-- that they denote, but 50 for 0 and 100 for what is above; with no parameter it is 50.
pub parse_limit_lem :
    ((s : Option (List ℕ)) → (1 ≤ parse_limit s) × (parse_limit s ≤ 100))
    × ((c : ℕ) (s : List ℕ)
        → IsDigits (c ∷ s)
        → parse_limit (some (c ∷ s))
          ≡ (if value_from 0 (c ∷ s) == 0 then 50 else min 100 (value_from 0 (c ∷ s))))
    × (parse_limit none ≡ 50)
unfolding parse_limit
parse_limit_lem = (
  λ s. clamp_bounds (parse_int (or_fifty s)),
  λ c s h. rw (parse_int-value c s h) (clamp_cases (value_from 0 (c ∷ s))),
  refl,
)
  where
    clamp_cases : (n : ℕ) → clamp (number n) ≡ (if n == 0 then 50 else min 100 n)
    clamp_cases zero = refl
    clamp_cases (suc n) = unfold clamp in ground arith
