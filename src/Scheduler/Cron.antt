-- ===== src/Scheduler/Cron.antt =====
-- `parseCronInterval` of keeper/src/scheduler.ts. An interval is a fraction of milliseconds, since the
-- source divides by the number of listed minutes. `Number(s)` is written out for texts of decimal
-- digits and the empty text; any other text counts as `NaN`.
use walwatch.Prelude.{
  ℕ, ◌+◌, ◌-◌, ◌*◌, Bool, true, false, not, ◌&&◌, List, [], ◌∷◌, Option, none, some, leb, ◌==◌,
  if◌then◌else◌, length, any, all, same_text, is_digit, is_space, value_from, last?,
}

-- `numerator / denominator` milliseconds; the denominator is not 0.
pub record Interval : Type 0 where
  pub numerator : ℕ
  pub denominator : ℕ

abbrev pub millis : ℕ → Interval
millis n = record { numerator = n; denominator = 1 }

abbrev add_char : ℕ → List (List ℕ) → List (List ℕ)
add_char c [] = (c ∷ []) ∷ []
add_char c (w ∷ ws) = (c ∷ w) ∷ ws

-- `s.split(separator)`.
unfoldable pub split_on : (ℕ → Bool) → List ℕ → List (List ℕ)
split_on separator [] = [] ∷ []
split_on separator (c ∷ s) =
    let rest = split_on separator s in if separator c then [] ∷ rest else add_char c rest

abbrev is_word : List ℕ → Bool
is_word [] = false
is_word (_ ∷ _) = true

words_of : List (List ℕ) → List (List ℕ)
words_of [] = []
words_of (w ∷ ws) = let rest = words_of ws in if is_word w then w ∷ rest else rest

-- `cronExpr.trim().split(/\s+/)`. (Of a blank text the source has one empty word, and this has none.)
unfoldable pub fields : List ℕ → List (List ℕ)
unfolding split_on words_of
fields s = words_of (split_on is_space s)

all_digits : List ℕ → Option ℕ
all_digits [] = none
all_digits (c ∷ s) = if all is_digit (c ∷ s) then some (value_from 0 (c ∷ s)) else none

-- The match with `/^\*\/(\d+)$/`, as the number of its group.
unfoldable pub every_match : List ℕ → Option ℕ
unfolding all_digits
every_match (a ∷ b ∷ s) = if a == 42 && b == 47 then all_digits s else none
every_match _ = none

-- `map(Number).filter((n) => !isNaN(n))`.
unfoldable pub numbers : List (List ℕ) → List ℕ
unfolding all_digits
numbers [] = []
numbers ([] ∷ ws) = 0 ∷ numbers ws
numbers ((c ∷ s) ∷ ws) =
    let rest = numbers ws in elim (all_digits (c ∷ s)) [ some n ↦ n ∷ rest | none ↦ rest ]

unfoldable pub insert : ℕ → List ℕ → List ℕ
insert n [] = n ∷ []
insert n (m ∷ ms) = let rest = insert n ms in if leb n m then n ∷ m ∷ ms else m ∷ rest

-- `parts.sort((a, b) => a - b)`.
unfoldable pub sort : List ℕ → List ℕ
unfolding insert
sort [] = []
sort (n ∷ ns) = insert n (sort ns)

-- The gaps between neighbours of a sorted list, added up.
unfoldable pub gap_sum : List ℕ → ℕ
gap_sum [] = 0
gap_sum (a ∷ []) = 0
gap_sum (a ∷ b ∷ ns) = (b - a) + gap_sum (b ∷ ns)

abbrev pub last_or_zero : Option ℕ → ℕ
last_or_zero none = 0
last_or_zero (some n) = n

abbrev pub head_or_zero : List ℕ → ℕ
head_or_zero [] = 0
head_or_zero (n ∷ _) = n

-- All the gaps, the one round the hour included: `60 - last + first`.
unfoldable pub gaps_total : List ℕ → ℕ
unfolding gap_sum
gaps_total ns = gap_sum ns + 60 + head_or_zero ns - last_or_zero (last? ns)

-- `avgGap * 60_000` of at least two minutes.
unfoldable pub listed_minutes : List ℕ → Option Interval
unfolding gaps_total sort
listed_minutes ns =
    if leb 2 (length ns)
    then some (record { numerator = gaps_total (sort ns) * 60000; denominator = length ns })
    else none

abbrev star : List ℕ
star = 42 ∷ []

abbrev zero_text : List ℕ
zero_text = 48 ∷ []

-- The tests after the one for listed minutes.
fixed_patterns : List ℕ → List ℕ → List ℕ → List ℕ → Interval
fixed_patterns minute hour day_of_month day_of_week =
    if same_text minute star
      && same_text hour star
      && same_text day_of_month star
      && same_text day_of_week star
    then millis 60000
    else if same_text minute zero_text && same_text hour star
    then millis 3600000
    else if same_text minute zero_text && not (same_text hour star) && not (any (λ c. c == 47) hour)
    then millis 86400000
    else millis 0

listed_or_fixed : List ℕ → List ℕ → List ℕ → List ℕ → Interval
unfolding split_on numbers listed_minutes fixed_patterns
listed_or_fixed minute hour day_of_month day_of_week =
    let fixed = fixed_patterns minute hour day_of_month day_of_week in
    if any (λ c. c == 44) minute
    then elim (listed_minutes (numbers (split_on (λ c. c == 44) minute))) [
      | some i ↦ i
      | none ↦ fixed
    ]
    else fixed

hour_steps : List ℕ → List ℕ → List ℕ → List ℕ → Interval
unfolding every_match listed_or_fixed
hour_steps minute hour day_of_month day_of_week = elim (every_match hour) [
  | some n ↦
      if same_text minute zero_text
      then millis (n * 3600000)
      else listed_or_fixed minute hour day_of_month day_of_week
  | none ↦ listed_or_fixed minute hour day_of_month day_of_week
]

of_fields : List (List ℕ) → Interval
unfolding every_match hour_steps
of_fields (minute ∷ hour ∷ day_of_month ∷ month ∷ day_of_week ∷ more) = elim (every_match minute) [
  | some n ↦ millis (n * 60000)
  | none ↦ hour_steps minute hour day_of_month day_of_week
]
of_fields _ = millis 0

unfoldable pub parse_cron_interval : List ℕ → Interval
unfolding fields of_fields
parse_cron_interval cron_expr = of_fields (fields cron_expr)
