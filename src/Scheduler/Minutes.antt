-- ===== src/Scheduler/Minutes.antt =====
-- The interval of a list of minutes: the average gap always comes from a whole hour.
use walwatch.Prelude.{ℕ, ◌+◌, ◌≤◌, ◌≡◌, List, [], ◌∷◌, some, length, last?, arith}
use walwatch.Scheduler.Cron.{
  insert, sort, gap_sum, gaps_total, head_or_zero, last_or_zero, listed_minutes,
}

abbrev IsSorted : List ℕ → Type 0
IsSorted [] = Unit
IsSorted (a ∷ []) = Unit
IsSorted (a ∷ b ∷ ns) = (a ≤ b) × IsSorted (b ∷ ns)

insert-IsSorted : (n : ℕ) (ns : List ℕ) → IsSorted ns → IsSorted (insert n ns)
unfolding insert
insert-IsSorted n [] h = tt
insert-IsSorted n (m ∷ []) h = ground arith
insert-IsSorted n (m ∷ k ∷ ns) h = ground (arith, insert-IsSorted n (k ∷ ns))

sort-IsSorted : (ns : List ℕ) → IsSorted (sort ns)
unfolding sort
sort-IsSorted [] = tt
sort-IsSorted (n ∷ ns) = insert-IsSorted n (sort ns) (sort-IsSorted ns)

-- The gaps of a sorted list telescope.
gap_sum-IsSorted :
    (ns : List ℕ) → IsSorted ns → gap_sum ns + head_or_zero ns ≡ last_or_zero (last? ns)
unfolding gap_sum
gap_sum-IsSorted [] h = omega arith
gap_sum-IsSorted (a ∷ []) h = omega arith
gap_sum-IsSorted (a ∷ b ∷ ns) h = omega (arith, gap_sum-IsSorted (b ∷ ns) h.1)

gaps_total-sort : (ns : List ℕ) → gaps_total (sort ns) ≡ 60
unfolding gaps_total
gaps_total-sort ns = omega (arith, gap_sum-IsSorted (sort ns) (sort-IsSorted ns))

-- Of at least two listed minutes, in any order and with repetitions, the interval is an hour divided
-- by their number.
pub listed_minutes_lem :
    (ns : List ℕ)
    → 2 ≤ length ns
    → listed_minutes ns ≡ some (record { numerator = 3600000; denominator = length ns })
unfolding listed_minutes
listed_minutes_lem ns h = ground (arith, gaps_total-sort ns)
