-- ===== src/Pagination/Examples.antt =====
-- Pages of a concrete table, and the theorems at them.
use walwatch.Prelude.{ℕ, ◌≡◌, refl, List, [], ◌∷◌, none, some, arith, take}
use walwatch.Pagination.{
  asc, desc, EncodeSortValue, Row, encode_cursor, fetch_page, fetch_all, Precedes,
}
use walwatch.Pagination.Pages.{fetch_all-asc}
use walwatch.Pagination.Ties.{desc_tie_lost, Absent}

abbrev row : ℕ → ℕ → Row
row sort_value id = record { id = id; sort_value = sort_value }

abbrev whole : EncodeSortValue
whole r = r.sort_value

abbrev ascending : List Row
ascending = row 1 4 ∷ row 2 1 ∷ row 2 3 ∷ []

abbrev descending : List Row
descending = row 9 1 ∷ row 5 2 ∷ row 4 3 ∷ []

-- The last two rows share a sort value.
abbrev tied : List Row
tied = row 9 1 ∷ row 5 2 ∷ row 5 3 ∷ []

first_page :
    (fetch_page whole asc 2 none ascending).next_cursor ≡ some (encode_cursor whole (row 2 1))
unfolding fetch_page
first_page = refl

-- Of the three rows, the pages of two give the first two.
tied_run : fetch_all whole 4 desc 2 none tied ≡ take 2 tied
unfolding fetch_all fetch_page
tied_run = refl

fetch_all-asc_example : fetch_all whole 4 asc 2 none ascending ≡ ascending
fetch_all-asc_example =
    fetch_all-asc whole 2 ascending (omega arith) (ground arith) (refl, (refl, (refl, tt)))

desc_tie_lost_example :
    Precedes desc (row 5 2) (row 5 3)
    × Absent (row 5 3) (fetch_page whole desc 2 (some (encode_cursor whole (row 5 2))) tied).rows
desc_tie_lost_example =
    desc_tie_lost whole 2 tied (row 5 2) (row 5 3) (omega arith) refl (omega arith)
