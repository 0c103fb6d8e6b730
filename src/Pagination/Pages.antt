-- ===== src/Pagination/Pages.antt =====
-- What a client that follows the cursors is given.
use mathlib.Core.List.{append-nil, append_assoc}
use walwatch.Prelude.{
  ℕ, zero, suc, ◌≤◌, ◌<◌, ◌≡◌, refl, sym, ap, subst, ◌∙◌, Bool, true, false, List, [], ◌∷◌, ◌++◌,
  Option, none, some, length, take, drop, select, last?, All, arith, take-append-drop, take-all,
  take-take, take-last, length-take, length-drop, select-All, select-skip, All-middle, dec_lt,
}
use walwatch.Pagination.{
  SortDirection, asc, desc, CursorValue, Row, PaginatedResponse, build_cursor_where, Precedes,
  EncodeSortValue, encode_cursor, next_cursor_of, wrap_paginated_response, fetch_page, fetch_all,
  continue_from,
}

-- The cursor that has the row's whole sort value.
abbrev exact_cursor : Row → CursorValue
exact_cursor r = record { id = r.id; sort_value = r.sort_value }

-- The condition after a row, on another one.
abbrev after : SortDirection → Row → Row → Bool
after direction r = build_cursor_where direction (some (exact_cursor r))

-- The condition agrees with the order of the rows.
abbrev Ordered : SortDirection → List Row → Type 0
Ordered direction [] = Unit
Ordered direction (a ∷ rs) =
    All (λ (b : Row). (after direction a b ≡ true) × (after direction b a ≡ false)) rs
    × Ordered direction rs

after_self : (direction : SortDirection) (r : Row) → after direction r r ≡ false
unfolding build_cursor_where
after_self asc r = ground arith
after_self desc r = ground arith

select-after :
    (direction : SortDirection) (xs : List Row) (r : Row) (ys : List Row)
    → Ordered direction (xs ++ (r ∷ ys))
    → select (after direction r) (xs ++ (r ∷ ys)) ≡ ys
select-after direction [] r ys h =
    select-skip (after direction r) r ys (after_self direction r)
    ∙ select-All (after direction r) ys (firsts ys h.0)
  where
    firsts :
        (zs : List Row)
        → All (λ (b : Row). (after direction r b ≡ true) × (after direction b r ≡ false)) zs
        → All (λ (b : Row). after direction r b ≡ true) zs
    firsts [] h = tt
    firsts (z ∷ zs) h = (h.0.0, firsts zs h.1)
select-after direction (x ∷ xs) r ys h =
    select-skip (after direction r) x (xs ++ (r ∷ ys))
      (All-middle (λ (b : Row). (after direction x b ≡ true) × (after direction b x ≡ false)) xs r
        ys h.0).1
    ∙ select-after direction xs r ys h.1

-- The encoding keeps the whole sort value of the table's rows.
abbrev pub IsExact : EncodeSortValue → List Row → Type 0
IsExact encode table = All (λ (r : Row). encode r ≡ r.sort_value) table

exact_encode :
    (encode : EncodeSortValue) (table pre : List Row) (r : Row) (suf : List Row)
    → table ≡ pre ++ (r ∷ suf)
    → IsExact encode table
    → encode_cursor encode r ≡ exact_cursor r
exact_encode encode table pre r suf split exact =
    ap (λ n. record { id = r.id; sort_value = n })
      (All-middle (λ (x : Row). encode x ≡ x.sort_value) pre r suf
        (subst (IsExact encode) split exact))

module _ (encode : EncodeSortValue) where
  wrap-last :
      (suf : List Row) (limit : ℕ)
      → length suf ≤ limit
      → wrap_paginated_response encode (take (suc limit) suf) limit
        ≡ record { rows = suf; next_cursor = none; has_more = false }
  unfolding wrap_paginated_response
  wrap-last suf limit h = rw (take-all (suc limit) suf (omega arith)) (ground arith)

  wrap-more :
      (suf : List Row) (limit : ℕ)
      → limit < length suf
      → wrap_paginated_response encode (take (suc limit) suf) limit ≡ record {
        rows = take limit suf;
        next_cursor = next_cursor_of encode (last? (take limit suf));
        has_more = true;
      }
  unfolding wrap_paginated_response
  wrap-more suf limit h = rw (← take-take limit suf) (ground (arith, length-take (suc limit) suf))

  fetch_all-step :
      (n : ℕ) (direction : SortDirection) (limit : ℕ) (cursor : Option CursorValue)
      (table : List Row) (page : PaginatedResponse)
      → fetch_page encode direction limit cursor table ≡ page
      → fetch_all encode (suc n) direction limit cursor table
        ≡ page.rows
          ++ continue_from (λ c. fetch_all encode n direction limit (some c) table) page.next_cursor
  unfolding fetch_all
  fetch_all-step n direction limit cursor table page e =
      ap
        (λ (p : PaginatedResponse).
          p.rows
          ++ continue_from (λ c. fetch_all encode n direction limit (some c) table) p.next_cursor)
        e

  -- What is left of the table is fetched, page by page.
  fetch_all-suffix :
      (n : ℕ) (direction : SortDirection) (limit : ℕ) (cursor : Option CursorValue)
      (table pre suf : List Row)
      → 0 < limit
      → table ≡ pre ++ suf
      → Ordered direction table
      → IsExact encode table
      → select (build_cursor_where direction cursor) table ≡ suf
      → length suf < n
      → fetch_all encode n direction limit cursor table ≡ suf
  unfolding fetch_page
  fetch_all-suffix zero direction limit cursor table pre suf pos split ord exact sel enough =
      absurd (omega arith)
  fetch_all-suffix (suc n) direction limit cursor table pre suf pos split ord exact sel enough =
      elim (dec_lt limit (length suf)) [
        | no last ↦
            fetch_all-step n direction limit cursor table _ (
              ap (λ s. wrap_paginated_response encode (take (suc limit) s) limit) sel
              ∙ wrap-last suf limit (omega arith))
            ∙ append-nil suf
        | yes more ↦
            let (init, r, is_page, is_last, is_suf) = take-last limit suf more pos in
            let split' : table ≡ (pre ++ init) ++ (r ∷ drop limit suf) =
              split ∙ ap (◌++◌ pre) is_suf ∙ sym (append_assoc pre init (r ∷ drop limit suf)) in
            let ih : fetch_all encode n direction limit (some (exact_cursor r)) table
                ≡ drop limit suf =
              fetch_all-suffix n direction limit (some (exact_cursor r)) table
                (pre ++ take limit suf) (drop limit suf) pos
                (split
                  ∙ ap (◌++◌ pre) (sym (take-append-drop limit suf))
                  ∙ sym (append_assoc pre (take limit suf) (drop limit suf)))
                ord exact
                (ap (select (after direction r)) split'
                  ∙ select-after direction (pre ++ init) r (drop limit suf)
                      (subst (Ordered direction) split' ord))
                (omega (arith, length-drop limit suf)) in
            fetch_all-step n direction limit cursor table _ (
              ap (λ s. wrap_paginated_response encode (take (suc limit) s) limit) sel
              ∙ wrap-more suf limit more)
            ∙ ap
                (λ o.
                  take limit suf
                  ++ continue_from (λ c. fetch_all encode n direction limit (some c) table)
                      (next_cursor_of encode o))
                is_last
            ∙ ap (λ c. take limit suf ++ fetch_all encode n direction limit (some c) table)
                (exact_encode encode table (pre ++ init) r (drop limit suf) split' exact)
            ∙ ap (◌++◌ (take limit suf)) ih
            ∙ take-append-drop limit suf
      ]

-- Every row comes before the rows that follow it.
abbrev pub IsSorted : (Row → Row → Type 0) → List Row → Type 0
IsSorted R [] = Unit
IsSorted R (a ∷ rs) = All (R a) rs × IsSorted R rs

-- A strictly smaller sort value follows, so that no two rows share one.
abbrev pub Descends : Row → Row → Type 0
Descends a b = b.sort_value < a.sort_value

All-map : (P Q : Row → Type 0) (rs : List Row) → ((b : Row) → P b → Q b) → All P rs → All Q rs
All-map P Q [] f h = tt
All-map P Q (b ∷ rs) f h = (f b h.0, All-map P Q rs f h.1)

Precedes-after : (a b : Row) → Precedes asc a b → (after asc a b ≡ true) × (after asc b a ≡ false)
unfolding build_cursor_where
Precedes-after a b h = ground arith

Descends-after : (a b : Row) → Descends a b → (after desc a b ≡ true) × (after desc b a ≡ false)
unfolding build_cursor_where
Descends-after a b h = ground arith

IsSorted-Ordered :
    (direction : SortDirection) (R : Row → Row → Type 0)
    → ((a b : Row) → R a b → (after direction a b ≡ true) × (after direction b a ≡ false))
    → (rs : List Row) → IsSorted R rs
    → Ordered direction rs
IsSorted-Ordered direction R f [] h = tt
IsSorted-Ordered direction R f (a ∷ rs) h =
    (All-map (R a) _ rs (f a) h.0, IsSorted-Ordered direction R f rs h.1)

select-first :
    (direction : SortDirection) (rs : List Row) → select (build_cursor_where direction none) rs ≡ rs
unfolding build_cursor_where
select-first direction [] = refl
select-first direction (r ∷ rs) = ap (◌∷◌ r) (select-first direction rs)

-- In ascending order, whatever the page size, a client that follows the cursors for as many pages as
-- the table has rows, and one more, is given each row of the table once and in order, if the encoding of
-- the cursors keeps the rows' whole sort values.
pub fetch_all-asc :
    (encode : EncodeSortValue) (limit : ℕ) (table : List Row)
    → 0 < limit
    → IsSorted (Precedes asc) table
    → IsExact encode table
    → fetch_all encode (suc (length table)) asc limit none table ≡ table
fetch_all-asc encode limit table pos sorted exact =
    fetch_all-suffix encode (suc (length table)) asc limit none table [] table pos refl
      (IsSorted-Ordered asc (Precedes asc) Precedes-after table sorted) exact
      (select-first asc table) (omega arith)

-- In descending order, the source's default, the same holds of a table in which no two rows have the
-- same sort value.
pub fetch_all-desc :
    (encode : EncodeSortValue) (limit : ℕ) (table : List Row)
    → 0 < limit
    → IsSorted Descends table
    → IsExact encode table
    → fetch_all encode (suc (length table)) desc limit none table ≡ table
fetch_all-desc encode limit table pos sorted exact =
    fetch_all-suffix encode (suc (length table)) desc limit none table [] table pos refl
      (IsSorted-Ordered desc Descends Descends-after table sorted) exact (select-first desc table)
      (omega arith)

-- If the encoding of the last row's sort value is smaller than the value, the condition of the next page
-- holds of that row again.
pub asc_row_again :
    (encode : EncodeSortValue) (r : Row)
    → encode r < r.sort_value
    → build_cursor_where asc (some (encode_cursor encode r)) r ≡ true
unfolding build_cursor_where
asc_row_again encode r h = ground (arith, h)
