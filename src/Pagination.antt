-- ===== src/Pagination.antt =====
-- api/src/lib/cursor-pagination.ts: the keyset condition, the order, and the wrapping of a page. A
-- cursor is the record that the source encodes as base64url of JSON; that encoding is a library's and
-- is left out. The values of the sort column and of the identifiers stand for their places in the
-- database's order. The database evaluates the condition and the order; what it is given to select
-- from is the table's rows in the order of `buildCursorOrderBy`.
pub mod Pages
pub mod Ties
pub mod Limits
mod Examples
use walwatch.Prelude.{
  ℕ, zero, suc, ◌+◌, ◌<◌, ◌≡◌, ◌⊎◌, Bool, true, false, ◌&&◌, ◌||◌, List, [], ◌∷◌, ◌++◌, Option,
  none, some, ltb, ◌==◌, length, take, select, last?, if◌then◌else◌,
}

pub data SortDirection : Type 0 where
  asc desc : SortDirection

pub record CursorValue : Type 0 where
  pub id : ℕ
  pub sort_value : ℕ

-- A row, as far as paging reads it.
pub record Row : Type 0 where
  pub id : ℕ
  pub sort_value : ℕ

pub record PaginatedResponse : Type 0 where
  pub rows : List Row
  pub next_cursor : Option CursorValue
  pub has_more : Bool

-- The operator `>` or `<` of `buildCursorWhere`, of a column and the cursor's value.
abbrev beyond : SortDirection → ℕ → ℕ → Bool
beyond asc column value = ltb value column
beyond desc column value = ltb column value

unfoldable pub build_cursor_where : SortDirection → Option CursorValue → Row → Bool
build_cursor_where direction none row = true
build_cursor_where direction (some c) row =
    beyond direction row.sort_value c.sort_value
    || (row.sort_value == c.sort_value && beyond direction row.id c.id)

-- `buildCursorOrderBy`, as the strict order of rows: by the sort column in the direction, then by
-- ascending identifiers, whatever the direction.
abbrev pub Precedes : SortDirection → Row → Row → Type 0
Precedes asc a b = (a.sort_value < b.sort_value) ⊎ (a.sort_value ≡ b.sort_value) × (a.id < b.id)
Precedes desc a b = (b.sort_value < a.sort_value) ⊎ (a.sort_value ≡ b.sort_value) × (a.id < b.id)

-- `encodeSortValue` of the caller, which may not keep the whole value of the column.
abbrev pub EncodeSortValue : Type 0
EncodeSortValue = Row → ℕ

abbrev pub encode_cursor : EncodeSortValue → Row → CursorValue
encode_cursor encode_sort_value row = record { id = row.id; sort_value = encode_sort_value row }

abbrev pub next_cursor_of : EncodeSortValue → Option Row → Option CursorValue
next_cursor_of encode_sort_value none = none
next_cursor_of encode_sort_value (some row) = some (encode_cursor encode_sort_value row)

unfoldable pub wrap_paginated_response : EncodeSortValue → List Row → ℕ → PaginatedResponse
wrap_paginated_response encode_sort_value items limit =
    let has_more = ltb limit (length items) in
    let page = if has_more then take limit items else items in
    record {
      rows = page;
      next_cursor = if has_more then next_cursor_of encode_sort_value (last? page) else none;
      has_more = has_more;
    }

-- A list endpoint: the rows that satisfy the condition, in order, one more than the limit, wrapped.
unfoldable pub fetch_page :
    EncodeSortValue → SortDirection → ℕ → Option CursorValue → List Row → PaginatedResponse
unfolding wrap_paginated_response build_cursor_where
fetch_page encode_sort_value direction limit cursor table =
    wrap_paginated_response encode_sort_value
      (take (suc limit) (select (build_cursor_where direction cursor) table)) limit

-- A client that follows `nextCursor` for at most so many pages.
abbrev pub continue_from : (CursorValue → List Row) → Option CursorValue → List Row
continue_from f none = []
continue_from f (some c) = f c

unfoldable pub fetch_all :
    EncodeSortValue → ℕ → SortDirection → ℕ → Option CursorValue → List Row → List Row
fetch_all encode_sort_value zero direction limit cursor table = []
fetch_all encode_sort_value (suc pages) direction limit cursor table =
    let page = fetch_page encode_sort_value direction limit cursor table in
    page.rows
    ++ continue_from (λ c. fetch_all encode_sort_value pages direction limit (some c) table)
        page.next_cursor
