-- ===== src/Pagination/Ties.antt =====
-- Rows that share a sort value, in descending order.
use walwatch.Prelude.{
  ℕ, zero, suc, ◌<◌, ◌≤◌, ◌≡◌, sym, ap, subst, inl, inr, Bool, false, List, [], ◌∷◌, some, ltb,
  length, take, select, All, arith, Bool-cases, select-skip, select-keep, ◌≢◌,
}
use walwatch.Pagination.{
  desc, EncodeSortValue, Row, build_cursor_where, Precedes, encode_cursor, wrap_paginated_response,
  fetch_page,
}

-- The row is not in the list.
abbrev pub Absent : Row → List Row → Type 0
Absent x = All (λ (y : Row). y ≢ x)

Absent-select : (p : Row → Bool) (x : Row) (rs : List Row) → p x ≡ false → Absent x (select p rs)
Absent-select p x [] h = tt
Absent-select p x (r ∷ rs) h = elim (Bool-cases (p r)) [
  | inl kept ↦
      subst (Absent x) (sym (select-keep p r rs kept))
        ((λ e. cc (ap p e, kept, h)), Absent-select p x rs h)
  | inr dropped ↦ subst (Absent x) (sym (select-skip p r rs dropped)) (Absent-select p x rs h)
]

Absent-take : (n : ℕ) (x : Row) (rs : List Row) → Absent x rs → Absent x (take n rs)
Absent-take zero x rs h = tt
Absent-take (suc n) x [] h = tt
Absent-take (suc n) x (r ∷ rs) h = (h.0, Absent-take n x rs h.1)

wrap-rows :
    (encode : EncodeSortValue) (items : List Row) (limit : ℕ) (P : List Row → Type 0)
    → P items
    → P (take limit items)
    → P (wrap_paginated_response encode items limit).rows
unfolding wrap_paginated_response
wrap-rows encode items limit P a b = elim (Bool-cases (ltb limit (length items))) [
  | inl more ↦ rw more b
  | inr last ↦ rw last a
]

-- In descending order, a row with the sort value of the last row of a page and a greater identifier
-- comes after that row in the order of the query, and the next page, of whatever size, lacks it; the
-- cursor may have that row's sort value, or a smaller one.
pub desc_tie_lost :
    (encode : EncodeSortValue) (limit : ℕ) (table : List Row) (r x : Row)
    → encode r ≤ r.sort_value
    → x.sort_value ≡ r.sort_value
    → r.id < x.id
    → Precedes desc r x
      × Absent x (fetch_page encode desc limit (some (encode_cursor encode r)) table).rows
unfolding fetch_page
desc_tie_lost encode limit table r x below same later =
    let gone : Absent x (select (build_cursor_where desc (some (encode_cursor encode r))) table) =
      Absent-select (build_cursor_where desc (some (encode_cursor encode r))) x table
        (unfold build_cursor_where in ground arith) in
    (
      inr (sym same, later),
      wrap-rows encode
          (take (suc limit)
            (select (build_cursor_where desc (some (encode_cursor encode r))) table))
          limit (Absent x) (Absent-take (suc limit) x _ gone)
          (Absent-take limit x _ (Absent-take (suc limit) x _ gone)),
    )
