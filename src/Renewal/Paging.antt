-- ===== src/Renewal/Paging.antt =====
-- Which vaults the pages of the chain give.
use walwatch.Prelude.{
  ℕ, zero, suc, ◌+◌, ◌-◌, ◌≤◌, ◌<◌, min, ltb, ◌≡◌, refl, sym, ap, ap₂, ◌∙◌, Bool, true, false, List,
  [], ◌∷◌, ◌++◌, Option, none, some, length, take, drop, arith, length-append, take-append-drop,
  take-append, append_nil, append_assoc, length-take-le, and_left, and_right,
}
use walwatch.Retry.{Outcome, returns}
use walwatch.Renewal.{DueVault}
use walwatch.Renewal.MoveValue.{ObjectData, parse_vault_object}
use walwatch.Renewal.Scanner.{
  Page, keep_parsed, parse_all, after_page, goes_on, query_loop, query_all_vaults,
}

keep_parsed-append :
    (o : Option DueVault) (xs ys : List DueVault)
    → keep_parsed o xs ++ ys ≡ keep_parsed o (xs ++ ys)
keep_parsed-append none xs ys = refl
keep_parsed-append (some v) xs ys = refl

parse_all-append :
    (os ps : List (Option ObjectData)) → parse_all (os ++ ps) ≡ parse_all os ++ parse_all ps
parse_all-append [] ps = refl
parse_all-append (o ∷ os) ps =
    ap (keep_parsed (parse_vault_object o)) (parse_all-append os ps)
    ∙ sym (keep_parsed-append (parse_vault_object o) (parse_all os) (parse_all ps))

length-keep_parsed :
    (o : Option DueVault) (xs : List DueVault) → length (keep_parsed o xs) ≤ suc (length xs)
length-keep_parsed none xs = omega arith
length-keep_parsed (some v) xs = omega arith

length-parse_all : (os : List (Option ObjectData)) → length (parse_all os) ≤ length os
length-parse_all [] = omega arith
length-parse_all (o ∷ os) =
    omega (arith, length-keep_parsed (parse_vault_object o) (parse_all os), length-parse_all os)

-- The first page of the objects that are left, and the pages after it.
take-parse_all :
    (m size : ℕ) (os : List (Option ObjectData))
    → size ≤ m
    → take m (parse_all os)
      ≡ parse_all (take size os)
        ++ take (m - length (parse_all (take size os))) (parse_all (drop size os))
take-parse_all m size os h =
    ap (λ xs. take m (parse_all xs)) (sym (take-append-drop size os))
    ∙ ap (take m) (parse_all-append (take size os) (drop size os))
    ∙ take-append m (parse_all (take size os)) (parse_all (drop size os))
        (omega (arith, length-parse_all (take size os), length-take-le size os))

abbrev no_objects : List (Option ObjectData)
no_objects = []

abbrev no_vaults : List DueVault
no_vaults = []

drop-nil : (n : ℕ) → drop n no_objects ≡ []
drop-nil zero = refl
drop-nil (suc n) = refl

suc_add : (n k : ℕ) → suc (n + k) ≡ suc n + k
suc_add n k = omega arith

drop-drop : (n k : ℕ) (xs : List (Option ObjectData)) → drop k (drop n xs) ≡ drop (n + k) xs
drop-drop zero k xs = ap (λ m. drop m xs) (omega arith)
drop-drop (suc n) k [] = drop-nil k ∙ sym (drop-nil (suc n + k))
drop-drop (suc n) k (x ∷ xs) = drop-drop n k xs ∙ ap (λ m. drop m (x ∷ xs)) (suc_add n k)

drop-all : (n : ℕ) (xs : List (Option ObjectData)) → length xs ≤ n → drop n xs ≡ []
drop-all n [] h = drop-nil n
drop-all zero (x ∷ xs) h = absurd (omega arith)
drop-all (suc n) (x ∷ xs) h = drop-all n xs (omega arith)

take_nil : (n : ℕ) → take n no_vaults ≡ []
take_nil zero = refl
take_nil (suc n) = refl

left_over : (m a b c : ℕ) → c ≡ a + b → m - a - b ≡ m - c
left_over m a b c h = omega (arith, h)

full_left : (m a : ℕ) → ltb a m ≡ false → m - a ≡ 0
full_left m a h = ground arith

start_fuel : (n p fuel : ℕ) → p ≡ 0 → n + 1 < fuel → n - p + 1 < fuel
start_fuel n p fuel e h = omega (arith, e)

all_of : (m : ℕ) → m - 0 ≡ m
all_of m = omega arith

fuel_left : (d fuel : ℕ) → d + 1 < suc fuel → 0 < fuel
fuel_left d fuel h = omega arith

fuel_next :
    (n p p' size fuel : ℕ)
    → p' ≡ p + size
    → 0 < size
    → n - p + 1 < suc fuel
    → ltb (p + size) n ≡ true
    → n - p' + 1 < fuel
fuel_next n p p' size fuel e pos h more = ground arith

place_end : (n p p' size : ℕ) → p' ≡ p + size → ltb (p + size) n ≡ false → n ≤ p'
place_end n p p' size e more = ground arith

size_pos : (a m : ℕ) → ltb a m ≡ true → 0 < min 50 (m - a)
size_pos a m h = ground arith

size_small : (m : ℕ) → min 50 m ≤ m
size_small m = omega arith

-- The endpoint pages through these objects: a cursor stands for a place among them, the page has the
-- objects from there on, as many as were asked for, and says if there are more.
pub record Pages {E : Type 0} (page : Option ℕ → ℕ → Outcome E Page)
    (objects : List (Option ObjectData)) : Type 0 where
  pub place : Option ℕ → ℕ
  pub starts : place none ≡ 0
  pub next : Option ℕ → ℕ → Option ℕ
  pub moves : (c : Option ℕ) (size : ℕ) → place (next c size) ≡ place c + size
  pub responds :
      (c : Option ℕ) (size : ℕ)
      → page c size
        ≡ returns record {
          objects = take size (drop (place c) objects);
          has_next_page = ltb (place c + size) (length objects);
          next_cursor = next c size;
        }

module _ {E : Type 0} (page : Option ℕ → ℕ → Outcome E Page) (objects : List (Option ObjectData))
    (pages : Pages page objects) (max_vaults : ℕ) where
  -- What the loop has to give, from a place on.
  abbrev remaining : ℕ → List DueVault → List DueVault
  remaining place vaults =
      vaults ++ take (max_vaults - length vaults) (parse_all (drop place objects))

  loop-stops :
      (fuel : ℕ) (c : Option ℕ) (more : Bool) (vaults : List DueVault)
      → goes_on page max_vaults more vaults ≡ false
      → query_loop page max_vaults (suc fuel) c more vaults ≡ some (returns vaults)
  unfolding query_loop
  loop-stops fuel c more vaults h = ground arith

  loop-goes_on :
      (fuel : ℕ) (c : Option ℕ) (more : Bool) (vaults : List DueVault)
      → goes_on page max_vaults more vaults ≡ true
      → query_loop page max_vaults (suc fuel) c more vaults
        ≡ after_page page max_vaults
            (λ c h vs. query_loop page max_vaults fuel c h vs)
            vaults
            (page c (min 50 (max_vaults - length vaults)))
  unfolding query_loop
  loop-goes_on fuel c more vaults h = ground arith

  -- What a page adds, and what is left after it.
  remaining-page :
      (place size : ℕ) (vaults : List DueVault)
      → size ≤ max_vaults - length vaults
      → remaining place vaults
        ≡ remaining (place + size) (vaults ++ parse_all (take size (drop place objects)))
  remaining-page place size vaults h =
      let page_vaults = parse_all (take size (drop place objects)) in
      ap (λ xs. vaults ++ xs)
        (take-parse_all (max_vaults - length vaults) size (drop place objects) h)
      ∙ sym (append_assoc vaults page_vaults _)
      ∙ ap₂ (λ k os. (vaults ++ page_vaults) ++ take k (parse_all os))
          (left_over max_vaults (length vaults) (length page_vaults) _
            (length-append vaults page_vaults))
          (drop-drop place size objects)

  nothing_left :
      (place : ℕ) (vaults : List DueVault) (more : Bool)
      → goes_on page max_vaults more vaults ≡ false
      → (more ≡ false → length objects ≤ place)
      → remaining place vaults ≡ vaults
  nothing_left place vaults true full last =
      ap (λ k. vaults ++ take k (parse_all (drop place objects)))
        (full_left max_vaults (length vaults) full)
      ∙ append_nil vaults
  nothing_left place vaults false full last =
      ap (λ os. vaults ++ take (max_vaults - length vaults) (parse_all os))
        (drop-all place objects (last refl))
      ∙ ap (λ os. vaults ++ os) (take_nil (max_vaults - length vaults))
      ∙ append_nil vaults

  query_loop-remaining :
      (fuel : ℕ) (c : Option ℕ) (more going : Bool) (vaults : List DueVault)
      → 0 < fuel
      → (more ≡ true → length objects - pages.place c + 1 < fuel)
      → (more ≡ false → length objects ≤ pages.place c)
      → goes_on page max_vaults more vaults ≡ going
      → query_loop page max_vaults fuel c more vaults
        ≡ some (returns (remaining (pages.place c) vaults))
  query_loop-remaining zero c more going vaults pos lt last e = absurd (omega arith)
  query_loop-remaining (suc fuel) c more false vaults pos lt last e =
      loop-stops fuel c more vaults e
      ∙ ap (λ vs. some (returns vs)) (sym (nothing_left (pages.place c) vaults more e last))
  query_loop-remaining (suc fuel) c more true vaults pos lt last e =
      let size = min 50 (max_vaults - length vaults) in
      let vaults' = vaults ++ parse_all (take size (drop (pages.place c) objects)) in
      let more' = ltb (pages.place c + size) (length objects) in
      loop-goes_on fuel c more vaults e
      ∙ ap (after_page page max_vaults (λ c h vs. query_loop page max_vaults fuel c h vs) vaults)
          (pages.responds c size)
      ∙ query_loop-remaining fuel (pages.next c size) more' (goes_on page max_vaults more' vaults')
          vaults' (fuel_left _ fuel (lt (and_left more _ e)))
          (fuel_next (length objects) (pages.place c) _ size fuel (pages.moves c size)
            (size_pos (length vaults) max_vaults (and_right more _ e)) (lt (and_left more _ e)))
          (place_end (length objects) (pages.place c) _ size (pages.moves c size)) refl
      ∙ ap (λ vs. some (returns vs))
          (ap (λ k. remaining k vaults') (pages.moves c size)
            ∙ sym (
                remaining-page (pages.place c) size vaults
                  (size_small (max_vaults - length vaults))))

  -- The loop over the pages ends, with at least two pages more than there are objects as fuel, and gives the vaults
  -- among the objects, in order, as far as the first `maxVaults` of them.
  pub query_all_vaults-take :
      (fuel : ℕ)
      → length objects + 1 < fuel
      → query_all_vaults page max_vaults fuel true
        ≡ some (returns (take max_vaults (parse_all objects)))
  unfolding query_all_vaults
  query_all_vaults-take fuel h =
      query_loop-remaining fuel none true (goes_on page max_vaults true []) [] (omega arith)
        (λ _. start_fuel (length objects) _ fuel pages.starts h) (λ e. absurd (cc e)) refl
      ∙ ap₂ (λ k m. some (returns (take m (parse_all (drop k objects))))) pages.starts
          (all_of max_vaults)
