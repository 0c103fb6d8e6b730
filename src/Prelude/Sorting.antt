-- ===== src/Prelude/Sorting.antt =====
-- `xs.sort(compare)` and `ORDER BY`: a stable sort by a test for "comes first or ties", and what the
-- first element of the result is.
use mathlib.Core.Path.{◌≡◌, refl, subst}
use mathlib.Core.Bool.{Bool, true, false}
use mathlib.Core.Logic.{◌⊎◌, inl, inr}
use mathlib.Core.List.{List, [], ◌∷◌}
use walwatch.Prelude.Tests.{if◌then◌else◌, Bool-cases}
use walwatch.Prelude.Lists.{All, Any, All-Any}

unfoldable pub insert_by {ℓ} : {A : Type ℓ} → (A → A → Bool) → A → List A → List A
insert_by before x [] = x ∷ []
insert_by before x (y ∷ ys) =
    let rest = insert_by before x ys in if before x y then x ∷ y ∷ ys else y ∷ rest

unfoldable pub sort_by {ℓ} : {A : Type ℓ} → (A → A → Bool) → List A → List A
unfolding insert_by
sort_by before [] = []
sort_by before (x ∷ xs) = insert_by before x (sort_by before xs)

-- The element is in the list and comes before, or ties with, each element of it.
abbrev pub Wins : {A : Type 0} → (A → A → Bool) → List A → A → Type 0
Wins before xs w = Any (λ x. x ≡ w) xs × All (λ x. before w x ≡ true) xs

abbrev pub IsTotal : {A : Type 0} → (A → A → Bool) → Type 0
IsTotal {A = A} before = (a b : A) → (before a b ≡ true) ⊎ (before b a ≡ true)

abbrev pub IsTransitive : {A : Type 0} → (A → A → Bool) → Type 0
IsTransitive {A = A} before =
    (a b c : A) → before a b ≡ true → before b c ≡ true → before a c ≡ true

-- Each element comes before, or ties with, those after it.
abbrev pub IsSorted : {A : Type 0} → (A → A → Bool) → List A → Type 0
IsSorted before [] = Unit
IsSorted before (x ∷ xs) = All (λ y. before x y ≡ true) xs × IsSorted before xs

module _ {A : Type 0} (before : A → A → Bool) (P : A → Type 0) where
  All-insert_by : (x : A) (ys : List A) → P x → All P ys → All P (insert_by before x ys)
  unfolding insert_by
  All-insert_by x [] p h = (p, tt)
  All-insert_by x (y ∷ ys) p h = elim (Bool-cases (before x y)) [
    | inl first ↦ rw first (p, h)
    | inr later ↦ rw later (h.0, All-insert_by x ys p h.1)
  ]

  insert_by-first :
      (x y : A) (ys : List A) → before x y ≡ true → insert_by before x (y ∷ ys) ≡ x ∷ y ∷ ys
  unfolding insert_by
  insert_by-first x y ys h = rw h refl

  insert_by-later :
      (x y : A) (ys : List A)
      → before x y ≡ false
      → insert_by before x (y ∷ ys) ≡ y ∷ insert_by before x ys
  unfolding insert_by
  insert_by-later x y ys h = rw h refl

  All-of_insert_by : (x : A) (ys : List A) → All P (insert_by before x ys) → P x × All P ys
  unfolding insert_by
  All-of_insert_by x [] h = (h.0, tt)
  All-of_insert_by x (y ∷ ys) h = elim (Bool-cases (before x y)) [
    | inl first ↦ subst (All P) (insert_by-first x y ys first) h
    | inr later ↦
        let here = subst (All P) (insert_by-later x y ys later) h in
        let (p, rest) = All-of_insert_by x ys here.1 in (p, (here.0, rest))
  ]

  -- What holds of every element of a list holds of those of the sorted one, and conversely.
  pub All-sort_by : (xs : List A) → All P xs → All P (sort_by before xs)
  unfolding sort_by
  All-sort_by [] h = tt
  All-sort_by (x ∷ xs) h = All-insert_by x (sort_by before xs) h.0 (All-sort_by xs h.1)

  pub All-of_sort_by : (xs : List A) → All P (sort_by before xs) → All P xs
  unfolding sort_by
  All-of_sort_by [] h = tt
  All-of_sort_by (x ∷ xs) h =
      let (p, rest) = All-of_insert_by x (sort_by before xs) h in (p, All-of_sort_by xs rest)

module _ {A : Type 0} where
  members_weaken :
      (y : A) (xs zs : List A)
      → All (λ x. Any (λ z. z ≡ x) zs) xs
      → All (λ x. Any (λ z. z ≡ x) (y ∷ zs)) xs
  members_weaken y [] zs h = tt
  members_weaken y (x ∷ xs) zs h = (inr h.0, members_weaken y xs zs h.1)

  -- Every element is a member.
  members : (xs : List A) → All (λ x. Any (λ z. z ≡ x) xs) xs
  members [] = tt
  members (x ∷ xs) = (inl refl, members_weaken x xs xs (members xs))

  -- A member of the sorted list is one of the list.
  pub Any-of_sort_by :
      (before : A → A → Bool) (w : A) (xs : List A)
      → Any (λ x. x ≡ w) (sort_by before xs)
      → Any (λ x. x ≡ w) xs
  Any-of_sort_by before w xs h =
      All-Any (sort_by before xs) (All-sort_by before (λ x. Any (λ z. z ≡ x) xs) xs (members xs)) h
        (λ x there same. subst (λ v. Any (λ z. z ≡ v) xs) same there)

module _ {A : Type 0} (before : A → A → Bool) (total : IsTotal before)
    (trans : IsTransitive before) where
  before_self : (x : A) → before x x ≡ true
  before_self x = elim (total x x) [ inl h ↦ h | inr h ↦ h ]

  All-before :
      (x w : A) (ys : List A)
      → before x w ≡ true
      → All (λ y. before w y ≡ true) ys
      → All (λ y. before x y ≡ true) ys
  All-before x w [] h a = tt
  All-before x w (y ∷ ys) h a = (trans x w y h a.0, All-before x w ys h a.1)

  before_other : (x y : A) → before x y ≡ false → before y x ≡ true
  before_other x y later = elim (total x y) [ inl bad ↦ absurd (cc (bad, later)) | inr good ↦ good ]

  insert_by-IsSorted :
      (x : A) (ys : List A) → IsSorted before ys → IsSorted before (insert_by before x ys)
  unfolding insert_by
  insert_by-IsSorted x [] h = (tt, tt)
  insert_by-IsSorted x (y ∷ ys) h = elim (Bool-cases (before x y)) [
    | inl first ↦ rw first ((first, All-before x y ys first h.0), h)
    | inr later ↦ rw later (
      All-insert_by before (λ z. before y z ≡ true) x ys (before_other x y later) h.0,
      insert_by-IsSorted x ys h.1,
    )
  ]

  pub sort_by-IsSorted : (xs : List A) → IsSorted before (sort_by before xs)
  unfolding sort_by
  sort_by-IsSorted [] = tt
  sort_by-IsSorted (x ∷ xs) = insert_by-IsSorted x (sort_by before xs) (sort_by-IsSorted xs)

  -- The first element of a sorted list that is not empty wins.
  pub first-sort_by :
      (x : A) (xs : List A)
      → (w : A) × (rest : List A) × (sort_by before (x ∷ xs) ≡ w ∷ rest) × Wins before (x ∷ xs) w
  unfolding sort_by
  first-sort_by x [] = (x, [], refl, (inl refl, (before_self x, tt)))
  first-sort_by x (y ∷ ys) =
      let (w, rest, sorted, (there, wins)) = first-sort_by y ys in
      elim (Bool-cases (before x w)) [
        | inl first ↦ (
          x,
          w ∷ rest,
          rw (sorted, first) refl,
          (inl refl, (before_self x, All-before x w (y ∷ ys) first wins)),
        )
        | inr later ↦ (
          w,
          insert_by before x rest,
          rw (sorted, later) refl,
          (
            inr there,
            (elim (total x w) [ inl bad ↦ absurd (cc (bad, later)) | inr good ↦ good ], wins),
          ),
        )
      ]
