-- ===== src/Publisher/Health.antt =====
-- Which publisher is chosen.
use walwatch.Prelude.{
  ℕ, ◌≤◌, ◌≡◌, refl, sym, ap, subst, ◌⊎◌, inl, inr, true, false, List, [], ◌∷◌, Option, none, some,
  sort_by, IsSorted, IsTotal, IsTransitive, sort_by-IsSorted, All-of_sort_by, Any-of_sort_by, All,
  Any, arith, Bool-cases, if◌then◌else◌,
}
use walwatch.Publisher.{
  PublisherInfo, Db, is_healthy, join_all, by_priority, assigned, first_healthy,
  select_publisher_for_project,
}

by_priority-IsTotal : IsTotal by_priority
by_priority-IsTotal a b = ground arith

by_priority-IsTransitive : IsTransitive by_priority
by_priority-IsTransitive a b c h g = ground arith

-- The rows of a project that may be chosen.
abbrev pub candidates : Db → ℕ → List PublisherInfo
candidates db project = join_all project db.publishers db.project_publishers

module _ (stale now : ℕ) where
  -- The best of the rows: a healthy one, of which no healthy one has a lower number; there is none only if
  -- no row is healthy.
  abbrev pub IsBest : List PublisherInfo → Option PublisherInfo → Type 0
  IsBest rows none = All (λ x. is_healthy stale now x.publisher ≡ false) rows
  IsBest rows (some r) =
      Any (λ x. x ≡ r) rows
      × (is_healthy stale now r.publisher ≡ true)
      × All (λ x. (is_healthy stale now x.publisher ≡ false) ⊎ (r.priority ≤ x.priority)) rows

  first_or_later :
      (r : PublisherInfo) (xs : List PublisherInfo)
      → All (λ y. by_priority r y ≡ true) xs
      → All (λ x. (is_healthy stale now x.publisher ≡ false) ⊎ (r.priority ≤ x.priority)) xs
  first_or_later r [] h = tt
  first_or_later r (x ∷ xs) h = (inr (ground arith), first_or_later r xs h.1)

  skipped-IsBest :
      (x : PublisherInfo) (xs : List PublisherInfo) (o : Option PublisherInfo)
      → is_healthy stale now x.publisher ≡ false
      → IsBest xs o
      → IsBest (x ∷ xs) o
  skipped-IsBest x xs none h best = (h, best)
  skipped-IsBest x xs (some r) h best = (inr best.0, best.1, (inl h, best.2))

  first_healthy-IsBest :
      (rows : List PublisherInfo)
      → IsSorted by_priority rows
      → IsBest rows (first_healthy stale now rows)
  first_healthy-IsBest [] h = tt
  first_healthy-IsBest (r ∷ rows) h = elim (Bool-cases (is_healthy stale now r.publisher)) [
    | inl healthy ↦
        subst (IsBest (r ∷ rows))
          (sym (ap (λ b. if b then some r else first_healthy stale now rows) healthy))
          (inl refl, healthy, (inr (omega arith), first_or_later r rows h.0))
    | inr not_healthy ↦
        subst (IsBest (r ∷ rows))
          (sym (ap (λ b. if b then some r else first_healthy stale now rows) not_healthy))
          (skipped-IsBest r rows (first_healthy stale now rows) not_healthy
            (first_healthy-IsBest rows h.1))
  ]

  IsBest-of_sort_by :
      (rows : List PublisherInfo) (o : Option PublisherInfo)
      → IsBest (sort_by by_priority rows) o
      → IsBest rows o
  IsBest-of_sort_by rows none h = All-of_sort_by by_priority _ rows h
  IsBest-of_sort_by rows (some r) h =
      (Any-of_sort_by by_priority r rows h.0, h.1, All-of_sort_by by_priority _ rows h.2)

  -- Without an override, the publisher of a project is a healthy one with the lowest priority number
  -- among the healthy ones that are assigned; there is none only if none of these is healthy.
  pub select_publisher_for_project-IsBest :
      (db : Db) (project : ℕ)
      → IsBest (candidates db project) (select_publisher_for_project stale now db project none)
  unfolding select_publisher_for_project assigned
  select_publisher_for_project-IsBest db project = IsBest-of_sort_by (candidates db project) _ (
      first_healthy-IsBest (sort_by by_priority (candidates db project)) (
        sort_by-IsSorted by_priority by_priority-IsTotal by_priority-IsTransitive
          (candidates db project)))
