-- ===== src/Policy/Chain.antt =====
-- Which policy the engine resolves to: the winner of the first scope that has an active policy.
use walwatch.Prelude.{
  ℕ, ◌≡◌, refl, sym, ap, subst, ◌∙◌, ◌⊎◌, inl, inr, List, [], ◌∷◌, Option, none, some, sort_by,
  Wins, first-sort_by,
}
use walwatch.Policy.{
  Scope, PolicyRow, BlobRegistration, Db, Step, at_blob, at_scope, at_tag, at_wallet, at_project,
  at_organization, ResolvedPolicy,
}
use walwatch.Policy.Engine.{
  to_resolved_policy, newer, narrower, resolve_within_scope, get_policies_for_scope,
  explicit_policies, find_explicit_blob_assignment, first_row, matching,
  resolve_tag_policies_by_tags, resolved_first, resolve_found, resolve_tag_policies, or_next,
  or_else, explicit_or, wallet_policies, resolve_project, resolve_from_scope, resolve_blob,
  find_blob, resolve_effective_policy,
}
use walwatch.Policy.Order.{
  IsLater, IsNarrower, IsBest, newer-IsLater, narrower-IsNarrower, Wins-IsBest, newer-IsTotal,
  newer-IsTransitive, narrower-IsTotal, narrower-IsTransitive,
}
use walwatch.Policy.Levels.{
  Level, one_path, ResolvesTo, plain, tag_level, project_levels, broad_levels, explicit_level,
  levels, Resolution,
}

latest : (w : PolicyRow) (ps : List PolicyRow) → Wins newer ps w → IsBest IsLater ps w
latest w ps = Wins-IsBest newer IsLater newer-IsLater ps w

or_next-ResolvesTo :
    (ps : List PolicyRow) (path : List Step) (next : ResolvedPolicy) (ls : List Level)
    → ResolvesTo ls next
    → ResolvesTo (plain ps path ∷ ls) (or_next ps path next)
unfolding resolve_within_scope
or_next-ResolvesTo [] path next ls h = inl (refl, h)
or_next-ResolvesTo (p ∷ []) path next ls h =
    let (w, rest, sorted, wins) = first-sort_by newer newer-IsTotal newer-IsTransitive p [] in
    inr (w, latest w (p ∷ []) wins, ap (λ x. to_resolved_policy x path) (same w wins.0))
  where
    same : (w : PolicyRow) → (p ≡ w) ⊎ ⊥ → p ≡ w
    same w (inl e) = e
    same w (inr e) = absurd e
or_next-ResolvesTo (p ∷ q ∷ ps) path next ls h =
    let (w, rest, sorted, wins) = first-sort_by newer newer-IsTotal newer-IsTransitive p (q ∷ ps) in
    inr (w, latest w (p ∷ q ∷ ps) wins, rw sorted refl)

resolve_project-ResolvesTo :
    (db : Db) (org_id project_id : ℕ)
    → ResolvesTo (project_levels db org_id project_id) (resolve_project db org_id project_id)
unfolding resolve_project
resolve_project-ResolvesTo db org_id project_id =
    let org =
      plain (get_policies_for_scope db org_id Scope.organization org_id) (at_organization ∷ []) in
    or_next-ResolvesTo (get_policies_for_scope db org_id Scope.project project_id) (at_project ∷ [])
      _ (org ∷ [])
      (or_next-ResolvesTo (get_policies_for_scope db org_id Scope.organization org_id)
        (at_organization ∷ []) _ [] refl)

-- The tag level, and what comes after it.
resolve_tags-ResolvesTo :
    (db : Db) (org_id : ℕ) (tags : List ℕ) (next : ResolvedPolicy) (ls : List Level)
    → ResolvesTo ls next
    → ResolvesTo
        (tag_level db org_id tags ∷ ls)
        (or_else (resolve_tag_policies db org_id tags) next)
unfolding resolve_tag_policies resolve_tag_policies_by_tags
resolve_tags-ResolvesTo db org_id [] next ls h = inl (refl, h)
resolve_tags-ResolvesTo db org_id (t ∷ tags) next ls h =
    of_matching (matching db org_id (t ∷ tags)) refl
  where
    of_matching :
        (ps : List PolicyRow)
        → matching db org_id (t ∷ tags) ≡ ps
        → ResolvesTo (tag_level db org_id (t ∷ tags) ∷ ls) (
            or_else
              (resolved_first
                (sort_by (narrower (t ∷ tags)) (matching db org_id (t ∷ tags)))
                (at_tag ∷ []))
              next)
    of_matching [] e = inl (e, unfold sort_by in rw e h)
    of_matching (p ∷ ps) e =
        let (w, rest, sorted, wins) =
          first-sort_by (narrower (t ∷ tags)) (narrower-IsTotal (t ∷ tags))
            (narrower-IsTransitive (t ∷ tags)) p ps in
        inr (
          w,
          subst (λ xs. IsBest (IsNarrower (t ∷ tags)) xs w) (sym e)
              (Wins-IsBest (narrower (t ∷ tags)) (IsNarrower (t ∷ tags))
                (narrower-IsNarrower (t ∷ tags)) (p ∷ ps) w wins),
          ap (λ xs. or_else (resolved_first (sort_by (narrower (t ∷ tags)) xs) (at_tag ∷ [])) next)
                e
              ∙ ap (λ xs. or_else (resolved_first xs (at_tag ∷ [])) next) sorted
              ∙ ap (to_resolved_policy w) (sym (one_path (tag_level db org_id (t ∷ tags)) refl _)),
        )

resolve_from_scope-ResolvesTo :
    (db : Db) (org_id project_id : ℕ) (wallet_id : Option ℕ) (tags : List ℕ)
    → ResolvesTo
        (broad_levels db org_id project_id wallet_id tags)
        (resolve_from_scope db org_id project_id wallet_id tags)
unfolding resolve_from_scope
resolve_from_scope-ResolvesTo db org_id project_id wallet_id tags =
    resolve_tags-ResolvesTo db org_id tags _
      (plain (wallet_policies db org_id wallet_id) (at_wallet ∷ [])
        ∷ project_levels db org_id project_id)
      (or_next-ResolvesTo (wallet_policies db org_id wallet_id) (at_wallet ∷ []) _
        (project_levels db org_id project_id) (resolve_project-ResolvesTo db org_id project_id))

explicit-ResolvesTo :
    (db : Db) (blob : BlobRegistration) (next : ResolvedPolicy) (ls : List Level)
    → ResolvesTo ls next
    → ResolvesTo
        (explicit_level db blob ∷ ls)
        (explicit_or (find_explicit_blob_assignment db blob.id) next)
unfolding find_explicit_blob_assignment
explicit-ResolvesTo db blob next ls h =
    of_policies (explicit_policies blob.id db.policies db.policy_assignments) refl
  where
    of_policies :
        (ps : List PolicyRow)
        → explicit_policies blob.id db.policies db.policy_assignments ≡ ps
        → ResolvesTo (explicit_level db blob ∷ ls) (
            explicit_or
              (first_row
                (sort_by newer (explicit_policies blob.id db.policies db.policy_assignments)))
              next)
    of_policies [] e = inl (e, unfold sort_by in rw e h)
    of_policies (p ∷ ps) e =
        let (w, rest, sorted, wins) = first-sort_by newer newer-IsTotal newer-IsTransitive p ps in
        inr (
          w,
          subst (λ xs. IsBest IsLater xs w) (sym e) (latest w (p ∷ ps) wins),
          ap (λ xs. explicit_or (first_row (sort_by newer xs)) next) e
              ∙ ap (λ xs. explicit_or (first_row xs) next) sorted
              ∙ ap (to_resolved_policy w) (sym (one_path (explicit_level db blob) refl _)),
        )

resolve_blob-ResolvesTo :
    (db : Db) (blob : BlobRegistration) → ResolvesTo (levels db blob) (resolve_blob db blob)
unfolding resolve_blob resolve_from_scope
resolve_blob-ResolvesTo db blob =
    let broad = resolve_from_scope db blob.org_id blob.project_id blob.wallet_id blob.tags in
    let broad_levels = broad_levels db blob.org_id blob.project_id blob.wallet_id blob.tags in
    explicit-ResolvesTo db blob
      (or_next (get_policies_for_scope db blob.org_id Scope.blob blob.id) (at_blob ∷ at_scope ∷ [])
        broad)
      (plain (get_policies_for_scope db blob.org_id Scope.blob blob.id) (at_blob ∷ at_scope ∷ [])
        ∷ broad_levels)
      (or_next-ResolvesTo (get_policies_for_scope db blob.org_id Scope.blob blob.id)
        (at_blob ∷ at_scope ∷ []) broad broad_levels
        (resolve_from_scope-ResolvesTo db blob.org_id blob.project_id blob.wallet_id blob.tags))

-- Of a blob that is not registered there is no policy. Of a registered one it is the winner of the
-- first level that has an active policy, of its explicit assignments, its own scope, its tags, its
-- wallet, its project and its organization; with none of them it is the system's default. Among the
-- policies of a level the latest wins, and the greater identifier at equal times; among those that
-- share a tag, the one that shares the most does first. The path that is reported is the level's.
pub resolve_effective_policy-ResolvesTo :
    (db : Db) (blob_id : ℕ)
    → Resolution db (find_blob blob_id db.blob_registrations) (resolve_effective_policy db blob_id)
unfolding resolve_effective_policy
resolve_effective_policy-ResolvesTo db blob_id = of_blob (find_blob blob_id db.blob_registrations)
  where
    of_blob : (o : Option BlobRegistration) → Resolution db o (resolve_found db o)
    of_blob none = refl
    of_blob (some blob) = (resolve_blob db blob, refl, resolve_blob-ResolvesTo db blob)

-- Of a registered blob that has no explicit assignment and no active policy of its own, the policy is
-- the one that its organization, project, wallet and tags alone resolve to.
pub resolve_effective_policy-resolve_from_scope :
    (db : Db) (blob_id : ℕ) (blob : BlobRegistration)
    → find_blob blob_id db.blob_registrations ≡ some blob
    → find_explicit_blob_assignment db blob.id ≡ none
    → get_policies_for_scope db blob.org_id Scope.blob blob.id ≡ []
    → resolve_effective_policy db blob_id
      ≡ some (resolve_from_scope db blob.org_id blob.project_id blob.wallet_id blob.tags)
unfolding resolve_effective_policy resolve_blob resolve_from_scope
resolve_effective_policy-resolve_from_scope db blob_id blob found no_explicit no_own =
    let broad = resolve_from_scope db blob.org_id blob.project_id blob.wallet_id blob.tags in
    let own = get_policies_for_scope db blob.org_id Scope.blob blob.id in
    ap (resolve_found db) found
    ∙ ap (λ o. some (explicit_or o (or_next own (at_blob ∷ at_scope ∷ []) broad))) no_explicit
    ∙ ap (λ ps. some (or_next ps (at_blob ∷ at_scope ∷ []) broad)) no_own
