-- ===== src/Policy/Engine.antt =====
-- The class `PolicyEngine` of api/src/lib/policy-engine.ts. A query gives the rows of the table in its
-- order; the order of `getPoliciesForScope` is left to the sort that follows it.
use walwatch.Prelude.{
  ℕ, Bool, true, false, not, ◌&&◌, List, [], ◌∷◌, ◌++◌, Option, none, some, ltb, ◌==◌,
  if◌then◌else◌, length, select, any, sort_by,
}
use walwatch.Policy.{
  Scope, PolicyStatus, tag_field, other_field, array, other_value, Rule, null_rule, rule, PolicyRow,
  BlobRegistration, PolicyAssignment, Db, Step, at_blob, at_explicit, at_scope, at_tag, at_wallet,
  at_project, at_organization, at_latest, at_default, ResolvedPolicy,
}

abbrev pub system_default_policy : ResolvedPolicy
system_default_policy = record {
  policy_id = none;
  policy_name = none;
  renew_threshold = 7;
  renew_extension = 30;
  max_total_epochs = none;
  auto_renewal_enabled = false;
  budget_id = none;
  spending_limit_id = none;
  publisher_priority_override = none;
  max_retries = 5;
  scope = Scope.default;
  resolution_path = at_default ∷ [];
}

abbrev pub or_else {ℓ} : {A : Type ℓ} → Option A → A → A
or_else none d = d
or_else (some a) d = a

-- `policy.scope || 'unknown'`.
abbrev scope_or_unknown : Scope → Scope
scope_or_unknown Scope.empty = Scope.unknown
scope_or_unknown s = s

unfoldable pub to_resolved_policy : PolicyRow → List Step → ResolvedPolicy
to_resolved_policy policy path = record {
  policy_id = some policy.id;
  policy_name = some policy.name;
  renew_threshold = policy.renew_threshold;
  renew_extension = policy.renew_extension;
  max_total_epochs = policy.max_total_epochs;
  auto_renewal_enabled = or_else policy.auto_renewal_enabled policy.active;
  budget_id = policy.budget_id;
  spending_limit_id = policy.spending_limit_id;
  publisher_priority_override = policy.publisher_priority_override;
  max_retries = or_else policy.max_retries 5;
  scope = scope_or_unknown policy.scope;
  resolution_path = path;
}

abbrev pub time_of : PolicyRow → ℕ
time_of p = or_else p.created_at 0

-- The comparison of the sorts, as a test: it puts `a` before `b`.
unfoldable pub newer : PolicyRow → PolicyRow → Bool
newer a b = if time_of b == time_of a then not (ltb a.id b.id) else ltb (time_of b) (time_of a)

abbrev latest_of : List PolicyRow → List Step → ResolvedPolicy
latest_of [] path = system_default_policy
latest_of (p ∷ _) path = to_resolved_policy p (path ++ (at_latest ∷ []))

-- `resolveWithinScope` of an array that is not empty. (Of an empty one, with which it is not called,
-- the source throws; here the default stands for that.)
unfoldable pub resolve_within_scope : List PolicyRow → List Step → ResolvedPolicy
unfolding to_resolved_policy newer sort_by
resolve_within_scope [] path = system_default_policy
resolve_within_scope (p ∷ []) path = to_resolved_policy p path
resolve_within_scope (p ∷ q ∷ ps) path = latest_of (sort_by newer (p ∷ q ∷ ps)) path

abbrev is_active : PolicyStatus → Bool
is_active PolicyStatus.active = true
is_active _ = false

abbrev same_scope : Scope → Scope → Bool
same_scope Scope.blob Scope.blob = true
same_scope Scope.tag Scope.tag = true
same_scope Scope.wallet Scope.wallet = true
same_scope Scope.project Scope.project = true
same_scope Scope.organization Scope.organization = true
same_scope _ _ = false

abbrev equals : Option ℕ → ℕ → Bool
equals none n = false
equals (some m) n = m == n

unfoldable pub get_policies_for_scope : Db → ℕ → Scope → ℕ → List PolicyRow
get_policies_for_scope db org_id scope target_id =
    select
      (λ p.
        p.org_id == org_id
        && (same_scope p.scope scope && (equals p.scope_target_id target_id && is_active p.status)))
      db.policies

-- The rows of the join that are kept.
unfoldable pub explicit_policies : ℕ → List PolicyRow → List PolicyAssignment → List PolicyRow
explicit_policies blob_id policies [] = []
explicit_policies blob_id policies (a ∷ rows) =
    let rest = explicit_policies blob_id policies rows in
    if a.blob_registration_id == blob_id
    then select (λ p. p.id == a.policy_id && is_active p.status) policies ++ rest
    else rest

abbrev pub first_row : List PolicyRow → Option PolicyRow
first_row [] = none
first_row (p ∷ _) = some p

unfoldable pub find_explicit_blob_assignment : Db → ℕ → Option PolicyRow
unfolding explicit_policies newer sort_by
find_explicit_blob_assignment db blob_id =
    first_row (sort_by newer (explicit_policies blob_id db.policies db.policy_assignments))

-- The loop over the rules; a rule of which no field can be read ends it.
tags_of_rules : List Rule → List ℕ
tags_of_rules [] = []
tags_of_rules (null_rule ∷ rules) = []
tags_of_rules (rule tag_field (array tags) ∷ rules) = tags
tags_of_rules (rule tag_field other_value ∷ rules) = tags_of_rules rules
tags_of_rules (rule other_field _ ∷ rules) = tags_of_rules rules

unfoldable pub extract_policy_tags : PolicyRow → List ℕ
unfolding tags_of_rules
extract_policy_tags policy = elim policy.rules [ none ↦ [] | some rules ↦ tags_of_rules rules ]

-- `policyTags.filter((t) => tags.includes(t)).length`.
unfoldable pub match_count : List ℕ → PolicyRow → ℕ
unfolding extract_policy_tags
match_count tags policy = length (select (λ t. any (λ s. s == t) tags) (extract_policy_tags policy))

unfoldable pub narrower : List ℕ → PolicyRow → PolicyRow → Bool
unfolding newer match_count
narrower tags a b =
    if match_count tags b == match_count tags a
    then newer a b
    else ltb (match_count tags b) (match_count tags a)

-- The active tag policies that share a tag.
unfoldable pub matching : Db → ℕ → List ℕ → List PolicyRow
unfolding match_count
matching db org_id tags =
    select
      (λ p.
        p.org_id == org_id
        && (same_scope p.scope Scope.tag && (is_active p.status && ltb 0 (match_count tags p))))
      db.policies

abbrev pub resolved_first : List PolicyRow → List Step → Option ResolvedPolicy
resolved_first [] path = none
resolved_first (p ∷ _) path = some (to_resolved_policy p path)

unfoldable pub resolve_tag_policies_by_tags : Db → ℕ → List ℕ → Option ResolvedPolicy
unfolding to_resolved_policy matching narrower sort_by
resolve_tag_policies_by_tags db org_id tags =
    resolved_first (sort_by (narrower tags) (matching db org_id tags)) (at_tag ∷ [])

-- `resolveTagPolicies`, and the same guard of `resolveFromScope`.
unfoldable pub resolve_tag_policies : Db → ℕ → List ℕ → Option ResolvedPolicy
unfolding resolve_tag_policies_by_tags
resolve_tag_policies db org_id [] = none
resolve_tag_policies db org_id (t ∷ tags) = resolve_tag_policies_by_tags db org_id (t ∷ tags)

-- `if (policies.length > 0) return this.resolveWithinScope(...)`, and what follows it.
abbrev pub or_next : List PolicyRow → List Step → ResolvedPolicy → ResolvedPolicy
or_next [] path next = next
or_next (p ∷ ps) path next = resolve_within_scope (p ∷ ps) path

abbrev pub wallet_policies : Db → ℕ → Option ℕ → List PolicyRow
wallet_policies db org_id none = []
wallet_policies db org_id (some w) = get_policies_for_scope db org_id Scope.wallet w

-- Project, then organization, then the default.
unfoldable pub resolve_project : Db → ℕ → ℕ → ResolvedPolicy
unfolding resolve_within_scope get_policies_for_scope
resolve_project db org_id project_id =
    or_next (get_policies_for_scope db org_id Scope.project project_id) (at_project ∷ []) (
      or_next (get_policies_for_scope db org_id Scope.organization org_id) (at_organization ∷ [])
        system_default_policy)

unfoldable pub resolve_from_scope : Db → ℕ → ℕ → Option ℕ → List ℕ → ResolvedPolicy
unfolding resolve_tag_policies resolve_project resolve_within_scope get_policies_for_scope
resolve_from_scope db org_id project_id wallet_id tags =
    or_else (resolve_tag_policies db org_id tags) (
      or_next (wallet_policies db org_id wallet_id) (at_wallet ∷ [])
        (resolve_project db org_id project_id))

-- `if (explicitAssignment) return ...`, and what follows it.
abbrev pub explicit_or : Option PolicyRow → ResolvedPolicy → ResolvedPolicy
explicit_or none next = next
explicit_or (some p) next = to_resolved_policy p (at_blob ∷ at_explicit ∷ [])

-- `resolveEffectivePolicy` of a blob that was found; the source writes the rest of the chain out again.
unfoldable pub resolve_blob : Db → BlobRegistration → ResolvedPolicy
unfolding find_explicit_blob_assignment to_resolved_policy resolve_within_scope
    get_policies_for_scope resolve_tag_policies resolve_project
resolve_blob db blob = explicit_or (find_explicit_blob_assignment db blob.id) (
    or_next (get_policies_for_scope db blob.org_id Scope.blob blob.id) (at_blob ∷ at_scope ∷ []) (
      or_else (resolve_tag_policies db blob.org_id blob.tags) (
        or_next (wallet_policies db blob.org_id blob.wallet_id) (at_wallet ∷ [])
          (resolve_project db blob.org_id blob.project_id))))

unfoldable pub find_blob : ℕ → List BlobRegistration → Option BlobRegistration
find_blob id [] = none
find_blob id (b ∷ bs) = if b.id == id then some b else find_blob id bs

abbrev pub resolve_found : Db → Option BlobRegistration → Option ResolvedPolicy
resolve_found db none = none
resolve_found db (some blob) = some (resolve_blob db blob)

-- `none` is the error `Blob ... not found`.
unfoldable pub resolve_effective_policy : Db → ℕ → Option ResolvedPolicy
unfolding find_blob resolve_blob
resolve_effective_policy db blob_id = resolve_found db (find_blob blob_id db.blob_registrations)
