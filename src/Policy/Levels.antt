-- ===== src/Policy/Levels.antt =====
-- The scopes of a blob as a specification of `resolveEffectivePolicy` sees them: which policies each has,
-- which of them is the best, and the path that is reported.
use walwatch.Prelude.{ℕ, ◌≡◌, refl, ◌⊎◌, List, [], ◌∷◌, ◌++◌, Option, none, some}
use walwatch.Policy.{
  Scope, PolicyRow, BlobRegistration, Db, Step, at_blob, at_explicit, at_scope, at_tag, at_wallet,
  at_project, at_organization, at_latest, ResolvedPolicy,
}
use walwatch.Policy.Engine.{
  system_default_policy, to_resolved_policy, get_policies_for_scope, explicit_policies, matching,
  wallet_policies,
}
use walwatch.Policy.Order.{IsLater, IsNarrower, IsBest}

-- A scope as the specification sees it: its active policies, which of them wins, and the path that is
-- reported where there is one of them, and where there are more.
pub record Level : Type 1 where
  pub policies : List PolicyRow
  pub Better : PolicyRow → PolicyRow → Type 0
  pub path : List Step
  pub path_latest : List Step

abbrev pub path_of : Level → List PolicyRow → List Step
path_of l (_ ∷ _ ∷ _) = l.path_latest
path_of l _ = l.path

-- Where one path is reported in both cases, it is that path.
pub one_path : (l : Level) → l.path_latest ≡ l.path → (ps : List PolicyRow) → path_of l ps ≡ l.path
one_path l e [] = refl
one_path l e (p ∷ []) = refl
one_path l e (p ∷ q ∷ ps) = e

-- The winner of the first level with a policy, or the default.
abbrev pub ResolvesTo : List Level → ResolvedPolicy → Type 0
ResolvesTo [] r = r ≡ system_default_policy
ResolvesTo (l ∷ ls) r =
    ((l.policies ≡ []) × ResolvesTo ls r)
    ⊎ ((w : PolicyRow) × IsBest l.Better l.policies w
        × (r ≡ to_resolved_policy w (path_of l l.policies)))

abbrev pub plain : List PolicyRow → List Step → Level
plain policies path = record {
  policies = policies;
  Better = IsLater;
  path = path;
  path_latest = path ++ (at_latest ∷ []);
}

-- No tags match no policy, so a blob without tags has none here.
abbrev pub tag_level : Db → ℕ → List ℕ → Level
tag_level db org_id [] = record {
  policies = [];
  Better = IsLater;
  path = at_tag ∷ [];
  path_latest = at_tag ∷ [];
}
tag_level db org_id (t ∷ tags) = record {
  policies = matching db org_id (t ∷ tags);
  Better = IsNarrower (t ∷ tags);
  path = at_tag ∷ [];
  path_latest = at_tag ∷ [];
}

abbrev pub project_levels : Db → ℕ → ℕ → List Level
project_levels db org_id project_id =
    plain (get_policies_for_scope db org_id Scope.project project_id) (at_project ∷ [])
    ∷ plain (get_policies_for_scope db org_id Scope.organization org_id) (at_organization ∷ [])
    ∷ []

abbrev pub broad_levels : Db → ℕ → ℕ → Option ℕ → List ℕ → List Level
broad_levels db org_id project_id wallet_id tags =
    tag_level db org_id tags
    ∷ plain (wallet_policies db org_id wallet_id) (at_wallet ∷ [])
    ∷ project_levels db org_id project_id

abbrev pub explicit_level : Db → BlobRegistration → Level
explicit_level db blob = record {
  policies = explicit_policies blob.id db.policies db.policy_assignments;
  Better = IsLater;
  path = at_blob ∷ at_explicit ∷ [];
  path_latest = at_blob ∷ at_explicit ∷ [];
}

-- Explicit assignments, the blob's own scope, its tags, its wallet, its project, its organization.
abbrev pub levels : Db → BlobRegistration → List Level
levels db blob =
    explicit_level db blob
    ∷ plain (get_policies_for_scope db blob.org_id Scope.blob blob.id) (at_blob ∷ at_scope ∷ [])
    ∷ broad_levels db blob.org_id blob.project_id blob.wallet_id blob.tags

-- What `resolveEffectivePolicy` does, by the blob.
abbrev pub Resolution : Db → Option BlobRegistration → Option ResolvedPolicy → Type 0
Resolution db none result = result ≡ none
Resolution db (some blob) result =
    (r : ResolvedPolicy) × (result ≡ some r) × ResolvesTo (levels db blob) r
