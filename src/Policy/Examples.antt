-- ===== src/Policy/Examples.antt =====
-- Policies on a concrete database, and the theorems at it.
use walwatch.Prelude.{ℕ, ◌≡◌, refl, true, List, [], ◌∷◌, none, some}
use walwatch.Policy.{
  Scope, PolicyStatus, PolicyRow, BlobRegistration, Db, rule, tag_field, array, at_tag, at_project,
  at_latest,
}
use walwatch.Policy.Engine.{
  to_resolved_policy, resolve_effective_policy, resolve_from_scope, find_blob,
}
use walwatch.Policy.Levels.{Resolution}
use walwatch.Policy.Chain.{resolve_effective_policy-ResolvesTo}

abbrev policy : ℕ → Scope → ℕ → ℕ → List ℕ → PolicyRow
policy id scope target time tags = record {
  id = id;
  org_id = 1;
  name = id;
  rules = some (rule tag_field (array tags) ∷ []);
  renew_threshold = 7;
  renew_extension = 30;
  max_total_epochs = none;
  auto_renewal_enabled = none;
  active = true;
  scope = scope;
  scope_target_id = some target;
  budget_id = none;
  spending_limit_id = none;
  publisher_priority_override = none;
  max_retries = none;
  status = PolicyStatus.active;
  created_at = some time;
}

abbrev blob : BlobRegistration
blob = record { id = 20; org_id = 1; project_id = 3; wallet_id = none; tags = 8 ∷ 9 ∷ [] }

abbrev untagged : BlobRegistration
untagged = record { id = 21; org_id = 1; project_id = 3; wallet_id = none; tags = [] }

-- A wide and a narrow tag policy, and two policies of the project, made at one time.
abbrev db : Db
db = record {
  policies =
      policy 50 Scope.tag 0 300 (8 ∷ [])
      ∷ policy 51 Scope.tag 0 200 (9 ∷ 8 ∷ [])
      ∷ policy 52 Scope.project 3 100 []
      ∷ policy 53 Scope.project 3 100 []
      ∷ [];
  policy_assignments = [];
  blob_registrations = blob ∷ untagged ∷ [];
}

narrow_wins :
    resolve_effective_policy db 20
    ≡ some (to_resolved_policy (policy 51 Scope.tag 0 200 (9 ∷ 8 ∷ [])) (at_tag ∷ []))
unfolding resolve_effective_policy resolve_from_scope
narrow_wins = refl

greater_id_wins :
    resolve_effective_policy db 21
    ≡ some (to_resolved_policy (policy 53 Scope.project 3 100 []) (at_project ∷ at_latest ∷ []))
unfolding resolve_effective_policy
greater_id_wins = refl

resolve_effective_policy-ResolvesTo_example :
    Resolution db (find_blob 20 (blob ∷ untagged ∷ [])) (resolve_effective_policy db 20)
resolve_effective_policy-ResolvesTo_example = resolve_effective_policy-ResolvesTo db 20
