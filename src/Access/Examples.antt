-- ===== src/Access/Examples.antt =====
-- A viewer with a grant in a project, and a delegation that is revoked.
use walwatch.Prelude.{Any, ◌↔◌, ◌⊎◌, codes, same_text, ◌≡◌, refl, true, false, [], ◌∷◌, none, some}
use walwatch.Access.Permissions.{Db, viewer, manage_budgets, has, resolve_effective_permissions}
use walwatch.Access.Effective.{HasRole, May, Gives, resolve_effective_permissions-HasRole}
use walwatch.Access.Delegations.{
  Delegation, Store, delegation_used, check_delegation_validity, revoke_delegation,
  record_delegation_usage,
}
use walwatch.Access.Revoked.{record_usage, perform_all, perform, revoked_never_valid}

abbrev db : Db
db = record {
  org_members = record { user_id = 1; org_id = 2; role = viewer } ∷ [];
  capability_grants =
      record { user_id = 1; org_id = 2; project_id = some 3; capability = manage_budgets } ∷ [];
}

granted_in_project :
    has manage_budgets (resolve_effective_permissions db 1 2 (some 3)).capabilities ≡ true
unfolding resolve_effective_permissions
granted_in_project = refl

resolve_effective_permissions-HasRole_example :
    let p = resolve_effective_permissions db 1 2 (some 3) in
    HasRole 1 2 db.org_members p.role
    × (Any (λ d. d ≡ manage_budgets) p.capabilities ↔ (
        May p.role manage_budgets ⊎ Any (Gives 1 2 (some 3) manage_budgets) db.capability_grants))
resolve_effective_permissions-HasRole_example =
    resolve_effective_permissions-HasRole db 1 2 (some 3) manage_budgets

abbrev delegation : Delegation
delegation = record {
  id = 9;
  org_id = 2;
  wallet_id = 4;
  delegate_address = 5;
  scope = codes "blob_ids";
  scope_targets = [];
  spend_ceiling = 100;
  time_bound_start = 0;
  time_bound_end = none;
  is_revoked = false;
  revoked_at = none;
}

abbrev store : Store
store = record { delegations = delegation ∷ []; events = [] }

valid_before : check_delegation_validity 50 9 2 (codes "renew") store ≡ true
unfolding check_delegation_validity same_text
valid_before = refl

-- Two uses of 60 under a ceiling of 100 are both recorded.
used_twice :
    (perform_all (record_usage 9 60 ∷ record_usage 9 60 ∷ []) store).events
    ≡ delegation_used 2 9 60 ∷ delegation_used 2 9 60 ∷ []
unfolding perform_all perform record_delegation_usage
used_twice = refl

revoked_never_valid_example :
    check_delegation_validity 70 9 2
      (codes "renew")
      (perform_all (record_usage 9 60 ∷ []) (revoke_delegation 60 9 2 store))
    ≡ false
revoked_never_valid_example =
    revoked_never_valid 60 70 9 2 (codes "renew") store delegation (record_usage 9 60 ∷ []) refl
