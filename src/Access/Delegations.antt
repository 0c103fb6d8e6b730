-- ===== src/Access/Delegations.antt =====
-- api/src/lib/delegation.ts: creating, revoking and checking a delegation, and the record of its use. A
-- clock reading is a number, and so are identifiers, addresses and amounts; a scope is a text. The
-- events that are emitted are a list.
use walwatch.Prelude.{
  ℕ, ltb, ◌==◌, codes, same_text, Bool, true, false, ◌&&◌, List, [], ◌∷◌, ◌++◌, Option, none, some,
  if◌then◌else◌,
}
use walwatch.Retry.{Outcome, returns, throws}

-- A row of `delegations`.
pub record Delegation : Type 0 where
  pub id : ℕ
  pub org_id : ℕ
  pub wallet_id : ℕ
  pub delegate_address : ℕ
  pub scope : List ℕ
  pub scope_targets : List ℕ
  pub spend_ceiling : ℕ
  pub time_bound_start : ℕ
  pub time_bound_end : Option ℕ
  pub is_revoked : Bool
  pub revoked_at : Option ℕ

pub data DelegationEvent : Type 0 where
  delegation_granted delegation_revoked : ℕ → ℕ → DelegationEvent
  delegation_used : ℕ → ℕ → ℕ → DelegationEvent

pub record Store : Type 0 where
  pub delegations : List Delegation
  pub events : List DelegationEvent

pub record NewDelegation : Type 0 where
  pub org_id : ℕ
  pub wallet_id : ℕ
  pub delegate_address : ℕ
  pub scope : List ℕ
  pub scope_targets : Option (List ℕ)
  pub spend_ceiling : Option ℕ
  pub time_bound_end : Option ℕ

abbrev or_default : {A : Type 0} → A → Option A → A
or_default d none = d
or_default d (some a) = a

abbrev new_row : ℕ → ℕ → NewDelegation → Delegation
new_row id now p = record {
  id = id;
  org_id = p.org_id;
  wallet_id = p.wallet_id;
  delegate_address = p.delegate_address;
  scope = p.scope;
  scope_targets = or_default [] p.scope_targets;
  spend_ceiling = or_default 0 p.spend_ceiling;
  time_bound_start = now;
  time_bound_end = p.time_bound_end;
  is_revoked = false;
  revoked_at = none;
}

-- `createDelegation`, with the identifier and the time that the database gives the row.
unfoldable pub create_delegation : ℕ → ℕ → NewDelegation → Store → Store × Delegation
create_delegation id now p s = (
  record {
    delegations = s.delegations ++ (new_row id now p ∷ []);
    events = s.events ++ (delegation_granted p.org_id id ∷ []);
  },
  new_row id now p,
)

abbrev pub is_row : ℕ → ℕ → Delegation → Bool
is_row id org d = d.id == id && d.org_id == org

abbrev pub revoked : ℕ → Delegation → Delegation
revoked now d = record d { is_revoked = true; revoked_at = some now }

abbrev pub revoke_rows : ℕ → ℕ → ℕ → List Delegation → List Delegation
revoke_rows now id org [] = []
revoke_rows now id org (d ∷ ds) =
    (if is_row id org d then revoked now d else d) ∷ revoke_rows now id org ds

abbrev pub find_row : ℕ → ℕ → List Delegation → Option Delegation
find_row id org [] = none
find_row id org (d ∷ ds) = let rest = find_row id org ds in if is_row id org d then some d else rest

abbrev revoked_event : ℕ → Option Delegation → List DelegationEvent
revoked_event org none = []
revoked_event org (some d) = delegation_revoked org d.id ∷ []

-- `revokeDelegation`.
unfoldable pub revoke_delegation : ℕ → ℕ → ℕ → Store → Store
revoke_delegation now id org s = record {
  delegations = revoke_rows now id org s.delegations;
  events = s.events ++ revoked_event org (find_row id org s.delegations);
}

-- `row.timeBoundEnd && new Date(row.timeBoundEnd) < new Date()`.
abbrev pub is_expired : ℕ → Option ℕ → Bool
is_expired now none = false
is_expired now (some t) = ltb t now

abbrev pub covers : List ℕ → List ℕ → Bool
covers scope action =
    if same_text scope (codes "all")
    then true
    else if same_text scope (codes "blob_ids") && same_text action (codes "renew")
    then true
    else if same_text scope (codes "policy") && same_text action (codes "policy_execute")
    then true
    else same_text scope action

abbrev pub is_valid : ℕ → List ℕ → Option Delegation → Bool
is_valid now action none = false
is_valid now action (some d) =
    if d.is_revoked
    then false
    else if is_expired now d.time_bound_end
    then false
    else covers d.scope action

-- `checkDelegationValidity`.
unfoldable pub check_delegation_validity : ℕ → ℕ → ℕ → List ℕ → Store → Bool
check_delegation_validity now id org action s = is_valid now action (find_row id org s.delegations)

abbrev pub find_id : ℕ → List Delegation → Option Delegation
find_id id [] = none
find_id id (d ∷ ds) = let rest = find_id id ds in if d.id == id then some d else rest

-- The error of `recordDelegationUsage`, with the ceiling.
pub data UsageError : Type 0 where
  spend_ceiling_exceeded : ℕ → ℕ → UsageError

abbrev pub use_row : ℕ → Store → Option Delegation → Outcome UsageError Store
use_row cost s none = returns s
use_row cost s (some d) =
    if ltb 0 d.spend_ceiling && ltb d.spend_ceiling cost
    then throws (spend_ceiling_exceeded d.id d.spend_ceiling)
    else returns (record s { events = s.events ++ (delegation_used d.org_id d.id cost ∷ []) })

-- `recordDelegationUsage`.
unfoldable pub record_delegation_usage : ℕ → ℕ → Store → Outcome UsageError Store
record_delegation_usage id cost s = use_row cost s (find_id id s.delegations)
