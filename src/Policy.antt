-- ===== src/Policy.antt =====
-- api/src/lib/policy-engine.ts: the rows it reads, and the policy that it resolves to. Identifiers,
-- names and tags are numbers, in the order of the database; an empty identifier counts as absent.
pub mod Engine
pub mod Order
pub mod Levels
pub mod Chain
mod Examples
use walwatch.Prelude.{ℕ, Bool, List, Option}

-- The scope of a policy, and the names that only a resolved policy has.
pub data Scope : Type 0 where
  blob tag wallet project organization empty unknown default : Scope

pub data PolicyStatus : Type 0 where
  draft active paused archived : PolicyStatus

pub data RuleField : Type 0 where
  tag_field other_field : RuleField

pub data RuleValue : Type 0 where
  array : List ℕ → RuleValue
  other_value : RuleValue

-- An element of the rules: `null`, of which a field cannot be read, or an object.
pub data Rule : Type 0 where
  null_rule : Rule
  rule : RuleField → RuleValue → Rule

-- `rules` is `none` where it is not an array.
pub record PolicyRow : Type 0 where
  pub id : ℕ
  pub org_id : ℕ
  pub name : ℕ
  pub rules : Option (List Rule)
  pub renew_threshold : ℕ
  pub renew_extension : ℕ
  pub max_total_epochs : Option ℕ
  pub auto_renewal_enabled : Option Bool
  pub active : Bool
  pub scope : Scope
  pub scope_target_id : Option ℕ
  pub budget_id : Option ℕ
  pub spending_limit_id : Option ℕ
  pub publisher_priority_override : Option ℕ
  pub max_retries : Option ℕ
  pub status : PolicyStatus
  pub created_at : Option ℕ

pub record BlobRegistration : Type 0 where
  pub id : ℕ
  pub org_id : ℕ
  pub project_id : ℕ
  pub wallet_id : Option ℕ
  pub tags : List ℕ

pub record PolicyAssignment : Type 0 where
  pub policy_id : ℕ
  pub blob_registration_id : ℕ

pub record Db : Type 0 where
  pub policies : List PolicyRow
  pub policy_assignments : List PolicyAssignment
  pub blob_registrations : List BlobRegistration

-- A step of `resolutionPath`.
pub data Step : Type 0 where
  at_blob at_explicit at_scope at_tag at_wallet at_project at_organization at_latest at_default :
      Step

pub record ResolvedPolicy : Type 0 where
  pub policy_id : Option ℕ
  pub policy_name : Option ℕ
  pub renew_threshold : ℕ
  pub renew_extension : ℕ
  pub max_total_epochs : Option ℕ
  pub auto_renewal_enabled : Bool
  pub budget_id : Option ℕ
  pub spending_limit_id : Option ℕ
  pub publisher_priority_override : Option ℕ
  pub max_retries : ℕ
  pub scope : Scope
  pub resolution_path : List Step
