-- ===== src/Renewal.antt =====
-- The keeper's renewals: which vaults are due (`Renewal.Scanner`, keeper/src/scanner.ts), the events of
-- a transaction (`Renewal.Events`), the search for the fee object with its cache (`Renewal.FeeConfig`)
-- and the attempts of a renewal (`Renewal.Executor`), all three of keeper/src/executor.ts. Identifiers
-- and addresses are texts, digests are numbers.
pub mod Events
pub mod FeeConfig
pub mod Cached
pub mod Executor
pub mod Attempts
pub mod Outcomes
pub mod Effort
pub mod MoveValue
pub mod Scanner
pub mod Paging
pub mod Due
mod Examples
use walwatch.Prelude.{ℕ, Bool, Option, List}

-- `DueVault`; `objectId` is `id`.
pub record DueVault : Type 0 where
  pub id : List ℕ
  pub beneficiary : List ℕ
  pub blob_id : List ℕ
  pub wal_balance : ℕ
  pub renew_threshold_epochs : ℕ
  pub renew_by_epochs : ℕ
  pub max_total_epochs : Option ℕ
  pub active : Bool
  pub current_end_epoch : ℕ

pub data AlertType : Type 0 where
  renewal_executed : ℕ → ℕ → AlertType
  insufficient_balance : ℕ → ℕ → AlertType
  policy_exhausted : Option ℕ → AlertType

-- `AlertEvent`: the type with its own fields, and the fields of all of them.
pub record AlertEvent : Type 0 where
  pub type_of : AlertType
  pub vault_id : List ℕ
  pub blob_id : List ℕ
  pub beneficiary : List ℕ
  pub timestamp : ℕ

-- The digest `(previously committed)` is `none`.
pub record RenewalResult : Type 0 where
  pub vault_id : List ℕ
  pub digest : Option ℕ
  pub gas_used : ℕ
  pub alerts : List AlertEvent
