-- ===== src/Renewal/Events.antt =====
-- keeper/src/executor.ts: `parseEvents`. An amount is the decimal text that the chain gives, without a
-- sign or a prefix; a field that is missing or empty is `none`.
use walwatch.Prelude.{
  ℕ, codes, same_text, is_digit, is_space, value_from, Bool, true, false, ◌||◌, List, [], ◌∷◌, ◌++◌,
  Option, none, some, all, if◌then◌else◌,
}
use walwatch.Retry.{Outcome, returns, throws}
use walwatch.Retry.Jobs.{ThrownError}
use walwatch.Renewal.{
  DueVault, AlertType, AlertEvent, renewal_executed, insufficient_balance, policy_exhausted,
}

-- An `Error` with this message.
abbrev pub error_of : List ℕ → ThrownError
error_of message = record {
  failure_class = none;
  name = codes "Error";
  is_error = true;
  is_type_error = false;
  code = none;
  message = message;
}

-- The text without the white space before and after the digits; `none` if it is not digits.
abbrev digits_of : List ℕ → Option ℕ
digits_of s = if all is_digit s then some (value_from 0 s) else none

abbrev trim_left : List ℕ → List ℕ
trim_left [] = []
trim_left (c ∷ s) = let rest = trim_left s in if is_space c then rest else c ∷ s

abbrev trim_right : List ℕ → List ℕ
trim_right [] = []
trim_right (c ∷ s) = let rest = trim_right s in if all is_space (c ∷ s) then [] else c ∷ rest

-- `Number(text)`: blank is zero, `none` is NaN.
unfoldable pub number : List ℕ → Option ℕ
number s = digits_of (trim_right (trim_left s))

-- `BigInt(text)`.
unfoldable pub big_int : List ℕ → Outcome ThrownError ℕ
big_int s = elim (number s) [
  | some n ↦ returns n
  | none ↦ throws (error_of (codes "Cannot convert " ++ (s ++ codes " to a BigInt")))
]

-- `field || '0'`.
abbrev pub or_zero : Option (List ℕ) → List ℕ
or_zero none = codes "0"
or_zero (some s) = s

-- The next step of a `try` block, unless this one throws.
abbrev pub and_then : {E A B : Type 0} → Outcome E A → (A → Outcome E B) → Outcome E B
and_then (returns a) f = f a
and_then (throws e) f = throws e

abbrev both : {E A B C : Type 0} → Outcome E A → Outcome E B → (A → B → C) → Outcome E C
both x y f = and_then x λ a. and_then y λ b. returns (f a b)

-- `parsedJson`.
pub record ParsedJson : Type 0 where
  pub blob_id : Option (List ℕ)
  pub actual_cost : Option (List ℕ)
  pub keeper_fee_paid : Option (List ℕ)
  pub required : Option (List ℕ)
  pub available : Option (List ℕ)
  pub max_total_epochs : Option (List ℕ)

pub record SuiEvent : Type 0 where
  pub type_name : List ℕ
  pub parsed_json : Option ParsedJson

abbrev ends_with : List ℕ → List ℕ → Bool
ends_with [] p = same_text [] p
ends_with (c ∷ s) p = same_text (c ∷ s) p || ends_with s p

abbrev blob_or : List ℕ → Option (List ℕ) → List ℕ
blob_or vault_blob none = vault_blob
blob_or vault_blob (some b) = b

abbrev alert : DueVault → ℕ → List ℕ → AlertType → AlertEvent
alert vault now blob t = record {
  type_of = t;
  vault_id = vault.id;
  blob_id = blob;
  beneficiary = vault.beneficiary;
  timestamp = now;
}

-- The three tests on the type of an event; the first two read amounts, which may throw.
module _ (vault : DueVault) (now : ℕ) where
  abbrev executed_alerts : List ℕ → ParsedJson → Outcome ThrownError (List AlertEvent)
  executed_alerts t parsed =
      if ends_with t (codes "::vault::RenewalExecuted")
      then both (big_int (or_zero parsed.actual_cost)) (big_int (or_zero parsed.keeper_fee_paid))
          (λ cost fee.
            alert vault now (blob_or vault.blob_id parsed.blob_id) (renewal_executed cost fee) ∷ [])
      else returns []

  abbrev balance_alerts : List ℕ → ParsedJson → Outcome ThrownError (List AlertEvent)
  balance_alerts t parsed =
      if ends_with t (codes "::vault::InsufficientBalance")
      then both (big_int (or_zero parsed.required)) (big_int (or_zero parsed.available))
          (λ required available.
            alert vault now vault.blob_id (insufficient_balance required available) ∷ [])
      else returns []

  abbrev exhausted_alerts : List ℕ → ParsedJson → List AlertEvent
  exhausted_alerts t parsed =
      if ends_with t (codes "::vault::PolicyExhausted")
      then alert vault now (blob_or vault.blob_id parsed.blob_id)
          (policy_exhausted (number (or_zero parsed.max_total_epochs)))
        ∷ []
      else []

  abbrev event_alerts : List ℕ → Option ParsedJson → Outcome ThrownError (List AlertEvent)
  event_alerts t none = returns []
  event_alerts t (some parsed) =
      and_then (executed_alerts t parsed)
        λ a. and_then (balance_alerts t parsed) λ b. returns (a ++ (b ++ exhausted_alerts t parsed))

  -- `parseEvents`.
  unfoldable pub parse_events : List SuiEvent → Outcome ThrownError (List AlertEvent)
  parse_events [] = returns []
  parse_events (event ∷ events) =
      and_then (event_alerts event.type_name event.parsed_json)
        λ alerts. and_then (parse_events events) λ more. returns (alerts ++ more)
