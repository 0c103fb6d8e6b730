-- ===== src/Renewal/Scanner.antt =====
-- keeper/src/scanner.ts: `queryAllVaults`, `findDueVaultsPrimary`, `findDueVaultsFromEvents` and
-- `findDueVaults`. What the endpoints answer is given: a page for each cursor and page size, the epoch,
-- and the events. A result of the loop is `none` if the fuel, a number of pages, does not suffice.
use walwatch.Prelude.{
  ℕ, zero, suc, ◌+◌, ◌-◌, min, ltb, leb, Bool, true, false, ◌&&◌, List, [], ◌∷◌, ◌++◌, Option, none,
  some, length, select, if◌then◌else◌,
}
use walwatch.Retry.{Outcome, returns, throws}
use walwatch.Renewal.{DueVault}
use walwatch.Renewal.Events.{and_then}
use walwatch.Renewal.MoveValue.{ObjectData, parse_vault_object}

-- `PaginatedObjectsResponse`; a cursor is a number, and `null` is `none`.
pub record Page : Type 0 where
  pub objects : List (Option ObjectData)
  pub has_next_page : Bool
  pub next_cursor : Option ℕ

abbrev pub keep_parsed : Option DueVault → List DueVault → List DueVault
keep_parsed none vaults = vaults
keep_parsed (some v) vaults = v ∷ vaults

-- The vaults among the objects.
abbrev pub parse_all : List (Option ObjectData) → List DueVault
parse_all [] = []
parse_all (o ∷ os) = keep_parsed (parse_vault_object o) (parse_all os)

-- `currentEpoch + vault.renewThresholdEpochs >= vault.currentEndEpoch`.
abbrev pub in_threshold : ℕ → DueVault → Bool
in_threshold epoch v = leb v.current_end_epoch (epoch + v.renew_threshold_epochs)

module _ {E : Type 0} (page : Option ℕ → ℕ → Outcome E Page) (max_vaults : ℕ) where
  -- The body of the loop, after the response.
  abbrev pub after_page :
      (Option ℕ → Bool → List DueVault → Option (Outcome E (List DueVault)))
      → List DueVault
      → Outcome E Page
      → Option (Outcome E (List DueVault))
  after_page next vaults (throws e) = some (throws e)
  after_page next vaults (returns p) =
      next p.next_cursor p.has_next_page (vaults ++ parse_all p.objects)

  abbrev pub goes_on : Bool → List DueVault → Bool
  goes_on has_more vaults = has_more && ltb (length vaults) max_vaults

  unfoldable pub query_loop :
      ℕ → Option ℕ → Bool → List DueVault → Option (Outcome E (List DueVault))
  query_loop zero cursor has_more vaults = none
  query_loop (suc fuel) cursor has_more vaults =
      let rest =
        after_page (λ c h vs. query_loop fuel c h vs) vaults
          (page cursor (min 50 (max_vaults - length vaults))) in
      if goes_on has_more vaults then rest else some (returns vaults)

  -- `queryAllVaults`, with whether the package is set.
  unfoldable pub query_all_vaults : ℕ → Bool → Option (Outcome E (List DueVault))
  query_all_vaults fuel false = some (returns [])
  query_all_vaults fuel true = query_loop fuel none true []

-- The loop over the vaults, with those that were found: it stops after one that is active, once there
-- are as many as may be.
module _ (max_vaults epoch : ℕ) where
  abbrev pub found : DueVault → List DueVault → List DueVault
  found v due = if in_threshold epoch v then due ++ (v ∷ []) else due

  abbrev pub due_loop : List DueVault → List DueVault → List DueVault
  due_loop [] due = due
  due_loop (v ∷ vs) due =
      let skipped = due_loop vs due in
      let rest = due_loop vs (found v due) in
      if v.active
      then if leb max_vaults (length (found v due)) then found v due else rest
      else skipped

abbrev pub of_vaults : {E : Type 0} → ℕ → Outcome E ℕ → List DueVault → Outcome E (List DueVault)
of_vaults max_vaults epoch vaults =
    and_then epoch λ now. returns (due_loop max_vaults now vaults [])

-- `findDueVaultsPrimary`: if both requests fail, the error of the first that did is thrown; here that
-- is the one of the vaults.
unfoldable pub find_due_vaults_primary :
    {E : Type 0} → ℕ → Outcome E ℕ → Outcome E (List DueVault) → Outcome E (List DueVault)
find_due_vaults_primary max_vaults epoch vaults =
    and_then vaults λ all_vaults. of_vaults max_vaults epoch all_vaults

-- `fetchVaultsByIds`: an error is logged, and no vault found.
unfoldable pub fetch_vaults_by_ids :
    {E : Type 0}
    → (List (List ℕ) → Outcome E (List (Option ObjectData)))
    → List (List ℕ)
    → List DueVault
fetch_vaults_by_ids objects [] = []
fetch_vaults_by_ids objects (id ∷ ids) = elim (objects (id ∷ ids)) [
  | returns os ↦ parse_all os
  | throws e ↦ []
]

-- `findVaultByObjectId`.
unfoldable find_vault_by_object_id :
    {E : Type 0} → (List (List ℕ) → Outcome E (List (Option ObjectData))) → List ℕ → Option DueVault
find_vault_by_object_id objects id = elim (fetch_vaults_by_ids objects (id ∷ [])) [
  | [] ↦ none
  | v ∷ vs ↦ some v
]

-- The identifiers that the events have; an empty one is left out.
abbrev pub event_ids : List (Option (List ℕ)) → List (List ℕ)
event_ids [] = []
event_ids (none ∷ es) = event_ids es
event_ids (some [] ∷ es) = event_ids es
event_ids (some (c ∷ id) ∷ es) = (c ∷ id) ∷ event_ids es

abbrev pub due_at : ℕ → List DueVault → List DueVault
due_at epoch vaults = select (λ v. v.active && in_threshold epoch v) vaults

module _ {E : Type 0} (objects : List (List ℕ) → Outcome E (List (Option ObjectData)))
    (epoch : Outcome E ℕ) where
  abbrev pub of_events : List (Option (List ℕ)) → List DueVault
  of_events [] = []
  of_events (e ∷ es) = elim epoch [
    | returns now ↦ due_at now (fetch_vaults_by_ids objects (event_ids (e ∷ es)))
    | throws x ↦ []
  ]

  -- `findDueVaultsFromEvents`, with whether the package is set: every error gives no vaults.
  unfoldable pub find_due_vaults_from_events :
      Bool → Outcome E (List (Option (List ℕ))) → List DueVault
  find_due_vaults_from_events false events = []
  find_due_vaults_from_events true (throws e) = []
  find_due_vaults_from_events true (returns es) = of_events es

-- `findDueVaults`: the vaults of the primary path, or, if it fails and the fallback is enabled, those of
-- the events; the fallback itself throws nothing.
unfoldable pub find_due_vaults :
    {E : Type 0} → Bool → Outcome E (List DueVault) → List DueVault → Outcome E (List DueVault)
find_due_vaults enable_event_fallback (returns due) from_events = returns due
find_due_vaults false (throws e) from_events = throws e
find_due_vaults true (throws e) from_events = returns from_events
