-- ===== src/Access/Revoked.antt =====
-- What becomes of a delegation that was revoked.
use mathlib.Core.Option.{some-injective}
use walwatch.Prelude.{
  ℕ, ◌≡◌, refl, sym, ap, ◌∙◌, Bool, true, false, List, [], ◌∷◌, ◌++◌, Option, none, some, arith,
  Bool-cases, inl, inr, if◌then◌else◌,
}
use walwatch.Retry.{Outcome, returns, throws}
use walwatch.Access.Delegations.{
  Delegation, NewDelegation, Store, UsageError, is_row, revoked, revoke_rows, find_row, is_valid,
  find_id, use_row, create_delegation, revoke_delegation, check_delegation_validity,
  record_delegation_usage,
}

-- A call of one of the operations; the record of a use that throws changes nothing.
pub data Operation : Type 0 where
  create : ℕ → ℕ → NewDelegation → Operation
  revoke : ℕ → ℕ → ℕ → Operation
  record_usage : ℕ → ℕ → Operation

abbrev store_or : Store → Outcome UsageError Store → Store
store_or s (returns t) = t
store_or s (throws e) = s

unfoldable pub perform : Operation → Store → Store
perform (create id now p) s = (create_delegation id now p s).0
perform (revoke now id org) s = revoke_delegation now id org s
perform (record_usage id cost) s = store_or s (record_delegation_usage id cost s)

unfoldable pub perform_all : List Operation → Store → Store
perform_all [] s = s
perform_all (o ∷ os) s = perform_all os (perform o s)

-- The delegation that the check reads is revoked.
abbrev pub IsRevoked : ℕ → ℕ → Store → Type 0
IsRevoked id org s =
    (d : Delegation) × (find_row id org s.delegations ≡ some d) × (d.is_revoked ≡ true)

find_row-append :
    (id org : ℕ) (ds es : List Delegation) (d : Delegation)
    → find_row id org ds ≡ some d
    → find_row id org (ds ++ es) ≡ some d
find_row-append id org [] es d h = absurd (cc h)
find_row-append id org (x ∷ ds) es d h = ground (arith, find_row-append id org ds es d)

-- What revoking makes of a row.
abbrev revoked_if : ℕ → ℕ → ℕ → Delegation → Delegation
revoked_if now j o d = if is_row j o d then revoked now d else d

is_row-revoked_if :
    (now j o id org : ℕ) (d : Delegation) → is_row id org (revoked_if now j o d) ≡ is_row id org d
is_row-revoked_if now j o id org d = ground arith

find_row-head :
    (id org : ℕ) (x : Delegation) (ds : List Delegation) (b : Bool)
    → is_row id org x ≡ b
    → find_row id org (x ∷ ds) ≡ (if b then some x else find_row id org ds)
find_row-head id org x ds b h = ap (λ c. if c then some x else find_row id org ds) h

same_delegation : (x d : Delegation) → some x ≡ some d → x ≡ d
same_delegation x d h = some-injective x d h

find_row-revoke_rows :
    (now j o id org : ℕ) (ds : List Delegation) (d : Delegation)
    → find_row id org ds ≡ some d
    → find_row id org (revoke_rows now j o ds) ≡ some (revoked_if now j o d)
find_row-revoke_rows now j o id org [] d h = absurd (cc h)
find_row-revoke_rows now j o id org (x ∷ ds) d h = elim (Bool-cases (is_row id org x)) [
  | inl here ↦
      find_row-head id org (revoked_if now j o x) (revoke_rows now j o ds) true
        (is_row-revoked_if now j o id org x ∙ here)
      ∙ ap (λ y. some (revoked_if now j o y))
          (same_delegation x d (sym (find_row-head id org x ds true here) ∙ h))
  | inr there ↦
      find_row-head id org (revoked_if now j o x) (revoke_rows now j o ds) false
        (is_row-revoked_if now j o id org x ∙ there)
      ∙ find_row-revoke_rows now j o id org ds d (sym (find_row-head id org x ds false there) ∙ h)
]

revoked_if-revoked :
    (now j o : ℕ) (d : Delegation) → d.is_revoked ≡ true → (revoked_if now j o d).is_revoked ≡ true
revoked_if-revoked now j o d h = ground arith

use_row-rows :
    (cost : ℕ) (s : Store) (o : Option Delegation)
    → (store_or s (use_row cost s o)).delegations ≡ s.delegations
use_row-rows cost s none = refl
use_row-rows cost s (some d) = ground arith

usage_rows :
    (id cost : ℕ) (s : Store)
    → (store_or s (record_delegation_usage id cost s)).delegations ≡ s.delegations
unfolding record_delegation_usage
usage_rows id cost s = use_row-rows cost s (find_id id s.delegations)

perform-IsRevoked :
    (id org : ℕ) (o : Operation) (s : Store) → IsRevoked id org s → IsRevoked id org (perform o s)
unfolding perform create_delegation revoke_delegation
perform-IsRevoked id org (create j now p) s (d, found, off) =
    (d, find_row-append id org s.delegations _ d found, off)
perform-IsRevoked id org (revoke now j o) s (d, found, off) = (
  revoked_if now j o d,
  find_row-revoke_rows now j o id org s.delegations d found,
  revoked_if-revoked now j o d off,
)
perform-IsRevoked id org (record_usage j cost) s (d, found, off) =
    (d, ap (find_row id org) (usage_rows j cost s) ∙ found, off)

perform_all-IsRevoked :
    (id org : ℕ) (os : List Operation) (s : Store)
    → IsRevoked id org s
    → IsRevoked id org (perform_all os s)
unfolding perform_all
perform_all-IsRevoked id org [] s h = h
perform_all-IsRevoked id org (o ∷ os) s h =
    perform_all-IsRevoked id org os (perform o s) (perform-IsRevoked id org o s h)

revoked-is_valid :
    (now : ℕ) (action : List ℕ) (d : Delegation)
    → d.is_revoked ≡ true
    → is_valid now action (some d) ≡ false
revoked-is_valid now action d h = ground arith

revoke-IsRevoked :
    (now id org : ℕ) (s : Store) (d : Delegation)
    → find_row id org s.delegations ≡ some d
    → is_row id org d ≡ true
    → IsRevoked id org (revoke_delegation now id org s)
unfolding revoke_delegation
revoke-IsRevoked now id org s d found same = (
  revoked_if now id org d,
  find_row-revoke_rows now id org id org s.delegations d found,
  ap (λ b. (if b then revoked now d else d).is_revoked) same,
)

find_row-is_row :
    (id org : ℕ) (ds : List Delegation) (d : Delegation)
    → find_row id org ds ≡ some d
    → is_row id org d ≡ true
find_row-is_row id org [] d h = absurd (cc h)
find_row-is_row id org (x ∷ ds) d h = elim (Bool-cases (is_row id org x)) [
  | inl here ↦
      ap (is_row id org) (sym (same_delegation x d (sym (find_row-head id org x ds true here) ∙ h)))
      ∙ here
  | inr there ↦ find_row-is_row id org ds d (sym (find_row-head id org x ds false there) ∙ h)
]

-- A delegation of the organization that is revoked is never valid again: whatever is created, revoked
-- and used after that, the check refuses it for every action at every time.
pub revoked_never_valid :
    (revoked_at now id org : ℕ) (action : List ℕ) (s : Store) (d : Delegation)
    (later : List Operation)
    → find_row id org s.delegations ≡ some d
    → check_delegation_validity now id org action
        (perform_all later (revoke_delegation revoked_at id org s))
      ≡ false
unfolding check_delegation_validity
revoked_never_valid revoked_at now id org action s d later found =
    let (e, there, off) =
      perform_all-IsRevoked id org later (revoke_delegation revoked_at id org s) (
        revoke-IsRevoked revoked_at id org s d found
          (find_row-is_row id org s.delegations d found)) in
    ap (is_valid now action) there ∙ revoked-is_valid now action e off
