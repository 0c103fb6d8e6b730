-- ===== src/Access/Effective.antt =====
-- What the capabilities of a user are.
use walwatch.Prelude.{
  ℕ, ◌==◌, ◌≡◌, refl, sym, ap, ◌∙◌, ◌⊎◌, inl, inr, Bool, true, ◌&&◌, ◌||◌, List, [], ◌∷◌, Option,
  none, some, any, Any, arith, if◌then◌else◌, ◌↔◌, eq-path, Bool-cases,
}
use walwatch.Access.Permissions.{
  Capability, manage_policies, manage_budgets, trigger_renewals, manage_wallets, manage_alerts,
  manage_webhooks, manage_api_keys, view_audit_log, Role, owner, admin, member, viewer,
  unknown_role, OrgMember, CapabilityGrant, Db, number_of, has, get_capabilities_for_role, org_role,
  is_granted, resolve_effective_permissions, resolve_effective_permissions_lem, in_project,
}

-- Owners and administrators may do everything, members four things, and viewers may see the audit log.
abbrev pub MemberMay : Capability → Type 0
MemberMay manage_policies = Unit
MemberMay manage_budgets = Unit
MemberMay trigger_renewals = Unit
MemberMay manage_wallets = Unit
MemberMay _ = ⊥

abbrev pub May : Role → Capability → Type 0
May owner c = Unit
May admin c = Unit
May member c = MemberMay c
May viewer c = c ≡ view_audit_log
May unknown_role c = ⊥

-- The role is that of the first row of the user in the organization; a user without one is a viewer.
abbrev pub IsMember : ℕ → ℕ → OrgMember → Type 0
IsMember user org m = (m.user_id ≡ user) × (m.org_id ≡ org)

abbrev pub HasRole : ℕ → ℕ → List OrgMember → Role → Type 0
HasRole user org [] r = r ≡ viewer
HasRole user org (m ∷ ms) r =
    IsMember user org m × (r ≡ m.role) ⊎ (IsMember user org m → ⊥) × HasRole user org ms r

-- The grant gives the capability to the user, for no project or for the one that is asked for.
abbrev pub Gives : ℕ → ℕ → Option ℕ → Capability → CapabilityGrant → Type 0
Gives user org project c g =
    (g.user_id ≡ user)
    × (g.org_id ≡ org)
    × ((g.project_id ≡ none) ⊎ (g.project_id ≡ project))
    × (g.capability ≡ c)

abbrev capability_of : ℕ → Capability
capability_of n =
    if n == 0
    then manage_policies
    else if n == 1
    then manage_budgets
    else if n == 2
    then trigger_renewals
    else if n == 3
    then manage_wallets
    else if n == 4
    then manage_alerts
    else if n == 5
    then manage_webhooks
    else if n == 6
    then manage_api_keys
    else view_audit_log

capability_of-number_of : (c : Capability) → capability_of (number_of c) ≡ c
capability_of-number_of manage_policies = refl
capability_of-number_of manage_budgets = refl
capability_of-number_of trigger_renewals = refl
capability_of-number_of manage_wallets = refl
capability_of-number_of manage_alerts = refl
capability_of-number_of manage_webhooks = refl
capability_of-number_of manage_api_keys = refl
capability_of-number_of view_audit_log = refl

same-path : (c d : Capability) → (number_of d == number_of c) ≡ true → d ≡ c
same-path c d h =
    sym (capability_of-number_of d)
    ∙ ap capability_of (eq-path (number_of d) (number_of c) h)
    ∙ capability_of-number_of c

same_refl : (n m : ℕ) → n ≡ m → (n == m) ≡ true
same_refl n m h = ground arith

same_iff : (c d : Capability) → ((number_of d == number_of c) ≡ true) ↔ (d ≡ c)
same_iff c d = (same-path c d, λ h. same_refl (number_of d) (number_of c) (ap number_of h))

has-Any : (c : Capability) (cs : List Capability) → (has c cs ≡ true) ↔ Any (λ d. d ≡ c) cs
has-Any c [] = ((λ bad. absurd (cc bad)), λ bad. absurd bad)
has-Any c (d ∷ cs) = ground (arith, same_iff c d, has-Any c cs)

org_role-HasRole : (user org : ℕ) (ms : List OrgMember) → HasRole user org ms (org_role user org ms)
org_role-HasRole user org [] = refl
org_role-HasRole user org (m ∷ ms) = elim (Bool-cases (m.user_id == user && m.org_id == org)) [
  | inl found ↦ rw found (inl (ground (arith, found), refl))
  | inr other ↦ rw other (inr ((λ is. ground (arith, other, is)), org_role-HasRole user org ms))
]

all-May : (c : Capability) → has c (get_capabilities_for_role owner) ≡ true
all-May manage_policies = refl
all-May manage_budgets = refl
all-May trigger_renewals = refl
all-May manage_wallets = refl
all-May manage_alerts = refl
all-May manage_webhooks = refl
all-May manage_api_keys = refl
all-May view_audit_log = refl

member-May : (c : Capability) → (has c (get_capabilities_for_role member) ≡ true) ↔ MemberMay c
member-May manage_policies = ((λ _. tt), λ _. refl)
member-May manage_budgets = ((λ _. tt), λ _. refl)
member-May trigger_renewals = ((λ _. tt), λ _. refl)
member-May manage_wallets = ((λ _. tt), λ _. refl)
member-May manage_alerts = ((λ bad. absurd (cc bad)), λ bad. absurd bad)
member-May manage_webhooks = ((λ bad. absurd (cc bad)), λ bad. absurd bad)
member-May manage_api_keys = ((λ bad. absurd (cc bad)), λ bad. absurd bad)
member-May view_audit_log = ((λ bad. absurd (cc bad)), λ bad. absurd bad)

only : (c : Capability) → (view_audit_log ≡ c) ⊎ ⊥ → c ≡ view_audit_log
only c (inl e) = sym e
only c (inr bad) = absurd bad

table-May : (r : Role) (c : Capability) → (has c (get_capabilities_for_role r) ≡ true) ↔ May r c
table-May owner c = ((λ _. tt), λ _. all-May c)
table-May admin c = ((λ _. tt), λ _. all-May c)
table-May member c = member-May c
table-May viewer c =
    let iff = has-Any c (view_audit_log ∷ []) in ((λ h. only c (iff.0 h)), λ e. iff.1 (inl (sym e)))
table-May unknown_role c = ((λ bad. absurd (cc bad)), λ bad. absurd bad)

in_project_iff :
    (project asked : Option ℕ)
    → (in_project asked project ≡ true) ↔ ((project ≡ none) ⊎ (project ≡ asked))
in_project_iff none asked = ((λ _. inl refl), λ _. refl)
in_project_iff (some p) none = ground arith
in_project_iff (some p) (some q) = ground arith

is_granted-Gives :
    (user org : ℕ) (project : Option ℕ) (c : Capability) (g : CapabilityGrant)
    → ((is_granted user org project g && number_of g.capability == number_of c) ≡ true)
      ↔ Gives user org project c g
is_granted-Gives user org project c g =
    of_tests (in_project project g.project_id) (number_of g.capability == number_of c)
      (in_project_iff g.project_id project) (same_iff c g.capability)
  where
    of_tests :
        {P Q : Type 0} (a b : Bool)
        → (a ≡ true) ↔ P
        → (b ≡ true) ↔ Q
        → (((g.user_id == user && g.org_id == org && a) && b) ≡ true)
          ↔ ((g.user_id ≡ user) × (g.org_id ≡ org) × P × Q)
    of_tests a b p q = ground (arith, p, q)

any-Gives :
    (user org : ℕ) (project : Option ℕ) (c : Capability) (gs : List CapabilityGrant)
    → (any (λ g. is_granted user org project g && number_of g.capability == number_of c) gs ≡ true)
      ↔ Any (Gives user org project c) gs
any-Gives user org project c [] = ((λ bad. absurd (cc bad)), λ bad. absurd bad)
any-Gives user org project c (g ∷ gs) =
    of_tests _ _ (is_granted-Gives user org project c g) (any-Gives user org project c gs)
  where
    of_tests :
        {P Q : Type 0} (a b : Bool) → (a ≡ true) ↔ P → (b ≡ true) ↔ Q → ((a || b) ≡ true) ↔ (P ⊎ Q)
    of_tests a b p q = ground (arith, p, q)

-- The role is that of the user's first row in the organization, a user without one being a viewer; and the
-- user has a capability exactly if the role may do it (owners and administrators everything, members
-- four things, viewers one, any other role nothing) or a grant of the organization gives it to the user,
-- for no project or for the one that is asked for.
pub resolve_effective_permissions-HasRole :
    (db : Db) (user org : ℕ) (project : Option ℕ) (c : Capability)
    → let p = resolve_effective_permissions db user org project in
      HasRole user org db.org_members p.role
      × (Any (λ d. d ≡ c) p.capabilities
          ↔ (May p.role c ⊎ Any (Gives user org project c) db.capability_grants))
unfolding resolve_effective_permissions
resolve_effective_permissions-HasRole db user org project c =
    let p = resolve_effective_permissions db user org project in
    (
      org_role-HasRole user org db.org_members,
      of_tests (has c p.capabilities) (has c (get_capabilities_for_role p.role)) _
          (resolve_effective_permissions_lem db user org project c) (has-Any c p.capabilities)
          (table-May p.role c) (any-Gives user org project c db.capability_grants),
    )
  where
    of_tests :
        {P Q R : Type 0} (a b d : Bool)
        → a ≡ (b || d)
        → (a ≡ true) ↔ P
        → (b ≡ true) ↔ Q
        → (d ≡ true) ↔ R
        → P ↔ (Q ⊎ R)
    of_tests a b d e p q r = ground (arith, e, p, q, r)
