-- ===== src/Access/Permissions.antt =====
-- api/src/lib/permissions.ts: the capabilities of roles, and those of a user with the grants. Users,
-- organizations and projects are numbers.
use walwatch.Prelude.{
  ℕ, ◌==◌, ◌≡◌, refl, sym, ap, ◌∙◌, eq-path, Bool, true, false, ◌&&◌, ◌||◌, List, [], ◌∷◌, ◌++◌,
  Option, none, some, any, arith, if◌then◌else◌,
}

pub data Capability : Type 0 where
  manage_policies manage_budgets trigger_renewals manage_wallets : Capability
  manage_alerts manage_webhooks manage_api_keys view_audit_log : Capability

-- The roles of `ROLE_CAPABILITIES`, and any other text.
pub data Role : Type 0 where
  owner admin member viewer unknown_role : Role

abbrev pub all_capabilities : List Capability
all_capabilities =
    manage_policies ∷ manage_budgets ∷ trigger_renewals ∷ manage_wallets ∷ manage_alerts
    ∷ manage_webhooks ∷ manage_api_keys ∷ view_audit_log ∷ []

-- `getCapabilitiesForRole`.
abbrev pub get_capabilities_for_role : Role → List Capability
get_capabilities_for_role owner = all_capabilities
get_capabilities_for_role admin = all_capabilities
get_capabilities_for_role member =
    manage_policies ∷ manage_budgets ∷ trigger_renewals ∷ manage_wallets ∷ []
get_capabilities_for_role viewer = view_audit_log ∷ []
get_capabilities_for_role unknown_role = []

pub record OrgMember : Type 0 where
  pub user_id : ℕ
  pub org_id : ℕ
  pub role : Role

pub record CapabilityGrant : Type 0 where
  pub user_id : ℕ
  pub org_id : ℕ
  pub project_id : Option ℕ
  pub capability : Capability

pub record Db : Type 0 where
  pub org_members : List OrgMember
  pub capability_grants : List CapabilityGrant

abbrev pub number_of : Capability → ℕ
number_of manage_policies = 0
number_of manage_budgets = 1
number_of trigger_renewals = 2
number_of manage_wallets = 3
number_of manage_alerts = 4
number_of manage_webhooks = 5
number_of manage_api_keys = 6
number_of view_audit_log = 7

abbrev pub has : Capability → List Capability → Bool
has c cs = any (λ d. number_of d == number_of c) cs

-- `member?.role ?? 'viewer'`, of the first row.
abbrev pub org_role : ℕ → ℕ → List OrgMember → Role
org_role user org [] = viewer
org_role user org (m ∷ ms) =
    let rest = org_role user org ms in if m.user_id == user && m.org_id == org then m.role else rest

-- `projectCondition`.
abbrev pub in_project : Option ℕ → Option ℕ → Bool
in_project asked none = true
in_project none (some p) = false
in_project (some q) (some p) = p == q

abbrev pub is_granted : ℕ → ℕ → Option ℕ → CapabilityGrant → Bool
is_granted user org project g =
    g.user_id == user && g.org_id == org && in_project project g.project_id

abbrev pub granted : ℕ → ℕ → Option ℕ → List CapabilityGrant → List Capability
granted user org project [] = []
granted user org project (g ∷ gs) =
    let rest = granted user org project gs in
    if is_granted user org project g then g.capability ∷ rest else rest

-- `[...new Set(values)]`: the first of each value is kept, after those that were seen.
abbrev pub distinct : List Capability → List Capability → List Capability
distinct seen [] = []
distinct seen (c ∷ cs) =
    let rest = distinct seen cs in
    let more = distinct (c ∷ seen) cs in if has c seen then rest else c ∷ more

pub record Permissions : Type 0 where
  pub role : Role
  pub capabilities : List Capability

-- `resolveEffectivePermissions`; the role in the project is read and not used.
unfoldable pub resolve_effective_permissions : Db → ℕ → ℕ → Option ℕ → Permissions
resolve_effective_permissions db user org project =
    let role = org_role user org db.org_members in
    record {
      role = role;
      capabilities =
          distinct []
            (get_capabilities_for_role role ++ granted user org project db.capability_grants);
    }

has-append : (c : Capability) (cs ds : List Capability) → has c (cs ++ ds) ≡ (has c cs || has c ds)
has-append c [] ds = refl
has-append c (d ∷ cs) ds = ground (arith, has-append c cs ds)

has-same :
    (c d : Capability) (cs : List Capability)
    → (number_of d == number_of c) ≡ true
    → has d cs ≡ has c cs
has-same c d cs h = ap (λ n. any (λ x. number_of x == n) cs) (eq-path (number_of d) (number_of c) h)

seen_or_added :
    (same seen_c seen_d skipped added rest : Bool)
    → (skipped || seen_c) ≡ (rest || seen_c)
    → (added || (same || seen_c)) ≡ (rest || (same || seen_c))
    → (same ≡ true → seen_d ≡ seen_c)
    → ((if seen_d then skipped else (same || added)) || seen_c) ≡ ((same || rest) || seen_c)
seen_or_added same seen_c seen_d skipped added rest h g e = ground arith

has-if :
    (c d : Capability) (b : Bool) (cs ds : List Capability)
    → has c (if b then cs else d ∷ ds)
      ≡ (if b then has c cs else (number_of d == number_of c) || has c ds)
has-if c d b cs ds = ground arith

or_false : (b : Bool) → (b || false) ≡ b
or_false b = ground arith

has-distinct :
    (c : Capability) (seen cs : List Capability)
    → (has c (distinct seen cs) || has c seen) ≡ (has c cs || has c seen)
has-distinct c seen [] = refl
has-distinct c seen (d ∷ cs) =
    ap (λ b. b || has c seen) (has-if c d (has d seen) (distinct seen cs) (distinct (d ∷ seen) cs))
    ∙ seen_or_added (number_of d == number_of c) (has c seen) (has d seen) _ _ _
        (has-distinct c seen cs) (has-distinct c (d ∷ seen) cs) (has-same c d seen)

has-granted :
    (c : Capability) (user org : ℕ) (project : Option ℕ) (gs : List CapabilityGrant)
    → has c (granted user org project gs)
      ≡ any (λ g. is_granted user org project g && number_of g.capability == number_of c) gs
has-granted c user org project [] = refl
has-granted c user org project (g ∷ gs) = ground (arith, has-granted c user org project gs)

-- A user has a capability exactly if the user's role in the organization has it, a user without one being a
-- viewer, or a grant of the organization gives it, for no project or for the one that is asked for.
pub resolve_effective_permissions_lem :
    (db : Db) (user org : ℕ) (project : Option ℕ) (c : Capability)
    → has c (resolve_effective_permissions db user org project).capabilities ≡ (
        has c (get_capabilities_for_role (org_role user org db.org_members))
        || any
            (λ g. is_granted user org project g && number_of g.capability == number_of c)
            db.capability_grants)
unfolding resolve_effective_permissions
resolve_effective_permissions_lem db user org project c =
    let base = get_capabilities_for_role (org_role user org db.org_members) in
    let more = granted user org project db.capability_grants in
    sym (or_false (has c (distinct [] (base ++ more))))
    ∙ has-distinct c [] (base ++ more)
    ∙ or_false (has c (base ++ more))
    ∙ has-append c base more
    ∙ ap (λ b. has c base || b) (has-granted c user org project db.capability_grants)
