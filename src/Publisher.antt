-- ===== src/Publisher.antt =====
-- keeper/src/publisher-selector.ts: the publisher of a renewal, from the tables of publishers and of
-- their assignments to projects. Identifiers and names are numbers; a heartbeat later than now counts
-- as recent.
pub mod Health
mod Examples
use walwatch.Prelude.{
  ℕ, ◌+◌, ltb, leb, ◌==◌, Bool, true, false, not, ◌&&◌, ◌||◌, List, [], ◌∷◌, ◌++◌, Option, none,
  some, select, sort_by, if◌then◌else◌,
}

pub data PublisherStatus : Type 0 where
  active degraded other : PublisherStatus

pub record PublisherRow : Type 0 where
  pub id : ℕ
  pub org_id : ℕ
  pub name : ℕ
  pub endpoint : Option ℕ
  pub wallet_address : Option ℕ
  pub sui_vault_id : Option ℕ
  pub status : PublisherStatus
  pub last_heartbeat_at : Option ℕ
  pub is_deleted : Bool

-- A row of `project_publishers`.
pub record Assignment : Type 0 where
  pub project_id : ℕ
  pub publisher_id : ℕ
  pub is_active : Bool
  pub priority : ℕ

pub record Db : Type 0 where
  pub publishers : List PublisherRow
  pub project_publishers : List Assignment

-- `PublisherInfo`: the fields of the publisher, and the priority.
pub record PublisherInfo : Type 0 where
  pub publisher : PublisherRow
  pub priority : ℕ

-- `status IN ('active', 'degraded')`.
abbrev pub is_listed : PublisherStatus → Bool
is_listed active = true
is_listed degraded = true
is_listed other = false

abbrev pub is_degraded : PublisherStatus → Bool
is_degraded degraded = true
is_degraded _ = false

abbrev heartbeat : Option ℕ → ℕ
heartbeat none = 0
heartbeat (some t) = t

-- `isPublisherHealthy`: not degraded, and `now - lastHb < STALE_HEARTBEAT_MS`.
abbrev pub is_healthy : ℕ → ℕ → PublisherRow → Bool
is_healthy stale now p =
    not (is_degraded p.status) && ltb now (heartbeat p.last_heartbeat_at + stale)

-- The join of one assignment with the publishers.
abbrev join_publishers : Assignment → List PublisherRow → List PublisherInfo
join_publishers a [] = []
join_publishers a (p ∷ ps) =
    let rest = join_publishers a ps in
    if p.id == a.publisher_id && is_listed p.status
    then record { publisher = p; priority = a.priority } ∷ rest
    else rest

abbrev pub join_all : ℕ → List PublisherRow → List Assignment → List PublisherInfo
join_all project ps [] = []
join_all project ps (a ∷ as') =
    let rest = join_all project ps as' in
    if a.project_id == project && a.is_active then join_publishers a ps ++ rest else rest

-- `ORDER BY pp.priority ASC`.
abbrev pub by_priority : PublisherInfo → PublisherInfo → Bool
by_priority a b = leb a.priority b.priority

-- The rows that are assigned to a project, in their order.
unfoldable pub assigned : Db → ℕ → List PublisherInfo
assigned db project = sort_by by_priority (join_all project db.publishers db.project_publishers)

-- `assigned.find(row => row.priority === publisherPriorityOverride)`.
abbrev pub find_priority : ℕ → List PublisherInfo → Option PublisherInfo
find_priority n [] = none
find_priority n (r ∷ rs) = let rest = find_priority n rs in if r.priority == n then some r else rest

module _ (stale now : ℕ) where
  -- The loop over the rows.
  abbrev pub first_healthy : List PublisherInfo → Option PublisherInfo
  first_healthy [] = none
  first_healthy (r ∷ rs) =
      let rest = first_healthy rs in if is_healthy stale now r.publisher then some r else rest

  abbrev pub or_first : List PublisherInfo → Option PublisherInfo → Option PublisherInfo
  or_first rows none = first_healthy rows
  or_first rows (some r) = if is_healthy stale now r.publisher then some r else first_healthy rows

  abbrev pub choose : List PublisherInfo → Option ℕ → Option PublisherInfo
  choose rows none = first_healthy rows
  choose rows (some n) = or_first rows (find_priority n rows)

  -- `selectPublisherForProject`.
  unfoldable pub select_publisher_for_project : Db → ℕ → Option ℕ → Option PublisherInfo
  select_publisher_for_project db project override = choose (assigned db project) override

  -- `ORDER BY last_heartbeat_at DESC NULLS LAST`.
  abbrev pub later_heartbeat : PublisherRow → PublisherRow → Bool
  later_heartbeat p q = elim q.last_heartbeat_at [
    | none ↦ true
    | some t ↦ elim p.last_heartbeat_at [ none ↦ false | some s ↦ leb t s ]
  ]

  abbrev pub of_org : ℕ → PublisherRow → Bool
  of_org org p = p.org_id == org && is_listed p.status && not p.is_deleted

  abbrev pub check_first : List PublisherRow → Option PublisherInfo
  check_first [] = none
  check_first (p ∷ ps) =
      if is_healthy stale now p then some (record { publisher = p; priority = 0 }) else none

  -- `selectPublisherForOrg`.
  unfoldable pub select_publisher_for_org : Db → ℕ → Option PublisherInfo
  select_publisher_for_org db org =
      check_first (sort_by later_heartbeat (select (of_org org) db.publishers))

  abbrev pub or_org : Db → ℕ → Option PublisherInfo → Option PublisherInfo
  or_org db org none = select_publisher_for_org db org
  or_org db org (some r) = some r

  -- `resolvePublisher`.
  unfoldable pub resolve_publisher : Db → Option ℕ → ℕ → Option ℕ → Option PublisherInfo
  resolve_publisher db none org override = select_publisher_for_org db org
  resolve_publisher db (some project) org override =
      or_org db org (select_publisher_for_project db project override)
