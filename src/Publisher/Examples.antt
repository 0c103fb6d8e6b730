-- ===== src/Publisher/Examples.antt =====
-- Three publishers of a project, the first of them degraded.
use walwatch.Prelude.{ℕ, ◌≡◌, refl, true, false, [], ◌∷◌, Option, none, some, sort_by, insert_by}
use walwatch.Publisher.{
  PublisherStatus, active, degraded, PublisherRow, Assignment, PublisherInfo, Db, assigned,
  select_publisher_for_project, select_publisher_for_org, resolve_publisher,
}
use walwatch.Publisher.Health.{IsBest, candidates, select_publisher_for_project-IsBest}

abbrev publisher : ℕ → PublisherStatus → ℕ → PublisherRow
publisher id status heartbeat = record {
  id = id;
  org_id = 1;
  name = id;
  endpoint = none;
  wallet_address = none;
  sui_vault_id = none;
  status = status;
  last_heartbeat_at = some heartbeat;
  is_deleted = false;
}

abbrev assign : ℕ → ℕ → Assignment
assign id priority = record {
  project_id = 5;
  publisher_id = id;
  is_active = true;
  priority = priority;
}

abbrev db : Db
db = record {
  publishers =
      publisher 11 degraded 1000000 ∷ publisher 12 active 999000 ∷ publisher 13 active 1000 ∷ [];
  project_publishers = assign 13 1 ∷ assign 12 3 ∷ assign 11 2 ∷ [];
}

abbrev id_of : Option PublisherInfo → Option ℕ
id_of none = none
id_of (some p) = some p.publisher.id

chosen : id_of (select_publisher_for_project 300000 1000000 db 5 none) ≡ some 12
unfolding select_publisher_for_project assigned sort_by insert_by
chosen = refl

-- The organization's publisher with the latest heartbeat is degraded, so none is chosen, although one is
-- healthy.
healthy_is_hidden : id_of (resolve_publisher 300000 1000000 db none 1 none) ≡ none
unfolding resolve_publisher select_publisher_for_org sort_by insert_by
healthy_is_hidden = refl

select_publisher_for_project-IsBest_example :
    IsBest 300000 1000000 (candidates db 5) (select_publisher_for_project 300000 1000000 db 5 none)
select_publisher_for_project-IsBest_example =
    select_publisher_for_project-IsBest 300000 1000000 db 5
