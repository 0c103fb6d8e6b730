-- ===== src/Renewal/Due.antt =====
-- Which vaults a scan finds.
use walwatch.Prelude.{
  ℕ, suc, ◌+◌, ◌≤◌, ◌<◌, leb, ◌≡◌, refl, sym, ap, ◌∙◌, Bool, true, false, ◌&&◌, List, [], ◌∷◌, ◌++◌,
  Option, some, length, if◌then◌else◌, take, arith, length-append, append_nil, append_assoc,
  length-take-le,
}
use walwatch.Retry.{Outcome, returns}
use walwatch.Renewal.{DueVault}
use walwatch.Renewal.MoveValue.{ObjectData}
use walwatch.Renewal.Scanner.{
  Page, parse_all, in_threshold, query_all_vaults, found, due_loop, find_due_vaults_primary, due_at,
}
use walwatch.Renewal.Paging.{Pages, query_all_vaults-take}

abbrev append_found : Bool → DueVault → List DueVault → List DueVault
append_found due? v vs = elim due? [ true ↦ v ∷ vs | false ↦ vs ]

-- One vault of the loop, by the three tests on it.
due_step :
    (v : DueVault) (due tail : List DueVault) (next : List DueVault → List DueVault)
    (active within full : Bool)
    → next due ≡ due ++ tail
    → (within ≡ true → next (due ++ (v ∷ [])) ≡ (due ++ (v ∷ [])) ++ tail)
    → (full ≡ true → (within ≡ true) × (tail ≡ []))
    → (if active
        then if full
          then if within then due ++ (v ∷ []) else due
          else next (if within then due ++ (v ∷ []) else due)
        else next due)
      ≡ due ++ append_found (active && within) v tail
due_step v due tail next false within full skip add stop = skip
due_step v due tail next true true true skip add stop =
    ap (λ vs. due ++ (v ∷ vs)) (sym (stop refl).1)
due_step v due tail next true false true skip add stop = absurd (cc (stop refl).0)
due_step v due tail next true true false skip add stop = add refl ∙ append_assoc due (v ∷ []) tail
due_step v due tail next true false false skip add stop = skip

not_full : (m k : ℕ) → k < m → leb m k ≡ true → ⊥
not_full m k h full = ground arith

module _ (max_vaults epoch : ℕ) where
  stops_at_end :
      (v : DueVault) (vs due : List DueVault) (within : Bool)
      → length due + suc (length vs) ≤ max_vaults
      → leb max_vaults (length (if within then due ++ (v ∷ []) else due)) ≡ true
      → (within ≡ true) × (due_at epoch vs ≡ [])
  stops_at_end v [] due true h full = (refl, refl)
  stops_at_end v (w ∷ vs) due true h full =
      absurd (not_full max_vaults _ (omega (arith, length-append due (v ∷ []))) full)
  stops_at_end v vs due false h full = absurd (not_full max_vaults _ (omega arith) full)

  due_loop-due_at :
      (vs due : List DueVault)
      → length due + length vs ≤ max_vaults
      → due_loop max_vaults epoch vs due ≡ due ++ due_at epoch vs
  due_loop-due_at [] due h = sym (append_nil due)
  due_loop-due_at (v ∷ vs) due h =
      due_step v due (due_at epoch vs) (due_loop max_vaults epoch vs) v.active
        (in_threshold epoch v) (leb max_vaults (length (found max_vaults epoch v due)))
        (due_loop-due_at vs due (omega arith))
        (λ _. due_loop-due_at vs (due ++ (v ∷ [])) (omega (arith, length-append due (v ∷ []))))
        (stops_at_end v vs due (in_threshold epoch v) h)

-- The query of all vaults ends, and a primary scan of what it gives finds these.
abbrev pub Finds :
    {E : Type 0} → (Option ℕ → ℕ → Outcome E Page) → ℕ → ℕ → ℕ → List DueVault → Type 0
Finds {E = E} page max_vaults epoch fuel due =
    (vaults : Outcome E (List DueVault)) × (query_all_vaults page max_vaults fuel true
      ≡ some vaults)
    × (find_due_vaults_primary max_vaults (returns epoch) vaults ≡ returns due)

-- A primary scan of the chain's objects ends, given at least two pages more than there are objects as
-- fuel, and it finds just the due vaults among the first `maxVaults` vaults of the chain, in order.
pub find_due_vaults_primary-due_at :
    {E : Type 0} (page : Option ℕ → ℕ → Outcome E Page) (objects : List (Option ObjectData))
    (pages : Pages page objects) (max_vaults epoch fuel : ℕ)
    → length objects + 1 < fuel
    → (vaults : Outcome E (List DueVault)) × (query_all_vaults page max_vaults fuel true
        ≡ some vaults)
      × (find_due_vaults_primary max_vaults (returns epoch) vaults
          ≡ returns (due_at epoch (take max_vaults (parse_all objects))))
unfolding find_due_vaults_primary
find_due_vaults_primary-due_at page objects pages max_vaults epoch fuel h =
    let scanned = take max_vaults (parse_all objects) in
    let due =
      due_loop-due_at max_vaults epoch scanned []
        (omega (arith, length-take-le max_vaults (parse_all objects))) in
    (
      returns scanned,
      query_all_vaults-take page objects pages max_vaults fuel h,
      ap (λ vs. returns vs) due,
    )
