-- ===== src/Cost/Estimate.antt =====
-- `estimateRenewalCost`, `isEstimateFresh` and `assertEstimateFresh` of api/src/lib/cost-engine.ts. The
-- setting `MAX_ESTIMATE_STALENESS_MS` is an argument.
use walwatch.Prelude.{
  ℕ, ◌+◌, ◌*◌, ◌/◌, ◌≤◌, ◌≡◌, refl, Bool, true, false, ◌&&◌, List, [], ◌∷◌, Option, none, some, leb,
  ltb, ◌==◌, if◌then◌else◌, arith, ◌↔◌, subst,
}
use mathlib.Core.Option.{some-injective}
use walwatch.Cost.{BlobRegistration, Publisher, Db}

pub record CostEstimate : Type 0 where
  pub estimated_cost : ℕ
  pub estimated_at : ℕ
  pub is_fresh : Bool
  pub blob_size_bytes : ℕ
  pub extension_epochs : ℕ
  pub base_cost : ℕ
  pub publisher_premium : ℕ

unfoldable pub find_blob : ℕ → List BlobRegistration → Option BlobRegistration
find_blob id [] = none
find_blob id (b ∷ bs) = if b.id == id then some b else find_blob id bs

unfoldable pub find_publisher : ℕ → ℕ → List Publisher → Option Publisher
find_publisher org endpoint [] = none
find_publisher org endpoint (p ∷ ps) =
    if p.org_id == org && p.endpoint == endpoint && p.is_active
    then some p
    else find_publisher org endpoint ps

-- `Math.floor(baseCost * 0.1)`, for a publisher with a vault.
premium_of : Option Publisher → ℕ → ℕ
premium_of none base_cost = 0
premium_of (some p) base_cost = elim p.sui_vault_id [ none ↦ 0 | some _ ↦ base_cost / 10 ]

publisher_premium : Db → BlobRegistration → Option ℕ → ℕ → ℕ
unfolding find_publisher premium_of
publisher_premium db blob none base_cost = 0
publisher_premium db blob (some endpoint) base_cost =
    premium_of (find_publisher blob.org_id endpoint db.publishers) base_cost

abbrev size_or_zero : Option ℕ → ℕ
size_or_zero none = 0
size_or_zero (some n) = n

-- `Date.now() - estimatedAt <= maxStalenessMs`.
unfoldable pub is_estimate_fresh : ℕ → ℕ → ℕ → Bool
is_estimate_fresh max_staleness_ms now estimated_at = leb now (estimated_at + max_staleness_ms)

-- Whether `assertEstimateFresh` throws: `age > maxStalenessMs`.
unfoldable pub assert_estimate_fresh_throws : ℕ → ℕ → ℕ → Bool
assert_estimate_fresh_throws max_staleness_ms now estimated_at =
    ltb (estimated_at + max_staleness_ms) now

estimate_blob : Db → ℕ → ℕ → BlobRegistration → ℕ → Option ℕ → CostEstimate
unfolding publisher_premium is_estimate_fresh
estimate_blob db max_staleness_ms now blob extension_epochs endpoint =
    let size = size_or_zero blob.size_bytes in
    let base_cost = size * extension_epochs in
    let premium = publisher_premium db blob endpoint base_cost in
    record {
      estimated_cost = base_cost + premium;
      estimated_at = now;
      is_fresh = is_estimate_fresh max_staleness_ms now now;
      blob_size_bytes = size;
      extension_epochs = extension_epochs;
      base_cost = base_cost;
      publisher_premium = premium;
    }

estimate_found : Db → ℕ → ℕ → Option BlobRegistration → ℕ → Option ℕ → Option CostEstimate
unfolding estimate_blob
estimate_found db max_staleness_ms now none epochs endpoint = none
estimate_found db max_staleness_ms now (some blob) epochs endpoint =
    some (estimate_blob db max_staleness_ms now blob epochs endpoint)

-- `none` is the error `Blob registration not found`.
unfoldable pub estimate_renewal_cost : Db → ℕ → ℕ → ℕ → ℕ → Option ℕ → Option CostEstimate
unfolding find_blob estimate_found
estimate_renewal_cost db max_staleness_ms now blob_id extension_epochs publisher_endpoint =
    estimate_found db max_staleness_ms now (find_blob blob_id db.blob_registrations)
      extension_epochs publisher_endpoint

premium_of-le : (p : Option Publisher) (base : ℕ) → premium_of p base ≤ base / 10
unfolding premium_of
premium_of-le none base = omega arith
premium_of-le (some p) base = ground arith

publisher_premium-le :
    (db : Db) (blob : BlobRegistration) (e : Option ℕ) (base : ℕ)
    → publisher_premium db blob e base ≤ base / 10
unfolding publisher_premium
publisher_premium-le db blob none base = omega arith
publisher_premium-le db blob (some e) base =
    premium_of-le (find_publisher blob.org_id e db.publishers) base

estimate_blob-bounds :
    (db : Db) (max_staleness_ms now : ℕ) (blob : BlobRegistration) (epochs : ℕ)
    (endpoint : Option ℕ)
    → let e = estimate_blob db max_staleness_ms now blob epochs endpoint in
      (e.base_cost ≡ e.blob_size_bytes * epochs)
      × (e.base_cost ≤ e.estimated_cost)
      × (10 * e.estimated_cost ≤ 11 * e.base_cost)
      × (e.is_fresh ≡ true)
unfolding estimate_blob
estimate_blob-bounds db max_staleness_ms now blob epochs endpoint =
    let base = size_or_zero blob.size_bytes * epochs in
    let le = publisher_premium-le db blob endpoint base in
    (refl, omega arith, omega arith, ground arith)

-- What is promised of an estimate.
abbrev pub IsEstimate : ℕ → CostEstimate → Type 0
IsEstimate epochs e =
    (e.base_cost ≡ e.blob_size_bytes * epochs)
    × (e.base_cost ≤ e.estimated_cost)
    × (10 * e.estimated_cost ≤ 11 * e.base_cost)
    × (e.is_fresh ≡ true)

estimate_found_lem :
    (db : Db) (max_staleness_ms now : ℕ) (o : Option BlobRegistration) (epochs : ℕ)
    (endpoint : Option ℕ)
    → ((estimate_found db max_staleness_ms now o epochs endpoint ≡ none) ↔ (o ≡ none))
      × ((e : CostEstimate)
          → estimate_found db max_staleness_ms now o epochs endpoint ≡ some e
          → IsEstimate epochs e)
unfolding estimate_found
estimate_found_lem db max_staleness_ms now none epochs endpoint =
    (((λ e. refl), λ e. refl), λ e h. cc)
estimate_found_lem db max_staleness_ms now (some blob) epochs endpoint = (
  ((λ e. cc), λ e. cc),
  λ e h.
      subst (IsEstimate epochs) (some-injective _ _ h)
        (estimate_blob-bounds db max_staleness_ms now blob epochs endpoint),
)

-- An estimate is made exactly if the blob is registered; it is fresh, its base cost is the size times
-- the epochs, and the premium adds a tenth of the base cost at most.
pub estimate_renewal_cost_lem :
    (db : Db) (max_staleness_ms now blob_id epochs : ℕ) (endpoint : Option ℕ)
    → ((estimate_renewal_cost db max_staleness_ms now blob_id epochs endpoint ≡ none)
        ↔ (find_blob blob_id db.blob_registrations ≡ none))
      × ((e : CostEstimate)
          → estimate_renewal_cost db max_staleness_ms now blob_id epochs endpoint ≡ some e
          → IsEstimate epochs e)
unfolding estimate_renewal_cost
estimate_renewal_cost_lem db max_staleness_ms now blob_id epochs endpoint =
    estimate_found_lem db max_staleness_ms now (find_blob blob_id db.blob_registrations) epochs
      endpoint

-- The assertion throws exactly of the estimates that are not fresh.
pub assert_estimate_fresh_iff :
    (max_staleness_ms now estimated_at : ℕ)
    → (assert_estimate_fresh_throws max_staleness_ms now estimated_at ≡ true)
      ↔ (is_estimate_fresh max_staleness_ms now estimated_at ≡ false)
unfolding assert_estimate_fresh_throws is_estimate_fresh
assert_estimate_fresh_iff max_staleness_ms now estimated_at = ground arith
