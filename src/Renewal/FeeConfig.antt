-- ===== src/Renewal/FeeConfig.antt =====
-- keeper/src/executor.ts: `FeeConfigCache` and `findFeeConfigObject`. A package and the type of an
-- object are texts, an object is a number. What the query returns at each attempt is given.
use walwatch.Prelude.{
  ℕ, ◌+◌, ltb, codes, same_text, includes_text, Bool, false, not, List, [], ◌∷◌, ◌++◌, Option, none,
  some, select, if◌then◌else◌,
}
use walwatch.Retry.{Outcome, returns, throws, Run}
use walwatch.Retry.Keeper.{with_retry}
use walwatch.Retry.Jobs.{ThrownError, is_network_error, escalate_transient_to_persistent}
use walwatch.Renewal.Events.{error_of}

pub record FeeConfigCacheEntry : Type 0 where
  pub package_id : List ℕ
  pub object_id : ℕ
  pub cached_at : ℕ

abbrev pub Cache : Type 0
Cache = List FeeConfigCacheEntry

abbrev pub find_entry : List ℕ → Cache → Option FeeConfigCacheEntry
find_entry p [] = none
find_entry p (e ∷ es) =
    let rest = find_entry p es in if same_text e.package_id p then some e else rest

-- `invalidate`, and `this.cache.delete`.
unfoldable pub invalidate : List ℕ → Cache → Cache
invalidate p cache = select (λ e. not (same_text e.package_id p)) cache

-- `Date.now() - entry.cachedAt > FEE_CONFIG_CACHE_TTL_MS`.
abbrev pub is_stale : ℕ → ℕ → FeeConfigCacheEntry → Bool
is_stale ttl now e = ltb (e.cached_at + ttl) now

abbrev pub get_found : ℕ → ℕ → List ℕ → Cache → Option FeeConfigCacheEntry → Cache × Option ℕ
get_found ttl now p cache none = (cache, none)
get_found ttl now p cache (some e) =
    if is_stale ttl now e then (invalidate p cache, none) else (cache, some e.object_id)

-- `get`.
unfoldable pub get : ℕ → ℕ → List ℕ → Cache → Cache × Option ℕ
get ttl now p cache = get_found ttl now p cache (find_entry p cache)

-- `set`: the map has one entry for a key.
unfoldable pub set : ℕ → List ℕ → ℕ → Cache → Cache
set now p object cache =
    record { package_id = p; object_id = object; cached_at = now } ∷ invalidate p cache

-- `SuiObjectResponse`: an object with its type.
pub record SuiObject : Type 0 where
  pub object_id : ℕ
  pub type_name : Option (List ℕ)

abbrev is_of : List ℕ → SuiObject → Bool
is_of p o = elim o.type_name [ none ↦ false | some t ↦ includes_text t p ]

-- `matching[0]`, of the objects that were found.
abbrev pub first_object : List ℕ → List SuiObject → Outcome ThrownError ℕ
first_object p [] = throws (
    error_of (
      codes "FeeConfig shared object found but none match package "
      ++ (p ++ codes ". Ensure the deployed package ID is correct.")))
first_object p (o ∷ os) = returns o.object_id

abbrev pub choose_object : List ℕ → List SuiObject → Outcome ThrownError ℕ
choose_object p [] = throws (
    error_of (
      codes "FeeConfig shared object not found for type "
      ++ (p
          ++ codes
              "::vault::FeeConfig. Make sure the contract has been deployed and init() has run.")))
choose_object p (o ∷ os) = first_object p (select (is_of p) (o ∷ os))

abbrev pub keep_object : ℕ → List ℕ → Cache → Outcome ThrownError ℕ → Cache × Outcome ThrownError ℕ
keep_object now p cache (returns o) = (set now p o cache, returns o)
keep_object now p cache (throws e) = (cache, throws e)

abbrev pub query_fee_config :
    (ℕ → Outcome ThrownError (List SuiObject)) → (ℕ → ℕ) → Run ThrownError (List SuiObject)
query_fee_config query random =
    with_retry is_network_error
      (λ e. escalate_transient_to_persistent e (codes "findFeeConfigObject"))
      (error_of (codes "findFeeConfigObject failed after 3 retries")) query random 2000 30000 3

abbrev pub of_query :
    ℕ → List ℕ → Cache → Outcome ThrownError (List SuiObject) → Cache × Outcome ThrownError ℕ
of_query now p cache (throws e) = (cache, throws e)
of_query now p cache (returns os) = keep_object now p cache (choose_object p os)

module _ (ttl now : ℕ) (query : ℕ → Outcome ThrownError (List SuiObject)) (random : ℕ → ℕ)
    (stored_at : ℕ) where
  abbrev pub after_query :
      List ℕ → Cache → Run ThrownError (List SuiObject) → ℕ × Cache × Outcome ThrownError ℕ
  after_query p cache run =
      let (cache', o) = of_query stored_at p cache run.outcome in (run.attempts, cache', o)

  abbrev pub after_get : List ℕ → Cache × Option ℕ → ℕ × Cache × Outcome ThrownError ℕ
  after_get p (cache, some o) = (0, cache, returns o)
  after_get p (cache, none) = after_query p cache (query_fee_config query random)

  -- `findFeeConfigObject`, with the number of queries that it made.
  unfoldable pub find_fee_config_object : List ℕ → Cache → ℕ × Cache × Outcome ThrownError ℕ
  find_fee_config_object p cache = after_get p (get ttl now p cache)
