-- ===== src/Renewal/Cached.antt =====
-- What the cache of fee objects gives back.
use walwatch.Prelude.{
  ℕ, ◌+◌, ltb, same_text, ◌==◌, ◌≡◌, refl, ap, ap₂, ◌∙◌, inl, inr, Bool-cases, and_left, and_right,
  Bool, true, false, List, [], ◌∷◌, Option, none, some, arith, eq-path, if◌then◌else◌,
}
use walwatch.Renewal.FeeConfig.{
  FeeConfigCacheEntry, Cache, find_entry, invalidate, get_found, get, set,
}

same_text_refl : (s : List ℕ) → same_text s s ≡ true
unfolding same_text
same_text_refl [] = refl
same_text_refl (c ∷ s) = ground (arith, same_text_refl s)

same_text-path : (s t : List ℕ) → same_text s t ≡ true → s ≡ t
unfolding same_text
same_text-path [] [] h = refl
same_text-path [] (c ∷ t) h = absurd (cc h)
same_text-path (c ∷ s) [] h = absurd (cc h)
same_text-path (c ∷ s) (d ∷ t) h =
    ap₂ (λ a w. a ∷ w) (eq-path c d (and_left (c == d) (same_text s t) h))
      (same_text-path s t (and_right (c == d) (same_text s t) h))

find-head :
    (p : List ℕ) (e : FeeConfigCacheEntry) (cache : Cache) (b : Bool)
    → same_text e.package_id p ≡ b
    → find_entry p (e ∷ cache) ≡ (if b then some e else find_entry p cache)
find-head p e cache b h = ap (λ x. if x then some e else find_entry p cache) h

find-invalidate :
    (p q : List ℕ) (cache : Cache)
    → same_text p q ≡ false
    → find_entry q (invalidate p cache) ≡ find_entry q cache
unfolding invalidate
find-invalidate p q [] h = refl
find-invalidate p q (e ∷ cache) h = elim (Bool-cases (same_text e.package_id p)) [
  | inl same ↦
      let other = ap (λ r. same_text r q) (same_text-path e.package_id p same) ∙ h in
      ground (arith, same, other, find-invalidate p q cache h)
  | inr differs ↦ ground (arith, differs, find-invalidate p q cache h)
]

get_found-object :
    (ttl now : ℕ) (p q : List ℕ) (c d : Cache) (o : Option FeeConfigCacheEntry)
    → (get_found ttl now p c o).1 ≡ (get_found ttl now q d o).1
get_found-object ttl now p q c d none = refl
get_found-object ttl now p q c d (some e) = ground arith

stored_or_stale :
    (ttl now : ℕ) (p : List ℕ) (c : Cache) (e : FeeConfigCacheEntry)
    → (get_found ttl now p c (some e)).1
      ≡ (if ltb (e.cached_at + ttl) now then none else some e.object_id)
stored_or_stale ttl now p c e = ground arith

-- A package that was stored is found with its object until its time to live is over, and then no more;
-- what is found for a different package is as before.
pub get-set :
    (ttl now at object : ℕ) (p q : List ℕ) (cache : Cache)
    → same_text p q ≡ false
    → ((get ttl now p (set at p object cache)).1
        ≡ (if ltb (at + ttl) now then none else some object))
      × ((get ttl now q (set at p object cache)).1 ≡ (get ttl now q cache).1)
unfolding get set
get-set ttl now at object p q cache h =
    let stored : FeeConfigCacheEntry = record {
      package_id = p;
      object_id = object;
      cached_at = at;
    } in
    (
      ap (λ o. (get_found ttl now p (set at p object cache) o).1)
            (find-head p stored (invalidate p cache) true (same_text_refl p))
          ∙ stored_or_stale ttl now p (set at p object cache) stored,
      ap (λ o. (get_found ttl now q (set at p object cache) o).1)
            (find-head q stored (invalidate p cache) false h ∙ find-invalidate p q cache h)
          ∙ get_found-object ttl now q q (set at p object cache) cache (find_entry q cache),
    )
