-- ===== src/Policy/Order.antt =====
-- The comparisons of the policy engine are total orders, and what they compare.
use walwatch.Prelude.{
  ◌<◌, ◌≤◌, All, Any, Wins, ◌∷◌, [], ℕ, ◌≡◌, ◌⊎◌, inl, inr, Bool, true, not, ltb, ◌==◌,
  if◌then◌else◌, arith, IsTotal, IsTransitive,
}
use walwatch.Prelude.{List}
use walwatch.Policy.{PolicyRow}
use walwatch.Policy.Engine.{newer, narrower, match_count, time_of}

-- `newer`, of the times and identifiers.
abbrev later : ℕ → ℕ → ℕ → ℕ → Bool
later s i t j = if t == s then not (ltb i j) else ltb t s

later_total : (s i t j : ℕ) → (later s i t j ≡ true) ⊎ (later t j s i ≡ true)
later_total s i t j = ground arith

later_trans : (s i t j u k : ℕ) → later s i t j ≡ true → later t j u k ≡ true → later s i u k ≡ true
later_trans s i t j u k h g = ground arith

pub newer-IsTotal : IsTotal newer
unfolding newer
newer-IsTotal a b = later_total (time_of a) a.id (time_of b) b.id

pub newer-IsTransitive : IsTransitive newer
unfolding newer
newer-IsTransitive a b c = later_trans (time_of a) a.id (time_of b) b.id (time_of c) c.id

module _ (before : PolicyRow → PolicyRow → Bool) (total : IsTotal before)
    (trans : IsTransitive before) (n : PolicyRow → ℕ) where
  abbrev counted : PolicyRow → PolicyRow → Bool
  counted a b = if n b == n a then before a b else ltb (n b) (n a)

  counted-IsTotal : IsTotal counted
  counted-IsTotal a b = elim (total a b) [ inl h ↦ ground arith | inr h ↦ ground arith ]

  counted-IsTransitive : IsTransitive counted
  counted-IsTransitive a b c h g = ground (arith, trans a b c)

pub narrower-IsTotal : (tags : List ℕ) → IsTotal (narrower tags)
unfolding narrower
narrower-IsTotal tags = counted-IsTotal newer newer-IsTotal newer-IsTransitive (match_count tags)

pub narrower-IsTransitive : (tags : List ℕ) → IsTransitive (narrower tags)
unfolding narrower
narrower-IsTransitive tags =
    counted-IsTransitive newer newer-IsTotal newer-IsTransitive (match_count tags)

-- The first policy is the later one, or was made at the same time and has no smaller identifier.
abbrev pub IsLater : PolicyRow → PolicyRow → Type 0
IsLater a b = (time_of b < time_of a) ⊎ (time_of a ≡ time_of b) × (b.id ≤ a.id)

-- The first policy shares more of the tags, or as many and is later.
abbrev pub IsNarrower : List ℕ → PolicyRow → PolicyRow → Type 0
IsNarrower tags a b =
    (match_count tags b < match_count tags a)
    ⊎ (match_count tags a ≡ match_count tags b) × IsLater a b

later_sound : (s i t j : ℕ) → later s i t j ≡ true → (t < s) ⊎ (s ≡ t) × (j ≤ i)
later_sound s i t j h = ground arith

pub newer-IsLater : (a b : PolicyRow) → newer a b ≡ true → IsLater a b
unfolding newer
newer-IsLater a b = later_sound (time_of a) a.id (time_of b) b.id

counted_sound :
    {P : Type 0} (x : Bool) (m n : ℕ)
    → (x ≡ true → P)
    → (if n == m then x else ltb n m) ≡ true
    → (n < m) ⊎ (m ≡ n) × P
counted_sound x m n f h = ground (arith, f)

pub narrower-IsNarrower :
    (tags : List ℕ) (a b : PolicyRow) → narrower tags a b ≡ true → IsNarrower tags a b
unfolding narrower
narrower-IsNarrower tags a b =
    counted_sound (newer a b) (match_count tags a) (match_count tags b) (newer-IsLater a b)

-- The policy is in the list, and is better than each policy of it, or as good.
abbrev pub IsBest : (PolicyRow → PolicyRow → Type 0) → List PolicyRow → PolicyRow → Type 0
IsBest Better ps w = Any (λ p. p ≡ w) ps × All (Better w) ps

pub Wins-IsBest :
    (before : PolicyRow → PolicyRow → Bool) (Better : PolicyRow → PolicyRow → Type 0)
    → ((a b : PolicyRow) → before a b ≡ true → Better a b)
    → (ps : List PolicyRow) (w : PolicyRow) → Wins before ps w
    → IsBest Better ps w
Wins-IsBest before Better sound ps w (there, wins) = (there, each ps wins)
  where
    each : (ps : List PolicyRow) → All (λ p. before w p ≡ true) ps → All (Better w) ps
    each [] h = tt
    each (p ∷ ps) h = (sound w p h.0, each ps h.1)
