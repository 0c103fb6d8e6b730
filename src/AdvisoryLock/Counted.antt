-- ===== src/AdvisoryLock/Counted.antt =====
-- A lock as the database has it, counted for its session.
use mathlib.Core.Option.{some-injective}
use walwatch.Prelude.{
  ℕ, zero, suc, ◌==◌, ◌≡◌, ◌≢◌, refl, sym, ap, ap₂, subst, ◌∙◌, ◌⊎◌, inl, inr, Bool, true, false,
  ◌&&◌, Option, none, some, arith, Bool-cases, and_left, and_right, eq-path, if◌then◌else◌,
}
use walwatch.AdvisoryLock.{Session, AdvisoryLock}

-- The session that holds the lock, and how often.
abbrev pub Lock : Type 0
Lock = Option (Session × ℕ)

abbrev pub same : Session → Session → Bool
same (i, c) (j, d) = i == j && c == d

same-path : (s t : Session) → same s t ≡ true → s ≡ t
same-path (i, c) (j, d) h =
    ap₂ (λ x y. (x, y)) (eq-path i j (and_left (i == j) (c == d) h))
      (eq-path c d (and_right (i == j) (c == d) h))

same_refl : (s : Session) → same s s ≡ true
same_refl (i, c) = ground arith

abbrev pub holder : Lock → Option Session
holder none = none
holder (some (t, n)) = some t

abbrev pub tried : Session → ℕ → Bool → Lock × Bool
tried t n true = (some (t, suc n), true)
tried t n false = (some (t, n), false)

abbrev pub try_lock : Session → Lock → Lock × Bool
try_lock s none = (some (s, 1), true)
try_lock s (some (t, n)) = tried t n (same s t)

abbrev pub count_down : Session → ℕ → Lock
count_down t zero = none
count_down t (suc zero) = none
count_down t (suc (suc n)) = some (t, suc n)

abbrev pub unlock : Session → Lock → Lock
unlock s none = none
unlock s (some (t, n)) = if same s t then count_down t n else some (t, n)

abbrev pub close_all : ℕ → Lock → Lock
close_all i none = none
close_all i (some ((j, c), n)) = if i == j then none else some ((j, c), n)

lock_held : (t : Session) (n : ℕ) (s : Session) → holder (some (t, n)) ≡ some s → t ≡ s
lock_held t n s h = some-injective t s h

pub acquires :
    (s : Session) (l : Lock)
    → (try_lock s l).1 ≡ true
    → ((holder l ≡ none) ⊎ (holder l ≡ some s)) × (holder (try_lock s l).0 ≡ some s)
acquires s none h = (inl refl, refl)
acquires s (some (t, n)) h = elim (Bool-cases (same s t)) [
  | inl e ↦ (
    inr (ap some (sym (same-path s t e))),
    ap (λ b. holder (tried t n b).0) e ∙ ap some (sym (same-path s t e)),
  )
  | inr e ↦ absurd (cc (sym (ap (λ b. (tried t n b).1) e), h))
]

pub refuses :
    (s : Session) (l : Lock) → (try_lock s l).1 ≡ false → holder (try_lock s l).0 ≡ holder l
refuses s none h = absurd (cc h)
refuses s (some (t, n)) h = elim (Bool-cases (same s t)) [
  | inl e ↦ absurd (cc (sym (ap (λ b. (tried t n b).1) e), h))
  | inr e ↦ ap (λ b. holder (tried t n b).0) e
]

pub is_free : (s : Session) (l : Lock) → holder l ≡ none → (try_lock s l).1 ≡ true
is_free s none h = refl
is_free s (some (t, n)) h = absurd (cc h)

pub is_held : (s t : Session) (l : Lock) → holder l ≡ some t → t ≢ s → (try_lock s l).1 ≡ false
is_held s t none h ne = absurd (cc h)
is_held s t (some (u, n)) h ne = elim (Bool-cases (same s u)) [
  | inl e ↦ absurd (ne (sym (lock_held u n t h) ∙ sym (same-path s u e)))
  | inr e ↦ ap (λ b. (tried u n b).1) e
]

pub keeps_unlock :
    (s t : Session) (l : Lock) → holder l ≡ some t → t ≢ s → holder (unlock s l) ≡ some t
keeps_unlock s t none h ne = absurd (cc h)
keeps_unlock s t (some (u, n)) h ne = elim (Bool-cases (same s u)) [
  | inl e ↦ absurd (ne (sym (lock_held u n t h) ∙ sym (same-path s u e)))
  | inr e ↦ ap (λ b. holder (if b then count_down u n else some (u, n))) e ∙ h
]

count_down-holder :
    (t : Session) (n : ℕ) → (holder (count_down t n) ≡ some t) ⊎ (holder (count_down t n) ≡ none)
count_down-holder t zero = inr refl
count_down-holder t (suc zero) = inr refl
count_down-holder t (suc (suc n)) = inl refl

pub owns_unlock :
    (s : Session) (l : Lock) (t : Session)
    → holder l ≡ some t
    → (holder (unlock s l) ≡ some t) ⊎ (holder (unlock s l) ≡ none)
owns_unlock s none t h = absurd (cc h)
owns_unlock s (some (u, n)) t h = elim (Bool-cases (same s u)) [
  | inl e ↦
      let down = ap (λ b. holder (if b then count_down u n else some (u, n))) e in
      elim (count_down-holder u n) [
        | inl kept ↦ inl (down ∙ kept ∙ h)
        | inr free ↦ inr (down ∙ free)
      ]
  | inr e ↦ inl (ap (λ b. holder (if b then count_down u n else some (u, n))) e ∙ h)
]

pub keeps_close_all :
    (i : ℕ) (t : Session) (l : Lock) → holder l ≡ some t → t.0 ≢ i → holder (close_all i l) ≡ some t
keeps_close_all i t none h ne = absurd (cc h)
keeps_close_all i t (some ((j, c), n)) h ne = elim (Bool-cases (i == j)) [
  | inl e ↦ absurd (ne (sym (ap (λ x. x.0) (lock_held (j, c) n t h)) ∙ sym (eq-path i j e)))
  | inr e ↦ ap (λ b. holder (if b then none else some ((j, c), n))) e ∙ h
]

equal_numbers : (i j : ℕ) → i ≡ j → (i == j) ≡ true
equal_numbers i j h = ground arith

pub ends_close_all : (i c : ℕ) (l : Lock) → holder l ≡ some (i, c) → holder (close_all i l) ≡ none
ends_close_all i c none h = refl
ends_close_all i c (some ((j, d), n)) h =
    ap (λ b. holder (if b then none else some ((j, d), n)))
      (equal_numbers i j (sym (ap (λ x. x.0) (lock_held (j, d) n (i, c) h))))

pub stays_free : (i : ℕ) (l : Lock) → holder l ≡ none → holder (close_all i l) ≡ none
stays_free i none h = refl
stays_free i (some (t, n)) h = absurd (cc h)

abbrev pub end_session : Session → Lock → Lock
end_session s none = none
end_session s (some (t, n)) = if same s t then none else some (t, n)

pub keeps_end_session :
    (s t : Session) (l : Lock) → holder l ≡ some t → t ≢ s → holder (end_session s l) ≡ some t
keeps_end_session s t none h ne = absurd (cc h)
keeps_end_session s t (some (u, n)) h ne = elim (Bool-cases (same s u)) [
  | inl e ↦ absurd (ne (sym (lock_held u n t h) ∙ sym (same-path s u e)))
  | inr e ↦ ap (λ b. holder (if b then none else some (u, n))) e ∙ h
]

pub ends_end_session :
    (s : Session) (l : Lock) → holder l ≡ some s → holder (end_session s l) ≡ none
ends_end_session s none h = refl
ends_end_session s (some (u, n)) h =
    ap (λ b. holder (if b then none else some (u, n)))
      (subst (λ t. same s t ≡ true) (sym (lock_held u n s h)) (same_refl s))

abbrev pub postgres : AdvisoryLock Lock
postgres = record {
  holder = holder;
  try_lock = try_lock;
  unlock = unlock;
  close_all = close_all;
  end_session = end_session;
  acquires = acquires;
  refuses = refuses;
  is_free = is_free;
  is_held = is_held;
  keeps_unlock = keeps_unlock;
  owns_unlock = owns_unlock;
  keeps_close_all = keeps_close_all;
  ends_close_all = ends_close_all;
  stays_free = stays_free;
  keeps_end_session = keeps_end_session;
  ends_end_session = ends_end_session;
}
