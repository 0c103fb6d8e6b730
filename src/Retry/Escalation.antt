-- ===== src/Retry/Escalation.antt =====
-- What the retry loop makes of an error that was escalated by another one.
use walwatch.Prelude.{
  codes, starts_with, includes_text, ℕ, ◌≡◌, refl, ap, Bool, true, false, List, [], ◌∷◌, ◌++◌, any,
  arith,
}
use walwatch.Retry.Errors.{
  JsError, lower, to_lower_case, is_transient, mentions, retryable_fragments, is_retryable_error,
  escalate_transient_to_persistent,
}

starts_with-append : (s t p : List ℕ) → starts_with s p ≡ true → starts_with (s ++ t) p ≡ true
unfolding starts_with
starts_with-append s t [] h = refl
starts_with-append [] t (c ∷ p) h = cc
starts_with-append (d ∷ s) t (c ∷ p) h = ground (arith, starts_with-append s t p)

includes_text-append_right :
    (s t p : List ℕ) → includes_text s p ≡ true → includes_text (s ++ t) p ≡ true
unfolding includes_text
includes_text-append_right [] [] [] h = refl
includes_text-append_right [] (d ∷ t) [] h = refl
includes_text-append_right [] t (c ∷ p) h = cc
includes_text-append_right (d ∷ s) t p h =
    ground (arith, starts_with-append (d ∷ s) t p, includes_text-append_right s t p)

includes_text-append_left :
    (s t p : List ℕ) → includes_text t p ≡ true → includes_text (s ++ t) p ≡ true
unfolding includes_text
includes_text-append_left [] t p h = h
includes_text-append_left (d ∷ s) t p h = ground (arith, includes_text-append_left s t p)

to_lower_case-append : (s t : List ℕ) → to_lower_case (s ++ t) ≡ to_lower_case s ++ to_lower_case t
unfolding to_lower_case
to_lower_case-append [] t = refl
to_lower_case-append (c ∷ s) t = ap (◌∷◌ (lower c)) (to_lower_case-append s t)

lower-includes :
    (s t u p : List ℕ)
    → includes_text (to_lower_case t) p ≡ true
    → includes_text (to_lower_case (s ++ (t ++ u))) p ≡ true
lower-includes s t u p h =
    rw (to_lower_case-append s (t ++ u), to_lower_case-append t u)
      (includes_text-append_left (to_lower_case s) _ p
        (includes_text-append_right (to_lower_case t) _ p h))

any-any :
    (p q : List ℕ → Bool) (xs : List (List ℕ))
    → ((x : List ℕ) → p x ≡ true → q x ≡ true)
    → any p xs ≡ true
    → any q xs ≡ true
any-any p q [] f h = cc
any-any p q (x ∷ xs) f h = ground (arith, f x, any-any p q xs f)

escalated_includes :
    (context : List ℕ) (e : JsError) (p : List ℕ)
    → includes_text (to_lower_case e.message) p ≡ true
    → includes_text (to_lower_case (escalate_transient_to_persistent context e).message) p ≡ true
unfolding escalate_transient_to_persistent
escalated_includes context e p found =
    rw (to_lower_case-append context (codes ": " ++ (e.message ++ codes " (retries exhausted)"))) (
      includes_text-append_left (to_lower_case context) _ p
        (lower-includes (codes ": ") e.message _ p found))

mentions-escalated :
    (context : List ℕ) (e : JsError)
    → mentions retryable_fragments (to_lower_case e.message) ≡ true
    → mentions retryable_fragments
        (to_lower_case (escalate_transient_to_persistent context e).message)
      ≡ true
mentions-escalated context e h =
    any-any (λ p. includes_text (to_lower_case e.message) p)
      (λ p. includes_text (to_lower_case (escalate_transient_to_persistent context e).message) p)
      retryable_fragments (escalated_includes context e) h

-- The escalation of an error is not transient; yet if the message of the original error has one of the
-- fragments of a network failure, such as `timeout` in any case of letters, the escalated error is
-- retried by an enclosing `withRetry` all the same.
pub escalated-is_retryable_error :
    (context : List ℕ) (e : JsError)
    → mentions retryable_fragments (to_lower_case e.message) ≡ true
    → (is_transient (escalate_transient_to_persistent context e) ≡ false)
      × (is_retryable_error (escalate_transient_to_persistent context e) ≡ true)
unfolding is_retryable_error is_transient escalate_transient_to_persistent
escalated-is_retryable_error context e h =
    let m = mentions-escalated context e h in
    (unfold is_transient escalate_transient_to_persistent in refl, ground (arith, m))
