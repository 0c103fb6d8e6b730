-- ===== src/Retry/Errors.antt =====
-- api/src/lib/errors.ts and api/src/lib/retry.ts: the errors that the retry loop sees, the tests on
-- them, and the escalation. A message is its list of code units; lower case is that of ASCII.
use walwatch.Prelude.{
  ℕ, ◌+◌, codes, includes_text, same_text, Bool, true, false, ◌&&◌, ◌||◌, List, [], ◌∷◌, ◌++◌,
  Option, none, some, any, leb, if◌then◌else◌,
}

pub data FailureClass : Type 0 where
  transient persistent partial systemic : FailureClass

-- An `Error`: the class of an `AppError`, if it is one, whether it is a `TypeError`, its message, its
-- `code`, if it has one.
pub record JsError : Type 0 where
  pub failure_class : Option FailureClass
  pub is_type_error : Bool
  pub message : List ℕ
  pub code : Option (List ℕ)

unfoldable pub lower : ℕ → ℕ
lower c = if leb 65 c && leb c 90 then c + 32 else c

unfoldable pub to_lower_case : List ℕ → List ℕ
unfolding lower
to_lower_case [] = []
to_lower_case (c ∷ s) = lower c ∷ to_lower_case s

unfoldable pub is_transient : JsError → Bool
unfolding includes_text
is_transient e = elim e.failure_class [
  | some transient ↦ true
  | some _ ↦ false
  | none ↦ e.is_type_error && includes_text e.message (codes "fetch")
]

abbrev pub type_error_fragments : List (List ℕ)
type_error_fragments = codes "fetch" ∷ codes "network" ∷ codes "aborted" ∷ []

abbrev pub retryable_codes : List (List ℕ)
retryable_codes =
    codes "econnreset"
    ∷ codes "etimedout"
    ∷ codes "econnrefused"
    ∷ codes "enotfound"
    ∷ codes "eai_again"
    ∷ []

abbrev pub retryable_fragments : List (List ℕ)
retryable_fragments =
    codes "timeout"
    ∷ codes "network"
    ∷ codes "socket hang up"
    ∷ codes "request failed"
    ∷ codes "circuit breaker is open"
    ∷ []

-- The message has one of the fragments.
abbrev pub mentions : List (List ℕ) → List ℕ → Bool
mentions fragments message = any (λ p. includes_text message p) fragments

unfoldable pub has_retryable_code : Option (List ℕ) → Bool
unfolding same_text to_lower_case
has_retryable_code none = false
has_retryable_code (some c) = any (λ p. same_text (to_lower_case c) p) retryable_codes

unfoldable pub is_retryable_error : JsError → Bool
unfolding is_transient has_retryable_code includes_text to_lower_case
is_retryable_error e =
    if is_transient e
    then true
    else if e.is_type_error
    then mentions type_error_fragments (to_lower_case e.message)
    else has_retryable_code e.code || mentions retryable_fragments (to_lower_case e.message)

-- `new PersistentError(`${context}: ${message} (retries exhausted)`, 503, EXTERNAL_SERVICE_ERROR)`.
unfoldable pub escalate_transient_to_persistent : List ℕ → JsError → JsError
escalate_transient_to_persistent context e = record {
  failure_class = some persistent;
  is_type_error = false;
  message = context ++ (codes ": " ++ (e.message ++ codes " (retries exhausted)"));
  code = some (codes "EXTERNAL_SERVICE_ERROR");
}
