-- ===== src/Retry/Jobs.antt =====
-- keeper/src/retry.ts: which errors of a job are tried again. A message is its list of code units,
-- lower case and white space are those of ASCII, and a value that is thrown is always an object.
use walwatch.Prelude.{
  ℕ, ◌==◌, leb, codes, includes_text, same_text, is_digit, is_space, ◌≡◌, Bool, true, false, not,
  ◌&&◌, ◌||◌, List, [], ◌∷◌, ◌++◌, Option, none, some, any, arith, if◌then◌else◌,
}
use walwatch.Retry.Errors.{FailureClass, transient, persistent, lower, to_lower_case}

-- A thrown value: what `isNetworkError` and `isRetryableJobError` look at.
pub record ThrownError : Type 0 where
  pub failure_class : Option FailureClass
  pub name : List ℕ
  pub is_error : Bool
  pub is_type_error : Bool
  pub code : Option (List ℕ)
  pub message : List ℕ

abbrev pub network_names : List (List ℕ)
network_names = codes "TransientError" ∷ codes "RateLimitError" ∷ codes "ExternalServiceError" ∷ []

abbrev pub network_codes : List (List ℕ)
network_codes =
    codes "ECONNRESET"
    ∷ codes "ETIMEDOUT"
    ∷ codes "ECONNREFUSED"
    ∷ codes "ENOTFOUND"
    ∷ codes "EAI_AGAIN"
    ∷ []

abbrev pub network_fragments : List (List ℕ)
network_fragments =
    codes "timeout"
    ∷ codes "network"
    ∷ codes "econnrefused"
    ∷ codes "enotfound"
    ∷ codes "etimedout"
    ∷ codes "circuit breaker is open"
    ∷ []

abbrev pub is_transient_class : Option FailureClass → Bool
is_transient_class (some transient) = true
is_transient_class _ = false

abbrev pub has_network_code : Option (List ℕ) → Bool
has_network_code none = false
has_network_code (some c) = any (λ p. same_text c p) network_codes

-- `isNetworkError`.
unfoldable pub is_network_error : ThrownError → Bool
unfolding same_text includes_text to_lower_case
is_network_error e =
    is_transient_class e.failure_class
    || any (λ p. same_text e.name p) network_names
    || (e.is_type_error && includes_text e.message (codes "fetch"))
    || (e.is_error
        && (has_network_code e.code
            || any (λ p. includes_text (to_lower_case e.message) p) network_fragments))

-- `escalateTransientToPersistent`.
unfoldable pub escalate_transient_to_persistent : ThrownError → List ℕ → ThrownError
escalate_transient_to_persistent e operation_name = record {
  failure_class = some persistent;
  name = codes "Error";
  is_error = true;
  is_type_error = false;
  code = none;
  message =
      if e.is_error
      then operation_name ++ (codes ": " ++ (e.message ++ codes " (retries exhausted)"))
      else operation_name ++ codes ": transient failure exhausted retries";
}

-- The characters of `\w`.
abbrev pub is_word : ℕ → Bool
is_word c = is_digit c || (leb 65 c && leb c 90) || (leb 97 c && leb c 122) || c == 95

-- What follows a word at the start of the text, whatever its case.
abbrev pub after_word : List ℕ → List ℕ → Option (List ℕ)
unfolding lower
after_word [] s = some s
after_word (c ∷ w) [] = none
after_word (c ∷ w) (d ∷ s) = let rest = after_word w s in if lower d == c then rest else none

abbrev pub starts_with_space : List ℕ → Bool
starts_with_space [] = false
starts_with_space (c ∷ s) = is_space c

abbrev pub skip_space : List ℕ → List ℕ
skip_space [] = []
skip_space (c ∷ s) = let rest = skip_space s in if is_space c then rest else c ∷ s

-- `\b` after a letter.
abbrev pub at_boundary : List ℕ → Bool
at_boundary [] = true
at_boundary (c ∷ s) = not (is_word c)

-- The words of a pattern at the start of the text, with `\s+` between them and `\b` after the last.
abbrev pub phrase_at : List (List ℕ) → List ℕ → Bool
phrase_at [] s = true
phrase_at (w ∷ []) s = elim (after_word w s) [ none ↦ false | some rest ↦ at_boundary rest ]
phrase_at (w ∷ v ∷ ws) s = elim (after_word w s) [
  | none ↦ false
  | some rest ↦ starts_with_space rest && phrase_at (v ∷ ws) (skip_space rest)
]

-- The pattern somewhere in the text, at a boundary; the flag says if a character of a word is before.
abbrev pub find_phrase : List (List ℕ) → Bool → List ℕ → Bool
find_phrase ws inside [] = false
find_phrase ws inside (c ∷ s) = (not inside && phrase_at ws (c ∷ s)) || find_phrase ws (is_word c) s

-- `pattern.test(msg)` for one of the patterns.
unfoldable pub matches_any : List (List (List ℕ)) → List ℕ → Bool
unfolding lower
matches_any patterns message = any (λ ws. find_phrase ws false message) patterns

abbrev pub non_retryable_patterns : List (List (List ℕ))
non_retryable_patterns =
    (codes "vault" ∷ codes "not" ∷ codes "found" ∷ [])
    ∷ (codes "blob" ∷ codes "not" ∷ codes "found" ∷ [])
    ∷ (codes "does" ∷ codes "not" ∷ codes "exist" ∷ [])
    ∷ (codes "invalid" ∷ codes "arguments" ∷ [])
    ∷ (codes "invalid" ∷ codes "parameters" ∷ [])
    ∷ (codes "invalid" ∷ codes "request" ∷ [])
    ∷ (codes "insufficient" ∷ codes "balance" ∷ [])
    ∷ (codes "unauthorized" ∷ [])
    ∷ (codes "permission" ∷ codes "denied" ∷ [])
    ∷ (codes "not" ∷ codes "supported" ∷ [])
    ∷ (codes "malformed" ∷ [])
    ∷ (codes "exceeds" ∷ codes "maximum" ∷ [])
    ∷ []

abbrev pub retryable_patterns : List (List (List ℕ))
retryable_patterns =
    (codes "timeout" ∷ [])
    ∷ (codes "try" ∷ codes "again" ∷ [])
    ∷ (codes "temporarily" ∷ codes "unavailable" ∷ [])
    ∷ (codes "transient" ∷ [])
    ∷ (codes "rate" ∷ codes "limit" ∷ [])
    ∷ (codes "too" ∷ codes "many" ∷ codes "requests" ∷ [])
    ∷ (codes "network" ∷ codes "error" ∷ [])
    ∷ (codes "connection" ∷ codes "refused" ∷ [])
    ∷ (codes "service" ∷ codes "unavailable" ∷ [])
    ∷ (codes "busy" ∷ [])
    ∷ []

-- The two loops over the patterns, and the default that follows them.
abbrev pub of_message : List ℕ → Bool
of_message message =
    if matches_any non_retryable_patterns message
    then false
    else if matches_any retryable_patterns message
    then true
    else true

-- `isRetryableJobError`.
unfoldable pub is_retryable_job_error : ThrownError → Bool
unfolding is_network_error matches_any
is_retryable_job_error e =
    if is_network_error e then true else if e.is_error then of_message e.message else true

of_message_lem : (n r : Bool) → (if n then false else if r then true else true) ≡ not n
of_message_lem n r = ground arith

decide_lem :
    (network error n r : Bool)
    → (if network
        then true
        else if error
        then (if n then false else if r then true else true)
        else true)
      ≡ (network || not (error && n))
decide_lem network error n r = ground arith

-- A job's error is tried again exactly if it is one of the network, or is no `Error` whose message
-- matches a pattern of the first list: the second list decides nothing.
pub is_retryable_job_error_lem :
    (e : ThrownError)
    → is_retryable_job_error e
      ≡ (is_network_error e || not (e.is_error && matches_any non_retryable_patterns e.message))
unfolding is_retryable_job_error
is_retryable_job_error_lem e =
    decide_lem (is_network_error e) e.is_error (matches_any non_retryable_patterns e.message)
      (matches_any retryable_patterns e.message)
