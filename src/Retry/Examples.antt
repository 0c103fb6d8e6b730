-- ===== src/Retry/Examples.antt =====
-- Retries on concrete results, and the theorems at them.
use walwatch.Prelude.{
  String, same_text, not, ◌&&◌, ◌||◌, ℕ, zero, suc, ◌+◌, ◌≡◌, refl, Bool, true, false, arith,
  includes_text, leb, codes, none,
}
use walwatch.Retry.{Outcome, returns, throws}
use walwatch.Retry.Api
use walwatch.Retry.Errors.{
  JsError, is_retryable_error, escalate_transient_to_persistent, to_lower_case,
}
use walwatch.Retry.Jobs.{
  ThrownError, is_network_error, is_retryable_job_error, matches_any, non_retryable_patterns,
  is_retryable_job_error_lem,
}
use walwatch.Retry.Escalation.{escalated-is_retryable_error}

-- Errors are numbers: below 10 they are retried; the escalation adds 100.
abbrev small : ℕ → Bool
small e = leb e 9

abbrev add_hundred : ℕ → ℕ
add_hundred e = e + 100

-- Two failures that are retried, then a success.
abbrev third_time : ℕ → Outcome ℕ ℕ
third_time zero = throws 1
third_time (suc zero) = throws 2
third_time (suc (suc _)) = returns 7

abbrev no_jitter : ℕ → ℕ
no_jitter _ = 0

third_time_retried : Api.AllRetried small add_hundred third_time no_jitter 1000 30000 0 2
third_time_retried zero lt = (1, refl, refl)
third_time_retried (suc zero) lt = (2, refl, refl)
third_time_retried (suc (suc j)) lt = absurd (omega arith)

with_retry-Final_example :
    Api.with_retry small add_hundred third_time no_jitter 1000 30000 3 ≡ record {
      outcome = returns 7;
      waits = Api.waits_from small add_hundred third_time no_jitter 1000 30000 0 2;
      attempts = 3;
    }
with_retry-Final_example =
    Api.with_retry-Final small add_hundred third_time no_jitter 1000 30000 3 2 (returns 7)
      (omega arith) third_time_retried refl tt

-- Every attempt fails.
abbrev never : ℕ → Outcome ℕ ℕ
never _ = throws 4

abbrev timed_out : JsError
timed_out = record {
  failure_class = none;
  is_type_error = false;
  message = codes "RPC Timeout";
  code = none;
}

escalated-is_retryable_error_example :
    is_retryable_error (escalate_transient_to_persistent (codes "sui-rpc") timed_out) ≡ true
escalated-is_retryable_error_example =
    (escalated-is_retryable_error (codes "sui-rpc") timed_out
      (unfold to_lower_case includes_text in refl)).1

abbrev job_error : String → ThrownError
job_error message = record {
  failure_class = none;
  name = codes "Error";
  is_error = true;
  is_type_error = false;
  code = none;
  message = codes message;
}

missing_vault_is_final : is_retryable_job_error (job_error "The Vault  not found on chain") ≡ false
unfolding is_retryable_job_error is_network_error matches_any to_lower_case includes_text same_text
missing_vault_is_final = refl

-- A message about a budget matches no pattern.
budget_is_retried : is_retryable_job_error (job_error "Budget exceeded for project") ≡ true
unfolding is_retryable_job_error is_network_error matches_any to_lower_case includes_text same_text
budget_is_retried = refl

is_retryable_job_error_lem_example : is_retryable_job_error (job_error "Permission denied") ≡ (
    is_network_error (job_error "Permission denied")
    || not (true && matches_any non_retryable_patterns (codes "Permission denied")))
is_retryable_job_error_lem_example = is_retryable_job_error_lem (job_error "Permission denied")
