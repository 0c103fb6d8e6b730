-- ===== src/Renewal/Examples.antt =====
-- A renewal that succeeds at its second attempt, a scan of a chain of three objects, and the theorems at
-- them.
use walwatch.Prelude.{
  ℕ, zero, suc, String, ◌+◌, ltb, codes, same_text, includes_text, ◌≡◌, refl, Bool, true, false,
  List, [], ◌∷◌, Option, none, some, take, drop, length, arith, if◌then◌else◌,
}
use walwatch.Breaker.{closed, CircuitState}
use walwatch.Breaker.Keeper.{begin, on_success, on_failure}
use walwatch.Retry.{Outcome, returns, throws}
use walwatch.Retry.Errors.{to_lower_case}
use walwatch.Retry.Jobs.{ThrownError, is_network_error, is_retryable_job_error, matches_any}
use walwatch.Retry.Keeper.{with_retry}
use walwatch.SuiPool.{SuiClientPool, call}
use walwatch.Pagination.Limits.{parse_int}
use walwatch.Renewal.{DueVault, RenewalResult, renewal_executed}
use walwatch.Renewal.MoveValue.{
  Json, text, numeric, boolean, object, array, item, empty, field, no_fields, ObjectData,
  parse_vault_object, as_string, as_number, as_big_int, as_boolean, parse_option_u64,
}
use walwatch.Renewal.FeeConfig.{get, set, find_fee_config_object}
use walwatch.Renewal.Cached.{get-set}
use walwatch.Renewal.Events.{error_of, big_int, number, parse_events}
use walwatch.Renewal.Executor.{
  TransactionResponse, Surroundings, FeeSearch, execute_renewal, search_fee_config, searched_pool,
  query_at, pool_after, attempts_loop, attempt, after_attempt, repeated, is_applied,
  settle_response, pool_error, verify_on_chain_state_before_retry,
}
use walwatch.Renewal.Attempts.{attempts_loop-IsReported, IsReported}
use walwatch.Renewal.Outcomes.{execute_renewal-Gives, Some, Gives}
use walwatch.Renewal.Effort.{execute_renewal-IsBounded, IsBounded}
use walwatch.Renewal.Scanner.{Page, query_all_vaults, parse_all, due_at}
use walwatch.Renewal.Paging.{Pages, query_all_vaults-take}
use walwatch.Renewal.Due.{find_due_vaults_primary-due_at, Finds}

abbrev vault : DueVault
vault = record {
  id = codes "0xv";
  beneficiary = codes "0xb";
  blob_id = codes "77";
  wal_balance = 1000;
  renew_threshold_epochs = 5;
  renew_by_epochs = 30;
  max_total_epochs = none;
  active = true;
  current_end_epoch = 100;
}

abbrev endpoint : CircuitState → SuiClientPool
endpoint state = record {
  entries =
      record {
        state = state;
        failure_count = 0;
        last_failure_time = 0;
        probing = false;
        threshold = 5;
        timeout = 30000;
      }
      ∷ [];
  current_index = 0;
}

abbrev response : TransactionResponse
response = record {
  digest = 4242;
  effects = some (record {
    status = some (record { is_success = true; error = none });
    computation_cost = some (codes "750");
  });
  events =
      record {
        type_name = codes "0xp::vault::RenewalExecuted";
        parsed_json = some (record {
          blob_id = none;
          actual_cost = some (codes "12");
          keeper_fee_paid = none;
          required = none;
          available = none;
          max_total_epochs = none;
        });
      }
      ∷ [];
}

-- The first attempt times out, the others succeed.
abbrev answer_of : ℕ → Outcome ThrownError TransactionResponse
answer_of zero = throws (error_of (codes "request timeout"))
answer_of (suc n) = returns response

abbrev env : Surroundings
env = record {
  rpc = λ made _. record { begins = 1000 + made; settles = 1001 + made; result = answer_of made };
  clock = λ made. 2000 + made;
  text = λ _. codes "endpoint";
  has_aggregator = true;
  aggregator = λ _. returns (some (record { epoch = some 100; expiry_epoch = none }));
  random = λ _. 0;
  retry_delay = 5000;
}

abbrev fees : FeeSearch
fees = record {
  ttl = 300000;
  now = 10;
  stored_at = 11;
  query = λ made _. record {
    begins = 20 + made;
    settles = 21 + made;
    result =
        returns (record { object_id = 9; type_name = some (codes "0xp::vault::FeeConfig") } ∷ []);
  };
  random = λ _. 0;
}

abbrev result : RenewalResult
result = record {
  vault_id = codes "0xv";
  digest = some 4242;
  gas_used = 750;
  alerts =
      record {
        type_of = renewal_executed 12 0;
        vault_id = codes "0xv";
        blob_id = codes "77";
        beneficiary = codes "0xb";
        timestamp = 2001;
      }
      ∷ [];
}

succeeds_second :
    (execute_renewal vault env fees (codes "0xp") (codes "0xs") [] (endpoint closed)).1.attempts ≡ 2
unfolding execute_renewal search_fee_config query_at pool_after find_fee_config_object get set
    attempts_loop attempt after_attempt repeated is_applied settle_response pool_error
    verify_on_chain_state_before_retry call begin on_success on_failure is_network_error
    is_retryable_job_error matches_any to_lower_case same_text includes_text big_int number
    parse_events with_retry
succeeds_second = refl

attempts_loop-IsReported_example : IsReported vault env 2 0 (endpoint closed) none
attempts_loop-IsReported_example = attempts_loop-IsReported vault env 2 0 (endpoint closed) none

execute_renewal-Gives_example :
    Some vault env
      (Gives vault env result)
      2
      0
      (searched_pool env fees (codes "0xp") [] (endpoint closed))
unfolding execute_renewal search_fee_config query_at pool_after find_fee_config_object get set
    attempts_loop attempt after_attempt repeated is_applied settle_response pool_error
    verify_on_chain_state_before_retry call begin on_success on_failure is_network_error
    is_retryable_job_error matches_any to_lower_case same_text includes_text big_int number
    parse_events with_retry
execute_renewal-Gives_example =
    execute_renewal-Gives vault env fees (codes "0xp") (codes "0xs") [] (endpoint closed) result
      refl

execute_renewal-IsBounded_example :
    IsBounded vault env
      (execute_renewal vault env fees (codes "0xp") (codes "0xs") [] (endpoint closed)).1
execute_renewal-IsBounded_example =
    execute_renewal-IsBounded vault env fees (codes "0xp") (codes "0xs") [] (endpoint closed)
      (λ i. omega arith)

get-set_example :
    ((get 300000 200 (codes "0xp") (set 100 (codes "0xp") 9 [])).1
      ≡ (if ltb (100 + 300000) 200 then none else some 9))
    × ((get 300000 200 (codes "0xq") (set 100 (codes "0xp") 9 [])).1
        ≡ (get 300000 200 (codes "0xq") []).1)
unfolding same_text
get-set_example = get-set 300000 200 100 9 (codes "0xp") (codes "0xq") [] refl

-- A vault as the chain has it, one that is not active, and an object that is gone.
abbrev move_object : String → Json → Json
move_object name value = object (field (codes name) value no_fields)

abbrev option_of : Json → Json
option_of value = move_object "vec" (array (item value empty))

abbrev vault_fields : Bool → Json
vault_fields on = object (
    field (codes "beneficiary") (text (codes "0xb")) (
      field (codes "blob")
        (option_of (
          move_object "fields" (
            object (
              field (codes "blob_id") (text (codes "77")) (
                field (codes "storage")
                  (move_object "fields" (move_object "end_epoch" (numeric 100))) no_fields)))))
        (field (codes "wal_balance") (text (codes "1000")) (
          field (codes "policy")
            (move_object "fields" (
              object (
                field (codes "renew_threshold_epochs") (numeric 5) (
                  field (codes "renew_by_epochs") (text (codes "30"))
                    (field (codes "active") (boolean on) no_fields)))))
            no_fields))))

abbrev on_chain : Bool → ObjectData
on_chain on = record {
  object_id = codes "0xv";
  content = some (record { is_move_object = true; fields = some (vault_fields on) });
}

vault_is_parsed : parse_vault_object (some (on_chain true)) ≡ some vault
unfolding parse_vault_object as_string as_number as_big_int as_boolean parse_option_u64 parse_int
    same_text number
vault_is_parsed = refl

abbrev objects : List (Option ObjectData)
objects = some (on_chain false) ∷ none ∷ some (on_chain true) ∷ []

abbrev or_start : Option ℕ → ℕ
or_start none = 0
or_start (some n) = n

abbrev serve : Option ℕ → ℕ → Outcome ThrownError Page
serve c size = returns (record {
  objects = take size (drop (or_start c) objects);
  has_next_page = ltb (or_start c + size) (length objects);
  next_cursor = some (or_start c + size);
})

serve-Pages : Pages serve objects
serve-Pages = record {
  place = or_start;
  starts = refl;
  next = λ c size. some (or_start c + size);
  moves = λ c size. refl;
  responds = λ c size. refl;
}

query_all_vaults-take_example :
    query_all_vaults serve 2 5 true ≡ some (returns (take 2 (parse_all objects)))
query_all_vaults-take_example = query_all_vaults-take serve objects serve-Pages 2 5 (omega arith)

find_due_vaults_primary-due_at_example : Finds serve 2 96 5 (due_at 96 (take 2 (parse_all objects)))
find_due_vaults_primary-due_at_example =
    find_due_vaults_primary-due_at serve objects serve-Pages 2 96 5 (omega arith)
