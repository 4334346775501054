-- ===== src/ApiSchemas/Tests.antt =====
-- The schemas on concrete bodies.
use Prim.Native.String
use stellar_dex_chat.Common.{ℕ, zero, suc, String, true, ◌≡◌, refl, none, some, [], ◌∷◌, get}
use stellar_dex_chat.ApiSchemas.{
  Fields, string, number, object, initiate_transfer_schema, transfer_status_schema,
}
use stellar_dex_chat.Common.Text.{to_lower}
use stellar_dex_chat.ApiSchemas.Retry.{
  type_error, plain_error, returned, Fetched, failed, answered, default_retry_config,
  fetch_with_retry, with_retry, attempt_from, checked, goes_on, is_abort, default_retryable_errors,
  is_retryable_status, mentions_failure, calculate_backoff_delay,
}
use stellar_dex_chat.ApiSchemas.Attempts.{EndsWell, with_retry-EndsWell}

abbrev transfer_fields : Fields
transfer_fields =
    ("source", string "balance") ∷ ("amount", number 50) ∷ ("recipient", string "RCP_1") ∷ []

reads_transfer :
    initiate_transfer_schema (object transfer_fields)
    ≡ some (record {
      source = "balance";
      reason = none;
      amount = 50;
      recipient = "RCP_1";
      reference = none;
    })
unfolding initiate_transfer_schema get
reads_transfer = refl

refuses_zero : initiate_transfer_schema (object (("amount", number 0) ∷ transfer_fields)) ≡ none
unfolding initiate_transfer_schema get
refuses_zero = refl

refuses_empty_reference : transfer_status_schema (object (("reference", string "") ∷ [])) ≡ none
unfolding transfer_status_schema get
refuses_empty_reference = refl

abbrev message : ℕ → String → String
message status text = String.◌++◌ "HTTP: " text

abbrev replies : ℕ → Fetched
replies zero = answered 504 "Gateway Timeout"
replies (suc zero) = failed (type_error "Failed to fetch")
replies (suc (suc n)) = answered 200 "OK"

abbrev no_jitter : ℕ → ℕ → ℕ
no_jitter attempt delay = delay

fetches_thrice :
    fetch_with_retry message no_jitter default_retry_config replies
    ≡ record { result = returned 200; last_attempt = 2; delays = 1000 ∷ 2000 ∷ [] }
unfolding fetch_with_retry with_retry attempt_from checked goes_on is_abort default_retryable_errors
    is_retryable_status mentions_failure calculate_backoff_delay to_lower
fetches_thrice = refl

-- A gateway's timeout is retried by its message, whatever the list of statuses says.
gateway_timeout_retried :
    goes_on
      (record default_retry_config { retryable_status_codes = [] })
      (plain_error (message 504 "Gateway Timeout") (some 504))
    ≡ true
unfolding goes_on is_abort default_retryable_errors is_retryable_status mentions_failure to_lower
gateway_timeout_retried = refl

with_retry-EndsWell_example :
    EndsWell no_jitter default_retry_config
      (λ n. checked message (replies n))
      3
      0
      (with_retry no_jitter default_retry_config (λ n. checked message (replies n)))
with_retry-EndsWell_example =
    with_retry-EndsWell no_jitter default_retry_config (λ n. checked message (replies n))
