-- ===== src/ApiSchemas/Retry.antt =====
-- apiSchemas.ts, `withRetry` and `fetchWithRetry`: calls that are made again after some errors. What the
-- function ends with enters by the number of the attempt, and so does its delay with the jitter, which
-- is random; delays are whole milliseconds.
use stellar_dex_chat.Common.{
  ℕ, zero, suc, ◌+◌, ◌*◌, ◌^◌, min, String, Bool, true, false, not, ◌&&◌, ◌||◌, Option, none, some,
  List, [], ◌∷◌, any, ltb, leb, ◌==◌, if◌then◌else◌, str_eq,
}
use stellar_dex_chat.Common.Text.{codes, lower_codes, includes, to_lower}

-- What is thrown: a `TypeError`, a `DOMException` with its name, another `Error` with the status that it
-- may have, a `Response` with its status, or something else. Errors have a message.
pub data Thrown : Type 0 where
  type_error : String → Thrown
  dom_exception : String → String → Thrown
  plain_error : String → Option ℕ → Thrown
  response : ℕ → Thrown
  other_thrown : Thrown

pub data Outcome {ℓ} (A : Type ℓ) : Type ℓ where
  returned : A → Outcome A
  threw : Thrown → Outcome A

pub record RetryConfig : Type 0 where
  pub max_retries : ℕ
  pub initial_delay_ms : ℕ
  pub max_delay_ms : ℕ
  pub backoff_multiplier : ℕ
  pub retryable_status_codes : List ℕ
  pub retryable_errors : Thrown → Bool

unfoldable pub mentions_failure : String → Bool
unfolding to_lower
mentions_failure message =
    let lower = lower_codes message in
    includes lower (codes "failed to fetch")
    || includes lower (codes "network")
    || includes lower (codes "load failed")
    || includes lower (codes "timeout")

unfoldable pub default_retryable_errors : Thrown → Bool
unfolding mentions_failure
default_retryable_errors (type_error message) = true
default_retryable_errors (dom_exception name message) =
    str_eq name "NetworkError" || mentions_failure message
default_retryable_errors (plain_error message status) = mentions_failure message
default_retryable_errors (response status) = false
default_retryable_errors other_thrown = false

abbrev pub default_retry_config : RetryConfig
default_retry_config = record {
  max_retries = 3;
  initial_delay_ms = 1000;
  max_delay_ms = 30000;
  backoff_multiplier = 2;
  retryable_status_codes = 408 ∷ 429 ∷ 500 ∷ 502 ∷ 503 ∷ 504 ∷ [];
  retryable_errors = default_retryable_errors;
}

unfoldable pub is_abort : Thrown → Bool
is_abort (type_error message) = false
is_abort (dom_exception name message) = str_eq name "AbortError"
is_abort (plain_error message status) = false
is_abort (response status) = false
is_abort other_thrown = false

-- `error.status ?? 0`
abbrev pub or_zero : Option ℕ → ℕ
or_zero none = 0
or_zero (some status) = status

-- A `DOMException` is an `Error`; it and a `TypeError` have no status.
unfoldable pub is_retryable_status : List ℕ → Thrown → Bool
is_retryable_status statuses (type_error message) = any (λ s. s == 0) statuses
is_retryable_status statuses (dom_exception name message) = any (λ s. s == 0) statuses
is_retryable_status statuses (plain_error message status) = any (λ s. s == or_zero status) statuses
is_retryable_status statuses (response status) = any (λ s. s == status) statuses
is_retryable_status statuses other_thrown = false

-- Whether the loop goes on after the error, if attempts are left.
unfoldable pub goes_on : RetryConfig → Thrown → Bool
unfolding is_abort is_retryable_status
goes_on c e =
    not (is_abort e) && (c.retryable_errors e || is_retryable_status c.retryable_status_codes e)

-- `calculateBackoffDelay`, with the jitter as a function of the attempt and the exponential delay.
unfoldable pub calculate_backoff_delay : (ℕ → ℕ → ℕ) → ℕ → RetryConfig → ℕ
calculate_backoff_delay jittered attempt c =
    min c.max_delay_ms (jittered attempt (c.initial_delay_ms * c.backoff_multiplier ^ attempt))

-- How the calls ended, the number of the last attempt, from 0 on, and the delays that were slept.
pub record Run {ℓ} (A : Type ℓ) : Type ℓ where
  pub result : Outcome A
  pub last_attempt : ℕ
  pub delays : List ℕ

module _ {ℓ} {A : Type ℓ} (jittered : ℕ → ℕ → ℕ) (c : RetryConfig) (fn : ℕ → Outcome A) where
  abbrev pub ends_at : ℕ → Run A
  ends_at attempt = record { result = fn attempt; last_attempt = attempt; delays = [] }

  abbrev pub or_again : ℕ → Outcome A → Run A → Run A
  or_again attempt (returned a) rest = ends_at attempt
  or_again attempt (threw e) rest =
      if goes_on c e
      then record rest { delays = calculate_backoff_delay jittered attempt c ∷ rest.delays }
      else ends_at attempt

  -- The loop from an attempt on, with the number of attempts that may follow it.
  unfoldable pub attempt_from : ℕ → ℕ → Run A
  attempt_from zero attempt = ends_at attempt
  attempt_from (suc left) attempt =
      let rest = attempt_from left (attempt + 1) in or_again attempt (fn attempt) rest

  unfoldable pub with_retry : Run A
  unfolding attempt_from
  with_retry = attempt_from c.max_retries 0

-- What a request ends with: an error, or a response with its status and its text.
pub data Fetched : Type 0 where
  failed : Thrown → Fetched
  answered : ℕ → String → Fetched

abbrev pub is_ok : ℕ → Bool
is_ok status = leb 200 status && ltb status 300

-- The function that `fetchWithRetry` attempts; the message is made of the status and its text.
unfoldable pub checked : (ℕ → String → String) → Fetched → Outcome ℕ
checked message (failed e) = threw e
checked message (answered status text) =
    if is_ok status
    then returned status
    else threw (plain_error (message status text) (some status))

unfoldable pub fetch_with_retry :
    (ℕ → String → String) → (ℕ → ℕ → ℕ) → RetryConfig → (ℕ → Fetched) → Run ℕ
unfolding with_retry checked
fetch_with_retry message jittered c fetched =
    with_retry jittered c (λ attempt. checked message (fetched attempt))
