-- ===== src/TransferRoutes.antt =====
-- Dechat/dex_with_fiat_frontend/src/app/api: the routes that create a recipient, verify an account,
-- start a transfer, ask for its status and cancel it. A handler that awaits the provider is two
-- steps: up to the await, and from the reply on. Logging and tracing are left out.
pub mod Requests
pub mod Admission
pub mod Limits
pub mod Settling
pub mod Cancelling
pub mod Refinement
mod Tests
use stellar_dex_chat.Common.{
  ℕ, String, Bool, Option, none, some, List, [], ◌∷◌, ◌++◌, ◌⊎◌, inl, inr, ◌==◌, if◌then◌else◌,
  str_eq,
}
use stellar_dex_chat.RateLimit.{RateLimitConfig, Store, TooManyRequests, apply_rate_limit}
use stellar_dex_chat.ApiSchemas.{Fields, Body, malformed}
use stellar_dex_chat.Payout.{Call, Failure, plain, http, is_supported}
use stellar_dex_chat.Webhook.{Server}

-- What the routes share: the limiter's windows, the stores behind the webhook, the set of cancelled
-- references, and the calls made to the provider.
pub record Service : Type 0 where
  pub limits : Store
  pub server : Server
  pub cancelled_transfers : List String
  pub calls : List Call

-- A response: too many requests, a refusal with its status and message, or success with data.
pub data Answer : Type 0 where
  limited : TooManyRequests → Answer
  refused : ℕ → String → Answer
  granted : Fields → Answer

pub record Environment : Type 0 where
  pub payout_provider : Option String
  pub paystack_secret_key : Option String

-- The route, its limit and its two messages.
pub record Route : Type 0 where
  pub path : String
  pub limit : RateLimitConfig
  pub not_json : String
  pub broken : String

abbrev minute : ℕ → RateLimitConfig
minute n = record { max_requests = n; window_ms = 60000 }

abbrev pub initiate_route : Route
initiate_route = record {
  path = "/api/initiate-transfer";
  limit = minute 3;
  not_json = "Invalid JSON in request body.";
  broken = "Failed to initiate transfer. Please try again.";
}

abbrev pub recipient_route : Route
recipient_route = record {
  path = "/api/create-recipient";
  limit = minute 5;
  not_json = "Invalid JSON in request body.";
  broken = "Failed to create recipient. Please try again.";
}

abbrev pub verify_route : Route
verify_route = record {
  path = "/api/verify-account";
  limit = minute 10;
  not_json = "Request body must be valid JSON";
  broken = "Account verification failed. Please try again.";
}

abbrev pub status_route : Route
status_route = record {
  path = "/api/transfer-status";
  limit = minute 10;
  not_json = "Request body must be valid JSON";
  broken = "Failed to fetch transfer status. Please try again.";
}

abbrev not_valid : Body → String → String
not_valid malformed not_json = not_json
not_valid _ not_json = "Validation failed"

module _ {A : Type 0} where
  -- What follows the reading of the body: the provider is looked up.
  abbrev pub provided : Environment → Route → Body → Option A → Answer ⊎ A
  provided env route body none = inl (refused 400 (not_valid body route.not_json))
  provided env route body (some input) =
      if is_supported env.payout_provider then inr input else inl (refused 500 route.broken)

  abbrev pub proceed : Option TooManyRequests → Answer ⊎ A → Answer ⊎ A
  proceed none next = next
  proceed (some refusal) next = inl (limited refusal)

  abbrev pub record_call : (A → Call) → Answer ⊎ A → List Call → List Call
  record_call call (inl answer) calls = calls
  record_call call (inr input) calls = calls ++ call input ∷ []

  -- A handler up to its await: it has answered, or it has called the provider with its input.
  unfoldable pub begin :
      Environment
      → Route
      → (Body → Option A)
      → (A → Call)
      → String
      → ℕ
      → Body
      → Service
      → Service × (Answer ⊎ A)
  begin env route schema call ip now body s =
      let counted = apply_rate_limit ip route.path now route.limit s.limits in
      let next = proceed counted.1 (provided env route body (schema body)) in
      (record s { limits = counted.0; calls = record_call call next s.calls }, next)

-- The `catch` of the routes for recipients and statuses: the provider's own words, if it has any.
unfoldable pub caught : Route → Failure → Answer
caught route (http code (some words)) = refused 400 words
caught route (http code none) = refused 500 route.broken
caught route (plain words) = refused 500 route.broken

abbrev words_of : Route → Option String → Answer
words_of route none = refused 500 route.broken
words_of route (some words) =
    if str_eq words "" then refused 500 route.broken else refused 400 words

-- The `catch` of the route that verifies an account.
unfoldable pub caught_verifying : Failure → Answer
caught_verifying (http code words) =
    if code == 422
    then refused 400 "Invalid account number or bank code"
    else words_of verify_route words
caught_verifying (plain words) = refused 500 verify_route.broken
