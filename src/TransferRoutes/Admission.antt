-- ===== src/TransferRoutes/Admission.antt =====
-- The routes up to their await: which requests reach the provider, and how many.
use stellar_dex_chat.Common.{
  ℕ, ◌≡◌, refl, String, true, false, Option, none, some, [], ◌∷◌, ◌++◌, ◌⊎◌, inl, inr, Bool-cases,
  is_some,
}
use stellar_dex_chat.RateLimit.{Store, TooManyRequests, apply_rate_limit}
use stellar_dex_chat.ApiSchemas.Validity.{IsTransfer, initiate_transfer_schema_iff}
use stellar_dex_chat.ApiSchemas.{Body, InitiateTransferInput, initiate_transfer_schema}
use stellar_dex_chat.Payout.{Call, Generated, is_supported, initiate_transfer}
use stellar_dex_chat.TransferRoutes.{
  Service, Answer, limited, refused, Environment, Route, initiate_route, provided, not_valid,
  proceed, begin,
}
use stellar_dex_chat.TransferRoutes.Requests.{begin_transfer}

-- What the limiter says to a request.
abbrev pub counted : Route → String → ℕ → Service → Store × Option TooManyRequests
counted route ip now s = apply_rate_limit ip route.path now route.limit s.limits

abbrev pub only_counted : Route → String → ℕ → Service → Service
only_counted route ip now s = record s { limits = (counted route ip now s).0 }

abbrev pub called : Route → String → ℕ → Call → Service → Service
called route ip now call s = record s {
  limits = (counted route ip now s).0;
  calls = s.calls ++ call ∷ [];
}

module _ {A : Type 0} (env : Environment) (route : Route) where
  -- The limiter lets the request through, its body is valid, and the provider's name is known.
  abbrev IsAdmissible : Option TooManyRequests → Option A → A → Type 0
  IsAdmissible refusal valid input =
      (refusal ≡ none) × (valid ≡ some input) × (is_supported env.payout_provider ≡ true)

  -- The request stops at the limiter, at the schema, or at the choice of the provider.
  abbrev IsStopped : Body → Option TooManyRequests → Option A → Answer → Type 0
  IsStopped body refusal valid answer =
      ((r : TooManyRequests) × (refusal ≡ some r) × (answer ≡ limited r))
      ⊎ (refusal ≡ none) × (valid ≡ none) × (answer ≡ refused 400 (not_valid body route.not_json))
      ⊎ (refusal ≡ none)
        × (is_some valid ≡ true)
        × (is_supported env.payout_provider ≡ false)
        × (answer ≡ refused 500 route.broken)

  provided-IsStopped :
      (body : Body) (refusal : Option TooManyRequests) (valid : Option A)
      → ((input : A) × IsAdmissible refusal valid input
          × (proceed refusal (provided env route body valid) ≡ inr input))
        ⊎ ((answer : Answer) × IsStopped body refusal valid answer
            × (proceed refusal (provided env route body valid) ≡ inl answer))
  provided-IsStopped body (some r) valid = inr (_, inl (r, refl, refl), refl)
  provided-IsStopped body none none = inr (_, inr (inl (refl, refl, refl)), refl)
  provided-IsStopped body none (some x) = elim (Bool-cases (is_supported env.payout_provider)) [
    | inl known ↦ inl (x, (refl, refl, known), rw known refl)
    | inr unknown ↦ inr (_, inr (inr (refl, refl, unknown, refl)), rw unknown refl)
  ]

  module _ (schema : Body → Option A) (ip : String) (now : ℕ) (body : Body) (s : Service) where
    abbrev pub IsAdmitted : A → Type 0
    IsAdmitted input = IsAdmissible (counted route ip now s).1 (schema body) input

    abbrev pub IsRefused : Answer → Type 0
    IsRefused answer = IsStopped body (counted route ip now s).1 (schema body) answer

    -- Every request is counted, and either calls the provider once, or is answered and calls nobody.
    pub begin_lem :
        (call : A → Call)
        → ((input : A) × IsAdmitted input
            × (begin env route schema call ip now body s
                ≡ (called route ip now (call input) s, inr input)))
          ⊎ ((answer : Answer) × IsRefused answer
              × (begin env route schema call ip now body s
                  ≡ (only_counted route ip now s, inl answer)))
    unfolding begin
    begin_lem call = elim (provided-IsStopped body (counted route ip now s).1 (schema body)) [
      | inl (input, admitted, next) ↦ inl (input, admitted, rw (next, begin) refl)
      | inr (answer, stopped, next) ↦ inr (answer, stopped, rw (next, begin) refl)
    ]

module _ (env : Environment) (g : Generated) (ip : String) (now : ℕ) (body : Body)
    (s : Service) where
  -- A request to start a transfer asks the provider exactly once, and is then still open, if the
  -- limiter lets it through, its body is an object that holds a transfer, and the configured provider
  -- is known. Otherwise it is answered with 429, 400 or 500, in this order of the reasons, and nothing
  -- but its count in the limiter changes.
  pub begin_transfer_lem :
      ((input : InitiateTransferInput) × ((counted initiate_route ip now s).1 ≡ none)
        × IsTransfer body input
        × (is_supported env.payout_provider ≡ true)
        × (begin_transfer env g ip now body s ≡ (
          called initiate_route ip now (initiate_transfer env.paystack_secret_key g input) s,
          inr input,
        )))
      ⊎ ((answer : Answer) × IsRefused env initiate_route initiate_transfer_schema ip now body s
            answer
          × (begin_transfer env g ip now body s
              ≡ (only_counted initiate_route ip now s, inl answer)))
  unfolding begin_transfer
  begin_transfer_lem =
      elim (begin_lem env initiate_route initiate_transfer_schema ip now body s
        (initiate_transfer env.paystack_secret_key g)) [
          | inl (input, (free, valid, known), e) ↦
              inl (input, free, (initiate_transfer_schema_iff body input).0 valid, known, e)
          | inr stopped ↦ inr stopped
        ]
