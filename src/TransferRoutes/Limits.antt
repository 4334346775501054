-- ===== src/TransferRoutes/Limits.antt =====
-- initiate-transfer/route.ts: how many transfers a client can start in a minute.
use stellar_dex_chat.Common.{
  ℕ, ◌+◌, ◌≤◌, ◌≡◌, String, none, List, [], ◌∷◌, map, inl, inr, arith, All, All-map, refl, length,
  length-append, if◌then◌else◌, is_some,
}
use stellar_dex_chat.RateLimit.{limit_key, bucket_key, apply_rate_limit}
use stellar_dex_chat.RateLimit.Window.{request_all, request_all_window, IsClosed, IsWithin}
use stellar_dex_chat.ApiSchemas.{Body, initiate_transfer_schema}
use stellar_dex_chat.Payout.{Generated, initiate_transfer}
use stellar_dex_chat.TransferRoutes.{Service, Environment, initiate_route}
use stellar_dex_chat.TransferRoutes.Requests.{begin_transfer}
use stellar_dex_chat.TransferRoutes.Admission.{begin_lem}

module _ (env : Environment) (g : Generated) (ip : String) where
  -- Requests of one client in a row, each with its time.
  unfoldable pub begin_all : List (ℕ × Body) → Service → Service
  begin_all [] s = s
  begin_all ((now, body) ∷ rs) s = begin_all rs (begin_transfer env g ip now body s).0

  abbrev pub key : String
  key = bucket_key ip initiate_route.path

  abbrev times : List (ℕ × Body) → List ℕ
  times rs = map (λ r. r.0) rs

  begin_transfer-calls :
      (now : ℕ) (body : Body) (s : Service)
      → ((begin_transfer env g ip now body s).0.limits
          ≡ (limit_key key now initiate_route.limit s.limits).0)
        × (length (begin_transfer env g ip now body s).0.calls
            ≤ length s.calls
              + (if is_some (limit_key key now initiate_route.limit s.limits).1 then 0 else 1))
  unfolding begin_transfer apply_rate_limit
  begin_transfer-calls now body s =
      elim (begin_lem env initiate_route initiate_transfer_schema ip now body s
        (initiate_transfer env.paystack_secret_key g)) [
          | inl (input, (free, valid, known), e) ↦ rw e (
            refl,
            let passed : (limit_key key now initiate_route.limit s.limits).1 ≡ none = free in
                rw passed (omega (arith, length-append s.calls _)),
          )
          | inr (answer, stopped, e) ↦ rw e (refl, omega arith)
        ]

  -- However many requests are made, each that asks the provider was let through by the limiter.
  begin_all-calls :
      (rs : List (ℕ × Body)) (s : Service)
      → length (begin_all rs s).calls
        ≤ length s.calls + (request_all key initiate_route.limit (times rs) s.limits).1
  unfolding begin_all request_all
  begin_all-calls [] s = omega arith
  begin_all-calls ((now, body) ∷ rs) s =
      let (counts, calls) = begin_transfer-calls now body s in
      let later = begin_all-calls rs (begin_transfer env g ip now body s).0 in
      ground (arith, rw counts at later, calls)

  -- Of the requests that one client makes from the opening of a window on and before its end, a
  -- minute later, at most three ask the provider for a transfer, whatever their bodies.
  pub transfers_limited :
      (now : ℕ) (body : Body) (rs : List (ℕ × Body)) (s : Service)
      → IsClosed key initiate_route.limit now s.limits
      → All (λ r. IsWithin initiate_route.limit now r.0) rs
      → length (begin_all ((now, body) ∷ rs) s).calls ≤ length s.calls + 3
  transfers_limited now body rs s closed within =
      let (admitted, _) =
        request_all_window key initiate_route.limit now (times rs) s.limits closed
          (All-map (IsWithin initiate_route.limit now) (λ r. r.0) rs within) in
      omega (arith, begin_all-calls ((now, body) ∷ rs) s, admitted)
