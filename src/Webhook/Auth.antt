-- ===== src/Webhook/Auth.antt =====
-- route.ts: what an unverified request can do.
use stellar_dex_chat.Common.{
  ℕ, ◌≡◌, refl, ◌≢◌, ◌⊎◌, inl, inr, String, Option, none, some, arith, str_eq, eq_iff, Bool-cases,
}
use stellar_dex_chat.Webhook.{PaystackWebhookEvent, Server, check_signature, post}

module _ (hmac : String → String → String) (sha256 : String → String)
    (parse : String → Option (Option PaystackWebhookEvent)) (iso : ℕ → String) where
  -- The request carries the keyed hash of its payload under a configured secret.
  abbrev pub IsVerified : Option String → String → Option String → Type 0
  IsVerified secret payload signature =
      (k : String) × (secret ≡ some k) × (k ≢ "") × (signature ≡ some (hmac k payload))

  check_signature_split :
      (k payload : String) (signature : Option String) (now : ℕ) (s : Server)
      → (signature ≡ some (hmac k payload))
        ⊎ ((check_signature hmac sha256 parse iso k payload signature now s).0 ≡ s)
          × ((check_signature hmac sha256 parse iso k payload signature now s).1.status ≡ 401)
  unfolding check_signature
  check_signature_split k payload none now s = inr (refl, refl)
  check_signature_split k payload (some sig) now s =
      ground (arith, eq_iff sig "", eq_iff (hmac k payload) sig)

  -- Every request is either verified, or it leaves the server as it was and is answered with 400 or
  -- 401.
  pub post_unverified :
      (secret : Option String) (payload : String) (signature : Option String) (now : ℕ) (s : Server)
      → IsVerified secret payload signature
        ⊎ ((post hmac sha256 parse iso secret payload signature now s).0 ≡ s)
          × (((post hmac sha256 parse iso secret payload signature now s).1.status ≡ 400)
              ⊎ ((post hmac sha256 parse iso secret payload signature now s).1.status ≡ 401))
  unfolding post
  post_unverified none payload signature now s = inr (refl, inl refl)
  post_unverified (some k) payload signature now s = elim (Bool-cases (str_eq k "")) [
    | inl empty ↦ rw empty (inr (refl, inl refl))
    | inr named ↦ rw named (elim (check_signature_split k payload signature now s) [
      | inl same ↦ inl (k, refl, ground (arith, eq_iff k ""), same)
      | inr (kept, code) ↦ inr (kept, inr code)
    ])
  ]
