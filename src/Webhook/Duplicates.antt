-- ===== src/Webhook/Duplicates.antt =====
-- route.ts: a delivery whose replay key was seen before.
use stellar_dex_chat.Common.{
  ℕ, ◌+◌, ◌≤◌, ◌<◌, ◌≡◌, ◌≢◌, inl, inr, String, Bool, true, false, Option, none, some, List, [],
  ◌∷◌, arith, str_eq, eq_iff, Bool-cases, Option-cases, All, length,
}
use stellar_dex_chat.Transfers.{is_replay_event, replay_ttl_ms, replay_max_size}
use stellar_dex_chat.Transfers.Replay.{
  Keeps, Keeps-is_replay_event, Keeps-detected, Keeps-mono, is_replay_event-Keeps,
}
use stellar_dex_chat.Webhook.{
  PaystackWebhookEvent, Server, Response, replay_key, answer, process_event, handle_verified,
  check_signature, post, acknowledge, received, received_duplicate,
}

pub record Request : Type 0 where
  pub payload : String
  pub signature : Option String
  pub time : ℕ

-- A delivery that is answered as a duplicate and has no effect.
abbrev pub IsDropped : Server → Server × Response → Type 0
IsDropped s (s', response) =
    (response ≡ acknowledge received_duplicate)
    × (s'.transfers ≡ s.transfers)
    × (s'.published ≡ s.published)

module _ (hmac : String → String → String) (sha256 : String → String)
    (parse : String → Option (Option PaystackWebhookEvent)) (iso : ℕ → String) where
  abbrev handle : String → ℕ → Server → Server × Response
  handle = handle_verified hmac sha256 parse iso

  -- Requests in a row, under one secret.
  unfoldable pub post_all : String → List Request → Server → Server
  post_all k [] s = s
  post_all k (r ∷ rs) s =
      post_all k rs (post hmac sha256 parse iso (some k) r.payload r.signature r.time s).0

  abbrev pub signed_post : String → String → ℕ → Server → Server × Response
  signed_post k payload now s =
      post hmac sha256 parse iso (some k) payload (some (hmac k payload)) now s

  answer-replay :
      (seen : Bool) (e : Option PaystackWebhookEvent) (updated_at : String) (s : Server)
      → (answer seen e updated_at s).0.replay ≡ s.replay
  unfolding answer process_event
  answer-replay seen e updated_at s = ground arith

  answer-received :
      (seen : Bool) (e : Option PaystackWebhookEvent) (updated_at : String) (s : Server)
      → (answer seen e updated_at s).1.body ≡ received
      → seen ≡ false
  unfolding answer
  answer-received seen e updated_at s h = ground arith

  module _ (key : String) (t : ℕ) where
    handle-Keeps :
        (n : ℕ) (payload : String) (now : ℕ) (s : Server)
        → now ≤ t + replay_ttl_ms
        → n < replay_max_size
        → Keeps key t n s.replay
        → Keeps key t (n + 1) (handle payload now s).0.replay
    unfolding handle_verified
    handle-Keeps n payload now s fresh room k = elim (Option-cases (parse payload)) [
      | inl bad ↦ rw (bad, handle_verified) (Keeps-mono key t n (n + 1) s.replay (omega arith) k)
      | inr (e, good) ↦
          rw (good, handle_verified)
            (rw answer-replay (
              Keeps-is_replay_event key t n (replay_key e (sha256 payload)) now s.replay fresh room
                k))
    ]

    check_signature-Keeps :
        (n : ℕ) (secret payload : String) (signature : Option String) (now : ℕ) (s : Server)
        → now ≤ t + replay_ttl_ms
        → n < replay_max_size
        → Keeps key t n s.replay
        → Keeps key t
            (n + 1)
            (check_signature hmac sha256 parse iso secret payload signature now s).0.replay
    unfolding check_signature
    check_signature-Keeps n secret payload none now s fresh room k =
        Keeps-mono key t n (n + 1) s.replay (omega arith) k
    check_signature-Keeps n secret payload (some sig) now s fresh room k =
        elim (Bool-cases (str_eq sig "")) [
          | inl empty ↦ rw empty (Keeps-mono key t n (n + 1) s.replay (omega arith) k)
          | inr there ↦ elim (Bool-cases (str_eq (hmac secret payload) sig)) [
            | inl same ↦ rw there (rw same (handle-Keeps n payload now s fresh room k))
            | inr other ↦ rw there (rw other (Keeps-mono key t n (n + 1) s.replay (omega arith) k))
          ]
        ]

    post-Keeps :
        (n : ℕ) (secret payload : String) (signature : Option String) (now : ℕ) (s : Server)
        → now ≤ t + replay_ttl_ms
        → n < replay_max_size
        → Keeps key t n s.replay
        → Keeps key t
            (n + 1)
            (post hmac sha256 parse iso (some secret) payload signature now s).0.replay
    unfolding post
    post-Keeps n secret payload signature now s fresh room k =
        elim (Bool-cases (str_eq secret "")) [
          | inl empty ↦ rw empty (Keeps-mono key t n (n + 1) s.replay (omega arith) k)
          | inr there ↦
              rw there (check_signature-Keeps n secret payload signature now s fresh room k)
        ]

    post_all-Keeps :
        (n : ℕ) (secret : String) (rs : List Request) (s : Server)
        → All (λ r. r.time ≤ t + replay_ttl_ms) rs
        → n + length rs ≤ replay_max_size
        → Keeps key t n s.replay
        → Keeps key t (n + length rs) (post_all secret rs s).replay
    unfolding post_all
    post_all-Keeps n secret [] s fresh room k = Keeps-mono key t n _ s.replay (omega arith) k
    post_all-Keeps n secret (r ∷ rs) s (fresh, later) room k =
        Keeps-mono key t (n + 1 + length rs) _ _ (omega arith) (
          post_all-Keeps (n + 1) secret rs _ later (omega arith)
            (post-Keeps n secret r.payload r.signature r.time s fresh (omega arith) k))

  post_signed :
      (k payload : String) (now : ℕ) (s : Server)
      → k ≢ ""
      → hmac k payload ≢ ""
      → post hmac sha256 parse iso (some k) payload (some (hmac k payload)) now s
        ≡ handle payload now s
  unfolding post
  post_signed k payload now s named hashed =
      ground
        (arith, eq_iff k "", eq_iff (hmac k payload) "", eq_iff (hmac k payload) (hmac k payload))

  received_new :
      (payload : String) (now : ℕ) (s : Server) (e : Option PaystackWebhookEvent)
      → parse payload ≡ some e
      → (handle payload now s).1.body ≡ received
      → ((is_replay_event (replay_key e (sha256 payload)) now s.replay).1 ≡ false)
        × ((handle payload now s).0.replay
            ≡ (is_replay_event (replay_key e (sha256 payload)) now s.replay).0)
  unfolding handle_verified
  received_new payload now s e good got = (
    answer-received _ e _ _ (rw (good, handle_verified) at got),
    rw (good, handle_verified) (answer-replay _ e (iso now) _),
  )

  duplicate_dropped :
      (payload : String) (now : ℕ) (s : Server) (e : PaystackWebhookEvent)
      → parse payload ≡ some (some e)
      → (is_replay_event (replay_key (some e) (sha256 payload)) now s.replay).1 ≡ true
      → ((handle payload now s).1 ≡ acknowledge received_duplicate)
        × ((handle payload now s).0.transfers ≡ s.transfers)
        × ((handle payload now s).0.published ≡ s.published)
  unfolding handle_verified answer
  duplicate_dropped payload now s e good seen = (
    rw (good, handle_verified) (rw (seen, answer)),
    rw (good, handle_verified) (rw (seen, answer)),
    rw (good, handle_verified) (rw (seen, answer)),
  )

  -- After a signed delivery has been acknowledged as new, a second signed delivery whose replay key
  -- is the same, whatever the type of its event, is acknowledged as a duplicate and changes neither
  -- the stored transfers nor what was published, if it comes within fifteen minutes of the first and
  -- fewer than a thousand requests, none later than those fifteen minutes, stand between the two.
  pub same_key-IsDropped :
      (k p₁ p₂ : String) (t₁ t₂ : ℕ) (e₁ : Option PaystackWebhookEvent) (e₂ : PaystackWebhookEvent)
      (rs : List Request) (s : Server)
      → k ≢ ""
      → hmac k p₁ ≢ ""
      → hmac k p₂ ≢ ""
      → parse p₁ ≡ some e₁
      → parse p₂ ≡ some (some e₂)
      → replay_key e₁ (sha256 p₁) ≡ replay_key (some e₂) (sha256 p₂)
      → (signed_post k p₁ t₁ s).1.body ≡ received
      → All (λ r. r.time ≤ t₁ + replay_ttl_ms) rs
      → length rs < replay_max_size
      → t₂ ≤ t₁ + replay_ttl_ms
      → IsDropped
          (post_all k rs (signed_post k p₁ t₁ s).0)
          (signed_post k p₂ t₂ (post_all k rs (signed_post k p₁ t₁ s).0))
  same_key-IsDropped k p₁ p₂ t₁ t₂ e₁ e₂ rs s named h₁ h₂ good₁ good₂ same got fresh room soon =
      let first = post_signed k p₁ t₁ s named h₁ in
      let (new, stored) = received_new p₁ t₁ s e₁ good₁ (rw first at got) in
      let key = replay_key e₁ (sha256 p₁) in
      let kept = Keeps-mono key t₁ (0 + length rs) (length rs) _ (omega arith) (
        post_all-Keeps key t₁ 0 k rs (signed_post k p₁ t₁ s).0 fresh (omega arith)
          (rw (first, stored) (is_replay_event-Keeps key t₁ s.replay new))) in
      let seen = Keeps-detected key t₁ (length rs) t₂ _ soon room kept in
      rw (post_signed k p₂ t₂ _ named h₂) (duplicate_dropped p₂ t₂ _ e₂ good₂ (rw same at seen))
