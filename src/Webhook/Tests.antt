-- ===== src/Webhook/Tests.antt =====
-- The webhook's handler at concrete inputs, with stand-ins for the hash functions and the decoder.
use Prim.Native.String
use stellar_dex_chat.Common.{
  ℕ, ◌≡◌, refl, ◌⊎◌, String, Option, none, some, [], ◌∷◌, ◌++◌, map, arith, str_eq, eq_iff,
  if◌then◌else◌, get, put,
}
use stellar_dex_chat.Transfers.{
  pending, failed, TransferStatusRecord, get_transfer_status, is_replay_event, prune_replay_cache,
  drop_oldest,
}
use stellar_dex_chat.Webhook.{
  PaystackWebhookData, PaystackWebhookEvent, Server, process_event, post, handle_verified, answer,
  replay_key,
}
use stellar_dex_chat.Webhook.Auth.{IsVerified, post_unverified}
use stellar_dex_chat.Webhook.Duplicates.{post_all, signed_post, IsDropped, same_key-IsDropped}
use stellar_dex_chat.Webhook.Outcomes.{fails, known, listening, process_event_lem}

abbrev hmac : String → String → String
hmac k payload = String.◌++◌ k payload

abbrev sha : String → String
sha payload = payload

abbrev event_named : String → PaystackWebhookEvent
event_named name = record {
  event = some name;
  payload_data =
      some (record {
        id = some "7";
        reference = some "ref";
        amount = some 500;
        failure_reason = none;
      });
}

abbrev decode : String → Option (Option PaystackWebhookEvent)
decode payload =
    if str_eq payload "s"
    then some (some (event_named "transfer.success"))
    else if str_eq payload "r"
    then some (some (event_named "transfer.reversed"))
    else none

abbrev iso : ℕ → String
iso now = "2026-01-01T00:00:00.000Z"

abbrev stored : TransferStatusRecord
stored = record {
  reference = "ref";
  status = pending;
  amount = some 500;
  failure_reason = none;
  updated_at = "2026-01-01T00:00:00.000Z";
  client_session_id = some "session";
}

abbrev server : Server
server = record {
  replay = [];
  transfers = ("ref", stored) ∷ [];
  listeners = ("session", 4 ∷ 9 ∷ []) ∷ [];
  published = [];
}

post_unverified_example :
    IsVerified hmac sha decode iso (some "key") "s" (some "forged")
    ⊎ ((post hmac sha decode iso (some "key") "s" (some "forged") 5 server).0 ≡ server)
      × (((post hmac sha decode iso (some "key") "s" (some "forged") 5 server).1.status ≡ 400)
          ⊎ ((post hmac sha decode iso (some "key") "s" (some "forged") 5 server).1.status ≡ 401))
post_unverified_example =
    post_unverified hmac sha decode iso (some "key") "s" (some "forged") 5 server

abbrev before : Server
before = post_all hmac sha decode iso "k" [] (signed_post hmac sha decode iso "k" "s" 1000 server).0

-- A reversal with the same id as the success before it is dropped.
same_key-IsDropped_example : IsDropped before (signed_post hmac sha decode iso "k" "r" 2000 before)
unfolding post handle_verified answer replay_key is_replay_event prune_replay_cache drop_oldest get
    put
same_key-IsDropped_example =
    same_key-IsDropped hmac sha decode iso "k" "s" "r" 1000 2000
      (some (event_named "transfer.success")) (event_named "transfer.reversed") [] server
      (ground (arith, eq_iff "k" "")) (ground (arith, eq_iff "ks" ""))
      (ground (arith, eq_iff "kr" "")) refl refl refl refl tt (omega arith) (omega arith)

-- A failure of a transfer that belongs to a session with two listeners.
process_event_lem_example :
    let d : PaystackWebhookData = record {
      id = some "8";
      reference = some "ref";
      amount = some 500;
      failure_reason = some "no account";
    } in
    let s' =
      process_event
        (record { event = some "transfer.failed"; payload_data = some d })
        "now"
        server in
    (get_transfer_status "ref" s'.transfers ≡ (
      if str_eq "ref" "ref"
      then some (record {
        reference = "ref";
        status = failed;
        amount = some 500;
        failure_reason = some "no account";
        updated_at = "now";
        client_session_id = some "session";
      })
      else get_transfer_status "ref" server.transfers))
    × (s'.published
        ≡ server.published
          ++ map
              (λ l. (
                l,
                record {
                  reference = "ref";
                  status = failed;
                  updated_at = "now";
                  amount = some 500;
                  failure_reason = some "no account";
                },
              ))
              (4 ∷ 9 ∷ []))
process_event_lem_example =
    process_event_lem "transfer.failed" "now" "ref" "ref" failed (some "8") (some "no account")
      (some "no account") (some "session") (some 500) (4 ∷ 9 ∷ []) server fails
      (unfold get_transfer_status get in known stored)
      (listening {session = "session"} {ls = 4 ∷ 9 ∷ []}
        (λ e. ground (arith, (eq_iff "session" "").1 e)) (unfold get in refl))
