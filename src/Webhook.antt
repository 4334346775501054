-- ===== src/Webhook.antt =====
-- Dechat/dex_with_fiat_frontend/src/app/api/webhook/route.ts: the handler of Paystack's webhooks.
-- The hash functions of node's `crypto`, the decoding of JSON and the printing of dates are
-- parameters. Logging and tracing are left out: they change nothing that the handler reads.
pub mod Auth
pub mod Duplicates
pub mod Outcomes
mod Tests
use stellar_dex_chat.Common.{
  ℕ, String, Bool, true, false, Option, none, some, List, [], ◌∷◌, ◌++◌, if◌then◌else◌, str_eq,
}
use stellar_dex_chat.Transfers.{
  TransferStatus, success, failed, reversed, TransferStatusRecord, TransferStore,
  get_transfer_status, set_transfer_status, ReplayCache, is_replay_event,
}
use stellar_dex_chat.PaymentEvents.{PaymentStatusEvent, Listeners, publish_payment_status}

-- A field is absent where the payload has none.
pub record PaystackWebhookData : Type 0 where
  pub id : Option String
  pub reference : Option String
  pub amount : Option ℕ
  pub failure_reason : Option String

pub record PaystackWebhookEvent : Type 0 where
  pub event : Option String
  pub payload_data : Option PaystackWebhookData

-- The state of the server: the two stores, the listeners, and the calls made to them.
pub record Server : Type 0 where
  pub replay : ReplayCache
  pub transfers : TransferStore
  pub listeners : Listeners
  pub published : List (ℕ × PaymentStatusEvent)

pub data Reply : Type 0 where
  message : String → Reply
  received : Reply
  received_duplicate : Reply

pub record Response : Type 0 where
  pub status : ℕ
  pub body : Reply

abbrev pub refuse : ℕ → String → Response
refuse code text = record { status = code; body = message text }

abbrev pub acknowledge : Reply → Response
acknowledge reply = record { status = 200; body = reply }

-- `text || fallback`
abbrev pub or_else : Option String → String → String
or_else none fallback = fallback
or_else (some s) fallback = if str_eq s "" then fallback else s

-- `text ?? fallback`
abbrev pub or_default : Option String → String → String
or_default none fallback = fallback
or_default (some s) fallback = s

abbrev pub empty_data : PaystackWebhookData
empty_data = record { id = none; reference = none; amount = none; failure_reason = none }

-- `event.data ?? {}`
abbrev pub data_of : Option PaystackWebhookData → PaystackWebhookData
data_of none = empty_data
data_of (some d) = d

-- `event?.data?.id || event?.data?.reference || payloadHash`; the decoded payload may be `null`.
unfoldable pub replay_key : Option PaystackWebhookEvent → String → String
replay_key none hash = hash
replay_key (some e) hash =
    or_else (data_of e.payload_data).id (or_else (data_of e.payload_data).reference hash)

-- The cases of the `switch` over `event.event`.
unfoldable pub outcome : Option String → Option TransferStatus
outcome none = none
outcome (some name) =
    if str_eq name "transfer.success"
    then some success
    else if str_eq name "transfer.failed"
    then some failed
    else if str_eq name "transfer.reversed"
    then some reversed
    else none

-- Only a failure carries its reason.
abbrev pub reason_of : TransferStatus → PaystackWebhookData → Option String
reason_of failed d = d.failure_reason
reason_of _ d = none

abbrev pub session_of : Option TransferStatusRecord → Option String
session_of none = none
session_of (some r) = r.client_session_id

unfoldable pub next_record :
    TransferStatus → PaystackWebhookData → String → TransferStore → TransferStatusRecord
next_record status d updated_at store = record {
  reference = or_default d.reference "";
  status = status;
  amount = d.amount;
  failure_reason = reason_of status d;
  updated_at = updated_at;
  client_session_id = session_of (get_transfer_status (or_default d.reference "") store);
}

abbrev pub event_of : TransferStatusRecord → PaymentStatusEvent
event_of r = record {
  reference = r.reference;
  status = r.status;
  updated_at = r.updated_at;
  amount = r.amount;
  failure_reason = r.failure_reason;
}

-- The body of a case: store the record and tell the listeners of its session.
unfoldable pub settle : TransferStatus → PaystackWebhookData → String → Server → Server
settle status d updated_at s =
    let r = next_record status d updated_at s.transfers in
    record s {
      transfers = set_transfer_status r s.transfers;
      published =
          s.published ++ publish_payment_status r.client_session_id (event_of r) s.listeners;
    }

unfoldable pub process_event : PaystackWebhookEvent → String → Server → Server
unfolding settle outcome
process_event e updated_at s = elim (outcome e.event) [
  | none ↦ s
  | some status ↦ settle status (data_of e.payload_data) updated_at s
]

-- What follows the check for a replay. Reading `event.event` of `null` throws.
unfoldable pub answer : Bool → Option PaystackWebhookEvent → String → Server → Server × Response
answer seen none updated_at s = (s, refuse 500 "Webhook processing failed")
answer true (some e) updated_at s = (s, acknowledge received_duplicate)
answer false (some e) updated_at s = (process_event e updated_at s, acknowledge received)

module _ (hmac : String → String → String) (sha256 : String → String)
    (parse : String → Option (Option PaystackWebhookEvent)) (iso : ℕ → String) where
  -- The part behind the check of the signature.
  unfoldable pub handle_verified : String → ℕ → Server → Server × Response
  handle_verified payload now s = elim (parse payload) [
    | none ↦ (s, refuse 400 "Webhook payload must be valid JSON")
    | some event ↦
        let checked = is_replay_event (replay_key event (sha256 payload)) now s.replay in
        answer checked.1 event (iso now) (record s { replay = checked.0 })
  ]

  unfoldable pub check_signature : String → String → Option String → ℕ → Server → Server × Response
  check_signature secret payload none now s = (s, refuse 401 "No signature provided")
  check_signature secret payload (some signature) now s =
      if str_eq signature ""
      then (s, refuse 401 "No signature provided")
      else if str_eq (hmac secret payload) signature
      then handle_verified payload now s
      else (s, refuse 401 "Invalid signature")

  -- `POST`: the configured secret, the payload, its signature header, and the time.
  unfoldable pub post : Option String → String → Option String → ℕ → Server → Server × Response
  unfolding check_signature
  post none payload signature now s = (s, refuse 400 "Webhook processing is not configured")
  post (some secret) payload signature now s =
      if str_eq secret ""
      then (s, refuse 400 "Webhook processing is not configured")
      else check_signature secret payload signature now s
