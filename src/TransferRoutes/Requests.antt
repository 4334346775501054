-- ===== src/TransferRoutes/Requests.antt =====
-- The handlers of each route: initiate-transfer/route.ts, create-recipient/route.ts,
-- verify-account/route.ts, transfer-status/route.ts and transfer-status/[reference]/route.ts.
use stellar_dex_chat.Common.{
  ℕ, String, Option, none, some, List, [], ◌∷◌, ◌++◌, ◌⊎◌, any, if◌then◌else◌, str_eq,
}
use stellar_dex_chat.Transfers.{
  TransferStatus, TransferStatusRecord, pending, cancelled, get_transfer_status,
  set_transfer_status,
}
use stellar_dex_chat.Webhook.{session_of}
use stellar_dex_chat.ApiSchemas.{
  Field, Fields, Body, given, string, read, fields_of, InitiateTransferInput, CreateRecipientInput,
  VerifyAccountInput, initiate_transfer_schema, create_recipient_schema, verify_account_schema,
  transfer_status_schema,
}
use stellar_dex_chat.Payout.{
  Generated, Outcome, returned, thrown, initiate_transfer, create_recipient, verify_account,
  check_transfer_status,
}
use stellar_dex_chat.TransferRoutes.{
  Service, Answer, refused, granted, Environment, initiate_route, recipient_route, verify_route,
  status_route, begin, caught, caught_verifying,
}

-- `POST` of initiate-transfer, up to the await.
unfoldable pub begin_transfer :
    Environment
    → Generated
    → String
    → ℕ
    → Body
    → Service
    → Service × (Answer ⊎ InitiateTransferInput)
begin_transfer env g ip now body s =
    begin env initiate_route initiate_transfer_schema (initiate_transfer env.paystack_secret_key g)
      ip now body s

-- `typeof value === 'string' && value ? value : fallback`
abbrev pub text_or : Field → String → String
text_or (string s) fallback = if str_eq s "" then fallback else s
text_or _ fallback = fallback

-- The reference that the provider answered with, or else the client's.
unfoldable pub transfer_reference : Fields → InitiateTransferInput → String
transfer_reference fields input =
    text_or (read "reference" fields) (text_or (given input.reference) "")

-- `clientSessionId`, read from the raw body.
abbrev pub text_of : Field → Option String
text_of (string s) = some s
text_of _ = none

abbrev pub session_in : Option Fields → Option String
session_in none = none
session_in (some fields) = text_of (read "clientSessionId" fields)

unfoldable pub client_session_id : Body → Option String
client_session_id body = session_in (fields_of body)

abbrev pub pending_record : String → ℕ → String → Option String → TransferStatusRecord
pending_record reference amount updated_at session = record {
  reference = reference;
  status = pending;
  amount = some amount;
  failure_reason = none;
  updated_at = updated_at;
  client_session_id = session;
}

-- Writes a record into the store of the transfers.
abbrev pub store : TransferStatusRecord → Service → Service
store r s = record s {
  server = record (s.server) { transfers = set_transfer_status r s.server.transfers };
}

unfoldable pub remember :
    String → InitiateTransferInput → Option String → String → Service → Service
remember reference input session updated_at s =
    if str_eq reference ""
    then s
    else store (pending_record reference input.amount updated_at session) s

-- `POST` of initiate-transfer from the provider's answer on.
unfoldable pub finish_transfer :
    InitiateTransferInput → Option String → Outcome → String → Service → Service × Answer
finish_transfer input session (returned fields) updated_at s =
    (remember (transfer_reference fields input) input session updated_at s, granted fields)
finish_transfer input session (thrown failure) updated_at s =
    (s, refused 500 "Failed to initiate transfer. Please try again.")

unfoldable pub begin_recipient :
    Environment
    → Generated
    → String
    → ℕ
    → Body
    → Service
    → Service × (Answer ⊎ CreateRecipientInput)
begin_recipient env g ip now body s =
    begin env recipient_route create_recipient_schema (create_recipient env.paystack_secret_key g)
      ip now body s

unfoldable pub finish_recipient : Outcome → Answer
finish_recipient (returned fields) = granted fields
finish_recipient (thrown failure) = caught recipient_route failure

unfoldable pub begin_verification :
    Environment
    → (String → Field)
    → String
    → ℕ
    → Body
    → Service
    → Service × (Answer ⊎ VerifyAccountInput)
begin_verification env parse_int ip now body s =
    begin env verify_route verify_account_schema (verify_account env.paystack_secret_key parse_int)
      ip now body s

unfoldable pub finish_verification : Outcome → Answer
finish_verification (returned fields) = granted fields
finish_verification (thrown failure) = caught_verifying failure

unfoldable pub begin_status :
    Environment → String → ℕ → Body → Service → Service × (Answer ⊎ String)
begin_status env ip now body s =
    begin env status_route transfer_status_schema (check_transfer_status env.paystack_secret_key) ip
      now body s

unfoldable pub finish_status : Outcome → Answer
finish_status (returned fields) = granted fields
finish_status (thrown failure) = caught status_route failure

-- `amount ?? 0`
abbrev pub or_zero : Option ℕ → ℕ
or_zero none = 0
or_zero (some n) = n

abbrev pub amount_of : Option TransferStatusRecord → ℕ
amount_of none = 0
amount_of (some r) = or_zero r.amount

abbrev pub failure_of : Option TransferStatusRecord → Option String
failure_of none = none
failure_of (some r) = r.failure_reason

abbrev pub cancelled_record : String → String → Option TransferStatusRecord → TransferStatusRecord
cancelled_record reference updated_at existing = record {
  reference = reference;
  status = cancelled;
  amount = some (amount_of existing);
  failure_reason = failure_of existing;
  updated_at = updated_at;
  client_session_id = session_of existing;
}

-- `set.add(reference)`
abbrev pub add_to_set : String → List String → List String
add_to_set k ks = if any (λ j. str_eq j k) ks then ks else ks ++ k ∷ []

-- `POST` of transfer-status/[reference].
unfoldable pub cancel : String → String → Service → Service × Answer
cancel reference updated_at s =
    if str_eq reference "" then (s, refused 400 "Reference is required") else (
      record (store
          (cancelled_record reference updated_at (get_transfer_status reference s.server.transfers))
          s) { cancelled_transfers = add_to_set reference s.cancelled_transfers },
      granted (
          ("reference", string reference)
          ∷ ("status", string "cancelled")
          ∷ ("message", string "Transfer cancellation requested successfully")
          ∷ []),
    )

-- What `GET` of transfer-status/[reference] answers with.
pub data StatusReply : Type 0 where
  no_reference : StatusReply
  cancelled_with : ℕ → StatusReply
  stored : TransferStatusRecord → StatusReply
  not_stored : StatusReply

abbrev pub or_not_stored : Option TransferStatusRecord → StatusReply
or_not_stored none = not_stored
or_not_stored (some r) = stored r

unfoldable pub get_status : String → Service → StatusReply
get_status reference s =
    if str_eq reference ""
    then no_reference
    else if any (λ j. str_eq j reference) s.cancelled_transfers
    then cancelled_with (amount_of (get_transfer_status reference s.server.transfers))
    else or_not_stored (get_transfer_status reference s.server.transfers)

-- The status that the reply shows; a transfer that is not stored is shown as pending.
abbrev pub status_of : StatusReply → Option TransferStatus
status_of no_reference = none
status_of (cancelled_with amount) = some cancelled
status_of (stored r) = some r.status
status_of not_stored = some pending
