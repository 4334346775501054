-- ===== src/TransferRoutes/Settling.antt =====
-- initiate-transfer/route.ts from the provider's answer on, beside the webhook of the same transfer.
use stellar_dex_chat.Common.{
  ◌≡◌, ◌≢◌, ◌∙◌, refl, ap, String, Option, some, true, inl, inr, if◌then◌else◌, str_eq, eq_iff,
  eq_refl, Bool-cases, get-put,
}
use stellar_dex_chat.Transfers.{TransferStatus, get_transfer_status, set_transfer_status}
use stellar_dex_chat.Webhook.{PaystackWebhookEvent, outcome, data_of, or_default, process_event}
use stellar_dex_chat.Webhook.Outcomes.{settled, process_event-get}
use stellar_dex_chat.ApiSchemas.{Fields, InitiateTransferInput}
use stellar_dex_chat.Payout.{returned}
use stellar_dex_chat.TransferRoutes.{Service}
use stellar_dex_chat.TransferRoutes.Requests.{
  transfer_reference, pending_record, finish_transfer, remember,
}

-- The service after an event of the webhook has been handled.
abbrev pub notify : PaystackWebhookEvent → String → Service → Service
notify e updated_at s = record s { server = process_event e updated_at s.server }

-- Once the provider has answered, the transfer is stored as pending under the provider's reference, or
-- the client's where the provider gave none, with the amount and the session of the request, unless
-- neither has a reference; every other reference keeps its record.
pub finish_transfer-get :
    (input : InitiateTransferInput) (session : Option String) (fields : Fields)
    (updated_at reference : String) (s : Service)
    → transfer_reference fields input ≢ ""
    → get_transfer_status reference
        (finish_transfer input session (returned fields) updated_at s).0.server.transfers
      ≡ (if str_eq (transfer_reference fields input) reference
          then some
              (pending_record (transfer_reference fields input) input.amount updated_at session)
          else get_transfer_status reference s.server.transfers)
unfolding finish_transfer remember get_transfer_status set_transfer_status
finish_transfer-get input session fields updated_at reference s named =
    elim (Bool-cases (str_eq (transfer_reference fields input) "")) [
      | inl empty ↦ absurd (named ((eq_iff _ _).0 empty))
      | inr there ↦ rw there (get-put _ reference _ s.server.transfers)
    ]

-- If the webhook reports the outcome of a transfer before the provider's answer to its initiation has
-- been handled, the outcome is stored and then overwritten: the transfer ends as pending.
pub early_outcome_lost :
    (e : PaystackWebhookEvent) (status : TransferStatus) (input : InitiateTransferInput)
    (session : Option String) (fields : Fields) (t₁ t₂ : String) (s : Service)
    → outcome e.event ≡ some status
    → (data_of e.payload_data).reference ≡ some (transfer_reference fields input)
    → transfer_reference fields input ≢ ""
    → (get_transfer_status (transfer_reference fields input) (notify e t₁ s).server.transfers
        ≡ some (settled e status t₁ s.server))
      × (get_transfer_status
            (transfer_reference fields input)
            (finish_transfer input session (returned fields) t₂ (notify e t₁ s)).0.server.transfers
          ≡ some (pending_record (transfer_reference fields input) input.amount t₂ session))
early_outcome_lost e status input session fields t₁ t₂ s h same named =
    let key = transfer_reference fields input in
    let agree : str_eq (or_default (data_of e.payload_data).reference "") key ≡ true =
      (eq_iff _ _).1 (ap (λ o. or_default o "") same) in
    (
      process_event-get e status t₁ s.server key h ∙ rw agree refl,
      finish_transfer-get input session fields t₂ key (notify e t₁ s) named ∙ rw (eq_refl key) refl,
    )
