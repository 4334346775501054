-- ===== src/TransferRoutes/Tests.antt =====
-- The routes of transfers at concrete requests.
use stellar_dex_chat.Common.{
  ◌≡◌, ◌≤◌, ◌⊎◌, refl, inl, inr, true, List, ◌+◌, ◌≢◌, none, some, [], ◌∷◌, arith, eq_iff, length,
  get,
}
use stellar_dex_chat.Transfers.{pending, success, cancelled, get_transfer_status}
use stellar_dex_chat.Webhook.{PaystackWebhookEvent, outcome}
use stellar_dex_chat.Webhook.Outcomes.{settled}
use stellar_dex_chat.ApiSchemas.{
  Fields, InitiateTransferInput, string, number, object, no_object, initiate_transfer_schema,
}
use stellar_dex_chat.ApiSchemas.Validity.{IsTransfer}
use stellar_dex_chat.Payout.{Generated, returned, initiate_transfer, is_supported}
use stellar_dex_chat.TransferRoutes.{Service, Answer, Environment, initiate_route}
use stellar_dex_chat.TransferRoutes.Requests.{
  begin_transfer, finish_transfer, transfer_reference, pending_record, get_status, status_of,
}
use stellar_dex_chat.TransferRoutes.Admission.{
  counted, called, only_counted, IsRefused, begin_transfer_lem,
}
use stellar_dex_chat.TransferRoutes.Limits.{begin_all, transfers_limited}
use stellar_dex_chat.TransferRoutes.Settling.{notify, early_outcome_lost}
use stellar_dex_chat.TransferRoutes.Cancelling.{
  Change, initiated, notified, cancelled_by_client, perform_all, replay_all,
}
use stellar_dex_chat.TransferRoutes.Refinement.{perform_all_lem}

abbrev environment : Environment
environment = record { payout_provider = none; paystack_secret_key = some "sk" }

abbrev generated : Generated
generated = record { reference = "tx_1"; code = "c"; id = 7; now = "today" }

abbrev empty_service : Service
empty_service = record {
  limits = [];
  server = record { replay = []; transfers = []; listeners = []; published = [] };
  cancelled_transfers = [];
  calls = [];
}

abbrev transfer_fields : Fields
transfer_fields =
    ("source", string "balance")
    ∷ ("amount", number 50)
    ∷ ("recipient", string "RCP_1")
    ∷ ("reference", string "tx_9")
    ∷ []

abbrev transfer_input : InitiateTransferInput
transfer_input = record {
  source = "balance";
  reason = none;
  amount = 50;
  recipient = "RCP_1";
  reference = some "tx_9";
}

abbrev answer_fields : Fields
answer_fields = ("reference", string "tx_9") ∷ []

abbrev success_event : PaystackWebhookEvent
success_event = record {
  event = some "transfer.success";
  payload_data = some (record {
    id = some "1";
    reference = some "tx_9";
    amount = some 5000;
    failure_reason = none;
  });
}

begin_transfer_lem_example :
    ((input : InitiateTransferInput) × ((counted initiate_route "ip" 5 empty_service).1 ≡ none)
      × IsTransfer (object transfer_fields) input
      × (is_supported environment.payout_provider ≡ true)
      × (begin_transfer environment generated "ip" 5 (object transfer_fields) empty_service ≡ (
        called initiate_route "ip" 5
            (initiate_transfer environment.paystack_secret_key generated input)
            empty_service,
        inr input,
      )))
    ⊎ ((answer : Answer) × IsRefused environment initiate_route initiate_transfer_schema "ip" 5
          (object transfer_fields)
          empty_service
          answer
        × (begin_transfer environment generated "ip" 5 (object transfer_fields) empty_service
            ≡ (only_counted initiate_route "ip" 5 empty_service, inl answer)))
begin_transfer_lem_example =
    begin_transfer_lem environment generated "ip" 5 (object transfer_fields) empty_service

transfers_limited_example :
    length
      (begin_all environment generated "ip"
        ((5, object transfer_fields) ∷ (6, object transfer_fields) ∷ (7, no_object) ∷ [])
        empty_service).calls
    ≤ 0 + 3
transfers_limited_example =
    transfers_limited environment generated "ip" 5 (object transfer_fields)
      ((6, object transfer_fields) ∷ (7, no_object) ∷ []) empty_service (inl (unfold get in refl))
      ((omega arith, omega arith), ((omega arith, omega arith), tt))

named_reference : transfer_reference answer_fields transfer_input ≡ "tx_9"
unfolding transfer_reference get
named_reference = refl

not_blank : transfer_reference answer_fields transfer_input ≢ ""
not_blank e = ground (arith, named_reference, eq_iff "tx_9" "")

early_outcome_lost_example :
    (get_transfer_status
        (transfer_reference answer_fields transfer_input)
        (notify success_event "a" empty_service).server.transfers
      ≡ some (settled success_event success "a" empty_service.server))
    × (get_transfer_status
          (transfer_reference answer_fields transfer_input)
          (finish_transfer transfer_input
            (some "s")
            (returned answer_fields)
            "b"
            (notify success_event "a" empty_service)).0.server.transfers
        ≡ some (pending_record (transfer_reference answer_fields transfer_input) 50 "b" (some "s")))
early_outcome_lost_example =
    early_outcome_lost success_event success transfer_input (some "s") answer_fields "a" "b"
      empty_service (unfold outcome in refl) (rw named_reference refl) not_blank

abbrev changes : List Change
changes =
    initiated transfer_input (some "s") (returned answer_fields) "a"
    ∷ cancelled_by_client "tx_9" "b"
    ∷ notified success_event "c"
    ∷ []

stays_cancelled : replay_all changes (λ j. pending) "tx_9" ≡ cancelled
unfolding replay_all outcome transfer_reference get
stays_cancelled = refl

perform_all_lem_example :
    status_of (get_status "tx_9" (perform_all changes empty_service))
    ≡ some (replay_all changes (λ j. pending) "tx_9")
perform_all_lem_example =
    perform_all_lem changes empty_service "tx_9" refl refl (λ e. ground (arith, eq_iff "tx_9" ""))
