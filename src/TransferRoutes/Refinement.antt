-- ===== src/TransferRoutes/Refinement.antt =====
-- transfer-status/[reference]/route.ts: the status that is shown is the one of the specification.
use stellar_dex_chat.Common.{
  ◌≡◌, ◌≢◌, ◌∙◌, refl, sym, ap, String, Bool, true, false, Option, some, none, List, [], ◌∷◌, arith,
  inl, inr, any-append_one, if◌then◌else◌, str_eq, eq_iff, Bool-cases, get-put, get,
}
use stellar_dex_chat.Transfers.{
  TransferStatus, TransferStatusRecord, TransferStore, pending, success, failed, reversed,
  cancelled, get_transfer_status, set_transfer_status,
}
use stellar_dex_chat.Webhook.{
  PaystackWebhookEvent, outcome, data_of, or_default, process_event, next_record,
}
use stellar_dex_chat.Webhook.Outcomes.{settled}
use stellar_dex_chat.ApiSchemas.{InitiateTransferInput}
use stellar_dex_chat.Payout.{returned, thrown}
use stellar_dex_chat.TransferRoutes.{Service}
use stellar_dex_chat.TransferRoutes.Requests.{
  transfer_reference, finish_transfer, remember, cancel, add_to_set, get_status, status_of,
  cancelled_with, or_not_stored, amount_of, pending_record, cancelled_record,
}
use stellar_dex_chat.TransferRoutes.Settling.{notify}
use stellar_dex_chat.TransferRoutes.Cancelling.{
  Change, initiated, notified, cancelled_by_client, perform, perform_all, Board, advance, mark,
  mark_if, replay, replay_all, is_in, stored_status, shown, Fits,
}

shown_status :
    (b : Bool) (o : Option TransferStatusRecord)
    → status_of (if b then cancelled_with (amount_of o) else or_not_stored o)
      ≡ some (shown b (stored_status o))
shown_status true o = refl
shown_status false none = refl
shown_status false (some r) = refl

status_of-get_status :
    (k : String) (s : Service)
    → k ≢ ""
    → status_of (get_status k s)
      ≡ some (
          shown
            (is_in k s.cancelled_transfers)
            (stored_status (get_transfer_status k s.server.transfers)))
unfolding get_status
status_of-get_status k s named = elim (Bool-cases (str_eq k "")) [
  | inl empty ↦ absurd (named ((eq_iff k "").0 empty))
  | inr there ↦
      rw there
        (shown_status (is_in k s.cancelled_transfers) (get_transfer_status k s.server.transfers))
]

advance_cancelled : (status : TransferStatus) → advance status cancelled ≡ cancelled
advance_cancelled pending = refl
advance_cancelled success = refl
advance_cancelled failed = refl
advance_cancelled reversed = refl
advance_cancelled cancelled = refl

advance-shown :
    (b : Bool) (old new : TransferStatus)
    → (old ≡ cancelled → b ≡ true)
    → advance (shown b old) new ≡ shown b new
advance-shown true old new h = refl
advance-shown false pending new h = refl
advance-shown false success new h = refl
advance-shown false failed new h = refl
advance-shown false reversed new h = refl
advance-shown false cancelled new h = ground (arith, h refl)

-- Writing a record that is not one of a cancellation.
Fits-write :
    (r : TransferStatusRecord) (transfers : TransferStore) (ks : List String) (board : Board)
    → r.status ≢ cancelled
    → Fits transfers ks board
    → Fits (set_transfer_status r transfers) ks (mark r.reference r.status board)
unfolding get_transfer_status set_transfer_status
Fits-write r transfers ks board alive fits k named =
    let (marked, agree) = fits k named in
    rw (get-put r.reference k r transfers) (elim (Bool-cases (str_eq r.reference k)) [
      | inl same ↦ rw same (λ e. absurd (alive e), rw agree (advance-shown _ _ r.status marked))
      | inr other ↦ rw other (marked, agree)
    ])

is_in-add_to_set :
    (k reference : String) (ks : List String)
    → is_in k (add_to_set reference ks) ≡ (if str_eq reference k then true else is_in k ks)
is_in-add_to_set k reference ks = elim (Bool-cases (is_in reference ks)) [
  | inl there ↦ rw there (elim (Bool-cases (str_eq reference k)) [
    | inl same ↦ rw same (rw ((eq_iff reference k).0 same) at there)
    | inr other ↦ rw other refl
  ])
  | inr new ↦ rw new (rw (any-append_one (λ j. str_eq j k) ks reference) (ground arith))
]

Fits-cancel :
    (r : TransferStatusRecord) (transfers : TransferStore) (ks : List String) (board : Board)
    → r.status ≡ cancelled
    → Fits transfers ks board
    → Fits
        (set_transfer_status r transfers)
        (add_to_set r.reference ks)
        (mark r.reference cancelled board)
unfolding get_transfer_status set_transfer_status
Fits-cancel r transfers ks board over fits k named =
    let (marked, agree) = fits k named in
    rw (get-put r.reference k r transfers, is_in-add_to_set k r.reference ks)
      (elim (Bool-cases (str_eq r.reference k)) [
        | inl same ↦ rw same (λ e. refl, advance_cancelled (board k))
        | inr other ↦ rw other (marked, agree)
      ])

outcome_alive : (o : Option String) → outcome o ≢ some cancelled
unfolding outcome
outcome_alive none e = ground arith
outcome_alive (some name) e = ground arith

-- No transfer is shown for the empty reference.
Fits-blank :
    (reference : String) (status : TransferStatus) (transfers : TransferStore) (ks : List String)
    (board : Board)
    → str_eq reference "" ≡ true
    → Fits transfers ks board
    → Fits transfers ks (mark reference status board)
Fits-blank reference status transfers ks board blank fits k named =
    elim (Bool-cases (str_eq reference k)) [
      | inl same ↦
          absurd (named (sym ((eq_iff reference k).0 same) ∙ (eq_iff reference "").0 blank))
      | inr other ↦ rw other (fits k named)
    ]

abbrev pub Refines : Service → Board → Type 0
Refines s board = Fits s.server.transfers s.cancelled_transfers board

remember-Refines :
    (reference : String) (input : InitiateTransferInput) (session : Option String)
    (updated_at : String) (s : Service) (board : Board)
    → Refines s board
    → Refines (remember reference input session updated_at s) (mark reference pending board)
unfolding remember
remember-Refines reference input session updated_at s board fits =
    elim (Bool-cases (str_eq reference "")) [
      | inl blank ↦
          rw blank
            (Fits-blank reference pending s.server.transfers s.cancelled_transfers board blank fits)
      | inr named ↦ rw named (
          Fits-write (pending_record reference input.amount updated_at session) s.server.transfers
            s.cancelled_transfers board (λ e. ground arith) fits)
    ]

notify-Refines :
    (e : PaystackWebhookEvent) (updated_at : String) (s : Service) (board : Board)
    (reported : Option TransferStatus)
    → outcome e.event ≡ reported
    → Refines s board
    → Refines
        (notify e updated_at s)
        (mark_if (or_default (data_of e.payload_data).reference "") reported board)
unfolding process_event
notify-Refines e updated_at s board none h fits = rw (h, process_event) fits
notify-Refines e updated_at s board (some status) h fits =
    unfold next_record in
    rw (h, process_event)
      (Fits-write (settled e status updated_at s.server) s.server.transfers s.cancelled_transfers
        board (λ dead. outcome_alive e.event (h ∙ ap some dead)) fits)

cancel-Refines :
    (reference updated_at : String) (s : Service) (board : Board)
    → Refines s board
    → Refines (cancel reference updated_at s).0 (mark reference cancelled board)
unfolding cancel
cancel-Refines reference updated_at s board fits = elim (Bool-cases (str_eq reference "")) [
  | inl blank ↦
      rw blank
        (Fits-blank reference cancelled s.server.transfers s.cancelled_transfers board blank fits)
  | inr named ↦ rw named (
      Fits-cancel
        (cancelled_record reference updated_at (get_transfer_status reference s.server.transfers))
        s.server.transfers s.cancelled_transfers board refl fits)
]

perform-Refines :
    (c : Change) (s : Service) (board : Board)
    → Refines s board
    → Refines (perform c s) (replay c board)
unfolding perform finish_transfer
perform-Refines (initiated input session (returned fields) updated_at) s board fits =
    remember-Refines (transfer_reference fields input) input session updated_at s board fits
perform-Refines (initiated input session (thrown failure) updated_at) s board fits = fits
perform-Refines (notified e updated_at) s board fits =
    notify-Refines e updated_at s board (outcome e.event) refl fits
perform-Refines (cancelled_by_client reference updated_at) s board fits =
    cancel-Refines reference updated_at s board fits

perform_all-Refines :
    (cs : List Change) (s : Service) (board : Board)
    → Refines s board
    → Refines (perform_all cs s) (replay_all cs board)
unfolding perform_all replay_all
perform_all-Refines [] s board fits = fits
perform_all-Refines (c ∷ cs) s board fits =
    perform_all-Refines cs _ _ (perform-Refines c s board fits)

-- After any changes to a service that has neither stored nor cancelled a transfer, the status shown
-- for a reference is the one that the specification replays from the changes: pending at first, then
-- the last one reported, until a client cancels, which nothing undoes.
pub perform_all_lem :
    (cs : List Change) (s : Service) (k : String)
    → s.server.transfers ≡ []
    → s.cancelled_transfers ≡ []
    → k ≢ ""
    → status_of (get_status k (perform_all cs s)) ≡ some (replay_all cs (λ j. pending) k)
perform_all_lem cs s k no_transfers no_cancelled named =
    let fits : Refines s (λ j. pending) = λ j named.
      rw (no_transfers, no_cancelled)
        (unfold get_transfer_status get in (λ e. ground arith, refl)) in
    status_of-get_status k (perform_all cs s) named
    ∙ ap some (sym (perform_all-Refines cs s (λ j. pending) fits k named).1)
