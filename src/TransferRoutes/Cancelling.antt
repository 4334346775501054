-- ===== src/TransferRoutes/Cancelling.antt =====
-- transfer-status/[reference]/route.ts: the status that is shown, against one that is replayed from
-- what happened to a transfer.
use stellar_dex_chat.Common.{
  ◌≡◌, ◌≢◌, String, Bool, true, false, Option, some, none, List, [], ◌∷◌, any, if◌then◌else◌,
  str_eq,
}
use stellar_dex_chat.Transfers.{
  TransferStatus, TransferStatusRecord, TransferStore, pending, cancelled, get_transfer_status,
}
use stellar_dex_chat.Webhook.{PaystackWebhookEvent, outcome, data_of, or_default}
use stellar_dex_chat.ApiSchemas.{InitiateTransferInput}
use stellar_dex_chat.Payout.{Outcome, returned, thrown}
use stellar_dex_chat.TransferRoutes.{Service}
use stellar_dex_chat.TransferRoutes.Requests.{transfer_reference, finish_transfer, cancel}
use stellar_dex_chat.TransferRoutes.Settling.{notify}

-- What can happen to the transfers: the provider answers an initiation, the webhook reports, a client
-- cancels.
pub data Change : Type 0 where
  initiated : InitiateTransferInput → Option String → Outcome → String → Change
  notified : PaystackWebhookEvent → String → Change
  cancelled_by_client : String → String → Change

unfoldable pub perform : Change → Service → Service
perform (initiated input session ended updated_at) s =
    (finish_transfer input session ended updated_at s).0
perform (notified e updated_at) s = notify e updated_at s
perform (cancelled_by_client reference updated_at) s = (cancel reference updated_at s).0

unfoldable pub perform_all : List Change → Service → Service
perform_all [] s = s
perform_all (c ∷ cs) s = perform_all cs (perform c s)

-- The specification: one status for each reference, and a cancellation is final.
abbrev pub Board : Type 0
Board = String → TransferStatus

abbrev pub advance : TransferStatus → TransferStatus → TransferStatus
advance cancelled new = cancelled
advance _ new = new

abbrev pub mark : String → TransferStatus → Board → Board
mark reference status board = λ k. if str_eq reference k then advance (board k) status else board k

abbrev pub mark_if : String → Option TransferStatus → Board → Board
mark_if reference none board = board
mark_if reference (some status) board = mark reference status board

abbrev pub replay : Change → Board → Board
replay (initiated input session (returned fields) updated_at) board =
    mark (transfer_reference fields input) pending board
replay (initiated input session (thrown failure) updated_at) board = board
replay (notified e updated_at) board =
    mark_if (or_default (data_of e.payload_data).reference "") (outcome e.event) board
replay (cancelled_by_client reference updated_at) board = mark reference cancelled board

unfoldable pub replay_all : List Change → Board → Board
replay_all [] board = board
replay_all (c ∷ cs) board = replay_all cs (replay c board)

abbrev pub is_in : String → List String → Bool
is_in k ks = any (λ j. str_eq j k) ks

abbrev pub stored_status : Option TransferStatusRecord → TransferStatus
stored_status none = pending
stored_status (some r) = r.status

abbrev pub shown : Bool → TransferStatus → TransferStatus
shown true status = cancelled
shown false status = status

-- The store and the set fit the board: whoever is stored as cancelled is in the set.
abbrev pub Fits : TransferStore → List String → Board → Type 0
Fits transfers ks board =
    (k : String)
    → k ≢ ""
    → (stored_status (get_transfer_status k transfers) ≡ cancelled → is_in k ks ≡ true)
      × (board k ≡ shown (is_in k ks) (stored_status (get_transfer_status k transfers)))
