-- ===== src/PaymentEvents.antt =====
-- Dechat/dex_with_fiat_frontend/src/lib/paymentStatusEvents.ts: the listeners of each client session.
-- A listener is named by a number, and a call of it is an entry of a log.
use stellar_dex_chat.Common.{
  ℕ, String, not, Option, none, some, List, [], ◌∷◌, ◌++◌, map, ◌==◌, if◌then◌else◌, filter, any,
  str_eq, get, put, delete,
}
use stellar_dex_chat.Transfers.{TransferStatus}

pub record PaymentStatusEvent : Type 0 where
  pub reference : String
  pub status : TransferStatus
  pub updated_at : String
  pub amount : Option ℕ
  pub failure_reason : Option String

abbrev pub Listeners : Type 0
Listeners = List (String × List ℕ)

abbrev pub or_empty : Option (List ℕ) → List ℕ
or_empty none = []
or_empty (some ls) = ls

-- `listeners.add(listener)` on a `Set`
abbrev pub add : ℕ → List ℕ → List ℕ
add l ls = if any (λ k. k == l) ls then ls else ls ++ l ∷ []

abbrev pub without : ℕ → List ℕ → List ℕ
without l ls = filter (λ k. not (k == l)) ls

unfoldable pub subscribe_to_payment_status : String → ℕ → Listeners → Listeners
subscribe_to_payment_status session l m = put session (add l (or_empty (get session m))) m

abbrev store_or_delete : String → List ℕ → Listeners → Listeners
store_or_delete session [] m = delete session m
store_or_delete session (l ∷ ls) m = put session (l ∷ ls) m

-- The function that `subscribeToPaymentStatus` returns.
unfoldable pub unsubscribe_from_payment_status : String → ℕ → Listeners → Listeners
unsubscribe_from_payment_status session l m = elim (get session m) [
  | none ↦ m
  | some current ↦ store_or_delete session (without l current) m
]

-- The calls that `publishPaymentStatus` makes, in order.
unfoldable pub publish_payment_status :
    Option String → PaymentStatusEvent → Listeners → List (ℕ × PaymentStatusEvent)
publish_payment_status none event m = []
publish_payment_status (some session) event m =
    if str_eq session ""
    then []
    else elim (get session m) [ none ↦ [] | some ls ↦ map (λ l. (l, event)) ls ]
