-- ===== src/Webhook/Outcomes.antt =====
-- route.ts: what an event that is handled stores and publishes.
use stellar_dex_chat.Common.{
  ℕ, ◌≡◌, refl, ◌∙◌, ap, ◌≢◌, inl, inr, String, Bool, true, false, Option, none, some, List, [],
  ◌++◌, map, arith, str_eq, eq_iff, if◌then◌else◌, Option-cases, get, get-put,
}
use stellar_dex_chat.Transfers.{
  TransferStatus, success, failed, reversed, TransferStatusRecord, get_transfer_status,
  set_transfer_status,
}
use stellar_dex_chat.PaymentEvents.{PaymentStatusEvent, Listeners, publish_payment_status}
use stellar_dex_chat.Webhook.{
  PaystackWebhookData, PaystackWebhookEvent, Server, outcome, data_of, or_default, reason_of,
  session_of, next_record, event_of, process_event,
}

-- The record that an event leaves behind for its reference.
abbrev pub settled : PaystackWebhookEvent → TransferStatus → String → Server → TransferStatusRecord
settled e status updated_at s = record {
  reference = or_default (data_of e.payload_data).reference "";
  status = status;
  amount = (data_of e.payload_data).amount;
  failure_reason = reason_of status (data_of e.payload_data);
  updated_at = updated_at;
  client_session_id =
      session_of
        (get_transfer_status (or_default (data_of e.payload_data).reference "") s.transfers);
}

-- An event that names an outcome writes the record of its reference, with the outcome's status, the
-- event's amount, its reason if it failed, and the session that was stored before; every other
-- reference keeps its record.
pub process_event-get :
    (e : PaystackWebhookEvent) (status : TransferStatus) (updated_at : String) (s : Server)
    (reference : String)
    → outcome e.event ≡ some status
    → get_transfer_status reference (process_event e updated_at s).transfers ≡ (
        if str_eq (settled e status updated_at s).reference reference
        then some (settled e status updated_at s)
        else get_transfer_status reference s.transfers)
unfolding process_event next_record get_transfer_status set_transfer_status
process_event-get e status updated_at s reference h =
    rw (h, process_event) (get-put _ reference _ s.transfers)

session-put :
    (r r' : TransferStatusRecord) (old : Option TransferStatusRecord) (same : Bool)
    → old ≡ some r
    → (same ≡ true → r'.client_session_id ≡ r.client_session_id)
    → session_of (if same then some r' else old) ≡ r.client_session_id
session-put r r' old true h k = k refl
session-put r r' old false h k = rw h

-- No event changes the session of a transfer that is stored.
pub process_event-session :
    (e : PaystackWebhookEvent) (updated_at : String) (s : Server) (reference : String)
    (r : TransferStatusRecord)
    → get_transfer_status reference s.transfers ≡ some r
    → session_of (get_transfer_status reference (process_event e updated_at s).transfers)
      ≡ r.client_session_id
process_event-session e updated_at s reference r stored = elim (Option-cases (outcome e.event)) [
  | inl other ↦ unfold process_event in rw (other, process_event) (rw stored)
  | inr (status, named) ↦ rw (process_event-get e status updated_at s reference named) (
      session-put r (settled e status updated_at s) _ _ stored (λ same.
        ap (λ k. session_of (get_transfer_status k s.transfers)) ((eq_iff _ _).0 same)
        ∙ ap session_of stored))
]

publish_lem :
    (session : String) (event : PaymentStatusEvent) (m : List (String × List ℕ)) (ls : List ℕ)
    → session ≢ ""
    → get session m ≡ some ls
    → publish_payment_status (some session) event m ≡ map (λ l. (l, event)) ls
unfolding publish_payment_status
publish_lem session event m ls named heard = ground (arith, eq_iff session "")

-- The names of the events that settle a transfer, with the status that each gives and what becomes of
-- the reason in the event.
pub data IsOutcome : String → TransferStatus → Option String → Option String → Type 0 where
  succeeds : {reason : Option String} → IsOutcome "transfer.success" success reason none
  fails : {reason : Option String} → IsOutcome "transfer.failed" failed reason reason
  reverses : {reason : Option String} → IsOutcome "transfer.reversed" reversed reason none

-- The session of a transfer, from the record that is stored for it, if there is one.
pub data IsOwner : Option TransferStatusRecord → Option String → Type 0 where
  unknown : IsOwner none none
  known : (r : TransferStatusRecord) → IsOwner (some r) r.client_session_id

-- The listeners that hear of a transfer, from the session it belongs to.
pub data IsHeard (m : Listeners) : Option String → List ℕ → Type 0 where
  no_session : IsHeard m none []
  nobody : {session : String} → get session m ≡ none → IsHeard m (some session) []
  listening :
      {session : String} {ls : List ℕ}
      → session ≢ ""
      → get session m ≡ some ls
      → IsHeard m (some session) ls

IsOutcome-outcome :
    (name : String) (status : TransferStatus) (reason kept : Option String)
    → IsOutcome name status reason kept
    → outcome (some name) ≡ some status
unfolding outcome
IsOutcome-outcome name status reason kept succeeds = refl
IsOutcome-outcome name status reason kept fails = refl
IsOutcome-outcome name status reason kept reverses = refl

IsOutcome-reason_of :
    (name : String) (status : TransferStatus) (d : PaystackWebhookData)
    (reason kept : Option String)
    → d.failure_reason ≡ reason
    → IsOutcome name status reason kept
    → reason_of status d ≡ kept
IsOutcome-reason_of name status d reason kept e succeeds = refl
IsOutcome-reason_of name status d reason kept e fails = e
IsOutcome-reason_of name status d reason kept e reverses = refl

IsOwner-session_of :
    (old : Option TransferStatusRecord) (session : Option String)
    → IsOwner old session
    → session_of old ≡ session
IsOwner-session_of old session unknown = refl
IsOwner-session_of old session (known r) = refl

IsHeard-publish :
    (m : Listeners) (session : Option String) (ls : List ℕ) (event : PaymentStatusEvent)
    → IsHeard m session ls
    → publish_payment_status session event m ≡ map (λ l. (l, event)) ls
unfolding publish_payment_status
IsHeard-publish m session ls event no_session = refl
IsHeard-publish m session ls event (nobody {session = s} quiet) = ground (arith, quiet)
IsHeard-publish m session ls event (listening {session = s} named heard) =
    publish_lem s event m ls named heard

process_event-calls :
    (e : PaystackWebhookEvent) (status : TransferStatus) (updated_at : String) (s : Server)
    → outcome e.event ≡ some status
    → (process_event e updated_at s).published
      ≡ s.published
        ++ publish_payment_status
            (settled e status updated_at s).client_session_id
            (event_of (settled e status updated_at s))
            s.listeners
unfolding process_event next_record
process_event-calls e status updated_at s h = rw (h, process_event) refl

-- An event named `transfer.success`, `transfer.failed` or `transfer.reversed` with a reference gives the
-- reference a record with the status of that name, the event's amount, the event's reason if the
-- transfer failed and no reason otherwise, the time, and the session that the stored record had, or none
-- if nothing was stored. Every other reference keeps its record. The listeners of the session, and
-- nobody else, are called with that status, amount, reason and time.
pub process_event_lem :
    (name updated_at reference other : String) (status : TransferStatus)
    (id reason kept session : Option String) (amount : Option ℕ) (ls : List ℕ) (s : Server)
    → IsOutcome name status reason kept
    → IsOwner (get_transfer_status reference s.transfers) session
    → IsHeard s.listeners session ls
    → let d : PaystackWebhookData = record {
      id = id;
      reference = some reference;
      amount = amount;
      failure_reason = reason;
    } in
      let s' = process_event (record { event = some name; payload_data = some d }) updated_at s in
      (get_transfer_status other s'.transfers ≡ (
        if str_eq reference other
        then some (record {
          reference = reference;
          status = status;
          amount = amount;
          failure_reason = kept;
          updated_at = updated_at;
          client_session_id = session;
        })
        else get_transfer_status other s.transfers))
      × (s'.published
          ≡ s.published
            ++ map
                (λ l. (
                  l,
                  record {
                    reference = reference;
                    status = status;
                    updated_at = updated_at;
                    amount = amount;
                    failure_reason = kept;
                  },
                ))
                ls)
process_event_lem name updated_at reference other status id reason kept session amount ls s named
      owned heard =
    let d : PaystackWebhookData = record {
      id = id;
      reference = some reference;
      amount = amount;
      failure_reason = reason;
    } in
    let e : PaystackWebhookEvent = record { event = some name; payload_data = some d } in
    let h = IsOutcome-outcome name status reason kept named in
    let same_reason = IsOutcome-reason_of name status d reason kept refl named in
    let owner = IsOwner-session_of (get_transfer_status reference s.transfers) session owned in
    let r : TransferStatusRecord = record {
      reference = reference;
      status = status;
      amount = amount;
      failure_reason = kept;
      updated_at = updated_at;
      client_session_id = session;
    } in
    let written : settled e status updated_at s ≡ r = rw same_reason (rw owner refl) in
    (
      process_event-get e status updated_at s other h
          ∙ ap
              (λ x.
                if str_eq reference other then some x else get_transfer_status other s.transfers)
              written,
      process_event-calls e status updated_at s h
          ∙ ap
              (λ x.
                s.published ++ publish_payment_status x.client_session_id (event_of x) s.listeners)
              written
          ∙ ap (λ calls. s.published ++ calls)
              (IsHeard-publish s.listeners session ls (event_of r) heard),
    )
