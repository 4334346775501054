-- ===== src/AuditLog.antt =====
-- Dechat/dex_with_fiat_frontend/src/lib/auditLog.ts: the log of admin actions. Times are milliseconds;
-- the clock and the generated id are arguments, and so is whether a write to the storage succeeds.
pub mod Retry
pub mod Queries
pub mod Bounds
pub mod Stale
mod Tests
use stellar_dex_chat.Common.{
  ℕ, ◌+◌, String, Bool, true, false, not, ◌&&◌, Option, none, some, List, [], ◌∷◌, ◌++◌, map, ltb,
  leb, ◌==◌, if◌then◌else◌, length, filter, drop, slice_last, str_eq, is_some,
}
use mathlib.Core.List.{reverse}
use stellar_dex_chat.AuditLog.Retry.{RetryOptions, delay_before}

pub data ActionType : Type 0 where
  deposit payout reconciliation user_update settings_change : ActionType

pub data AuditStatus : Type 0 where
  success failed pending : AuditStatus

-- `metadata` enters as its JSON text.
pub record AuditEntry : Type 0 where
  pub id : String
  pub timestamp : ℕ
  pub admin_address : String
  pub action_type : ActionType
  pub action_description : String
  pub tx_hash : Option String
  pub metadata : String
  pub status : AuditStatus

pub record AuditLogFilter : Type 0 where
  pub action_type : Option ActionType
  pub admin_address : Option String
  pub start_date : Option ℕ
  pub end_date : Option ℕ
  pub status : Option AuditStatus
  pub tx_hash : Option String

abbrev pub no_filter : AuditLogFilter
no_filter = record {
  action_type = none;
  admin_address = none;
  start_date = none;
  end_date = none;
  status = none;
  tx_hash = none;
}

abbrev pub max_log_entries : ℕ
max_log_entries = 10000

-- What the storage holds under the log's key.
pub data Stored : Type 0 where
  absent unreadable : Stored
  entries : List AuditEntry → Stored

-- A write that failed and will be tried again: the entries it writes, and how many attempts it made.
pub record PendingWrite : Type 0 where
  pub snapshot : List AuditEntry
  pub attempt : ℕ

-- The storage of the browser, or none, and the writes that wait for their next attempt.
pub record AuditLog : Type 0 where
  pub storage : Option Stored
  pub retrying : List PendingWrite

abbrev pub same_action : ActionType → ActionType → Bool
same_action deposit deposit = true
same_action payout payout = true
same_action reconciliation reconciliation = true
same_action user_update user_update = true
same_action settings_change settings_change = true
same_action _ _ = false

abbrev pub same_status : AuditStatus → AuditStatus → Bool
same_status success success = true
same_status failed failed = true
same_status pending pending = true
same_status _ _ = false

abbrev pub same_text : Option String → String → Bool
same_text none t = false
same_text (some s) t = str_eq s t

-- `filter.x && entry.x !== filter.x`, for a value that is never falsy.
abbrev pub differs {ℓ} : {A : Type ℓ} → (A → Bool) → Option A → Bool
differs same none = false
differs same (some a) = not (same a)

-- The same for a text, which is falsy when it is empty.
abbrev pub text_differs : Option String → Option String → Bool
text_differs none t = false
text_differs (some asked) t = not (str_eq asked "") && not (same_text t asked)

abbrev pub is_before : Option ℕ → ℕ → Bool
is_before none t = false
is_before (some start) t = ltb t start

abbrev pub is_after : Option ℕ → ℕ → Bool
is_after none t = false
is_after (some end) t = ltb end t

unfoldable pub keeps : AuditLogFilter → AuditEntry → Bool
keeps f e =
    if differs (same_action e.action_type) f.action_type
    then false
    else if text_differs f.admin_address (some e.admin_address)
    then false
    else if differs (same_status e.status) f.status
    then false
    else if text_differs f.tx_hash e.tx_hash
    then false
    else if is_before f.start_date e.timestamp
    then false
    else if is_after f.end_date e.timestamp
    then false
    else true

abbrev pub readable : Option Stored → List AuditEntry
readable (some (entries es)) = es
readable _ = []

unfoldable pub get_all_entries : AuditLog → List AuditEntry
get_all_entries log = readable log.storage

unfoldable pub get_audit_entries : Option AuditLogFilter → AuditLog → List AuditEntry
unfolding get_all_entries
get_audit_entries none log = get_all_entries log
get_audit_entries (some f) log = filter (keeps f) (get_all_entries log)

unfoldable pub get_entries_by_admin : String → AuditLog → List AuditEntry
get_entries_by_admin address log =
    get_audit_entries (some (record no_filter { admin_address = some address })) log

unfoldable pub get_entries_by_action_type : ActionType → AuditLog → List AuditEntry
get_entries_by_action_type action log =
    get_audit_entries (some (record no_filter { action_type = some action })) log

abbrev pub first : List AuditEntry → Option AuditEntry
first [] = none
first (e ∷ es) = some e

unfoldable pub get_entry_by_tx_hash : String → AuditLog → Option AuditEntry
get_entry_by_tx_hash hash log =
    first (get_audit_entries (some (record no_filter { tx_hash = some hash })) log)

unfoldable pub get_recent_entries : ℕ → AuditLog → List AuditEntry
unfolding get_all_entries
get_recent_entries limit log = reverse (slice_last limit (get_all_entries log))

unfoldable pub get_entry_count : AuditLog → ℕ
unfolding get_all_entries
get_entry_count log = length (get_all_entries log)

unfoldable pub clear_log : AuditLog → AuditLog
clear_log log = if is_some log.storage then record log { storage = some absent } else log

-- The options of the writes of `appendEntry`.
abbrev pub append_options : RetryOptions
append_options = record { retries = 3; min_delay_ms = 100; max_delay_ms = 1000; factor = 2 }

-- An attempt of a write: it succeeds, or waits for the next one if there is one left.
unfoldable pub try_write : Bool → PendingWrite → AuditLog → AuditLog
try_write true w log = record log { storage = some (entries w.snapshot) }
try_write false w log =
    if leb append_options.retries w.attempt
    then log
    else record log { retrying = log.retrying ++ record w { attempt = w.attempt + 1 } ∷ [] }

-- The oldest tenth goes when the log is full.
abbrev pub make_room : List AuditEntry → List AuditEntry
make_room es = if leb max_log_entries (length es) then drop 1000 es else es

unfoldable pub append_entry : Bool → AuditEntry → AuditLog → AuditLog
unfolding get_all_entries try_write
append_entry succeeds e log =
    if is_some log.storage
    then try_write succeeds
        (record { snapshot = make_room (get_all_entries log) ++ e ∷ []; attempt = 0 }) log
    else log

unfoldable pub record_action :
    Bool
    → ℕ
    → String
    → String
    → ActionType
    → String
    → String
    → Option String
    → AuditStatus
    → AuditLog
    → AuditLog × AuditEntry
unfolding append_entry
record_action succeeds now id address action description metadata hash status log =
    let e : AuditEntry = record {
      id = id;
      timestamp = now;
      admin_address = address;
      action_type = action;
      action_description = description;
      tx_hash = hash;
      metadata = metadata;
      status = status;
    } in
    (append_entry succeeds e log, e)
