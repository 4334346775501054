-- ===== src/AuditLog/Tests.antt =====
-- auditLog.ts: runs at concrete inputs.
use stellar_dex_chat.Common.{ℕ, zero, suc, ◌≡◌, refl, true, false, some, none, [], ◌∷◌, ◌++◌, arith}
use stellar_dex_chat.AuditLog.{
  AuditEntry, AuditLog, PendingWrite, AuditLogFilter, no_filter, make_room, get_all_entries,
  get_audit_entries, keeps, append_entry, append_options, entries, payout, success, failed,
}
use stellar_dex_chat.AuditLog.Retry.{Outcome, returned, threw, attempt_from, retry_with_backoff}
use stellar_dex_chat.AuditLog.Bounds.{starts, follows, records, IsBounded, Reachable-IsBounded}
use stellar_dex_chat.AuditLog.Stale.{log_of, record_all, retry, later_entry_lost}

abbrev paid : AuditEntry
paid = record {
  id = "audit_1";
  timestamp = 1000;
  admin_address = "GA";
  action_type = payout;
  action_description = "paid";
  tx_hash = some "t1";
  metadata = "{}";
  status = success;
}

abbrev lost : AuditEntry
lost = record paid { id = "audit_2"; timestamp = 2000; status = failed; tx_hash = none }

abbrev by_status : AuditLogFilter
by_status = record no_filter {
  status = some failed;
  admin_address = some "";
  start_date = some 1500;
}

abbrev both : AuditLog
both = log_of (paid ∷ lost ∷ [])

by_status_found : get_audit_entries (some by_status) both ≡ lost ∷ []
unfolding get_audit_entries get_all_entries
by_status_found = unfold keeps in refl

Reachable-IsBounded_example :
    IsBounded (append_entry true lost (append_entry false paid (log_of [])))
Reachable-IsBounded_example = Reachable-IsBounded (
    follows (follows (starts (some (entries [])) (omega arith)) (records false paid))
      (records true lost))

abbrev later : AuditEntry
later = record paid { id = "audit_3"; timestamp = 3000 }

later_entry_lost_example :
    let failed_write = append_entry false paid (log_of []) in
    let before = record_all (later ∷ []) failed_write in
    let recorded = append_entry true lost before in
    let w : PendingWrite = record { snapshot = paid ∷ []; attempt = 1 } in
    (get_all_entries failed_write ≡ [])
    × (get_all_entries recorded ≡ make_room (get_all_entries before) ++ lost ∷ [])
    × (recorded.retrying ≡ w ∷ [])
    × (get_all_entries (retry w recorded) ≡ paid ∷ [])
later_entry_lost_example = later_entry_lost [] (later ∷ []) paid lost

-- The second attempt returns.
abbrev second : ℕ → Outcome ℕ ℕ
second zero = threw 0
second (suc n) = returned 7

retry_with_backoff_run : retry_with_backoff second append_options ≡ (returned 7, 100 ∷ [])
unfolding retry_with_backoff attempt_from
retry_with_backoff_run = refl
