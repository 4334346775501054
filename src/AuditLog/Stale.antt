-- ===== src/AuditLog/Stale.antt =====
-- auditLog.ts: a write that is tried again writes the entries as they were at its first attempt.
use stellar_dex_chat.Common.{◌≡◌, refl, true, false, some, List, [], ◌∷◌, ◌++◌}
use stellar_dex_chat.AuditLog.{
  AuditEntry, AuditLog, entries, PendingWrite, make_room, get_all_entries, try_write, append_entry,
}

abbrev pub log_of : List AuditEntry → AuditLog
log_of es = record { storage = some (entries es); retrying = [] }

-- Entries that are recorded one after the other, by writes that succeed.
unfoldable pub record_all : List AuditEntry → AuditLog → AuditLog
record_all [] log = log
record_all (b ∷ bs) log = record_all bs (append_entry true b log)

-- The timer of the write fires, which waited alone, and the attempt succeeds.
abbrev pub retry : PendingWrite → AuditLog → AuditLog
retry w log = try_write true w (record log { retrying = [] })

-- A log whose storage can be read, with the writes that wait.
abbrev pub waiting_log : List AuditEntry → List PendingWrite → AuditLog
waiting_log es ws = record { storage = some (entries es); retrying = ws }

abbrev pub entries_after : List AuditEntry → List AuditEntry → List AuditEntry
entries_after [] es = es
entries_after (b ∷ bs) es = entries_after bs (make_room es ++ b ∷ [])

record_all_lem :
    (bs es : List AuditEntry) (ws : List PendingWrite)
    → record_all bs (waiting_log es ws) ≡ waiting_log (entries_after bs es) ws
unfolding record_all append_entry get_all_entries try_write
record_all_lem [] es ws = refl
record_all_lem (b ∷ bs) es ws = record_all_lem bs (make_room es ++ b ∷ []) ws

-- The write of `a` fails, which leaves the log as it was, and then any entries are recorded by writes
-- that succeed, `b` as the last: the log ends with `b`, and the write of `a` still waits, alone. When
-- it is tried again and succeeds, the log holds what it held before `a`, and `a`: all that was recorded
-- since is gone.
pub later_entry_lost :
    (es bs : List AuditEntry) (a b : AuditEntry)
    → let failed = append_entry false a (log_of es) in
      let before = record_all bs failed in
      let recorded = append_entry true b before in
      let w : PendingWrite = record { snapshot = make_room es ++ a ∷ []; attempt = 1 } in
      (get_all_entries failed ≡ es)
      × (get_all_entries recorded ≡ make_room (get_all_entries before) ++ b ∷ [])
      × (recorded.retrying ≡ w ∷ [])
      × (get_all_entries (retry w recorded) ≡ make_room es ++ a ∷ [])
unfolding append_entry get_all_entries try_write
later_entry_lost es bs a b =
    let w : PendingWrite = record { snapshot = make_room es ++ a ∷ []; attempt = 1 } in
    let run = record_all_lem bs es (w ∷ []) in rw run (refl, refl, refl, refl)
