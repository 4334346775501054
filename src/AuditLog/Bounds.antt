-- ===== src/AuditLog/Bounds.antt =====
-- auditLog.ts: the log over all its operations and the attempts of its writes.
use stellar_dex_chat.Common.{
  ℕ, zero, suc, ◌-◌, ◌≤◌, Bool, true, false, ◌≡◌, refl, ◌∙◌, ap, inl, inr, Option, List, [], ◌∷◌,
  ◌++◌, arith, All, All-append, All-append_left, All-append_right, length, length-append,
  length-drop, leb, is_some, drop, slice_last, Bool-cases,
}
use mathlib.Core.List.{reverse, reverse-append}
use stellar_dex_chat.AuditLog.{
  AuditEntry, AuditLog, Stored, PendingWrite, readable, make_room, max_log_entries, get_all_entries,
  get_recent_entries, clear_log, try_write, append_options, append_entry,
}

-- What happens to a log: an entry is recorded, the timer of a waiting write fires, or the log is
-- cleared. A write succeeds or does not.
pub data Step : AuditLog → AuditLog → Type 0 where
  records :
      {log : AuditLog} (succeeds : Bool) (e : AuditEntry) → Step log (append_entry succeeds e log)
  retries_write :
      {log : AuditLog} (succeeds : Bool) (before after : List PendingWrite) (w : PendingWrite)
      → log.retrying ≡ before ++ w ∷ after
      → Step log (try_write succeeds w (record log { retrying = before ++ after }))
  clears : {log : AuditLog} → Step log (clear_log log)

pub data Reachable : AuditLog → Type 0 where
  starts :
      (s : Option Stored)
      → length (readable s) ≤ max_log_entries
      → Reachable (record { storage = s; retrying = [] })
  follows : {log next : AuditLog} → Reachable log → Step log next → Reachable next

abbrev IsSmall : PendingWrite → Type 0
IsSmall w = length w.snapshot ≤ max_log_entries

pub record IsBounded (log : AuditLog) : Type 0 where
  pub stored : length (get_all_entries log) ≤ max_log_entries
  pub waiting : All IsSmall log.retrying

try_write-IsBounded :
    (succeeds : Bool) (w : PendingWrite) (log : AuditLog)
    → IsSmall w
    → IsBounded log
    → IsBounded (try_write succeeds w log)
unfolding try_write get_all_entries
try_write-IsBounded true w log small h = record { stored = small; waiting = h.waiting }
try_write-IsBounded false w log small h = elim (Bool-cases (leb append_options.retries w.attempt)) [
  | inl over ↦ rw over h
  | inr again ↦ rw again (record {
    stored = h.stored;
    waiting = All-append IsSmall log.retrying _ h.waiting (small, tt);
  })
]

make_room-small :
    (es : List AuditEntry) (e : AuditEntry)
    → length es ≤ max_log_entries
    → length (make_room es ++ e ∷ []) ≤ max_log_entries
make_room-small es e h = elim (Bool-cases (leb max_log_entries (length es))) [
  | inl full ↦ rw full (omega (arith, length-append (drop 1000 es) (e ∷ []), length-drop 1000 es))
  | inr room ↦ rw room (ground (arith, length-append es (e ∷ [])))
]

append_entry-IsBounded :
    (succeeds : Bool) (e : AuditEntry) (log : AuditLog)
    → IsBounded log
    → IsBounded (append_entry succeeds e log)
unfolding append_entry get_all_entries
append_entry-IsBounded succeeds e log h = elim (Bool-cases (is_some log.storage)) [
  | inl there ↦
      rw there
        (try_write-IsBounded succeeds _ log (make_room-small (get_all_entries log) e h.stored) h)
  | inr gone ↦ rw gone h
]

clear_log-IsBounded : (log : AuditLog) → IsBounded log → IsBounded (clear_log log)
unfolding clear_log get_all_entries
clear_log-IsBounded log h = elim (Bool-cases (is_some log.storage)) [
  | inl there ↦ rw there (record { stored = omega arith; waiting = h.waiting })
  | inr gone ↦ rw gone h
]

Step-IsBounded : {log next : AuditLog} → Step log next → IsBounded log → IsBounded next
unfolding get_all_entries
Step-IsBounded (records {log} succeeds e) h = append_entry-IsBounded succeeds e log h
Step-IsBounded (retries_write {log} succeeds before after w found) h =
    let all : All IsSmall (before ++ w ∷ after) = rw (← found) h.waiting in
    let (small, rest) = All-append_right IsSmall before (w ∷ after) all in
    try_write-IsBounded succeeds w (record log { retrying = before ++ after }) small
      (record {
        stored = h.stored;
        waiting = All-append IsSmall before after (All-append_left IsSmall before _ all) rest;
      })
Step-IsBounded (clears {log}) h = clear_log-IsBounded log h

-- However the writes succeed or fail and are tried again, a log that starts with at most ten thousand
-- entries never holds more.
pub Reachable-IsBounded : {log : AuditLog} → Reachable log → IsBounded log
Reachable-IsBounded (starts s h) = record { stored = unfold get_all_entries in h; waiting = tt }
Reachable-IsBounded (follows before step) = Step-IsBounded step (Reachable-IsBounded before)

drop-append :
    (k : ℕ) (xs ys : List AuditEntry) → k ≤ length xs → drop k (xs ++ ys) ≡ drop k xs ++ ys
drop-append zero xs ys h = refl
drop-append (suc k) [] ys h = absurd (omega arith)
drop-append (suc k) (x ∷ xs) ys h = drop-append k xs ys (omega arith)

reverse-snoc_last :
    (n : ℕ) (xs : List AuditEntry) (e : AuditEntry)
    → reverse (slice_last (suc n) (xs ++ e ∷ [])) ≡ e ∷ reverse (drop (length xs - n) xs)
reverse-snoc_last n xs e =
    let count : length (xs ++ e ∷ []) - suc n ≡ length xs - n =
      omega (arith, length-append xs (e ∷ [])) in
    rw count (
      ap reverse (drop-append (length xs - n) xs (e ∷ []) (omega arith))
      ∙ reverse-append (drop (length xs - n) xs) (e ∷ []))

module _ (e : AuditEntry) (log : AuditLog) where
  abbrev pub kept : List AuditEntry
  kept = make_room (get_all_entries log)

  append_entry-get_all_entries :
      is_some log.storage ≡ true → get_all_entries (append_entry true e log) ≡ kept ++ e ∷ []
  unfolding append_entry get_all_entries try_write
  append_entry-get_all_entries there = rw there refl

  -- A write that succeeds leaves the entries before it, or those but the oldest thousand if the log was
  -- full, followed by the new entry; the recent entries begin with the new one, then the others from
  -- the newest on.
  pub append_entry_lem :
      (n : ℕ)
      → is_some log.storage ≡ true
      → (get_all_entries (append_entry true e log) ≡ kept ++ e ∷ [])
        × (get_recent_entries (suc n) (append_entry true e log)
            ≡ e ∷ reverse (drop (length kept - n) kept))
  append_entry_lem n there = (
    append_entry-get_all_entries there,
    unfold get_recent_entries in
        rw (append_entry-get_all_entries there) (reverse-snoc_last n kept e),
  )
