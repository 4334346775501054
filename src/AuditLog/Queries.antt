-- ===== src/AuditLog/Queries.antt =====
-- auditLog.ts: what the queries return.
use stellar_dex_chat.Common.{
  some_injective, ℕ, ◌≤◌, String, true, false, ◌≡◌, refl, ◌↔◌, Option, none, some, Memᴰ,
  Memᴰ-filter, filter-Memᴰ, arith, eq_iff, ap,
}
use stellar_dex_chat.AuditLog.{
  ActionType, AuditStatus, AuditEntry, AuditLogFilter, AuditLog, same_action, same_status,
  same_text, differs, text_differs, is_before, is_after, keeps, get_all_entries, get_audit_entries,
}

-- The value is the one asked for, if one is.
abbrev pub IsAsked {ℓ} : {A : Type ℓ} → Option A → A → Type ℓ
IsAsked none x = Unit
IsAsked (some a) x = x ≡ a

-- An empty text asks for nothing.
abbrev pub IsAskedText : Option String → Option String → Type 0
IsAskedText none t = Unit
IsAskedText (some asked) t = (asked ≡ "" → ⊥) → t ≡ some asked

abbrev pub StartsBy : Option ℕ → ℕ → Type 0
StartsBy none t = Unit
StartsBy (some start) t = start ≤ t

abbrev pub EndsBy : Option ℕ → ℕ → Type 0
EndsBy none t = Unit
EndsBy (some end) t = t ≤ end

-- An entry that satisfies each part of the filter that is given.
pub record IsMatch (f : AuditLogFilter) (e : AuditEntry) : Type 0 where
  pub action : IsAsked f.action_type e.action_type
  pub admin : IsAskedText f.admin_address (some e.admin_address)
  pub state : IsAsked f.status e.status
  pub hash : IsAskedText f.tx_hash e.tx_hash
  pub start : StartsBy f.start_date e.timestamp
  pub end : EndsBy f.end_date e.timestamp

same_action_iff : (a b : ActionType) → (same_action a b ≡ true) ↔ (a ≡ b)
same_action_iff a b = ground arith

same_status_iff : (a b : AuditStatus) → (same_status a b ≡ true) ↔ (a ≡ b)
same_status_iff a b = ground arith

same_text_iff : (t : Option String) (asked : String) → (same_text t asked ≡ true) ↔ (t ≡ some asked)
same_text_iff none asked = (λ h. cc, λ h. cc)
same_text_iff (some s) asked =
    (λ h. ap some ((eq_iff s asked).0 h), λ h. (eq_iff s asked).1 (some_injective h))

differs_action :
    (f : Option ActionType) (a : ActionType) → (differs (same_action a) f ≡ false) ↔ IsAsked f a
differs_action none a = (λ h. tt, λ h. refl)
differs_action (some b) a = ground (arith, same_action_iff a b)

differs_status :
    (f : Option AuditStatus) (a : AuditStatus) → (differs (same_status a) f ≡ false) ↔ IsAsked f a
differs_status none a = (λ h. tt, λ h. refl)
differs_status (some b) a = ground (arith, same_status_iff a b)

text_differs_lem : (f t : Option String) → (text_differs f t ≡ false) ↔ IsAskedText f t
text_differs_lem none t = (λ h. tt, λ h. refl)
text_differs_lem (some asked) t = ground (arith, same_text_iff t asked, eq_iff asked "")

is_before_lem : (f : Option ℕ) (t : ℕ) → (is_before f t ≡ false) ↔ StartsBy f t
is_before_lem none t = (λ h. tt, λ h. refl)
is_before_lem (some start) t = ground arith

is_after_lem : (f : Option ℕ) (t : ℕ) → (is_after f t ≡ false) ↔ EndsBy f t
is_after_lem none t = (λ h. tt, λ h. refl)
is_after_lem (some end) t = ground arith

keeps_parts :
    (f : AuditLogFilter) (e : AuditEntry)
    → (keeps f e ≡ true) ↔ (
        (differs (same_action e.action_type) f.action_type ≡ false)
        × (text_differs f.admin_address (some e.admin_address) ≡ false)
        × (differs (same_status e.status) f.status ≡ false)
        × (text_differs f.tx_hash e.tx_hash ≡ false)
        × (is_before f.start_date e.timestamp ≡ false)
        × (is_after f.end_date e.timestamp ≡ false))
unfolding keeps
keeps_parts f e = ground arith

keeps_iff : (f : AuditLogFilter) (e : AuditEntry) → (keeps f e ≡ true) ↔ IsMatch f e
keeps_iff f e = (
  λ h.
      let (a, b, c, d, s, n) = (keeps_parts f e).0 h in
      record {
        action = (differs_action f.action_type e.action_type).0 a;
        admin = (text_differs_lem f.admin_address (some e.admin_address)).0 b;
        state = (differs_status f.status e.status).0 c;
        hash = (text_differs_lem f.tx_hash e.tx_hash).0 d;
        start = (is_before_lem f.start_date e.timestamp).0 s;
        end = (is_after_lem f.end_date e.timestamp).0 n;
      },
  λ h. (keeps_parts f e).1 (
    (differs_action f.action_type e.action_type).1 h.action,
    (text_differs_lem f.admin_address (some e.admin_address)).1 h.admin,
    (differs_status f.status e.status).1 h.state,
    (text_differs_lem f.tx_hash e.tx_hash).1 h.hash,
    (is_before_lem f.start_date e.timestamp).1 h.start,
    (is_after_lem f.end_date e.timestamp).1 h.end,
  ),
)

-- The entries a filter returns are those of the log that satisfy each of its parts; a part that is
-- missing, or an empty address or hash, asks for nothing.
pub get_audit_entries_iff :
    (f : AuditLogFilter) (log : AuditLog) (e : AuditEntry)
    → Memᴰ e (get_audit_entries (some f) log) ↔ (Memᴰ e (get_all_entries log) × IsMatch f e)
unfolding get_audit_entries
get_audit_entries_iff f log e = (
  λ m.
      let (there, kept) = Memᴰ-filter (keeps f) (get_all_entries log) m in
      (there, (keeps_iff f e).0 kept),
  λ (there, matches). filter-Memᴰ (keeps f) there ((keeps_iff f e).1 matches),
)
