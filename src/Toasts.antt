-- ===== src/Toasts.antt =====
-- Dechat/dex_with_fiat_frontend/src/lib/toastStore.ts: the notifications on the screen. The clock and
-- the generated id are arguments; a timer is the time at which its timeout is due; listeners are
-- named by numbers, and a call of one is an entry of a log.
pub mod Spacing
pub mod Timers
mod Tests
use stellar_dex_chat.Common.{
  ℕ, ◌+◌, String, Bool, true, false, ◌&&◌, Option, none, some, List, [], ◌∷◌, ◌++◌, map, ltb, ◌==◌,
  if◌then◌else◌, any, filter, not, str_eq, put, delete,
}
use stellar_dex_chat.Common.Text.{trim, codes, lower_codes, same, to_lower}

pub data ToastVariant : Type 0 where
  success error info warning : ToastVariant

pub record AppToast : Type 0 where
  pub id : String
  pub message : String
  pub variant : ToastVariant
  pub timestamp : ℕ
  pub duration : ℕ

-- The two forms of the argument of `addToast`.
pub data ToastRequest : Type 0 where
  plain : String → ToastVariant → ToastRequest
  options : String → Option String → Option ToastVariant → Option ℕ → Option ℕ → ToastRequest

pub record ToastStore : Type 0 where
  pub toasts : List AppToast
  pub timers : List (String × ℕ)
  pub listeners : List ℕ
  pub notified : List (ℕ × List AppToast)
  pub dedupe_window_ms : ℕ
  pub default_duration_ms : ℕ

abbrev pub or_number : Option ℕ → ℕ → ℕ
or_number none fallback = fallback
or_number (some n) fallback = n

unfoldable pub construct : Option ℕ → Option ℕ → ToastStore
construct dedupe_window default_duration = record {
  toasts = [];
  timers = [];
  listeners = [];
  notified = [];
  dedupe_window_ms = or_number dedupe_window 2500;
  default_duration_ms = or_number default_duration 5000;
}

unfoldable pub notify_listeners : ToastStore → ToastStore
notify_listeners s = record s { notified = s.notified ++ map (λ l. (l, s.toasts)) s.listeners }

unfoldable pub map_severity_to_variant : Option String → ToastVariant
unfolding to_lower
map_severity_to_variant none = info
map_severity_to_variant (some severity) =
    let lower = lower_codes severity in
    if same lower (codes "error")
    then error
    else if same lower (codes "success")
    then success
    else if same lower (codes "warning")
    then warning
    else info

-- `options.variant || this.mapSeverityToVariant(options.severity)`
abbrev or_severity : Option ToastVariant → Option String → ToastVariant
or_severity none severity = map_severity_to_variant severity
or_severity (some v) severity = v

abbrev pub message_of : ToastRequest → String
message_of (plain text v) = text
message_of (options text severity v duration duration_ms) = text

unfoldable pub variant_of : ToastRequest → ToastVariant
variant_of (plain text v) = v
variant_of (options text severity v duration duration_ms) = or_severity v severity

abbrev pub duration_of : ToastRequest → ℕ → ℕ
duration_of (plain text v) default' = default'
duration_of (options text severity v duration duration_ms) default' =
    or_number duration (or_number duration_ms default')

abbrev pub same_variant : ToastVariant → ToastVariant → Bool
same_variant success success = true
same_variant error error = true
same_variant info info = true
same_variant warning warning = true
same_variant _ _ = false

-- `currentTime - t.timestamp < this.dedupeWindowMs`, also where the clock went back.
abbrev pub is_recent : ℕ → ℕ → AppToast → Bool
is_recent window now t = ltb now (t.timestamp + window)

abbrev pub repeats : ℕ → ℕ → String → ToastVariant → AppToast → Bool
repeats window now text variant t =
    str_eq t.message text && same_variant t.variant variant && is_recent window now t

-- The timeout of a toast, if its duration is positive.
abbrev set_timer : AppToast → List (String × ℕ) → List (String × ℕ)
set_timer t timers = if ltb 0 t.duration then put t.id (t.timestamp + t.duration) timers else timers

unfoldable pub show_toast : AppToast → ToastStore → ToastStore
unfolding notify_listeners
show_toast t s =
    notify_listeners (record s { toasts = s.toasts ++ t ∷ []; timers = set_timer t s.timers })

unfoldable pub add_toast : ToastRequest → ℕ → String → ToastStore → ToastStore × Option String
add_toast request now id s =
    let text = trim (message_of request) in
    let variant = variant_of request in
    if str_eq text ""
    then (s, none)
    else if any (repeats s.dedupe_window_ms now text variant) s.toasts
    then (s, none)
    else (
      show_toast
          (record {
            id = id;
            message = text;
            variant = variant;
            timestamp = now;
            duration = duration_of request s.default_duration_ms;
          })
          s,
      some id,
    )

abbrev pub shows : String → List AppToast → Bool
shows id toasts = any (λ t. str_eq t.id id) toasts

-- The slices around the first toast with the id.
unfoldable pub without_first : String → List AppToast → List AppToast
without_first id [] = []
without_first id (t ∷ ts) = if str_eq t.id id then ts else t ∷ without_first id ts

unfoldable pub remove_toast : String → ToastStore → ToastStore
unfolding notify_listeners without_first
remove_toast id s =
    if shows id s.toasts
    then notify_listeners
        (record s { toasts = without_first id s.toasts; timers = delete id s.timers })
    else s

unfoldable pub subscribe : ℕ → ToastStore → ToastStore
subscribe l s = record s { listeners = s.listeners ++ l ∷ [] }

unfoldable pub unsubscribe : ℕ → ToastStore → ToastStore
unsubscribe l s = record s { listeners = filter (λ k. not (k == l)) s.listeners }

unfoldable pub clear_toasts : ToastStore → ToastStore
unfolding notify_listeners
clear_toasts s = notify_listeners (record s { toasts = []; timers = [] })

-- What the program and the event loop do: a timeout calls `dismissToast` with its id.
pub data ToastAction : Type 0 where
  adds : ToastRequest → ℕ → String → ToastAction
  removes : String → ToastAction
  times_out : String → ToastAction
  subscribes : ℕ → ToastAction
  unsubscribes : ℕ → ToastAction
  clears : ToastAction

unfoldable pub perform : ToastAction → ToastStore → ToastStore
perform (adds request now id) s = (add_toast request now id s).0
perform (removes id) s = remove_toast id s
perform (times_out id) s = remove_toast id s
perform (subscribes l) s = subscribe l s
perform (unsubscribes l) s = unsubscribe l s
perform clears s = clear_toasts s

unfoldable pub perform_all : List ToastAction → ToastStore → ToastStore
perform_all [] s = s
perform_all (a ∷ as') s = perform_all as' (perform a s)
