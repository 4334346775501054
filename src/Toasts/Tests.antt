-- ===== src/Toasts/Tests.antt =====
-- The toast store at concrete inputs.
use stellar_dex_chat.Common.{◌≡◌, refl, none, some, List, [], ◌∷◌}
use stellar_dex_chat.Common.Text.{trim}
use stellar_dex_chat.Toasts.{
  AppToast, success, warning, plain, options, ToastStore, or_number, construct, add_toast,
  variant_of, map_severity_to_variant, ToastAction, adds, removes, perform_all,
}
use stellar_dex_chat.Toasts.Spacing.{IsSpaced, perform_all-IsSpaced}

abbrev saved : ToastStore
saved = record {
  toasts =
      record { id = "a"; message = "Saved"; variant = success; timestamp = 100; duration = 50 }
      ∷ [];
  timers = ("a", 150) ∷ [];
  listeners = 1 ∷ [];
  notified = [];
  dedupe_window_ms = 2500;
  default_duration_ms = 5000;
}

refuses_a_repetition : (add_toast (plain " Saved " success) 200 "b" saved).1 ≡ none
unfolding add_toast variant_of trim
refuses_a_repetition = refl

shouted_warning : map_severity_to_variant (some "WARNING") ≡ warning
unfolding map_severity_to_variant
shouted_warning = refl

abbrev busy : List ToastAction
busy =
    adds (plain "Saved" success) 10 "a"
    ∷ adds (plain "Saved" success) 20 "b"
    ∷ adds (options "Sent" (some "info") none (some 0) none) 30 "c"
    ∷ removes "a"
    ∷ []

perform_all-IsSpaced_example :
    IsSpaced (or_number (some 100) 2500) (perform_all busy (construct (some 100) none)).toasts
perform_all-IsSpaced_example = perform_all-IsSpaced (some 100) none busy

abbrev sent : AppToast
sent = record { id = "b"; message = "Sent"; variant = success; timestamp = 200; duration = 50 }
