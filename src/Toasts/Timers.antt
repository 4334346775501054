-- ===== src/Toasts/Timers.antt =====
-- toastStore.ts: every running timer belongs to a toast on the screen.
use stellar_dex_chat.Common.{
  ℕ, ◌≡◌, ◌≢◌, refl, inl, inr, String, true, false, ◌||◌, Option, none, some, List, [], ◌∷◌, ◌++◌,
  arith, ltb, str_eq, eq_iff, any, Bool-cases, if◌then◌else◌, get, has, get-put, get-delete, IsMap,
  put-IsMap, delete-IsMap, is_some,
}
use stellar_dex_chat.Toasts.{
  AppToast, ToastRequest, ToastStore, construct, message_of, variant_of, repeats, show_toast,
  add_toast, shows, without_first, remove_toast, subscribe, unsubscribe, clear_toasts, ToastAction,
  adds, removes, times_out, subscribes, unsubscribes, clears, perform, perform_all,
}
use stellar_dex_chat.Common.Text.{trim}

-- Each timer's id is the id of a toast on the screen.
pub record IsTimed (s : ToastStore) : Type 0 where
  pub distinct : IsMap s.timers
  pub shown : (id : String) → has id s.timers ≡ true → shows id s.toasts ≡ true

shows-snoc :
    (id : String) (ts : List AppToast) (t : AppToast)
    → shows id (ts ++ t ∷ []) ≡ (shows id ts || str_eq t.id id)
shows-snoc id [] t = ground arith
shows-snoc id (u ∷ ts) t = ground (arith, shows-snoc id ts t)

shows-without_first_ne :
    (id other : String) (ts : List AppToast)
    → id ≢ other
    → shows other (without_first id ts) ≡ shows other ts
unfolding without_first
shows-without_first_ne id other [] h = refl
shows-without_first_ne id other (t ∷ ts) h =
    ground (arith, eq_iff t.id id, eq_iff t.id other, shows-without_first_ne id other ts h)

show_toast-IsTimed : (t : AppToast) (s : ToastStore) → IsTimed s → IsTimed (show_toast t s)
unfolding show_toast
show_toast-IsTimed t s h = elim (Bool-cases (ltb 0 t.duration)) [
  | inl timed ↦ record {
    distinct = rw timed (put-IsMap t.id _ s.timers h.distinct);
    shown = λ id running.
        rw (shows-snoc id s.toasts t)
          (new-shown id _ (rw (get-put t.id id _ s.timers) at (rw timed at running)));
  }
  | inr untimed ↦ record {
    distinct = rw untimed h.distinct;
    shown = λ id running. rw (shows-snoc id s.toasts t) (rw (h.shown id (rw untimed at running)));
  }
]
  where
    new-shown :
        (id : String) (due : ℕ)
        → is_some (if str_eq t.id id then some due else get id s.timers) ≡ true
        → (shows id s.toasts || str_eq t.id id) ≡ true
    new-shown id due running = ground (arith, h.shown id)

remove_toast-IsTimed : (id : String) (s : ToastStore) → IsTimed s → IsTimed (remove_toast id s)
unfolding remove_toast
remove_toast-IsTimed id s h = elim (Bool-cases (shows id s.toasts)) [
  | inr gone ↦ rw gone h
  | inl there ↦ rw there (record {
    distinct = delete-IsMap id s.timers h.distinct;
    shown = λ other running.
        still-shown other (rw (get-delete id other s.timers h.distinct) at running);
  })
]
  where
    still-shown :
        (other : String)
        → is_some (if str_eq id other then none else get other s.timers) ≡ true
        → shows other (without_first id s.toasts) ≡ true
    still-shown other running =
        ground (arith, eq_iff id other, shows-without_first_ne id other s.toasts, h.shown other)

add_toast-IsTimed :
    (request : ToastRequest) (now : ℕ) (id : String) (s : ToastStore)
    → IsTimed s
    → IsTimed (add_toast request now id s).0
unfolding add_toast
add_toast-IsTimed request now id s h =
    let text = trim (message_of request) in
    elim (Bool-cases (str_eq text "")) [
      | inl empty ↦ rw empty h
      | inr there ↦
          elim (Bool-cases
            (any (repeats s.dedupe_window_ms now text (variant_of request)) s.toasts)) [
              | inl twice ↦ rw there (rw twice h)
              | inr new ↦ rw there (rw new (show_toast-IsTimed _ s h))
            ]
    ]

perform-IsTimed : (a : ToastAction) (s : ToastStore) → IsTimed s → IsTimed (perform a s)
unfolding perform subscribe unsubscribe clear_toasts get
perform-IsTimed (adds request now id) s h = add_toast-IsTimed request now id s h
perform-IsTimed (removes id) s h = remove_toast-IsTimed id s h
perform-IsTimed (times_out id) s h = remove_toast-IsTimed id s h
perform-IsTimed (subscribes l) s h = record { distinct = h.distinct; shown = h.shown }
perform-IsTimed (unsubscribes l) s h = record { distinct = h.distinct; shown = h.shown }
perform-IsTimed clears s h = record { distinct = tt; shown = λ id running. cc }

perform_all-IsTimed_from :
    (as' : List ToastAction) (s : ToastStore) → IsTimed s → IsTimed (perform_all as' s)
unfolding perform_all
perform_all-IsTimed_from [] s h = h
perform_all-IsTimed_from (a ∷ as') s h =
    perform_all-IsTimed_from as' (perform a s) (perform-IsTimed a s h)

-- After any actions on a new store the timers have distinct ids, and each is the id of a toast on
-- the screen: no timer outlives its toast.
pub perform_all-IsTimed :
    (dedupe_window default_duration : Option ℕ) (as' : List ToastAction)
    → IsTimed (perform_all as' (construct dedupe_window default_duration))
unfolding construct get
perform_all-IsTimed dedupe_window default_duration as' =
    perform_all-IsTimed_from as' (construct dedupe_window default_duration)
      (record { distinct = tt; shown = λ id running. cc })

without_first-snoc :
    (t : AppToast) (ts : List AppToast)
    → shows t.id ts ≡ false
    → without_first t.id (ts ++ t ∷ []) ≡ ts
unfolding without_first
without_first-snoc t [] h = ground (arith, eq_iff t.id t.id)
without_first-snoc t (u ∷ ts) h = ground (arith, without_first-snoc t ts)

-- Removing a toast that was just shown, under an id that no toast on the screen had, brings back the
-- toasts that stood there before.
pub remove_toast-show_toast :
    (t : AppToast) (s : ToastStore)
    → shows t.id s.toasts ≡ false
    → (remove_toast t.id (show_toast t s)).toasts ≡ s.toasts
unfolding remove_toast show_toast
remove_toast-show_toast t s new =
    let there : shows t.id (s.toasts ++ t ∷ []) ≡ true =
      ground (arith, shows-snoc t.id s.toasts t, eq_iff t.id t.id) in
    rw there (without_first-snoc t s.toasts new)
