-- ===== src/Toasts/Spacing.antt =====
-- toastStore.ts: equal toasts on the screen lie apart in time.
use stellar_dex_chat.Common.{
  ℕ, ◌+◌, ◌≤◌, ◌≡◌, ◌≢◌, ◌⊎◌, refl, inl, inr, String, true, false, Option, none, some, List, [],
  ◌∷◌, ◌++◌, arith, str_eq, eq_iff, any, All, All-append, Bool-cases,
}
use stellar_dex_chat.Toasts.{
  ToastVariant, AppToast, ToastRequest, ToastStore, or_number, construct, message_of, variant_of,
  same_variant, repeats, show_toast, add_toast, without_first, remove_toast, subscribe, unsubscribe,
  clear_toasts, ToastAction, adds, removes, times_out, subscribes, unsubscribes, clears, perform,
  perform_all,
}
use stellar_dex_chat.Common.Text.{trim}

-- If `b` says the same as `a`, it was shown at least the window later.
abbrev pub LiesApart : ℕ → AppToast → AppToast → Type 0
LiesApart window a b =
    a.message ≡ b.message → a.variant ≡ b.variant → a.timestamp + window ≤ b.timestamp

-- Every toast lies apart from those that were added after it.
abbrev pub IsSpaced : ℕ → List AppToast → Type 0
IsSpaced window [] = Unit
IsSpaced window (t ∷ ts) = All (LiesApart window t) ts × IsSpaced window ts

same_variant_refl : (v w : ToastVariant) → v ≡ w → same_variant v w ≡ true
same_variant_refl v w h = ground arith

module _ (window now : ℕ) (t : AppToast) where
  LiesApart-new :
      (a : AppToast)
      → t.timestamp ≡ now
      → repeats window now t.message t.variant a ≡ false
      → LiesApart window a t
  LiesApart-new a at h message variant =
      ground (arith, eq_iff a.message t.message, same_variant_refl a.variant t.variant variant)

  IsSpaced-snoc :
      (ts : List AppToast)
      → t.timestamp ≡ now
      → any (repeats window now t.message t.variant) ts ≡ false
      → IsSpaced window ts
      → IsSpaced window (ts ++ t ∷ [])
  IsSpaced-snoc [] at h k = (tt, tt)
  IsSpaced-snoc (a ∷ ts) at h (apart, k) = (
    All-append (LiesApart window a) ts _ apart (LiesApart-new a at (ground arith), tt),
    IsSpaced-snoc ts at (ground arith) k,
  )

module _ (window : ℕ) (id : String) where
  All-without_first :
      (a : AppToast) (ts : List AppToast)
      → All (LiesApart window a) ts
      → All (LiesApart window a) (without_first id ts)
  unfolding without_first
  All-without_first a [] h = tt
  All-without_first a (t ∷ ts) (p, h) = elim (Bool-cases (str_eq t.id id)) [
    | inl found ↦ rw found h
    | inr other ↦ rw other (p, All-without_first a ts h)
  ]

  IsSpaced-without_first :
      (ts : List AppToast) → IsSpaced window ts → IsSpaced window (without_first id ts)
  unfolding without_first
  IsSpaced-without_first [] h = tt
  IsSpaced-without_first (t ∷ ts) (p, h) = elim (Bool-cases (str_eq t.id id)) [
    | inl found ↦ rw found h
    | inr other ↦ rw other (All-without_first t ts p, IsSpaced-without_first ts h)
  ]

-- The window of the store, and its toasts that lie apart by it.
pub record IsDeduped (window : ℕ) (s : ToastStore) : Type 0 where
  pub fixed : s.dedupe_window_ms ≡ window
  pub spaced : IsSpaced window s.toasts

module _ (window : ℕ) where
  add_toast-IsDeduped :
      (request : ToastRequest) (now : ℕ) (id : String) (s : ToastStore)
      → IsDeduped window s
      → IsDeduped window (add_toast request now id s).0
  unfolding add_toast
  add_toast-IsDeduped request now id s h =
      let text = trim (message_of request) in
      let variant = variant_of request in
      elim (Bool-cases (str_eq text "")) [
        | inl empty ↦ rw empty h
        | inr there ↦
            elim (Bool-cases (any (repeats s.dedupe_window_ms now text variant) s.toasts)) [
              | inl twice ↦ rw there (rw twice h)
              | inr new ↦ rw there (
                  rw new (record {
                    fixed = unfold show_toast in h.fixed;
                    spaced =
                        unfold show_toast in
                        IsSpaced-snoc window now _ s.toasts refl (rw h.fixed at new) h.spaced;
                  }))
            ]
      ]

  remove_toast-IsDeduped :
      (id : String) (s : ToastStore) → IsDeduped window s → IsDeduped window (remove_toast id s)
  unfolding remove_toast
  remove_toast-IsDeduped id s h = elim (Bool-cases (any (λ t. str_eq t.id id) s.toasts)) [
    | inl there ↦
        rw there
          (record { fixed = h.fixed; spaced = IsSpaced-without_first window id s.toasts h.spaced })
    | inr gone ↦ rw gone h
  ]

  perform-IsDeduped :
      (a : ToastAction) (s : ToastStore) → IsDeduped window s → IsDeduped window (perform a s)
  unfolding perform subscribe unsubscribe clear_toasts
  perform-IsDeduped (adds request now id) s h = add_toast-IsDeduped request now id s h
  perform-IsDeduped (removes id) s h = remove_toast-IsDeduped id s h
  perform-IsDeduped (times_out id) s h = remove_toast-IsDeduped id s h
  perform-IsDeduped (subscribes l) s h = record { fixed = h.fixed; spaced = h.spaced }
  perform-IsDeduped (unsubscribes l) s h = record { fixed = h.fixed; spaced = h.spaced }
  perform-IsDeduped clears s h = record { fixed = h.fixed; spaced = tt }

  perform_all-IsDeduped :
      (as' : List ToastAction) (s : ToastStore)
      → IsDeduped window s
      → IsDeduped window (perform_all as' s)
  unfolding perform_all
  perform_all-IsDeduped [] s h = h
  perform_all-IsDeduped (a ∷ as') s h =
      perform_all-IsDeduped as' (perform a s) (perform-IsDeduped a s h)

-- After any actions on a new store, of two toasts on the screen with one message and one variant the
-- later was added at least the dedupe window, by default 2500 ms, after the earlier.
pub perform_all-IsSpaced :
    (dedupe_window default_duration : Option ℕ) (as' : List ToastAction)
    → IsSpaced
        (or_number dedupe_window 2500)
        (perform_all as' (construct dedupe_window default_duration)).toasts
unfolding construct
perform_all-IsSpaced dedupe_window default_duration as' =
    (perform_all-IsDeduped (or_number dedupe_window 2500) as'
      (construct dedupe_window default_duration) (record { fixed = refl; spaced = tt })).spaced

-- The two results of `addToast`.
abbrev pub AddsOrRefuses :
    ToastRequest → ℕ → String → ToastStore → ToastStore × Option String → Type 0
AddsOrRefuses request now id s (s', result) =
    ((result ≡ none)
      × (s' ≡ s)
      × ((trim (message_of request) ≡ "")
          ⊎ (any (repeats s.dedupe_window_ms now (trim (message_of request)) (variant_of request))
                s.toasts
              ≡ true)))
    ⊎ ((result ≡ some id)
        × (trim (message_of request) ≢ "")
        × (any (repeats s.dedupe_window_ms now (trim (message_of request)) (variant_of request))
              s.toasts
            ≡ false)
        × ((t : AppToast) × (s'.toasts ≡ s.toasts ++ t ∷ [])
            × (t.message ≡ trim (message_of request))
            × (t.id ≡ id)))

-- A toast is refused exactly when its trimmed message is empty or a toast on the screen with the
-- same message and variant is younger than the dedupe window; a refusal changes nothing, and an
-- accepted toast stands behind the others with the trimmed message and the given id.
pub add_toast_lem :
    (request : ToastRequest) (now : ℕ) (id : String) (s : ToastStore)
    → AddsOrRefuses request now id s (add_toast request now id s)
unfolding add_toast show_toast
add_toast_lem request now id s =
    let text = trim (message_of request) in
    let variant = variant_of request in
    elim (Bool-cases (str_eq text "")) [
      | inl empty ↦ rw empty (inl (refl, refl, inl ((eq_iff text "").0 empty)))
      | inr there ↦ elim (Bool-cases (any (repeats s.dedupe_window_ms now text variant) s.toasts)) [
        | inl twice ↦ rw there (rw twice (inl (refl, refl, inr refl)))
        | inr new ↦
            rw there
              (rw new (inr (refl, (λ e. cc ((eq_iff text "").1 e)), refl, (_, refl, refl, refl))))
      ]
    ]
