-- ===== src/Beneficiaries/Keyboard.antt =====
-- useBeneficiaries.ts, `handleKeyboardShortcut`: the selection and the list.
use stellar_dex_chat.Common.{
  ℕ, zero, suc, ◌≡◌, ◌≤◌, ◌<◌, ◌∙◌, ap, refl, String, Bool, false, not, Option, none, some, List,
  [], ◌∷◌, filter, length, arith, str_eq, eq_iff,
}
use stellar_dex_chat.Beneficiaries.{
  Beneficiary, Hook, at, delete_at, KeyboardEvent, select, delete_beneficiary, selected_key,
  down_key, arrow_key, handle_keyboard_shortcut,
}

abbrev pub key_event : String → KeyboardEvent
key_event key = record { ctrl_key = false; shift_key = false; key = key }

length-filter : (p : Beneficiary → Bool) (bs : List Beneficiary) → length (filter p bs) ≤ length bs
length-filter p [] = omega arith
length-filter p (b ∷ bs) = ground (arith, length-filter p bs)

at-delete :
    (n : ℕ) (b : Beneficiary) (bs : List Beneficiary)
    → at n bs ≡ some b
    → length (filter (λ c. not (str_eq c.id b.id)) bs) < length bs
at-delete n b [] h = ground (arith, h)
at-delete zero b (c ∷ bs) h =
    ground (arith, h, (eq_iff c.id b.id).1, length-filter (λ x. not (str_eq x.id b.id)) bs)
at-delete (suc n) b (c ∷ bs) h = ground (arith, at-delete n b bs h)

at-past : (n : ℕ) (bs : List Beneficiary) → length bs ≤ n → at n bs ≡ none
at-past n [] h = refl
at-past zero (b ∷ bs) h = ground (arith, h)
at-past (suc n) (b ∷ bs) h = at-past n bs (omega arith)

at-delete_at :
    (n : ℕ) (o : Option Beneficiary) (s : Hook)
    → at n s.beneficiaries ≡ o
    → length s.beneficiaries ≡ suc n
    → at n (delete_at o s).beneficiaries ≡ none
unfolding delete_beneficiary
at-delete_at n none s h e = h
at-delete_at n (some b) s h e =
    at-past n (filter (λ c. not (str_eq c.id b.id)) s.beneficiaries)
      (omega (arith, e, at-delete n b s.beneficiaries h))

delete_at-selected_index :
    (o : Option Beneficiary) (s : Hook) → (delete_at o s).selected_index ≡ s.selected_index
unfolding delete_beneficiary
delete_at-selected_index none s = refl
delete_at-selected_index (some b) s = refl

delete_key :
    (n : ℕ) (s : Hook)
    → s.selected_index ≡ some n
    → (handle_keyboard_shortcut (key_event "Delete") s).0 ≡ delete_at (at n s.beneficiaries) s
unfolding handle_keyboard_shortcut arrow_key down_key selected_key
delete_key n s h = rw h refl

enter_key :
    (n : ℕ) (s : Hook)
    → s.selected_index ≡ some n
    → handle_keyboard_shortcut (key_event "Enter") s ≡ (s, some select)
unfolding handle_keyboard_shortcut arrow_key down_key selected_key
enter_key n s h = rw h refl

-- The last beneficiary of the list is selected and the key `Delete` is pressed: then no beneficiary
-- stands at the selected index, and the key `Enter` is still answered as if one were selected.
pub last_deleted :
    (n : ℕ) (s : Hook)
    → s.selected_index ≡ some n
    → length s.beneficiaries ≡ suc n
    → let s' = (handle_keyboard_shortcut (key_event "Delete") s).0 in
      (s'.selected_index ≡ some n)
      × (at n s'.beneficiaries ≡ none)
      × ((handle_keyboard_shortcut (key_event "Enter") s').1 ≡ some select)
last_deleted n s h e =
    let same = delete_at-selected_index (at n s.beneficiaries) s ∙ h in
    rw (delete_key n s h) (
      same,
      at-delete_at n (at n s.beneficiaries) s refl e,
      ap (λ r. r.1) (enter_key n (delete_at (at n s.beneficiaries) s) same),
    )
