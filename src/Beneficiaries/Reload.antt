-- ===== src/Beneficiaries/Reload.antt =====
-- useBeneficiaries.ts: what a page finds in the storage after another wrote it.
use stellar_dex_chat.Common.{
  ◌≡◌, ◌≢◌, ◌∙◌, refl, ap, sym, String, Bool, true, false, Option, none, some, List, [], ◌∷◌, arith,
  inl, inr, str_eq, eq_iff, Bool-cases,
}
use stellar_dex_chat.Beneficiaries.{
  Beneficiary, Hook, Parsed, array, first_render, load_effect, save_effect, Response, fails, not_ok,
  body, fetch_ends, fetched_list, Edit, adds, renames, removes, add_beneficiary, rename_beneficiary,
  delete_beneficiary, perform,
}

-- The request fails, its status is no success, or its body is no array.
abbrev pub is_failure : Response → Bool
is_failure fails = true
is_failure (not_ok status) = true
is_failure (body none) = true
is_failure (body (some bs)) = false

is_failure-fetched_list : (r : Response) → is_failure r ≡ true → fetched_list r ≡ []
unfolding fetched_list
is_failure-fetched_list fails h = refl
is_failure-fetched_list (not_ok status) h = refl
is_failure-fetched_list (body none) h = refl
is_failure-fetched_list (body (some bs)) h = ground (arith, h)

module _ (stringify : List Beneficiary → String) (parse : String → Parsed) where
  -- A page's first effects: it loads what is stored, and after the render that follows saves it.
  abbrev pub mount : Option String → Hook
  mount item = save_effect stringify true (load_effect parse true (first_render item))

  -- A page's edits, each with the render and the effect that follow.
  unfoldable pub edit_all : List Edit → Hook → Hook
  edit_all [] s = s
  edit_all (e ∷ es) s = edit_all es (save_effect stringify true (perform e s))

  -- The page is loaded, and the storage has its list.
  abbrev IsSaved : Hook → Type 0
  IsSaved s = (s.is_loaded ≡ true) × (s.stored ≡ some (stringify s.beneficiaries))

  save_effect-IsSaved : (s : Hook) → s.is_loaded ≡ true → IsSaved (save_effect stringify true s)
  unfolding save_effect
  save_effect-IsSaved s h = ground arith

  perform-is_loaded : (e : Edit) (s : Hook) → (perform e s).is_loaded ≡ s.is_loaded
  unfolding perform add_beneficiary rename_beneficiary delete_beneficiary
  perform-is_loaded (adds id now a) s = refl
  perform-is_loaded (renames id new_name) s = refl
  perform-is_loaded (removes id) s = refl

  edit_all-IsSaved : (es : List Edit) (s : Hook) → IsSaved s → IsSaved (edit_all es s)
  unfolding edit_all
  edit_all-IsSaved [] s h = h
  edit_all-IsSaved (e ∷ es) s (loaded, _) =
      edit_all-IsSaved es _ (save_effect-IsSaved (perform e s) (perform-is_loaded e s ∙ loaded))

  mount-IsSaved : (item : Option String) → IsSaved (mount item)
  unfolding load_effect
  mount-IsSaved item = save_effect-IsSaved (load_effect parse true (first_render item)) refl

  reload :
      (s : Hook)
      → parse (stringify s.beneficiaries) ≡ array s.beneficiaries
      → stringify s.beneficiaries ≢ ""
      → s.stored ≡ some (stringify s.beneficiaries)
      → (mount s.stored).beneficiaries ≡ s.beneficiaries
  unfolding load_effect save_effect
  reload s json some_text h = rw h (elim (Bool-cases (str_eq (stringify s.beneficiaries) "")) [
    | inl e ↦ absurd (some_text ((eq_iff (stringify s.beneficiaries) "").0 e))
    | inr e ↦ rw e (rw json refl)
  ])

  -- A page loads what is stored, whatever that is, and edits the list, and the storage works. A page
  -- that is opened after it then has the list that the first page has, as long as JSON reads this list
  -- as it was written and does not write it as the empty text.
  pub mount-edit_all :
      (item : Option String) (es : List Edit) (s : Hook)
      → s ≡ edit_all es (mount item)
      → parse (stringify s.beneficiaries) ≡ array s.beneficiaries
      → stringify s.beneficiaries ≢ ""
      → (mount s.stored).beneficiaries ≡ s.beneficiaries
  mount-edit_all item es s ended json some_text =
      let (_, saved) = edit_all-IsSaved es (mount item) (mount-IsSaved item) in
      reload s json some_text
        (ap (λ h. h.stored) ended ∙ saved ∙ ap (λ h. some (stringify h.beneficiaries)) (sym ended))

  -- A page that takes the list from the service, and whose request fails, has an error status
  -- or a body that is no array, overwrites the list that was stored: a page that is opened after it has
  -- no beneficiary, as long as JSON reads the empty list as it was written and does not write it as the
  -- empty text.
  pub failed_fetch_erases :
      (r : Response) (s : Hook)
      → is_failure r ≡ true
      → parse (stringify []) ≡ array []
      → stringify [] ≢ ""
      → (mount (save_effect stringify true (fetch_ends true r s)).stored).beneficiaries ≡ []
  unfolding fetch_ends save_effect
  failed_fetch_erases r s h json some_text =
      let empty = is_failure-fetched_list r h in
      rw empty (
        reload (record s { beneficiaries = []; is_loaded = true; stored = some (stringify []) })
          json some_text refl)
