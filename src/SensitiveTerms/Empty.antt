-- ===== src/SensitiveTerms/Empty.antt =====
-- sensitiveTerms.ts: an empty term among those that a manager is given.
use stellar_dex_chat.Common.{
  ℕ, suc, ◌≡◌, ◌∙◌, refl, sym, ap, subst, false, none, List, [], ◌∷◌, ◌++◌, Memᴰ, length, inl, inr,
  Bool-cases, Option-cases,
}
use stellar_dex_chat.Common.Text.{same, same_iff}
use stellar_dex_chat.Stroops.{Text}
use stellar_dex_chat.SensitiveTerms.{
  SensitiveTermConfig, Terms, default_sensitive_terms, key_of, search_text, search_term, test_of,
  set_term, add_terms, construct, find_all, find_matches, collect, find_sensitive_terms,
}
use stellar_dex_chat.SensitiveTerms.Matches.{empty_key_endless}

Memᴰ-set_term :
    (key : Text) (c : SensitiveTermConfig) (ts : Terms) → Memᴰ (key, c) (set_term key c ts)
unfolding set_term
Memᴰ-set_term key c [] = Memᴰ.head refl
Memᴰ-set_term key c ((k, d) ∷ ts) = elim (Bool-cases (same k key)) [
  | inl e ↦ rw e (Memᴰ.head (ap (λ x. (x, c)) (sym ((same_iff k key).0 e))))
  | inr e ↦ rw e (Memᴰ.tail (Memᴰ-set_term key c ts))
]

module _ (lower : Text → Text) (form : ℕ → ℕ) where
  add_terms-append_one :
      (cs : List SensitiveTermConfig) (c : SensitiveTermConfig) (ts : Terms)
      → add_terms lower form (cs ++ c ∷ []) ts
        ≡ set_term (key_of lower form c.case_sensitive c.term) c (add_terms lower form cs ts)
  unfolding add_terms
  add_terms-append_one [] c ts = refl
  add_terms-append_one (d ∷ cs) c ts = add_terms-append_one cs c _

  collect_endless :
      (text key : Text) (c : SensitiveTermConfig) (ts : Terms)
      → Memᴰ (key, c) ts
      → find_matches lower form text key c ≡ none
      → collect lower form text ts ≡ none
  unfolding collect
  collect_endless text key c [] there h = elim there [ ]
  collect_endless text key c ((k, d) ∷ ts) (Memᴰ.head e) h =
      let first : find_matches lower form text k d ≡ none =
        sym (ap (λ p. find_matches lower form text p.0 p.1) e) ∙ h in
      rw first refl
  collect_endless text key c ((k, d) ∷ ts) (Memᴰ.tail there) h =
      elim (Option-cases (find_matches lower form text k d)) [
        | inl e ↦ rw e refl
        | inr (ms, e) ↦ rw (e, collect_endless text key c ts there h) refl
      ]

  -- A manager is made with terms of which the last is empty and need not be a whole word. The term is
  -- stored, the loop that searches for it is not finished after any number of rounds, whatever the text
  -- is, and so the search for all the terms gives nothing.
  pub empty_term_endless :
      (text : Text) (cs : List SensitiveTermConfig) (c : SensitiveTermConfig) (fuel : ℕ)
      → lower [] ≡ []
      → c.term ≡ []
      → c.whole_word_only ≡ false
      → let key = key_of lower form c.case_sensitive c.term in
        let ts = construct lower form (cs ++ c ∷ []) in
        Memᴰ (key, c) ts
        × (find_all
              (test_of lower form text key c)
              (length (search_term lower form key c))
              (length (search_text lower form c text))
              fuel
              0
            ≡ none)
        × (find_sensitive_terms lower form text ts ≡ none)
  unfolding construct find_sensitive_terms find_matches
  empty_term_endless text cs c fuel blank empty part =
      let key = key_of lower form c.case_sensitive c.term in
      let end = length (search_text lower form c text) in
      let ts = construct lower form (cs ++ c ∷ []) in
      let endless = λ (n : ℕ). empty_key_endless lower form text c end n blank empty part in
      let stored : Memᴰ (key, c) ts =
        subst (Memᴰ (key, c))
          (sym (add_terms-append_one cs c (add_terms lower form default_sensitive_terms [])))
          (Memᴰ-set_term key c
            (add_terms lower form cs (add_terms lower form default_sensitive_terms []))) in
      let lost : find_matches lower form text key c ≡ none = rw (endless (suc end)) refl in
      (stored, endless fuel, rw (collect_endless text key c ts stored lost) refl)
