-- ===== src/SensitiveTerms/Collecting.antt =====
-- sensitiveTerms.ts: the matches of all the terms of a manager, sorted, and which managers search well.
use stellar_dex_chat.Common.{
  ℕ, ◌≤◌, ◌≡◌, ◌∙◌, refl, sym, ap, Bool, ◌||◌, some, List, [], ◌∷◌, ◌++◌, any, leb, length, arith,
  inl, inr, All, All-append, Bool-cases,
}
use stellar_dex_chat.Common.Text.{same, same_iff}
use stellar_dex_chat.Stroops.{Text}
use stellar_dex_chat.SensitiveTerms.{
  SensitiveTermConfig, Terms, Match, insert_match, sort_matches, key_of, search_text, set_term,
  add_terms, collect, find_sensitive_terms,
}
use stellar_dex_chat.SensitiveTerms.Matches.{
  inside, IsWithin, IsSearchable, Covers, find_matches_lem,
}

any-append :
    (test : Match → Bool) (ms ns : List Match) → any test (ms ++ ns) ≡ any test ms || any test ns
any-append test [] ns = refl
any-append test (m ∷ ms) ns = ground (arith, any-append test ms ns)

any-insert_match :
    (test : Match → Bool) (m : Match) (ms : List Match)
    → any test (insert_match m ms) ≡ test m || any test ms
unfolding insert_match
any-insert_match test m [] = refl
any-insert_match test m (n ∷ ns) = ground (arith, any-insert_match test m ns)

any-sort_matches :
    (test : Match → Bool) (ms : List Match) → any test (sort_matches ms) ≡ any test ms
unfolding sort_matches
any-sort_matches test [] = refl
any-sort_matches test (m ∷ ms) =
    any-insert_match test m (sort_matches ms) ∙ ap (λ b. test m || b) (any-sort_matches test ms)

All-insert_match :
    (P : Match → Type 0) (m : Match) (ms : List Match) → P m → All P ms → All P (insert_match m ms)
unfolding insert_match
All-insert_match P m [] h hs = (h, tt)
All-insert_match P m (n ∷ ns) h (k, ks) = elim (Bool-cases (leb m.index n.index)) [
  | inl before ↦ rw before (h, (k, ks))
  | inr after ↦ rw after (k, All-insert_match P m ns h ks)
]

All-sort_matches : (P : Match → Type 0) (ms : List Match) → All P ms → All P (sort_matches ms)
unfolding sort_matches
All-sort_matches P [] h = tt
All-sort_matches P (m ∷ ms) (h, hs) =
    All-insert_match P m (sort_matches ms) h (All-sort_matches P ms hs)

module _ (lower : Text → Text) (form : ℕ → ℕ) where
  Covers-append_left :
      (text : Text) (kc : Text × SensitiveTermConfig) (ms ns : List Match)
      → Covers lower form text kc ms
      → Covers lower form text kc (ms ++ ns)
  Covers-append_left text (key, c) ms ns h =
      λ j to hit. any-append (inside j) ms ns ∙ rw (h j to hit) refl

  Covers-append_right :
      (text : Text) (kc : Text × SensitiveTermConfig) (ms ns : List Match)
      → Covers lower form text kc ns
      → Covers lower form text kc (ms ++ ns)
  Covers-append_right text (key, c) ms ns h =
      λ j to hit. any-append (inside j) ms ns ∙ rw (h j to hit) (ground arith)

  All-Covers-append :
      (text : Text) (ts : Terms) (ms ns : List Match)
      → All (λ kc. Covers lower form text kc ns) ts
      → All (λ kc. Covers lower form text kc (ms ++ ns)) ts
  All-Covers-append text [] ms ns h = tt
  All-Covers-append text (kc ∷ ts) ms ns (h, hs) =
      (Covers-append_right text kc ms ns h, All-Covers-append text ts ms ns hs)

  collect_lem :
      (text : Text) (ts : Terms)
      → length (lower text) ≡ length text
      → All (IsSearchable lower form) ts
      → (ms : List Match) × (collect lower form text ts ≡ some ms)
        × All (IsWithin text) ms
        × All (λ kc. Covers lower form text kc ms) ts
  unfolding collect
  collect_lem text [] same h = ([], refl, tt, tt)
  collect_lem text ((key, c) ∷ ts) same (h, hs) =
      let lowered : length (search_text lower form c text) ≡ length text = ground arith in
      let (ms, e, within, covered) = find_matches_lem lower form text key c lowered h in
      let (ns, e', within', covered') = collect_lem text ts same hs in
      (
        ms ++ ns,
        rw (e, e') refl,
        All-append (IsWithin text) ms ns within within',
        (Covers-append_left text (key, c) ms ns covered, All-Covers-append text ts ms ns covered'),
      )

  All-Covers-sort :
      (text : Text) (ts : Terms) (ms : List Match)
      → All (λ kc. Covers lower form text kc ms) ts
      → All (λ kc. Covers lower form text kc (sort_matches ms)) ts
  All-Covers-sort text [] ms h = tt
  All-Covers-sort text (kc ∷ ts) ms (h, hs) =
      (λ j to hit. any-sort_matches (inside j) ms ∙ h j to hit, All-Covers-sort text ts ms hs)

  pub find_sensitive_terms_lem :
      (text : Text) (ts : Terms)
      → length (lower text) ≡ length text
      → All (IsSearchable lower form) ts
      → (ms : List Match) × (find_sensitive_terms lower form text ts ≡ some ms)
        × All (IsWithin text) ms
        × All (λ kc. Covers lower form text kc ms) ts
  unfolding find_sensitive_terms
  find_sensitive_terms_lem text ts same h =
      let (ms, e, within, covered) = collect_lem text ts same h in
      (
        sort_matches ms,
        rw e refl,
        All-sort_matches (IsWithin text) ms within,
        All-Covers-sort text ts ms covered,
      )

  -- The search for the terms of a manager comes to an end in a text whose characters keep their number
  -- in lower case, if no stored term is empty and a second `toLowerCase` keeps the length of each key.
  -- Each match it gives lies in the text, is not empty, and has the part of the text at its place.
  pub find_sensitive_terms_ends :
      (text : Text) (ts : Terms)
      → length (lower text) ≡ length text
      → All (IsSearchable lower form) ts
      → (ms : List Match) × (find_sensitive_terms lower form text ts ≡ some ms)
        × All (IsWithin text) ms
  find_sensitive_terms_ends text ts same h =
      let (ms, e, within, _) = find_sensitive_terms_lem text ts same h in (ms, e, within)

  -- The term is not empty in its key, and two `toLowerCase` keep the length of one.
  abbrev pub IsProper : SensitiveTermConfig → Type 0
  IsProper c =
      (1 ≤ length (key_of lower form c.case_sensitive c.term))
      × (length (lower (lower c.term)) ≡ length (lower c.term))

  set_term-AreSearchable :
      (key : Text) (c : SensitiveTermConfig) (ts : Terms)
      → IsSearchable lower form (key, c)
      → All (IsSearchable lower form) ts
      → All (IsSearchable lower form) (set_term key c ts)
  unfolding set_term
  set_term-AreSearchable key c [] h hs = (h, tt)
  set_term-AreSearchable key c ((k, d) ∷ ts) h (g, gs) = elim (Bool-cases (same k key)) [
    | inl e ↦ rw e (rw (sym ((same_iff k key).0 e)) at h, gs)
    | inr e ↦ rw e (g, set_term-AreSearchable key c ts h gs)
  ]

  pub add_terms-AreSearchable :
      (cs : List SensitiveTermConfig) (ts : Terms)
      → All IsProper cs
      → All (IsSearchable lower form) ts
      → All (IsSearchable lower form) (add_terms lower form cs ts)
  unfolding add_terms
  add_terms-AreSearchable [] ts h hs = hs
  add_terms-AreSearchable (c ∷ cs) ts (h, hs) gs =
      add_terms-AreSearchable cs _ hs (set_term-AreSearchable _ c ts (ground arith) gs)
