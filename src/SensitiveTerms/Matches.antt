-- ===== src/SensitiveTerms/Matches.antt =====
-- sensitiveTerms.ts: the matches of all terms in a text.
use stellar_dex_chat.Common.{
  ℕ, suc, ◌+◌, ◌≤◌, ◌≡◌, ◌∙◌, refl, ap, Bool, true, false, ◌&&◌, ◌||◌, none, some, List, [], ◌∷◌,
  any, map, leb, ltb, drop, length, length-drop, arith, inl, inr, All, and-true, Bool-cases,
}
use stellar_dex_chat.Common.Text.{starts_with}
use stellar_dex_chat.Stroops.{Text}
use stellar_dex_chat.SensitiveTerms.{
  SensitiveTermConfig, Match, substring, agrees, is_here, is_whole_word, is_boundary, find_all,
  to_match, key_of, search_text, search_term, test_of, form_of, find_matches,
}
use stellar_dex_chat.SensitiveTerms.Loop.{covers, find_all_lem, find_all_endless}

-- The place is inside the match.
abbrev pub inside : ℕ → Match → Bool
inside j m = leb m.index j && ltb j (m.index + m.length_of)

-- The match lies in the text, is not empty, and has its term from there.
abbrev pub IsWithin : Text → Match → Type 0
IsWithin text m =
    (m.index + m.length_of ≤ length text)
    × (1 ≤ m.length_of)
    × (m.term ≡ substring m.index (m.index + m.length_of) text)

starts_with-length : (cs ks : Text) → starts_with cs ks ≡ true → length ks ≤ length cs
starts_with-length cs [] h = omega arith
starts_with-length [] (k ∷ ks) h = ground arith
starts_with-length (c ∷ cs) (k ∷ ks) h = ground (arith, starts_with-length cs ks)

agrees-length : (form : ℕ → ℕ) (cs ks : Text) → agrees form cs ks ≡ true → length ks ≤ length cs
agrees-length form cs [] h = omega arith
agrees-length form [] (k ∷ ks) h = ground arith
agrees-length form (c ∷ cs) (k ∷ ks) h = ground (arith, agrees-length form cs ks)

is_here-fits :
    (text term : Text) (size i : ℕ)
    → is_here text term i ≡ true
    → length term ≡ size
    → 1 ≤ size
    → i + size ≤ length text
is_here-fits text term size i h same some_size =
    omega (arith, starts_with-length (drop i text) term h, length-drop i text)

is_whole_word-fits :
    (by : ℕ → ℕ) (text term : Text) (i : ℕ)
    → is_whole_word by text term i ≡ true
    → 1 ≤ length term
    → i + length term ≤ length text
is_whole_word-fits by text term i h some_size =
    let front = (and-true {a = is_boundary text i && agrees by (drop i text) term} h).0 in
    let agree = (and-true {a = is_boundary text i} front).1 in
    omega (arith, agrees-length by (drop i text) term agree, length-drop i text)

module _ (lower : Text → Text) (form : ℕ → ℕ) where
  -- What the loop needs of a stored term: it is not empty, and one more `toLowerCase` keeps the length
  -- of the key.
  abbrev pub IsSearchable : Text × SensitiveTermConfig → Type 0
  IsSearchable (key, c) =
      (1 ≤ length (search_term lower form key c))
      × (length (key_of lower form c.case_sensitive (search_term lower form key c))
          ≡ length (search_term lower form key c))

  test_of-fits :
      (text key : Text) (c : SensitiveTermConfig) (i : ℕ)
      → IsSearchable (key, c)
      → test_of lower form text key c i ≡ true
      → i + length (search_term lower form key c) ≤ length (search_text lower form c text)
  test_of-fits text key c i (some_size, same) h = elim (Bool-cases c.whole_word_only) [
    | inl whole ↦
        is_whole_word-fits (form_of lower form c.case_sensitive) (search_text lower form c text)
          (search_term lower form key c) i (rw whole at h) some_size
    | inr part ↦
        is_here-fits (search_text lower form c text)
          (key_of lower form c.case_sensitive (search_term lower form key c))
          (length (search_term lower form key c)) i (rw part at h) same some_size
  ]

  -- A place where a stored term begins is inside a match.
  abbrev pub Covers : Text → Text × SensitiveTermConfig → List Match → Type 0
  Covers text (key, c) ms =
      (j : ℕ)
      → j ≤ length (search_text lower form c text)
      → test_of lower form text key c j ≡ true
      → any (inside j) ms ≡ true

  to_match-IsWithin :
      (text : Text) (size : ℕ) (c : SensitiveTermConfig) (test : ℕ → Bool) (is : List ℕ)
      → ((i : ℕ) → test i ≡ true → i + size ≤ length text)
      → 1 ≤ size
      → All (λ i. test i ≡ true) is
      → All (IsWithin text) (map (to_match text size c) is)
  to_match-IsWithin text size c test [] fit some_size h = tt
  to_match-IsWithin text size c test (i ∷ is) fit some_size (hit, hits) =
      ((fit i hit, some_size, refl), to_match-IsWithin text size c test is fit some_size hits)

  any-to_match :
      (text : Text) (size : ℕ) (c : SensitiveTermConfig) (test : ℕ → Bool) (j : ℕ) (is : List ℕ)
      → any (inside j) (map (to_match text size c) is) ≡ any (covers test size j) is
  any-to_match text size c test j [] = refl
  any-to_match text size c test j (i ∷ is) =
      ap (λ b. covers test size j i || b) (any-to_match text size c test j is)

  pub find_matches_lem :
      (text key : Text) (c : SensitiveTermConfig)
      → length (search_text lower form c text) ≡ length text
      → IsSearchable (key, c)
      → (ms : List Match) × (find_matches lower form text key c ≡ some ms)
        × All (IsWithin text) ms
        × Covers text (key, c) ms
  unfolding find_matches
  find_matches_lem text key c same_length (some_size, same) =
      let size = length (search_term lower form key c) in
      let end = length (search_text lower form c text) in
      let test = test_of lower form text key c in
      let fit : (i : ℕ) → test i ≡ true → i + size ≤ end =
        λ i hit. test_of-fits text key c i (some_size, same) hit in
      let (is, e, (hits, complete)) =
        find_all_lem test size end (suc end) 0 some_size fit (omega arith) (omega arith) in
      (
        map (to_match text size c) is,
        rw e refl,
        to_match-IsWithin text size c test is (λ i hit. rw same_length at (fit i hit)) some_size
            hits,
        λ j to hit. any-to_match text size c test j is ∙ complete j (omega arith) to hit,
      )

  empty_key :
      (c : SensitiveTermConfig)
      → lower [] ≡ []
      → c.term ≡ []
      → key_of lower form c.case_sensitive c.term ≡ []
  empty_key c blank empty = ground (arith, blank, empty)

  -- For a term that is empty and need not be a whole word, no number of rounds ends the loop.
  pub empty_key_endless :
      (text : Text) (c : SensitiveTermConfig) (end fuel : ℕ)
      → lower [] ≡ []
      → c.term ≡ []
      → c.whole_word_only ≡ false
      → find_all
          (test_of lower form text (key_of lower form c.case_sensitive c.term) c)
          (length (search_term lower form (key_of lower form c.case_sensitive c.term) c))
          end
          fuel
          0
        ≡ none
  empty_key_endless text c end fuel blank empty part =
      let key = empty_key c blank empty in
      let searched : search_term lower form [] c ≡ [] = ground (arith, empty) in
      let pattern : key_of lower form c.case_sensitive [] ≡ [] = ground (arith, blank) in
      let here : test_of lower form text [] c 0 ≡ true = rw part (rw searched (rw pattern refl)) in
      rw key (rw searched (find_all_endless (test_of lower form text [] c) end fuel 0 here))
