-- ===== src/SensitiveTerms/Tests.antt =====
-- The terms of a manager in concrete texts, over the letters of ASCII.
use stellar_dex_chat.Common.{
  ◌≡◌, refl, true, false, none, some, List, [], ◌∷◌, Memᴰ, map, length, All, arith,
}
use stellar_dex_chat.Common.Text.{codes, to_lower}
use stellar_dex_chat.Stroops.{Text}
use stellar_dex_chat.SensitiveTerms.{
  SensitiveTermConfig, Terms, Match, custom, default_sensitive_terms, construct, add_terms,
  find_all, first_from, search_term, test_of, find_matches, find_sensitive_terms, matches_term,
}
use stellar_dex_chat.SensitiveTerms.Matches.{IsWithin, IsSearchable}
use stellar_dex_chat.SensitiveTerms.Empty.{empty_term_endless}
use stellar_dex_chat.SensitiveTerms.Collecting.{
  IsProper, add_terms-AreSearchable, find_sensitive_terms_ends,
}

abbrev pub ascii_lower : Text → Text
ascii_lower cs = map to_lower cs

abbrev pub manager : Terms
manager = construct ascii_lower to_lower []

abbrev pub message : Text
message = codes "Damn class"

defaults-AreProper : All (IsProper ascii_lower to_lower) default_sensitive_terms
unfolding to_lower
defaults-AreProper = (
  (omega arith, refl),
  (
    (omega arith, refl),
    (
      (omega arith, refl),
      (
        (omega arith, refl),
        (
          (omega arith, refl),
          (
            (omega arith, refl),
            (
              (omega arith, refl),
              (
                (omega arith, refl),
                ((omega arith, refl), ((omega arith, refl), ((omega arith, refl), tt))),
              ),
            ),
          ),
        ),
      ),
    ),
  ),
)

pub manager-AreSearchable : All (IsSearchable ascii_lower to_lower) manager
unfolding construct add_terms
manager-AreSearchable =
    add_terms-AreSearchable ascii_lower to_lower default_sensitive_terms [] defaults-AreProper tt

find_sensitive_terms_ends_example :
    (ms : List Match) × (find_sensitive_terms ascii_lower to_lower message manager ≡ some ms)
    × All (IsWithin message) ms
find_sensitive_terms_ends_example =
    find_sensitive_terms_ends ascii_lower to_lower message manager refl manager-AreSearchable

abbrev empty_term : SensitiveTermConfig
empty_term = record {
  term = [];
  category = custom;
  case_sensitive = false;
  whole_word_only = false;
}

empty_term_endless_example :
    Memᴰ ([], empty_term) (construct ascii_lower to_lower (empty_term ∷ []))
    × (find_all
          (test_of ascii_lower to_lower message [] empty_term)
          (length (search_term ascii_lower to_lower [] empty_term))
          (length message)
          1000
          0
        ≡ none)
    × (find_sensitive_terms ascii_lower to_lower message
          (construct ascii_lower to_lower (empty_term ∷ []))
        ≡ none)
empty_term_endless_example =
    empty_term_endless ascii_lower to_lower message [] empty_term 1000 refl refl refl

abbrev exact_term : SensitiveTermConfig
exact_term = record {
  term = codes "Key";
  category = custom;
  case_sensitive = true;
  whole_word_only = true;
}

-- A term whose case counts is found by one method and not by the other.
ignores_case : matches_term ascii_lower to_lower (codes "key") (codes "Key") exact_term ≡ true
unfolding matches_term first_from to_lower
ignores_case = refl

respects_case : find_matches ascii_lower to_lower (codes "key") (codes "Key") exact_term ≡ some []
unfolding find_matches find_all first_from
respects_case = refl
