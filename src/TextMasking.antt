-- ===== src/TextMasking.antt =====
-- Dechat/dex_with_fiat_frontend/src/lib/textMasking.ts: how the matches in a text are masked.
pub mod Masked
mod Tests
use stellar_dex_chat.Common.{
  ℕ, zero, suc, ◌+◌, ◌-◌, Bool, true, false, Option, none, some, List, [], ◌∷◌, ◌++◌, take, drop,
  replicate, ◌>>=◌, leb, ltb, ◌==◌, if◌then◌else◌, length, map, any,
}
use stellar_dex_chat.Common.Text.{same}
use stellar_dex_chat.Stroops.{Text}
use stellar_dex_chat.SensitiveTerms.{
  Category, Match, profanity, sensitive, offensive, custom, SensitiveTermConfig, Terms,
  find_sensitive_terms,
}

pub data MaskingStyle : Type 0 where
  asterisk block initial pipe address : MaskingStyle

abbrev pub stars : ℕ → Text
stars n = replicate n b'*'

-- `term.charAt(0) + '*'.repeat(length - 1)`, or one star for at most one character.
abbrev mask_initial : Text → Text
mask_initial [] = stars 1
mask_initial (c ∷ []) = stars 1
mask_initial (c ∷ d ∷ cs) = c ∷ stars (length (d ∷ cs))

-- `term.slice(-4)`, for more than ten characters.
abbrev pub last_four : Text → Text
last_four term = drop (length term - 4) term

abbrev mask_address : Text → Text
mask_address term =
    if leb (length term) 10 then term else take 6 term ++ stars (length term - 10) ++ last_four term

unfoldable pub generate_mask : Text → MaskingStyle → Text
generate_mask term block = replicate (length term) 0x2588
generate_mask term initial = mask_initial term
generate_mask term pipe = b'|' ∷ term ++ b'|' ∷ []
generate_mask term address = mask_address term
generate_mask term asterisk = stars (length term)

unfoldable pub mask_term_at_position : Text → ℕ → ℕ → Text → Text
mask_term_at_position text index size mask = take index text ++ mask ++ drop (index + size) text

-- The loop. The offset is the characters that were added less those that were removed; `substring`
-- takes a position below 0 as 0.
unfoldable pub mask_matches : MaskingStyle → List Match → ℕ → ℕ → Text → Text
mask_matches style [] added removed result = result
mask_matches style (m ∷ ms) added removed result =
    let mask = generate_mask m.term style in
    mask_matches style ms (added + length mask) (removed + m.length_of) (
      take (m.index + added - removed) result
      ++ mask
      ++ drop (m.index + added + m.length_of - removed) result)

unfoldable pub mask_text : (Text → Text) → (ℕ → ℕ) → Text → Terms → MaskingStyle → Option Text
mask_text lower form text terms style = do
  ms ← find_sensitive_terms lower form text terms
  some (mask_matches style ms 0 0 text)

-- `set.add(term)` for each match.
abbrev pub add_unique : Text → List Text → List Text
add_unique term ts = if any (λ t. same t term) ts then ts else ts ++ term ∷ []

unfoldable pub unique_terms : List Match → List Text → List Text
unique_terms [] ts = ts
unique_terms (m ∷ ms) ts = unique_terms ms (add_unique m.term ts)

abbrev pub same_category : Category → Category → Bool
same_category profanity profanity = true
same_category sensitive sensitive = true
same_category offensive offensive = true
same_category custom custom = true
same_category _ _ = false

-- `byCategory[category] = (byCategory[category] || 0) + 1`
unfoldable pub count_category : Category → List (Category × ℕ) → List (Category × ℕ)
count_category c [] = (c, 1) ∷ []
count_category c ((d, n) ∷ counts) =
    let rest = count_category c counts in
    if same_category d c then (d, suc n) ∷ counts else (d, n) ∷ rest

unfoldable pub count_categories : List Match → List (Category × ℕ) → List (Category × ℕ)
count_categories [] counts = counts
count_categories (m ∷ ms) counts = count_categories ms (count_category m.config.category counts)

pub record MaskingStats : Type 0 where
  pub total_terms_found : ℕ
  pub unique : List Text
  pub by_category : List (Category × ℕ)

unfoldable pub get_masking_stats : (Text → Text) → (ℕ → ℕ) → Text → Terms → Option MaskingStats
get_masking_stats lower form text terms = do
  ms ← find_sensitive_terms lower form text terms
  some (record {
    total_terms_found = length ms;
    unique = unique_terms ms [];
    by_category = count_categories ms [];
  })
