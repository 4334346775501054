-- ===== src/TextMasking/Tests.antt =====
-- Masking concrete texts, over the letters of ASCII and the default terms.
use stellar_dex_chat.Common.{◌≡◌, refl, true, false, some, arith, Memᴰ}
use stellar_dex_chat.Common.Text.{codes, to_lower}
use stellar_dex_chat.Stroops.{Text}
use stellar_dex_chat.SensitiveTerms.{
  SensitiveTermConfig, sensitive, construct, add_terms, set_term, find_sensitive_terms, collect,
  find_matches, find_all, first_from, sort_matches, insert_match,
}
use stellar_dex_chat.SensitiveTerms.Tests.{ascii_lower, manager, manager-AreSearchable}
use stellar_dex_chat.TextMasking.{asterisk, pipe, mask_text, mask_matches, generate_mask}
use stellar_dex_chat.TextMasking.Masked.{char_at, mask_text_covers}

abbrev message : Text
message = codes "I hate it"

abbrev hate : SensitiveTermConfig
hate = record {
  term = codes "hate";
  category = sensitive;
  case_sensitive = false;
  whole_word_only = true;
}

masks_message : mask_text ascii_lower to_lower message manager asterisk ≡ some (codes "I **** it")
unfolding construct add_terms set_term mask_text find_sensitive_terms collect find_matches find_all
    first_from sort_matches insert_match mask_matches generate_mask to_lower
masks_message = refl

bars_message : mask_text ascii_lower to_lower message manager pipe ≡ some (codes "I |hate| it")
unfolding construct add_terms set_term mask_text find_sensitive_terms collect find_matches find_all
    first_from sort_matches insert_match mask_matches generate_mask to_lower
bars_message = refl

stored_hate : Memᴰ (codes "hate", hate) manager
unfolding construct add_terms set_term to_lower
stored_hate = Memᴰ.tail (
    Memᴰ.tail (
      Memᴰ.tail
        (Memᴰ.tail (Memᴰ.tail (Memᴰ.tail (Memᴰ.tail (Memᴰ.tail (Memᴰ.tail (Memᴰ.head refl)))))))))

mask_text_covers_example : char_at (codes "I **** it") 2 ≡ some b'*'
unfolding to_lower
mask_text_covers_example =
    mask_text_covers ascii_lower to_lower message manager refl manager-AreSearchable
      (codes "I **** it") (codes "hate") hate 2 masks_message stored_hate (omega arith) refl
