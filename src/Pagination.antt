-- ===== src/Pagination.antt =====
-- Dechat/dex_with_fiat_frontend/src/lib/chatPaginationUtils.ts: which messages of a chat are shown.
pub mod Visible
mod Tests
use stellar_dex_chat.Common.{ℕ, ◌+◌, Bool, List, ltb, min, length, slice_last}

abbrev pub default_page_size : ℕ
default_page_size = 20

module _ {ℓ} {A : Type ℓ} where
  -- The empty list is its own slice.
  unfoldable pub get_visible_messages : List A → ℕ → List A
  get_visible_messages messages target_count = slice_last target_count messages

  unfoldable pub has_more_messages : List A → ℕ → Bool
  has_more_messages messages visible_count = ltb visible_count (length messages)

-- The items enter by their number.
unfoldable pub get_next_message_count : ℕ → ℕ → ℕ → ℕ
get_next_message_count total_count visible_count page_size =
    min (visible_count + page_size) total_count
