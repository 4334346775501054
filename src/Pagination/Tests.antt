-- ===== src/Pagination/Tests.antt =====
-- chatPaginationUtils.ts: runs at concrete inputs.
use stellar_dex_chat.Common.{ℕ, ◌≡◌, refl, List, [], ◌∷◌}
use stellar_dex_chat.Pagination.{get_visible_messages}

abbrev five : List ℕ
five = 10 ∷ 20 ∷ 30 ∷ 40 ∷ 50 ∷ []

shows_last_two : get_visible_messages five 2 ≡ 40 ∷ 50 ∷ []
unfolding get_visible_messages
shows_last_two = refl

-- A target of 0 shows all of them.
shows_all : get_visible_messages five 0 ≡ five
unfolding get_visible_messages
shows_all = refl
