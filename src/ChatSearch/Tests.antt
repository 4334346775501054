-- ===== src/ChatSearch/Tests.antt =====
-- chatSearch.ts: runs at concrete inputs.
use stellar_dex_chat.Common.{ℕ, false, ◌≡◌, refl, ◌↔◌, none, Option, [], ◌∷◌, map, Memᴰ, arith}
use stellar_dex_chat.Common.Text.{codes, to_lower, is_space}
use stellar_dex_chat.Stroops.{Text, is_empty, trim, trim_start, trim_end}
use stellar_dex_chat.ChatSearch.{
  user, ChatMessage, ChatSession, SearchFilters, find_in, index_of, scan, find_highlights,
  search_chat_history,
}
use stellar_dex_chat.ChatSearch.Highlights.{IsScan, find_highlights_lem}
use stellar_dex_chat.ChatSearch.Matching.{IsHit, match_of, HasFilter, search_chat_history_iff}

abbrev lower : Text → Text
lower t = map to_lower t

abbrev no_time : Text → Option ℕ
no_time t = none

abbrev greeting : Text
greeting = codes "Pay, pay on"

abbrev key : Text
key = codes "PAY"

visible : is_empty (trim key) ≡ false
unfolding trim trim_start trim_end is_space
visible = refl

find_highlights_run : find_highlights lower no_time greeting key ≡ (0, 3) ∷ (5, 8) ∷ []
unfolding find_highlights scan index_of find_in trim trim_start trim_end is_space to_lower
find_highlights_run = refl

find_highlights_lem_example :
    IsScan (lower greeting) (lower key) 0 (find_highlights lower no_time greeting key)
find_highlights_lem_example = find_highlights_lem lower no_time greeting key visible (omega arith)

abbrev message : ChatMessage
message = record { id = codes "m"; role = user; content = greeting; timestamp = 5 }

abbrev session : ChatSession
session = record { id = codes "s"; title = []; messages = message ∷ []; wallet_address = none }

abbrev by_keyword : SearchFilters
by_keyword = record { keyword = key; wallet_address = []; date_from = []; date_to = [] }

has_filter : HasFilter lower no_time by_keyword
unfolding trim trim_start trim_end is_space
has_filter = refl

search_chat_history_iff_example :
    Memᴰ
      (match_of lower no_time by_keyword session message)
      (search_chat_history lower no_time (session ∷ []) by_keyword).matches
    ↔ ((s : ChatSession) × (m : ChatMessage) × Memᴰ s (session ∷ [])
        × Memᴰ m s.messages
        × IsHit lower no_time by_keyword s m
        × (match_of lower no_time by_keyword session message
            ≡ match_of lower no_time by_keyword s m))
search_chat_history_iff_example =
    search_chat_history_iff lower no_time (session ∷ []) by_keyword
      (match_of lower no_time by_keyword session message) has_filter
