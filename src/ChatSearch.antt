-- ===== src/ChatSearch.antt =====
-- Dechat/dex_with_fiat_frontend/src/lib/chatSearch.ts: the search through the chat sessions. A text is
-- the list of its UTF-16 code units, a time milliseconds since the epoch.
pub mod Highlights
pub mod Segments
pub mod Debounce
pub mod Matching
mod Tests
use stellar_dex_chat.Common.{
  ℕ, zero, suc, ◌+◌, ◌-◌, Bool, true, false, not, ◌&&◌, ◌||◌, Option, none, some, List, [], ◌∷◌,
  ◌++◌, ltb, if◌then◌else◌, length, take, drop,
}
use stellar_dex_chat.Common.Text.{starts_with, includes}
use stellar_dex_chat.Stroops.{Text, is_empty, trim}

pub data Role : Type 0 where
  user assistant system : Role

pub record ChatMessage : Type 0 where
  pub id : Text
  pub role : Role
  pub content : Text
  pub timestamp : ℕ

pub record ChatSession : Type 0 where
  pub id : Text
  pub title : Text
  pub messages : List ChatMessage
  pub wallet_address : Option Text

pub record SearchFilters : Type 0 where
  pub keyword : Text
  pub wallet_address : Text
  pub date_from : Text
  pub date_to : Text

pub record MessageMatch : Type 0 where
  pub session_id : Text
  pub session_title : Text
  pub message : ChatMessage
  pub highlights : List (ℕ × ℕ)

pub record SearchResults : Type 0 where
  pub matches : List MessageMatch
  pub total_sessions : ℕ
  pub total_messages : ℕ

pub record Segment : Type 0 where
  pub text : Text
  pub highlight : Bool

abbrev pub plus : ℕ → Option ℕ → Option ℕ
plus n none = none
plus n (some i) = some (n + i)

abbrev pub next : Option ℕ → Option ℕ
next none = none
next (some i) = some (suc i)

-- Where the key first occurs in the text.
unfoldable pub find_in : Text → Text → Option ℕ
find_in key [] = if is_empty key then some 0 else none
find_in key (c ∷ cs) =
    let later = find_in key cs in if starts_with (c ∷ cs) key then some 0 else next later

-- `text.indexOf(key, pos)`, for a position within the text.
unfoldable pub index_of : Text → Text → ℕ → Option ℕ
unfolding find_in
index_of text key pos = plus pos (find_in key (drop pos text))

abbrev pub continue_at : ℕ → Option ℕ → (ℕ → List (ℕ × ℕ)) → List (ℕ × ℕ)
continue_at size none rest = []
continue_at size (some i) rest = (i, i + size) ∷ rest (i + size)

-- The `while` loop from a position on, with a bound on its rounds.
unfoldable pub scan : ℕ → Text → Text → ℕ → List (ℕ × ℕ)
unfolding index_of
scan zero lower key pos = []
scan (suc fuel) lower key pos =
    let rest : ℕ → List (ℕ × ℕ) = scan fuel lower key in
    if ltb pos (length lower) then continue_at (length key) (index_of lower key pos) rest else []

-- `text.slice(start, end)`
abbrev pub slice : Text → ℕ → ℕ → Text
slice text start end = take (end - start) (drop start text)

abbrev pub plain : Bool → Text → List Segment
plain present text = if present then record { text = text; highlight = false } ∷ [] else []

unfoldable pub segments_from : Text → ℕ → List (ℕ × ℕ) → List Segment
segments_from text cursor [] = plain (ltb cursor (length text)) (drop cursor text)
segments_from text cursor ((start, end) ∷ hs) =
    plain (ltb cursor start) (slice text cursor start)
    ++ record { text = slice text start end; highlight = true } ∷ segments_from text end hs

unfoldable pub split_by_highlights : Text → List (ℕ × ℕ) → List Segment
unfolding segments_from
split_by_highlights text [] = record { text = text; highlight = false } ∷ []
split_by_highlights text (h ∷ hs) = segments_from text 0 (h ∷ hs)

abbrev pub is_system : Role → Bool
is_system system = true
is_system _ = false

abbrev pub or_empty : Option Text → Text
or_empty none = []
or_empty (some t) = t

-- `session.title || 'Untitled'`
abbrev pub or_untitled : Text → Text
or_untitled [] = b'U' ∷ b'n' ∷ b't' ∷ b'i' ∷ b't' ∷ b'l' ∷ b'e' ∷ b'd' ∷ []
or_untitled (c ∷ cs) = c ∷ cs

abbrev pub count_messages : List ChatSession → ℕ
count_messages [] = 0
count_messages (s ∷ ss) = length s.messages + count_messages ss

-- A comparison with an invalid date is false.
abbrev pub is_before : ℕ → Option ℕ → Bool
is_before t none = false
is_before t (some from) = ltb t from

abbrev pub is_after : ℕ → Option ℕ → Bool
is_after t none = false
is_after t (some to) = ltb (to + 86400000 - 1) t

-- `toLowerCase` and the time that `new Date(text)` stands for, none if it is invalid, are the language's.
module _ (to_lower_case : Text → Text) (time_of : Text → Option ℕ) where
  unfoldable pub find_highlights : Text → Text → List (ℕ × ℕ)
  unfolding scan
  find_highlights text keyword =
      let lower = to_lower_case text in
      if is_empty (trim keyword) then [] else scan (length lower) lower (to_lower_case keyword) 0

  unfoldable pub matches_date_range : ChatMessage → Text → Text → Bool
  matches_date_range message date_from date_to =
      if is_empty date_from && is_empty date_to
      then true
      else if not (is_empty date_from) && is_before message.timestamp (time_of date_from)
      then false
      else if not (is_empty date_to) && is_after message.timestamp (time_of date_to)
      then false
      else true

  abbrev pub has_keyword : SearchFilters → Bool
  has_keyword f = not (is_empty (trim f.keyword))

  abbrev pub has_wallet : SearchFilters → Bool
  has_wallet f = not (is_empty (trim f.wallet_address))

  abbrev pub has_date : SearchFilters → Bool
  has_date f = not (is_empty (trim f.date_from)) || not (is_empty (trim f.date_to))

  abbrev pub highlights_of : SearchFilters → ChatMessage → List (ℕ × ℕ)
  highlights_of f m = if has_keyword f then find_highlights m.content (trim f.keyword) else []

  abbrev pub none_found : List (ℕ × ℕ) → Bool
  none_found [] = true
  none_found (h ∷ hs) = false

  -- The body of the inner loop, whether a message is pushed.
  unfoldable pub is_match : SearchFilters → ChatMessage → Bool
  unfolding matches_date_range find_highlights
  is_match f m =
      if is_system m.role
      then false
      else if has_date f && not (matches_date_range m f.date_from f.date_to)
      then false
      else if has_keyword f && none_found (highlights_of f m)
      then false
      else true

  unfoldable pub matches_in : SearchFilters → ChatSession → List ChatMessage → List MessageMatch
  unfolding is_match
  matches_in f s [] = []
  matches_in f s (m ∷ ms) =
      let rest = matches_in f s ms in
      if is_match f m
      then record {
        session_id = s.id;
        session_title = or_untitled s.title;
        message = m;
        highlights = highlights_of f m;
      }
        ∷ rest
      else rest

  unfoldable pub has_session_wallet : SearchFilters → ChatSession → Bool
  has_session_wallet f s =
      not (has_wallet f)
      || includes (to_lower_case (or_empty s.wallet_address))
          (to_lower_case (trim f.wallet_address))

  unfoldable pub matches_of : SearchFilters → List ChatSession → List MessageMatch
  unfolding matches_in has_session_wallet
  matches_of f [] = []
  matches_of f (s ∷ ss) =
      let rest = matches_of f ss in
      if has_session_wallet f s then matches_in f s s.messages ++ rest else rest

  unfoldable pub search_chat_history : List ChatSession → SearchFilters → SearchResults
  unfolding matches_of
  search_chat_history sessions f = record {
    matches =
        if not (has_keyword f) && not (has_wallet f) && not (has_date f)
        then []
        else matches_of f sessions;
    total_sessions = length sessions;
    total_messages = count_messages sessions;
  }
