-- ===== src/ChatHistory.antt =====
-- Dechat/dex_with_fiat_frontend/src/lib/chatHistory.ts: the sessions of the chat, as they are stored,
-- titled, deduplicated and limited. Dates are milliseconds; generated ids and the present date are
-- arguments. Texts of messages and titles are lists of UTF-16 code units.
pub mod Dedup
pub mod Limit
pub mod Storage
mod Tests
use mathlib.Core.Option.{map as map_option}
use stellar_dex_chat.Common.{
  ℕ, ◌+◌, String, Bool, true, false, not, ◌||◌, Option, none, some, List, [], ◌∷◌, ◌++◌, map,
  filter, any, take, ltb, leb, length, if◌then◌else◌, get, put, ◌>>=◌,
}
use stellar_dex_chat.Common.Text.{codes, includes}
use stellar_dex_chat.Stroops.{Text}

pub data Role : Type 0 where
  user assistant system : Role

-- A date that the types promise: while the program runs it may be a text, see `loadFromLocalStorage`.
pub data Moment : Type 0 where
  date_value : ℕ → Moment
  date_text : String → Moment

-- `error` of a message, with its date or what stands for it.
pub record MessageError (D : Type 0) : Type 0 where
  pub message : String
  pub timestamp : D
  pub retry_attempts : ℕ

-- `metadata` of a message: its two dates, and its other fields as their JSON text.
pub record Metadata (D : Type 0) : Type 0 where
  pub fields : String
  pub delivered_at : Option D
  pub read_at : Option D

-- `originalPayload` enters as its JSON text.
pub record ChatMessage : Type 0 where
  pub id : String
  pub role : Role
  pub content : Text
  pub timestamp : ℕ
  pub error : Option (MessageError Moment)
  pub original_payload : Option String
  pub metadata : Option (Metadata Moment)

pub record ChatSession : Type 0 where
  pub id : String
  pub title : Text
  pub messages : List ChatMessage
  pub created_at : ℕ
  pub last_updated : ℕ
  pub wallet_address : Option String
  pub pinned : Option Bool
  pub pinned_at : Option Moment

pub record ChatHistoryState : Type 0 where
  pub current_session_id : Option String
  pub sessions : List ChatSession

abbrev pub max_sessions : ℕ
max_sessions = 50

abbrev is_user : Role → Bool
is_user user = true
is_user _ = false

-- `messages.find((msg) => msg.role === 'user')`
abbrev pub first_user : List ChatMessage → Option ChatMessage
first_user [] = none
first_user (m ∷ ms) = if is_user m.role then some m else first_user ms

abbrev pub shorten : Text → Text
shorten content = if ltb 30 (length content) then take 30 content ++ codes "..." else content

abbrev pub title_from : Option ChatMessage → Text → Text
title_from none date = codes "Chat " ++ date
title_from (some m) date = shorten m.content

-- The date is the one of the fallback's title.
unfoldable pub generate_session_title : List ChatMessage → Text → Text
generate_session_title messages date = title_from (first_user messages) date

unfoldable pub update_session_title : Text → ChatSession → ChatSession
update_session_title date session =
    if ltb 1 (length session.messages)
    then record session { title = generate_session_title session.messages date }
    else session

unfoldable pub create_new_session : String → ℕ → Option String → ChatSession
create_new_session id now wallet_address = record {
  id = id;
  title = codes "New Chat";
  messages = [];
  created_at = now;
  last_updated = now;
  wallet_address = wallet_address;
  pinned = none;
  pinned_at = none;
}

abbrev pub is_newer : ChatSession → Option ChatSession → Bool
is_newer session none = true
is_newer session (some existing) = ltb existing.last_updated session.last_updated

-- The loop of `deduplicateSessions` over the map of sessions.
unfoldable pub merge_sessions :
    List ChatSession → List (String × ChatSession) → List (String × ChatSession)
merge_sessions [] by_id = by_id
merge_sessions (s ∷ ss) by_id =
    merge_sessions ss (if is_newer s (get s.id by_id) then put s.id s by_id else by_id)

unfoldable pub deduplicate_sessions : List ChatSession → List ChatSession
deduplicate_sessions sessions = map (λ p. p.1) (merge_sessions sessions [])

-- `sessions.sort((a, b) => b.lastUpdated - a.lastUpdated)`, which keeps the order of equal ones.
unfoldable pub insert_session : ChatSession → List ChatSession → List ChatSession
insert_session s [] = s ∷ []
insert_session s (t ∷ ts) =
    let rest = insert_session s ts in
    if leb t.last_updated s.last_updated then s ∷ t ∷ ts else t ∷ rest

unfoldable pub sort_sessions : List ChatSession → List ChatSession
sort_sessions [] = []
sort_sessions (s ∷ ss) = insert_session s (sort_sessions ss)

unfoldable pub cleanup_old_sessions : List ChatSession → List ChatSession
cleanup_old_sessions sessions =
    if leb (length sessions) max_sessions
    then sessions
    else take max_sessions (sort_sessions sessions)

-- What is written for a state: its dates are texts.
pub record SerializedMessage : Type 0 where
  pub id : String
  pub role : Role
  pub content : Text
  pub timestamp : String
  pub error : Option (MessageError String)
  pub original_payload : Option String
  pub metadata : Option (Metadata String)

pub record SerializedSession : Type 0 where
  pub id : String
  pub title : Text
  pub messages : List SerializedMessage
  pub created_at : String
  pub last_updated : String
  pub wallet_address : Option String
  pub pinned : Option Bool
  pub pinned_at : Option String

pub record SerializedState : Type 0 where
  pub current_session_id : Option String
  pub sessions : List SerializedSession

module _ {D E : Type 0} (f : D → E) where
  abbrev pub map_error : MessageError D → MessageError E
  map_error e = record {
    message = e.message;
    timestamp = f e.timestamp;
    retry_attempts = e.retry_attempts;
  }

  abbrev pub map_metadata : Metadata D → Metadata E
  map_metadata m = record {
    fields = m.fields;
    delivered_at = map_option f m.delivered_at;
    read_at = map_option f m.read_at;
  }

module _ (to_iso_string : ℕ → String) where
  -- `JSON.stringify` of a date that the code has not turned into a text.
  abbrev pub written : Moment → String
  written (date_value t) = to_iso_string t
  written (date_text t) = t

  abbrev pub serialize_message : ChatMessage → SerializedMessage
  serialize_message m = record {
    id = m.id;
    role = m.role;
    content = m.content;
    timestamp = to_iso_string m.timestamp;
    error = map_option (map_error written) m.error;
    original_payload = m.original_payload;
    metadata = map_option (map_metadata written) m.metadata;
  }

  abbrev pub serialize_session : ChatSession → SerializedSession
  serialize_session s = record {
    id = s.id;
    title = s.title;
    messages = map serialize_message s.messages;
    created_at = to_iso_string s.created_at;
    last_updated = to_iso_string s.last_updated;
    wallet_address = s.wallet_address;
    pinned = s.pinned;
    pinned_at = map_option written s.pinned_at;
  }

  abbrev pub serialize : ChatHistoryState → SerializedState
  serialize state = record {
    current_session_id = state.current_session_id;
    sessions = map serialize_session state.sessions;
  }

  -- `saveToLocalStorage`, for a storage that has room or has none; an error leaves what was stored.
  unfoldable pub save_to_local_storage :
      (SerializedState → String) → Bool → ChatHistoryState → Option String → Option String
  save_to_local_storage stringify true state stored = some (stringify (serialize state))
  save_to_local_storage stringify false state stored = stored

abbrev pub empty_state : ChatHistoryState
empty_state = record { current_session_id = none; sessions = [] }

module _ (parse_date : String → ℕ) where
  -- The dates of an error, of the metadata and of a pin are not read back: they stay texts.
  abbrev pub revive_message : SerializedMessage → ChatMessage
  revive_message m = record {
    id = m.id;
    role = m.role;
    content = m.content;
    timestamp = parse_date m.timestamp;
    error = map_option (map_error date_text) m.error;
    original_payload = m.original_payload;
    metadata = map_option (map_metadata date_text) m.metadata;
  }

  abbrev pub revive_session : SerializedSession → ChatSession
  revive_session s = record {
    id = s.id;
    title = s.title;
    messages = map revive_message s.messages;
    created_at = parse_date s.created_at;
    last_updated = parse_date s.last_updated;
    wallet_address = s.wallet_address;
    pinned = s.pinned;
    pinned_at = map_option date_text s.pinned_at;
  }

  abbrev pub revive : Option SerializedState → ChatHistoryState
  revive none = empty_state
  revive (some parsed) = record {
    current_session_id = parsed.current_session_id;
    sessions = deduplicate_sessions (map revive_session parsed.sessions);
  }

  -- `loadFromLocalStorage`; a text that cannot be read counts as no history.
  unfoldable pub load_from_local_storage :
      (String → Option SerializedState) → Option String → ChatHistoryState
  load_from_local_storage parse stored = revive (do text ← stored; parse text)

unfoldable pub search_sessions : (Text → Text) → List ChatSession → Text → List ChatSession
search_sessions lower sessions query =
    filter
      (λ s.
        includes (lower s.title) (lower query)
        || any (λ m. includes (lower m.content) (lower query)) s.messages)
      sessions
