-- ===== src/ChatHistory/Tests.antt =====
-- The history at concrete sessions; dates and JSON are those of small tables.
use stellar_dex_chat.Common.{
  ℕ, zero, suc, ap, ◌≡◌, ◌≤◌, refl, true, none, some, List, [], ◌∷◌, count_if, Memᴰ, String, Option,
  get, put,
}
use stellar_dex_chat.Common.Text.{codes}
use stellar_dex_chat.Stroops.{Text}
use stellar_dex_chat.ChatHistory.{
  Role, Moment, date_value, date_text, ChatMessage, ChatSession, ChatHistoryState, SerializedState,
  serialize, user, assistant, generate_session_title, deduplicate_sessions, merge_sessions,
  load_from_local_storage, save_to_local_storage,
}
use stellar_dex_chat.ChatHistory.Dedup.{is_id, deduplicate_sessions_lem}
use stellar_dex_chat.ChatHistory.Storage.{load_from_local_storage-save_to_local_storage}

abbrev session : String → ℕ → ChatSession
session id t = record {
  id = id;
  title = codes "t";
  messages = [];
  created_at = 1;
  last_updated = t;
  wallet_address = none;
  pinned = none;
  pinned_at = none;
}

-- A message that can be read by its role and content alone.
abbrev plain : String → Role → Text → ℕ → ChatMessage
plain id role content t = record {
  id = id;
  role = role;
  content = content;
  timestamp = t;
  error = none;
  original_payload = none;
  metadata = none;
}

abbrev three : List ChatSession
three = session "a" 5 ∷ session "b" 6 ∷ session "a" 9 ∷ []

keeps_newest : deduplicate_sessions three ≡ session "a" 9 ∷ session "b" 6 ∷ []
unfolding deduplicate_sessions merge_sessions get put
keeps_newest = refl

titled :
    generate_session_title
      (plain "1" assistant (codes "Hi") 0
        ∷ plain "2" user (codes "I would like to sell one hundred lumens") 1
        ∷ [])
      []
    ≡ codes "I would like to sell one hundr..."
unfolding generate_session_title
titled = refl

deduplicate_sessions_lem_example :
    ((t : ChatSession) × Memᴰ t (deduplicate_sessions three) × (t.id ≡ "a") × (5 ≤ t.last_updated))
    × (count_if (is_id "a") (deduplicate_sessions three) ≤ 1)
deduplicate_sessions_lem_example = deduplicate_sessions_lem (session "a" 5) three (Memᴰ.head refl)

abbrev unary : ℕ → String
unary zero = String.[]
unary (suc n) = String.◌∷◌ "x" (unary n)

abbrev count : String → ℕ
count String.[] = 0
count (String.◌∷◌ c s) = suc (count s)

count-unary : (n : ℕ) → count (unary n) ≡ n
count-unary zero = refl
count-unary (suc n) = ap suc (count-unary n)

-- A pinned session with a message that failed and was delivered later.
abbrev pinned_session : Moment → Moment → Moment → ChatSession
pinned_session pin failure delivery = record (session "a" 5) {
  messages =
      record (plain "1" user (codes "Hi") 2) {
        error = some (record { message = "offline"; timestamp = failure; retry_attempts = 1 });
        metadata = some (record { fields = "{}"; delivered_at = some delivery; read_at = none });
      }
      ∷ [];
  pinned = some true;
  pinned_at = some pin;
}

abbrev history : ChatHistoryState
history = record {
  current_session_id = some "a";
  sessions = pinned_session (date_value 4) (date_value 2) (date_value 3) ∷ session "b" 6 ∷ [];
}

abbrev parse : String → Option SerializedState
parse saved = some (serialize unary history)

load_from_local_storage-save_to_local_storage_example :
    load_from_local_storage count parse
      (save_to_local_storage unary (λ x. "saved") true history none)
    ≡ record {
      current_session_id = some "a";
      sessions =
          pinned_session (date_text "xxxx") (date_text "xx") (date_text "xxx") ∷ session "b" 6 ∷ [];
    }
load_from_local_storage-save_to_local_storage_example =
    load_from_local_storage-save_to_local_storage unary count count-unary (λ x. "saved") parse
      history none refl (unfold get in refl, (unfold get in refl, tt))
