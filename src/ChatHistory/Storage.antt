-- ===== src/ChatHistory/Storage.antt =====
-- chatHistory.ts: a history that is saved and loaded.
use stellar_dex_chat.Common.{
  ℕ, ◌≡◌, ◌∙◌, refl, sym, ap, subst, is_some, String, true, Option, none, some, List, [], ◌∷◌, ◌++◌,
  map, arith, inl, inr, str_eq, eq_iff, Bool-cases, append-nil, append_assoc, get, put_absent,
  IsMap,
}
use mathlib.Core.Option.{map as map_option}
use stellar_dex_chat.ChatHistory.{
  Moment, date_value, date_text, MessageError, Metadata, map_error, map_metadata, written,
  ChatMessage, ChatSession, ChatHistoryState, SerializedState, merge_sessions, deduplicate_sessions,
  serialize_message, serialize_session, serialize, revive_message, revive_session,
  save_to_local_storage, load_from_local_storage,
}

abbrev keyed : ChatSession → String × ChatSession
keyed s = (s.id, s)

-- The ids of the sessions are distinct.
abbrev pub HasDistinctIds : List ChatSession → Type 0
HasDistinctIds ss = IsMap (map keyed ss)

has_middle :
    (k : String) (s : ChatSession) (m n : List (String × ChatSession))
    → is_some (get k (m ++ (k, s) ∷ n)) ≡ true
unfolding get
has_middle k s [] n = ground (arith, eq_iff k k)
has_middle k s ((j, t) ∷ m) n = ground (arith, has_middle k s m n)

IsMap-get :
    (k : String) (s : ChatSession) (m n : List (String × ChatSession))
    → IsMap (m ++ (k, s) ∷ n)
    → get k m ≡ none
unfolding get
IsMap-get k s [] n h = refl
IsMap-get k s ((j, t) ∷ m) n (new, h) = elim (Bool-cases (str_eq j k)) [
  | inl same ↦
      let there = has_middle k s m n in
      let gone : get k (m ++ (k, s) ∷ n) ≡ none =
        ap (λ i. get i (m ++ (k, s) ∷ n)) (sym ((eq_iff j k).0 same)) ∙ new in
      absurd (ground (arith, there, gone))
  | inr other ↦ rw other (IsMap-get k s m n h)
]

merge_sessions_new :
    (ss : List ChatSession) (m : List (String × ChatSession))
    → IsMap (m ++ map keyed ss)
    → merge_sessions ss m ≡ m ++ map keyed ss
unfolding merge_sessions
merge_sessions_new [] m h = sym (append-nil m)
merge_sessions_new (s ∷ ss) m h =
    let absent = IsMap-get s.id s m (map keyed ss) h in
    let assoc = append_assoc m (keyed s ∷ []) (map keyed ss) in
    rw absent (
      rw (put_absent s.id s m absent)
        (merge_sessions_new ss (m ++ keyed s ∷ []) (subst IsMap (sym assoc) h) ∙ assoc))

map-keyed : (ss : List ChatSession) → map (λ p. p.1) (map keyed ss) ≡ ss
map-keyed [] = refl
map-keyed (s ∷ ss) = ap (λ r. s ∷ r) (map-keyed ss)

deduplicate_sessions_distinct :
    (ss : List ChatSession) → HasDistinctIds ss → deduplicate_sessions ss ≡ ss
unfolding deduplicate_sessions
deduplicate_sessions_distinct ss h = ap (map (λ p. p.1)) (merge_sessions_new ss [] h) ∙ map-keyed ss

module _ (to_iso_string : ℕ → String) where
  -- What a date that is not read back has become.
  abbrev pub as_text : Moment → Moment
  as_text (date_value t) = date_text (to_iso_string t)
  as_text (date_text t) = date_text t

  abbrev pub message_as_loaded : ChatMessage → ChatMessage
  message_as_loaded m = record m {
    error = map_option (map_error as_text) m.error;
    metadata = map_option (map_metadata as_text) m.metadata;
  }

  -- A session with the dates of its errors, of its metadata and of its pin as texts.
  abbrev pub as_loaded : ChatSession → ChatSession
  as_loaded s = record s {
    messages = map message_as_loaded s.messages;
    pinned_at = map_option as_text s.pinned_at;
  }

  get-as_loaded :
      (k : String) (ss : List ChatSession)
      → get k (map keyed ss) ≡ none
      → get k (map keyed (map as_loaded ss)) ≡ none
  unfolding get
  get-as_loaded k [] h = refl
  get-as_loaded k (s ∷ ss) h = ground (arith, h, get-as_loaded k ss)

  as_loaded-HasDistinctIds :
      (ss : List ChatSession) → HasDistinctIds ss → HasDistinctIds (map as_loaded ss)
  as_loaded-HasDistinctIds [] h = tt
  as_loaded-HasDistinctIds (s ∷ ss) (new, h) =
      (get-as_loaded s.id ss new, as_loaded-HasDistinctIds ss h)

  moment_twice : (m : Moment) → date_text (written to_iso_string m) ≡ as_text m
  moment_twice (date_value t) = refl
  moment_twice (date_text t) = refl

  option_twice :
      (o : Option Moment)
      → map_option date_text (map_option (written to_iso_string) o) ≡ map_option as_text o
  option_twice none = refl
  option_twice (some m) = ap some (moment_twice m)

  error_twice :
      (o : Option (MessageError Moment))
      → map_option (map_error date_text) (map_option (map_error (written to_iso_string)) o)
        ≡ map_option (map_error as_text) o
  error_twice none = refl
  error_twice (some e) =
      ap
        (λ t.
          some (record { message = e.message; timestamp = t; retry_attempts = e.retry_attempts }))
        (moment_twice e.timestamp)

  metadata_twice :
      (o : Option (Metadata Moment))
      → map_option (map_metadata date_text) (map_option (map_metadata (written to_iso_string)) o)
        ≡ map_option (map_metadata as_text) o
  metadata_twice none = refl
  metadata_twice (some m) = rw (option_twice m.delivered_at, option_twice m.read_at) refl

  module _ (parse_date : String → ℕ) (dates : (t : ℕ) → parse_date (to_iso_string t) ≡ t) where
    revive-serialize_message :
        (m : ChatMessage)
        → revive_message parse_date (serialize_message to_iso_string m) ≡ message_as_loaded m
    revive-serialize_message m =
        rw (dates m.timestamp, error_twice m.error, metadata_twice m.metadata) refl

    revive-messages :
        (ms : List ChatMessage)
        → map (revive_message parse_date) (map (serialize_message to_iso_string) ms)
          ≡ map message_as_loaded ms
    revive-messages [] = refl
    revive-messages (m ∷ ms) = rw (revive-serialize_message m, revive-messages ms) refl

    revive-serialize_session :
        (s : ChatSession)
        → revive_session parse_date (serialize_session to_iso_string s) ≡ as_loaded s
    revive-serialize_session s =
        rw
          (
            revive-messages s.messages,
            dates s.created_at,
            dates s.last_updated,
            option_twice s.pinned_at,
          )
          refl

    revive-sessions :
        (ss : List ChatSession)
        → map (revive_session parse_date) (map (serialize_session to_iso_string) ss)
          ≡ map as_loaded ss
    revive-sessions [] = refl
    revive-sessions (s ∷ ss) = rw (revive-serialize_session s, revive-sessions ss) refl

    -- A history whose sessions have distinct ids is saved where there is room, its JSON is read as what
    -- was written, and a date is read back from its text. Then the same history is loaded, in the same
    -- order, but for the dates of pins, of failed messages and of deliveries and readings: each of these
    -- comes back as the text of the date.
    pub load_from_local_storage-save_to_local_storage :
        (stringify : SerializedState → String) (parse : String → Option SerializedState)
        (state : ChatHistoryState) (stored : Option String)
        → parse (stringify (serialize to_iso_string state)) ≡ some (serialize to_iso_string state)
        → HasDistinctIds state.sessions
        → load_from_local_storage parse_date parse
            (save_to_local_storage to_iso_string stringify true state stored)
          ≡ record state { sessions = map as_loaded state.sessions }
    unfolding load_from_local_storage save_to_local_storage
    load_from_local_storage-save_to_local_storage stringify parse state stored json distinct =
        rw json (
          rw
            (
              revive-sessions state.sessions,
              deduplicate_sessions_distinct (map as_loaded state.sessions)
                  (as_loaded-HasDistinctIds state.sessions distinct),
            )
            refl)
