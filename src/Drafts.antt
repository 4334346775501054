-- ===== src/Drafts.antt =====
-- Dechat/dex_with_fiat_frontend/src/lib/draftUtils.ts: the drafts of messages in the browser's storage.
-- The storage is a map from keys to texts; its errors, the clock, and the reading and the writing of
-- JSON are arguments and parameters. The functions run in a browser, so that `window` is there.
pub mod Board
pub mod Expiry
pub mod Refinement
mod Tests
use stellar_dex_chat.Common.{
  ℕ, ◌+◌, ◌*◌, String, Bool, true, false, ◌&&◌, Option, none, some, List, [], ◌∷◌, ltb,
  if◌then◌else◌, str_eq, get, put, delete, ◌>>=◌,
}
use Prim.Native.String
use text.Mathlib.Text.{starts_with}
use stellar_dex_chat.Common.Text.{trim}

pub record Draft : Type 0 where
  pub content : String
  pub timestamp : ℕ

abbrev pub draft_prefix : String
draft_prefix = "chat_draft_"

-- In seconds.
abbrev pub default_ttl : ℕ
default_ttl = 86400

abbrev pub Storage : Type 0
Storage = List (String × String)

abbrev pub draft_key : String → String
draft_key session_id = String.◌++◌ draft_prefix session_id

-- An access to the storage that throws leaves it as it is.
unfoldable pub clear_draft : String → Bool → Storage → Storage
clear_draft session_id works storage =
    if str_eq session_id ""
    then storage
    else if works
    then delete (draft_key session_id) storage
    else storage

-- `now > draft.timestamp + ttlSeconds * 1000`
abbrev pub is_expired : ℕ → ℕ → Draft → Bool
is_expired now ttl d = ltb (d.timestamp + ttl * 1000) now

module _ (stringify : Draft → String) (parse : String → Option Draft) where
  unfoldable pub save_draft : String → String → ℕ → Bool → Storage → Storage
  save_draft session_id content now works storage =
      if str_eq session_id ""
      then storage
      else if str_eq (trim content) ""
      then clear_draft session_id works storage
      else if works
      then put (draft_key session_id) (stringify (record { content = content; timestamp = now }))
          storage
      else storage

  -- What is read of an entry: a text that is empty or is no draft counts as none.
  abbrev pub read_item : Option String → Option Draft
  read_item none = none
  read_item (some text) = if str_eq text "" then none else parse text

  abbrev pub answer_draft : String → ℕ → ℕ → Bool → Option Draft → Storage → Storage × Option String
  answer_draft session_id now ttl works none storage = (storage, none)
  answer_draft session_id now ttl works (some d) storage =
      if is_expired now ttl d
      then (clear_draft session_id works storage, none)
      else (storage, some d.content)

  unfoldable pub get_draft : String → ℕ → ℕ → Bool → Storage → Storage × Option String
  get_draft session_id now ttl works storage =
      if str_eq session_id ""
      then (storage, none)
      else answer_draft session_id now ttl works (read_item (get (draft_key session_id) storage))
          storage

  abbrev pub not_blank : String → Bool
  not_blank text = if str_eq text "" then false else true

  abbrev pub has_draft_prefix : String → Bool
  has_draft_prefix key = starts_with key draft_prefix

  -- Whether an entry goes: its text is no draft, or one that has expired. An empty text stays.
  abbrev pub goes : ℕ → ℕ → Option Draft → Bool
  goes now ttl none = true
  goes now ttl (some d) = is_expired now ttl d

  abbrev pub is_dropped : ℕ → ℕ → String × String → Bool
  is_dropped now ttl (key, text) =
      has_draft_prefix key && not_blank text && goes now ttl (parse text)

  unfoldable pub clear_expired_drafts : ℕ → ℕ → Storage → Storage
  clear_expired_drafts now ttl [] = []
  clear_expired_drafts now ttl (entry ∷ storage) =
      let rest = clear_expired_drafts now ttl storage in
      if is_dropped now ttl entry then rest else entry ∷ rest
