-- ===== src/Drafts/Board.antt =====
-- draftUtils.ts: the drafts of the sessions, against a table that has a draft or none for each session.
use stellar_dex_chat.Common.{
  ℕ, ◌≡◌, ◌∙◌, sym, ap, String, Option, none, some, List, [], ◌∷◌, inl, inr, if◌then◌else◌, str_eq,
  eq_iff, Bool-cases,
}
use text.Mathlib.TextLemmas.{append_cancel_left}
use stellar_dex_chat.Common.Text.{trim}
use stellar_dex_chat.Drafts.{Draft, draft_key, draft_prefix, is_expired}

-- The drafts of different sessions stand under different keys.
pub draft_key_eq : (s t : String) → str_eq (draft_key s) (draft_key t) ≡ str_eq s t
draft_key_eq s t = elim (Bool-cases (str_eq s t)) [
  | inl same ↦
      (eq_iff (draft_key s) (draft_key t)).1 (ap draft_key ((eq_iff s t).0 same)) ∙ sym same
  | inr other ↦ elim (Bool-cases (str_eq (draft_key s) (draft_key t))) [
    | inl keys ↦
        let equal =
          append_cancel_left draft_prefix s t ((eq_iff (draft_key s) (draft_key t)).0 keys) in
        keys ∙ sym ((eq_iff s t).1 equal)
    | inr keys ↦ keys ∙ sym other
  ]
]

-- What the table has for each session.
abbrev pub Board : Type 0
Board = String → Option Draft

abbrev pub fresh_at : ℕ → ℕ → Option Draft → Option Draft
fresh_at now ttl none = none
fresh_at now ttl (some d) = if is_expired now ttl d then none else some d

abbrev pub content_of : Option Draft → Option String
content_of none = none
content_of (some d) = some d.content

abbrev pub set_at : String → Option Draft → Board → Board
set_at session d board = λ s. if str_eq session s then d else board s

-- What is done with the drafts, in a storage that works.
pub data Action : Type 0 where
  saves : String → String → ℕ → Action
  clears : String → Action
  expires : ℕ → ℕ → Action
  reads : String → ℕ → ℕ → Action

abbrev pub saved_as : String → ℕ → Option Draft
saved_as content now =
    if str_eq (trim content) "" then none else some (record { content = content; timestamp = now })

abbrev pub replay : Action → Board → Board
replay (saves session content now) board = set_at session (saved_as content now) board
replay (clears session) board = set_at session none board
replay (expires now ttl) board = λ s. fresh_at now ttl (board s)
replay (reads session now ttl) board = set_at session (fresh_at now ttl (board session)) board

unfoldable pub replay_all : List Action → Board → Board
replay_all [] board = board
replay_all (a ∷ as') board = replay_all as' (replay a board)
