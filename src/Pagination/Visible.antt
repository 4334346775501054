-- ===== src/Pagination/Visible.antt =====
-- chatPaginationUtils.ts: paging back through a chat.
use stellar_dex_chat.Common.{
  take-append-drop, ℕ, zero, suc, ◌+◌, ◌-◌, ◌*◌, ◌≤◌, ◌<◌, min, ◌≡◌, refl, ◌∙◌, false, List, ◌++◌,
  arith, length, take, length-drop,
}
use stellar_dex_chat.Pagination.{get_visible_messages, has_more_messages, get_next_message_count}

module _ {ℓ} {A : Type ℓ} where
  -- With a positive target the shown messages are the last ones: something stands before them, and
  -- their number is the target, or that of all messages if there are fewer.
  pub get_visible_messages_lem :
      (messages : List A) (n : ℕ)
      → 0 < n
      → (take (length messages - n) messages ++ get_visible_messages messages n ≡ messages)
        × (length (get_visible_messages messages n) ≡ min n (length messages))
  unfolding get_visible_messages
  get_visible_messages_lem messages zero h = absurd (omega arith)
  get_visible_messages_lem messages (suc n) h = (
    take-append-drop (length messages - suc n) messages,
    omega (arith, length-drop (length messages - suc n) messages),
  )

  -- With a target of zero all messages are shown, although none was asked for.
  pub get_visible_messages-zero : (messages : List A) → get_visible_messages messages 0 ≡ messages
  unfolding get_visible_messages
  get_visible_messages-zero messages = refl

-- The count after some page turns.
unfoldable pub turn_pages : ℕ → ℕ → ℕ → ℕ → ℕ
turn_pages total page zero visible = visible
turn_pages total page (suc n) visible =
    turn_pages total page n (get_next_message_count total visible page)

turn_pages_lem :
    (total page n visible : ℕ)
    → visible ≤ total
    → turn_pages total page n visible ≡ min (visible + n * page) total
unfolding turn_pages get_next_message_count
turn_pages_lem total page zero visible h = omega arith
turn_pages_lem total page (suc n) visible h =
    turn_pages_lem total page n (min (visible + page) total) (omega arith) ∙ omega arith

reaches : (total page n visible : ℕ) → 0 < page → total ≤ n → min (visible + n * page) total ≡ total
reaches total zero n visible h enough = absurd (omega arith)
reaches total (suc page) n visible h enough = grind arith

-- Turning pages of a positive size never shows more than there is, and as many turns as there are
-- messages show all of them, after which no more are offered.
pub turn_pages_all :
    {A : Type 0} (messages : List A) (page n visible : ℕ)
    → 0 < page
    → visible ≤ length messages
    → length messages ≤ n
    → (turn_pages (length messages) page n visible ≡ length messages)
      × (has_more_messages messages (turn_pages (length messages) page n visible) ≡ false)
unfolding has_more_messages
turn_pages_all messages page n visible positive h enough =
    let all : turn_pages (length messages) page n visible ≡ length messages =
      turn_pages_lem (length messages) page n visible h
      ∙ reaches (length messages) page n visible positive enough in
    (all, rw all (ground arith))
