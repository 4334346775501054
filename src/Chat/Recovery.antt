-- ===== src/Chat/Recovery.antt =====
-- chatStateMachine.ts: no state of the chat is a dead end.
use stellar_dex_chat.Common.{ℕ, ◌≡◌, refl, none, List, [], ◌∷◌, arith}
use stellar_dex_chat.StateMachine.{find, transition}
use stellar_dex_chat.Chat.{
  ChatState, ChatEvent, ChatEvent-discrete, chat_states, ChatMachine, chat_transition,
  uninitialized, initialized, awaiting_user_input, cancelled, error, initialize_session, clear_chat,
  cancel_flow, reset_flow,
}

-- The events in a row, with no context updates.
unfoldable pub fire_all : ℕ → ℕ → List ChatEvent → ChatMachine → ChatMachine
fire_all created now [] m = m
fire_all created now (e ∷ es) m = fire_all created now es (chat_transition created m e none now).0

abbrev pub way_home : ChatState → List ChatEvent
way_home uninitialized = initialize_session ∷ []
way_home initialized = []
way_home awaiting_user_input = clear_chat ∷ []
way_home cancelled = reset_flow ∷ []
way_home error = reset_flow ∷ []
way_home _ = cancel_flow ∷ reset_flow ∷ []

way_home_from :
    (created now : ℕ) (s : ChatState) (m : ChatMachine)
    → m.current_state ≡ s
    → (fire_all created now (way_home s) m).current_state ≡ initialized
unfolding fire_all chat_transition transition find chat_states ChatEvent-discrete
way_home_from created now uninitialized m h = ground arith
way_home_from created now _ m h = ground arith

-- From every state and with every context, a fixed list of at most two events leads back to
-- INITIALIZED.
pub recovers :
    (created now : ℕ) (m : ChatMachine)
    → (fire_all created now (way_home m.current_state) m).current_state ≡ initialized
recovers created now m = way_home_from created now m.current_state m refl
