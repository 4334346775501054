-- ===== src/Chat.antt =====
-- Dechat/dex_with_fiat_frontend/src/hooks/chatStateMachine.ts: the states, events, context, guards
-- and transitions of the chat. `Date.now()` is an argument.
pub mod Dispatcher
pub mod Cancel
pub mod Flow
pub mod Recovery
mod Tests
use stellar_dex_chat.Common.{
  ℕ, String, Bool, true, false, not, ◌&&◌, ◌||◌, Option, none, some, List, [], ◌∷◌, leb, str_eq,
  is_some,
}
use stellar_dex_chat.StateMachine.{
  Transition, target_only, full, Config, Machine, find, construct, transition,
}

pub data ChatState : Type 0 where
  uninitialized initialized awaiting_user_input sending_message analyzing : ChatState
  awaiting_clarification ready_for_transaction transaction_triggered cancelled error : ChatState

pub data ChatEvent : Type 0 where
  initialize_session clear_chat load_session send_message analysis_complete : ChatEvent
  receive_clarification trigger_transaction transaction_initiated transaction_completed : ChatEvent
  encounter_error retry_from_error cancel_flow reset_flow : ChatEvent

pub ChatEvent-discrete : Discrete ChatEvent
ChatEvent-discrete = hlevel

-- The fields of `TransactionData` that hold text; its `type` has one value.
pub record TransactionData : Type 0 where
  pub token_in : Option String
  pub amount_in : Option String
  pub fiat_amount : Option String
  pub fiat_currency : Option String
  pub recipient : Option String

pub record ChatMachineContext : Type 0 where
  pub message_count : ℕ
  pub has_user_cancelled : Bool
  pub pending_transaction_data : Option TransactionData
  pub needs_clarification : Bool
  pub clarification_question : Option String
  pub error_message : Option String
  pub last_event_time : ℕ
  pub previous_state : Option ChatState

-- `!!text`
abbrev pub truthy : Option String → Bool
truthy none = false
truthy (some s) = not (str_eq s "")

abbrev pub has_amounts : Option TransactionData → Bool
has_amounts none = false
has_amounts (some d) = truthy d.token_in || truthy d.amount_in || truthy d.fiat_amount

unfoldable pub has_transaction_data : ChatMachineContext → Bool
has_transaction_data c = has_amounts c.pending_transaction_data

unfoldable pub has_reached_message_threshold : ChatMachineContext → Bool
has_reached_message_threshold c = leb 3 c.message_count

unfoldable pub should_proceed : ChatMachineContext → Bool
should_proceed c = not c.has_user_cancelled

unfoldable pub can_trigger_transaction : ChatMachineContext → Bool
unfolding has_transaction_data should_proceed
can_trigger_transaction c = has_transaction_data c && should_proceed c

unfoldable pub can_recover_from_error : ChatMachineContext → Bool
can_recover_from_error c = is_some c.error_message

unfoldable pub get_initial_context : ℕ → ChatMachineContext
get_initial_context now = record {
  message_count = 0;
  has_user_cancelled = false;
  pending_transaction_data = none;
  needs_clarification = false;
  clarification_question = none;
  error_message = none;
  last_event_time = now;
  previous_state = none;
}

-- The actions of the transitions, each of the fields that it assigns.
abbrev pub clear_all : ChatMachineContext → ChatMachineContext
clear_all c = record c {
  message_count = 0;
  has_user_cancelled = false;
  pending_transaction_data = none;
  needs_clarification = false;
  error_message = none;
}

abbrev pub cancel_and_drop : ChatMachineContext → ChatMachineContext
cancel_and_drop c = record c { has_user_cancelled = true; pending_transaction_data = none }

abbrev pub cancel_only : ChatMachineContext → ChatMachineContext
cancel_only c = record c { has_user_cancelled = true }

abbrev pub clear_flow : ChatMachineContext → ChatMachineContext
clear_flow c = record c {
  message_count = 0;
  has_user_cancelled = false;
  pending_transaction_data = none;
}

abbrev pub reset_cancelled : ChatMachineContext → ChatMachineContext
reset_cancelled c = record c {
  has_user_cancelled = false;
  pending_transaction_data = none;
  needs_clarification = false;
  message_count = 0;
}

abbrev pub reset_error : ChatMachineContext → ChatMachineContext
reset_error c = record c {
  error_message = none;
  message_count = 0;
  pending_transaction_data = none;
}

abbrev pub clear_error : ChatMachineContext → ChatMachineContext
clear_error c = record c { error_message = none; message_count = 0 }

abbrev pub ChatTransition : Type 0
ChatTransition = Transition ChatState ChatMachineContext

abbrev pub with_action : ChatState → (ChatMachineContext → ChatMachineContext) → ChatTransition
with_action s run = full s none (some run)

abbrev pub with_guard : ChatState → (ChatMachineContext → Bool) → ChatTransition
with_guard s guard = full s (some guard) none

-- The table `states` of the configuration.
unfoldable pub chat_states : ChatState → List (ChatEvent × ChatTransition)
unfolding can_trigger_transaction
chat_states uninitialized = (initialize_session, with_action initialized clear_all) ∷ []
chat_states initialized =
    (send_message, target_only sending_message)
    ∷ (load_session, target_only initialized)
    ∷ (clear_chat, with_action initialized clear_all)
    ∷ []
chat_states sending_message =
    (analysis_complete, target_only analyzing)
    ∷ (cancel_flow, with_action cancelled cancel_and_drop)
    ∷ (encounter_error, target_only error)
    ∷ []
chat_states analyzing =
    (receive_clarification, with_guard awaiting_clarification (λ c. c.needs_clarification))
    ∷ (trigger_transaction, with_guard ready_for_transaction can_trigger_transaction)
    ∷ (analysis_complete, target_only awaiting_user_input)
    ∷ (encounter_error, target_only error)
    ∷ (cancel_flow, with_action cancelled cancel_and_drop)
    ∷ []
chat_states awaiting_clarification =
    (receive_clarification, target_only sending_message)
    ∷ (cancel_flow, with_action cancelled cancel_only)
    ∷ []
chat_states ready_for_transaction =
    (transaction_initiated, target_only transaction_triggered)
    ∷ (cancel_flow, with_action cancelled cancel_and_drop)
    ∷ (send_message, target_only sending_message)
    ∷ []
chat_states transaction_triggered =
    (transaction_completed, target_only awaiting_user_input)
    ∷ (cancel_flow, with_action cancelled cancel_only)
    ∷ []
chat_states awaiting_user_input =
    (send_message, target_only sending_message)
    ∷ (clear_chat, with_action initialized clear_flow)
    ∷ (load_session, target_only initialized)
    ∷ []
chat_states cancelled =
    (reset_flow, with_action initialized reset_cancelled)
    ∷ (send_message, target_only sending_message)
    ∷ (clear_chat, with_action initialized clear_flow)
    ∷ []
chat_states error =
    (retry_from_error, target_only sending_message)
    ∷ (reset_flow, with_action initialized reset_error)
    ∷ (clear_chat, with_action initialized clear_error)
    ∷ []

abbrev pub ChatMachine : Type 0
ChatMachine = Machine ChatState ChatEvent ChatMachineContext

abbrev pub chat_config : ℕ → Config ChatState ChatEvent ChatMachineContext
chat_config now = record {
  initial = uninitialized;
  states = chat_states;
  context = get_initial_context now;
}

unfoldable pub create_chat_state_machine : ℕ → ChatMachine
create_chat_state_machine now = construct (chat_config now)

-- `machine.transition(event, contextUpdate)` on the chat machine created at the given time.
unfoldable pub chat_transition :
    ℕ
    → ChatMachine
    → ChatEvent
    → Option (ChatMachineContext → ChatMachineContext)
    → ℕ
    → ChatMachine × Bool
chat_transition created m e update now =
    transition ChatEvent-discrete (chat_config created) m e update now
