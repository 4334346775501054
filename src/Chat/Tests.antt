-- ===== src/Chat/Tests.antt =====
-- The chat machine and its dispatcher at concrete inputs.
use stellar_dex_chat.Common.{◌≡◌, refl, false, none, some, List, [], ◌∷◌}
use stellar_dex_chat.StateMachine.{find, transition, construct}
use stellar_dex_chat.StateMachine.History.{fire, update, listen, calls}
use stellar_dex_chat.Chat.{
  ChatState, ChatEvent-discrete, TransactionData, ChatMachineContext, ChatMachine, chat_states,
  chat_config, create_chat_state_machine, chat_transition, get_initial_context, initialized,
  sending_message, awaiting_user_input, ready_for_transaction, initialize_session, send_message,
  analysis_complete, trigger_transaction, cancel_flow,
}
use stellar_dex_chat.Chat.Cancel.{ChatCall, IsBlocked, cancel_blocks}
use stellar_dex_chat.Chat.Dispatcher.{Dispatcher}
use stellar_dex_chat.Chat.Flow.{PassesReady, committed-PassesReady, chat_calls}
use stellar_dex_chat.Chat.Recovery.{fire_all, way_home, recovers}

abbrev hundred_xlm : TransactionData
hundred_xlm = record {
  token_in = some "XLM";
  amount_in = some "100";
  fiat_amount = none;
  fiat_currency = some "NGN";
  recipient = none;
}

abbrev with_data : ChatMachineContext → ChatMachineContext
with_data c = record c { pending_transaction_data = some hundred_xlm }

abbrev paying : ChatMachineContext
paying = record {
  message_count = 3;
  has_user_cancelled = false;
  pending_transaction_data = some hundred_xlm;
  needs_clarification = false;
  clarification_question = none;
  error_message = none;
  last_event_time = 1;
  previous_state = none;
}

abbrev machine_in : ChatState → ChatMachine
machine_in s = record {
  current_state = s;
  context = paying;
  config_context = paying;
  shared = false;
  listeners = [];
  history = [];
  notified = [];
}

starts :
    (chat_transition 5 (create_chat_state_machine 5) initialize_session none 6).0.current_state
    ≡ initialized
unfolding chat_states ChatEvent-discrete create_chat_state_machine chat_transition transition find
    construct get_initial_context
starts = refl

abbrev first_payment : List ChatCall
first_payment =
    fire initialize_session none 1
    ∷ fire send_message none 2
    ∷ update with_data
    ∷ fire analysis_complete none 3
    ∷ fire trigger_transaction none 4
    ∷ []

committed-PassesReady_example : PassesReady (chat_calls 0 first_payment).history
unfolding calls construct transition find chat_states ChatEvent-discrete get_initial_context
committed-PassesReady_example =
    committed-PassesReady 0 first_payment ((λ e. cc), ((λ e. cc), ((λ e. cc), ((λ e. cc), tt))))
      refl

cancel_blocks_example : IsBlocked (
    calls ChatEvent-discrete
      (chat_config 0)
      (chat_transition 0 (machine_in ready_for_transaction) cancel_flow none 7).0
      (fire send_message none 8 ∷ update with_data ∷ listen 1 ∷ []))
unfolding chat_transition transition find chat_states ChatEvent-discrete
cancel_blocks_example =
    cancel_blocks 0 (machine_in ready_for_transaction) 7
      (fire send_message none 8 ∷ update with_data ∷ listen 1 ∷ []) refl
      ((refl, tt), ((λ c. refl), (tt, tt)))

recovers_example :
    (fire_all 0 9 (way_home sending_message) (machine_in sending_message)).current_state
    ≡ initialized
recovers_example = recovers 0 9 (machine_in sending_message)

abbrev idle : Dispatcher
idle = record { machine = machine_in awaiting_user_input; timer = none; pending_event = none }

abbrev waiting : Dispatcher
waiting = record {
  machine = machine_in awaiting_user_input;
  timer = some 50;
  pending_event = some send_message;
}
