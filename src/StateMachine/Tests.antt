-- ===== src/StateMachine/Tests.antt =====
-- The state machine on a small configuration: a door that counts how often it was opened.
use stellar_dex_chat.Common.{ℕ, ◌+◌, ◌≡◌, refl, false, none, some, List, [], ◌∷◌, leb}
use stellar_dex_chat.StateMachine.{
  Transition, target_only, full, Config, Machine, find, construct, transition, reset,
}
use stellar_dex_chat.StateMachine.History.{
  Call, fire, force, listen, calls, IsTraced, calls-IsTraced,
}
use stellar_dex_chat.StateMachine.Reset.{reset_leaks}

data Door : Type 0 where
  shut ajar : Door

data Push : Type 0 where
  pull push : Push

Push-discrete : Discrete Push
Push-discrete = hlevel

abbrev door_states : Door → List (Push × Transition Door ℕ)
door_states shut = (pull, full ajar (some (λ n. leb n 3)) (some (λ n. n + 1))) ∷ []
door_states ajar = (push, target_only shut) ∷ []

abbrev door : Config Door Push ℕ
door = record { initial = shut; states = door_states; context = 0 }

abbrev new_door : Machine Door Push ℕ
new_door = record {
  current_state = shut;
  context = 0;
  config_context = 0;
  shared = false;
  listeners = [];
  history = [];
  notified = [];
}

abbrev visit : List (Call Door Push ℕ)
visit = listen 1 ∷ fire pull none 2 ∷ fire push (some (λ n. n + 5)) 3 ∷ force ajar none 4 ∷ []

calls-IsTraced_example :
    IsTraced Push-discrete door (calls Push-discrete door (construct door) visit)
calls-IsTraced_example = calls-IsTraced Push-discrete door visit

visited : (calls Push-discrete door (construct door) visit).context ≡ 6
unfolding calls construct find Push-discrete transition
visited = refl

reset_leaks_example :
    (reset door none
      (transition Push-discrete door (reset door none new_door) pull none 9).0).context
    ≡ 1
unfolding find Push-discrete
reset_leaks_example =
    reset_leaks Push-discrete door new_door pull 9 ajar (some (λ n. leb n 3)) (λ n. n + 1) refl refl
