-- ===== src/StateMachine.antt =====
-- Dechat/dex_with_fiat_frontend/src/lib/stateMachine.ts: the generic state machine. A context update
-- is a function that overwrites the given fields, an action a function that gives the mutated context.
pub mod Guards
pub mod History
pub mod Reset
mod Tests
use mathlib.Core.Logic.{ite}
use stellar_dex_chat.Common.{
  ℕ, Bool, true, false, Option, none, some, List, [], ◌∷◌, ◌++◌, map, is_some, if◌then◌else◌, ◌==◌,
  filter, any,
}

pub data Transition (State Context : Type 0) : Type 0 where
  target_only : State → Transition State Context
  full : State → Option (Context → Bool) → Option (Context → Context) → Transition State Context

pub record Config (State Event Context : Type 0) : Type 0 where
  pub initial : State
  pub states : State → List (Event × Transition State Context)
  pub context : Context

-- What an entry of the history names as its event: `setState` writes `'__forced__'`.
pub data Trigger (Event : Type 0) : Type 0 where
  by : Event → Trigger Event
  forced : Trigger Event

pub record Entry (State Event : Type 0) : Type 0 where
  pub from : State
  pub to : State
  pub event : Trigger Event
  pub timestamp : ℕ

-- `config_context` is the object `config.context`, and `shared` says that `this.context` is that
-- very object. Listeners are named by numbers; `notified` lists the calls made to them.
pub record Machine (State Event Context : Type 0) : Type 0 where
  pub current_state : State
  pub context : Context
  pub config_context : Context
  pub shared : Bool
  pub listeners : List ℕ
  pub history : List (Entry State Event)
  pub notified : List (ℕ × State × Context)

module _ {State Context : Type 0} where
  abbrev pub target : Transition State Context → State
  target (target_only s) = s
  target (full s g a) = s

  abbrev pub action : Transition State Context → Option (Context → Context)
  action (target_only s) = none
  action (full s g a) = a

  -- `!transition.guard || transition.guard(this.context)`
  abbrev pub allows : Transition State Context → Context → Bool
  allows (target_only s) c = true
  allows (full s none a) c = true
  allows (full s (some g) a) c = g c

module _ {State Event Context : Type 0} where
  -- The constructor copies the configured context.
  unfoldable pub construct : Config State Event Context → Machine State Event Context
  construct config = record {
    current_state = config.initial;
    context = config.context;
    config_context = config.context;
    shared = false;
    listeners = [];
    history = [];
    notified = [];
  }

  -- `this.listeners.forEach(...)`
  unfoldable pub notify : Machine State Event Context → Machine State Event Context
  notify m = record m {
    notified = m.notified ++ map (λ l. (l, m.current_state, m.context)) m.listeners;
  }

  -- `this.context = { ...this.context, ...contextUpdate }` makes a new object.
  unfoldable pub merge :
      Option (Context → Context) → Machine State Event Context → Machine State Event Context
  merge none m = m
  merge (some update) m = record m { context = update m.context; shared = false }

  -- An action mutates the object that `this.context` is.
  unfoldable pub act :
      Option (Context → Context) → Machine State Event Context → Machine State Event Context
  act none m = m
  act (some run) m = record m {
    context = run m.context;
    config_context = if m.shared then run m.context else m.config_context;
  }

  unfoldable pub enter :
      State → Trigger Event → ℕ → Machine State Event Context → Machine State Event Context
  enter s trigger now m = record m {
    current_state = s;
    history =
        m.history
        ++ record { from = m.current_state; to = s; event = trigger; timestamp = now } ∷ [];
  }

  unfoldable pub set_state :
      State
      → Option (Context → Context)
      → ℕ
      → Machine State Event Context
      → Machine State Event Context
  unfolding merge enter notify
  set_state s update now m = notify (enter s forced now (merge update m))

  unfoldable pub update_context :
      (Context → Context) → Machine State Event Context → Machine State Event Context
  unfolding merge notify
  update_context update m = notify (merge (some update) m)

  unfoldable pub subscribe : ℕ → Machine State Event Context → Machine State Event Context
  subscribe l m =
      if any (λ k. k == l) m.listeners then m else record m { listeners = m.listeners ++ l ∷ [] }

  unfoldable pub unsubscribe : ℕ → Machine State Event Context → Machine State Event Context
  unsubscribe l m = record m {
    listeners = filter (λ k. if k == l then false else true) m.listeners;
  }

  -- `contextReset ?? this.config.context`: with no argument the configured object itself is taken.
  unfoldable pub reset :
      Config State Event Context
      → Option Context
      → Machine State Event Context
      → Machine State Event Context
  unfolding notify
  reset config none m = notify (record m {
    current_state = config.initial;
    context = m.config_context;
    shared = true;
    history = [];
  })
  reset config (some c) m =
      notify
        (record m { current_state = config.initial; context = c; shared = false; history = [] })

-- The lookups `config.states[state][event]`.
module _ {State Event Context : Type 0} (dec : Discrete Event) where
  unfoldable pub find :
      Event → List (Event × Transition State Context) → Option (Transition State Context)
  find e [] = none
  find e ((k, t) ∷ ts) = let rest = find e ts in ite (dec k e) (some t) rest

  module _ (config : Config State Event Context) where
    unfoldable pub can_transition : Machine State Event Context → Event → Bool
    can_transition m e = elim (find e (config.states m.current_state)) [
      | none ↦ false
      | some t ↦ allows t m.context
    ]

    unfoldable pub transition :
        Machine State Event Context
        → Event
        → Option (Context → Context)
        → ℕ
        → Machine State Event Context × Bool
    unfolding merge act enter notify
    transition m e update now = elim (find e (config.states m.current_state)) [
      | none ↦ (m, false)
      | some t ↦
          if allows t m.context
          then (notify (enter (target t) (by e) now (act (action t) (merge update m))), true)
          else (m, false)
    ]

    unfoldable pub get_valid_transitions : Machine State Event Context → List Event
    unfolding can_transition
    get_valid_transitions m =
        filter (can_transition m) (map (λ p. p.0) (config.states m.current_state))
