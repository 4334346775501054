-- ===== src/Chat/Dispatcher.antt =====
-- chatStateMachine.ts, `createDebouncedDispatcher`: the closure's variables are the fields of a
-- record. `timer` is the time at which the timeout of `setTimeout` is due; `tick` is the event loop
-- looking at the clock. The delay is the `Math.max(0, delayMs)` of the source.
use stellar_dex_chat.Common.{
  ℕ, ◌+◌, ◌≤◌, ◌≡◌, refl, Bool, false, Option, none, some, List, [], ◌∷◌, arith, leb, is_some,
  if◌then◌else◌,
}
use stellar_dex_chat.Chat.{ChatEvent, ChatMachine, chat_transition}

pub record Dispatcher : Type 0 where
  pub machine : ChatMachine
  pub timer : Option ℕ
  pub pending_event : Option ChatEvent

unfoldable pub create_debounced_dispatcher : ChatMachine → Dispatcher
create_debounced_dispatcher m = record { machine = m; timer = none; pending_event = none }

unfoldable pub clear_timer : Dispatcher → Dispatcher
clear_timer d = record d { timer = none }

unfoldable pub cancel : Dispatcher → Dispatcher
unfolding clear_timer
cancel d = record (clear_timer d) { pending_event = none }

unfoldable pub is_pending : Dispatcher → Bool
is_pending d = is_some d.pending_event

-- What the user interface and the event loop do to a dispatcher.
pub data Action : Type 0 where
  dispatches : ChatEvent → ℕ → Action
  flushes : ℕ → Action
  cancels : Action
  ticks : ℕ → Action

module _ (created delay : ℕ) where
  unfoldable pub apply_pending : ℕ → Dispatcher → Dispatcher × Bool
  apply_pending now d = elim d.pending_event [
    | none ↦ (d, false)
    | some e ↦ (
      record d { machine = (chat_transition created d.machine e none now).0; pending_event = none },
      (chat_transition created d.machine e none now).1,
    )
  ]

  unfoldable pub dispatch : ChatEvent → ℕ → Dispatcher → Dispatcher
  unfolding clear_timer
  dispatch e now d = record (clear_timer (record d { pending_event = some e })) {
    timer = some (now + delay);
  }

  unfoldable pub flush : ℕ → Dispatcher → Dispatcher × Bool
  unfolding clear_timer apply_pending
  flush now d = apply_pending now (clear_timer d)

  unfoldable pub tick : ℕ → Dispatcher → Dispatcher
  unfolding apply_pending
  tick now d = elim d.timer [
    | none ↦ d
    | some due ↦ if leb due now then (apply_pending now (record d { timer = none })).0 else d
  ]

  unfoldable pub perform : Action → Dispatcher → Dispatcher
  unfolding dispatch flush cancel tick
  perform (dispatches e now) d = dispatch e now d
  perform (flushes now) d = (flush now d).0
  perform cancels d = cancel d
  perform (ticks now) d = tick now d

  unfoldable pub perform_all : List Action → Dispatcher → Dispatcher
  perform_all [] d = d
  perform_all (a ∷ as') d = perform_all as' (perform a d)

  -- Calls of `dispatch` in a row.
  unfoldable pub dispatch_all : List (ChatEvent × ℕ) → Dispatcher → Dispatcher
  dispatch_all [] d = d
  dispatch_all ((e, t) ∷ es) d = dispatch_all es (dispatch e t d)

  dispatch_all-machine :
      (es : List (ChatEvent × ℕ)) (d : Dispatcher) → (dispatch_all es d).machine ≡ d.machine
  unfolding dispatch_all dispatch
  dispatch_all-machine [] d = refl
  dispatch_all-machine ((e, t) ∷ es) d = dispatch_all-machine es (dispatch e t d)

  -- A burst of events, then one event at time `t`, then the clock at a time when that event's delay
  -- has passed: the machine has made one transition, by the last event, and nothing is pending.
  pub burst_collapses :
      (es : List (ChatEvent × ℕ)) (e : ChatEvent) (t later : ℕ) (d : Dispatcher)
      → t + delay ≤ later
      → tick later (dispatch e t (dispatch_all es d)) ≡ record {
        machine = (chat_transition created d.machine e none later).0;
        timer = none;
        pending_event = none;
      }
  unfolding tick dispatch
  burst_collapses es e t later d h = ground (arith, dispatch_all-machine es d)

  abbrev pub IsArmed : Dispatcher → Type 0
  IsArmed d = is_some d.timer ≡ is_pending d

  perform-IsArmed : (a : Action) (d : Dispatcher) → IsArmed d → IsArmed (perform a d)
  unfolding perform is_pending
  perform-IsArmed (dispatches e now) d h = refl
  perform-IsArmed (flushes now) d h = ground arith
  perform-IsArmed cancels d h = refl
  perform-IsArmed (ticks now) d h = ground arith

  perform_all-IsArmed_from :
      (as' : List Action) (d : Dispatcher) → IsArmed d → IsArmed (perform_all as' d)
  unfolding perform_all
  perform_all-IsArmed_from [] d h = h
  perform_all-IsArmed_from (a ∷ as') d h =
      perform_all-IsArmed_from as' (perform a d) (perform-IsArmed a d h)

  -- After any actions on a new dispatcher, an event is pending exactly when a timer runs.
  pub pending_iff_armed :
      (m : ChatMachine) (as' : List Action)
      → is_some (perform_all as' (create_debounced_dispatcher m)).timer
        ≡ is_pending (perform_all as' (create_debounced_dispatcher m))
  unfolding create_debounced_dispatcher is_pending
  pending_iff_armed m as' = perform_all-IsArmed_from as' (create_debounced_dispatcher m) refl

  -- After a `flush` or a `cancel`, the clock alone changes nothing, at whatever time.
  pub flush-cancel_quiet :
      (d : Dispatcher) (now later : ℕ)
      → (tick later (flush now d).0 ≡ (flush now d).0) × (tick later (cancel d) ≡ cancel d)
  unfolding tick flush cancel
  flush-cancel_quiet d now later = (ground arith, ground arith)

  -- A `flush` with an event pending makes the transition by that event, answers as it does, and
  -- leaves nothing pending.
  pub flush-transition :
      (d : Dispatcher) (now : ℕ) (e : ChatEvent)
      → d.pending_event ≡ some e
      → ((flush now d).1 ≡ (chat_transition created d.machine e none now).1)
        × ((flush now d).0.machine ≡ (chat_transition created d.machine e none now).0)
        × (is_pending (flush now d).0 ≡ false)
  unfolding flush is_pending
  flush-transition d now e h = (ground arith, ground arith, ground arith)
