-- ===== src/MessageRetry.antt =====
-- Dechat/dex_with_fiat_frontend/src/hooks/useMessageRetry.ts: a failed message is sent again, by itself
-- after growing delays and by a button. The hook's variables are a record; a render with the effects
-- that follow it is `commit`, and `Date.now()` is an argument. The unmounting, the refs to
-- the content and the id, and the countdown in seconds are left out.
pub mod Budget
pub mod Manual
mod Tests
use stellar_dex_chat.Common.{
  ℕ, ◌+◌, ◌-◌, ◌*◌, ◌^◌, Bool, true, false, not, ◌&&◌, Option, none, some, List, [], ◌∷◌, ltb, leb,
  ◌==◌, if◌then◌else◌,
}

abbrev pub max_auto_retries : ℕ
max_auto_retries = 3

abbrev pub retry_base_delay_ms : ℕ
retry_base_delay_ms = 1000

-- `Math.max(1, Math.floor(attempt)) - 1` is `attempt - 1` on whole numbers that stop at 0.
unfoldable pub get_retry_delay_ms : ℕ → ℕ
get_retry_delay_ms attempt = retry_base_delay_ms * 2 ^ (attempt - 1)

-- A resend is asked for by the timer or by the button.
pub data Trigger : Type 0 where
  by_timer by_button : Trigger

-- What happened, with its time: the handler was called, or there was none to call, or the message
-- recovered.
pub data Event : Type 0 where
  resent missed : Trigger → ℕ → Event
  recovered : ℕ → Event

-- `timer` is the time at which the timeout of `setTimeout` is due; the latest event stands first.
-- `has_handler` is whether `onRetryRef` holds one.
pub record Retry : Type 0 where
  pub attempts : ℕ
  pub is_failed : Bool
  pub is_retrying : Bool
  pub has_handler : Bool
  pub next_retry_at : Option ℕ
  pub timer : Option ℕ
  pub events : List Event

-- The first render of a message that has not failed, with or without a handler.
abbrev pub first_render : Bool → Retry
first_render handler = record {
  attempts = 0;
  is_failed = false;
  is_retrying = false;
  has_handler = handler;
  next_retry_at = none;
  timer = none;
  events = [];
}

-- `runRetry`, with whether the handler gives a promise: if it does not, `isRetrying` is set and
-- cleared again before the next render.
unfoldable pub run_retry : Trigger → Bool → ℕ → Retry → Retry
run_retry by promises now s =
    if s.has_handler
    then record s {
      next_retry_at = none;
      is_retrying = promises;
      events = resent by now ∷ s.events;
    }
    else record s { events = missed by now ∷ s.events }

abbrev pub same_flag : Bool → Bool → Bool
same_flag true b = b
same_flag false b = not b

-- Whether the variables that the effect depends on are as at the last render.
abbrev pub is_same : Retry → Retry → Bool
is_same old s =
    old.attempts == s.attempts
    && same_flag old.is_failed s.is_failed
    && same_flag old.is_retrying s.is_retrying

-- The effect that schedules the next attempt.
unfoldable pub schedule : ℕ → Retry → Retry
unfolding get_retry_delay_ms
schedule now s =
    if s.is_failed && s.has_handler && not s.is_retrying && ltb s.attempts max_auto_retries
    then record s {
      next_retry_at = some (now + get_retry_delay_ms (s.attempts + 1));
      timer = some (now + get_retry_delay_ms (s.attempts + 1));
    }
    else s

-- A render of the state, after that of the old one: if a dependency has changed, the cleanup clears
-- the timeout and the effect runs.
unfoldable pub commit : ℕ → Retry → Retry → Retry
unfolding schedule
commit now old s = if is_same old s then s else schedule now (record s { timer = none })

unfoldable pub retry_now : Bool → ℕ → Retry → Retry
unfolding commit run_retry
retry_now promises now s =
    if s.is_retrying then s else commit now s (run_retry by_button promises now s)

-- The callback of the timeout, when its time has come.
abbrev pub fire : Bool → ℕ → Option ℕ → Retry → Retry
fire promises now none s = s
fire promises now (some due) s =
    if leb due now
    then commit now s
        (record (run_retry by_timer promises now s) { attempts = s.attempts + 1; timer = none })
    else s

unfoldable pub tick : Bool → ℕ → Retry → Retry
tick promises now s = fire promises now s.timer s

-- `finish`, when the handler's promise has settled.
unfoldable pub finish : ℕ → Retry → Retry
unfolding commit
finish now s = commit now s (record s { is_retrying = false })

-- The message fails, by its property `isFailed`.
unfoldable pub fail : ℕ → Retry → Retry
unfolding commit
fail now s = commit now s (record s { is_failed = true })

-- It is no longer failed: the effect of the recovery runs, if it was failed before.
unfoldable pub recover : ℕ → Retry → Retry
unfolding commit
recover now s =
    if s.is_failed
    then commit now s (record s {
      is_failed = false;
      attempts = 0;
      next_retry_at = none;
      events = recovered now ∷ s.events;
    })
    else s

-- A render with another `onRetry`: the ref follows, and no effect depends on it.
unfoldable pub hand_over : Bool → Retry → Retry
hand_over handler s = record s { has_handler = handler }

-- What the user, the clock, the handler and the message do.
pub data Action : Type 0 where
  presses ticks : Bool → ℕ → Action
  finishes fails recovers : ℕ → Action
  hands_over : Bool → Action

unfoldable pub perform : Action → Retry → Retry
perform (presses promises now) s = retry_now promises now s
perform (ticks promises now) s = tick promises now s
perform (finishes now) s = finish now s
perform (fails now) s = fail now s
perform (recovers now) s = recover now s
perform (hands_over handler) s = hand_over handler s

unfoldable pub perform_all : List Action → Retry → Retry
perform_all [] s = s
perform_all (a ∷ as') s = perform_all as' (perform a s)
