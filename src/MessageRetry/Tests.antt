-- ===== src/MessageRetry/Tests.antt =====
-- useMessageRetry.ts: runs at concrete inputs.
use stellar_dex_chat.Common.{◌+◌, ◌≡◌, ◌≤◌, refl, true, false, none, List, [], ◌∷◌, arith}
use stellar_dex_chat.MessageRetry.{
  by_timer, by_button, resent, missed, Retry, first_render, run_retry, get_retry_delay_ms, schedule,
  commit, retry_now, tick, finish, fail, hand_over, Action, presses, ticks, finishes, fails,
  hands_over, perform, perform_all,
}
use stellar_dex_chat.MessageRetry.Budget.{automatic_since, missed_since, automatic_limited}
use stellar_dex_chat.MessageRetry.Manual.{press_timer}

-- The message fails; the timer resends it, the handler's promise settles, the button is pressed, and the
-- handler goes before the timeout that is still pending is due.
abbrev actions : List Action
actions =
    fails 0
    ∷ ticks true 999
    ∷ ticks true 1000
    ∷ finishes 1200
    ∷ presses false 1300
    ∷ hands_over false
    ∷ ticks true 3200
    ∷ []

events_run :
    (perform_all actions (first_render true)).events
    ≡ missed by_timer 3200 ∷ resent by_button 1300 ∷ resent by_timer 1000 ∷ []
unfolding perform_all perform fail tick finish retry_now commit schedule get_retry_delay_ms
    run_retry hand_over
events_run = refl

automatic_limited_example :
    let s = perform_all actions (first_render true) in
    (automatic_since s.events + missed_since s.events ≡ s.attempts)
    × (automatic_since s.events + missed_since s.events ≤ 3)
automatic_limited_example = automatic_limited true actions

abbrev failed_once : Retry
failed_once = fail 0 (first_render true)

press_timer_example :
    let awaited = retry_now true 5 failed_once in
    let at_once = retry_now false 5 failed_once in
    (awaited.events ≡ resent by_button 5 ∷ failed_once.events)
    × (tick true 1000 awaited ≡ awaited)
    × (at_once.events ≡ resent by_button 5 ∷ failed_once.events)
    × (at_once.next_retry_at ≡ none)
    × ((tick true 1000 at_once).events
        ≡ resent by_timer 1000 ∷ resent by_button 5 ∷ failed_once.events)
press_timer_example =
    press_timer true 5 1000 1000 failed_once (unfold fail commit schedule in refl)
      (unfold fail commit schedule in refl) (unfold fail commit schedule get_retry_delay_ms in refl)
      (omega arith)
