-- ===== src/MessageRetry/Manual.antt =====
-- useMessageRetry.ts, `retryNow`: what becomes of a timeout that is pending.
use stellar_dex_chat.Common.{
  ℕ, ◌+◌, ◌≡◌, ◌∙◌, ◌≤◌, refl, ap, Bool, true, false, none, some, ◌∷◌, arith, leb,
}
use stellar_dex_chat.MessageRetry.{
  by_timer, by_button, resent, Retry, run_retry, schedule, commit, retry_now, fire, tick, same_flag,
}

same_flag_refl : (b : Bool) → same_flag b b ≡ true
same_flag_refl true = refl
same_flag_refl false = refl

press_awaited :
    (now : ℕ) (s : Retry)
    → s.is_retrying ≡ false
    → s.has_handler ≡ true
    → ((retry_now true now s).events ≡ resent by_button now ∷ s.events)
      × ((retry_now true now s).timer ≡ none)
unfolding retry_now commit run_retry schedule
press_awaited now s idle handled = (ground (arith, idle, handled), ground (arith, idle, handled))

press_at_once :
    (now : ℕ) (s : Retry)
    → s.is_retrying ≡ false
    → s.has_handler ≡ true
    → ((retry_now false now s).events ≡ resent by_button now ∷ s.events)
      × ((retry_now false now s).timer ≡ s.timer)
      × ((retry_now false now s).next_retry_at ≡ none)
      × ((retry_now false now s).has_handler ≡ true)
unfolding retry_now commit run_retry schedule
press_at_once now s idle handled =
    let same = same_flag_refl s.is_failed in
    (
      ground (arith, idle, handled, same),
      ground (arith, idle, handled, same),
      ground (arith, idle, handled, same),
      ground (arith, idle, handled, same),
    )

tick_unarmed : (promises : Bool) (now : ℕ) (s : Retry) → s.timer ≡ none → tick promises now s ≡ s
unfolding tick
tick_unarmed promises now s h = rw h refl

commit-events : (now : ℕ) (old s : Retry) → (commit now old s).events ≡ s.events
unfolding commit schedule
commit-events now old s = ground arith

resent-by_timer :
    (promises : Bool) (now : ℕ) (s : Retry)
    → s.has_handler ≡ true
    → (run_retry by_timer promises now s).events ≡ resent by_timer now ∷ s.events
unfolding run_retry
resent-by_timer promises now s handled = ground (arith, handled)

fire_due :
    (promises : Bool) (due now : ℕ) (s : Retry)
    → due ≤ now
    → s.has_handler ≡ true
    → (fire promises now (some due) s).events ≡ resent by_timer now ∷ s.events
fire_due promises due now s late handled =
    let passed : leb due now ≡ true = ground (arith, late) in
    rw passed (
      commit-events now s
        (record (run_retry by_timer promises now s) { attempts = s.attempts + 1; timer = none })
      ∙ resent-by_timer promises now s handled)

tick_due :
    (promises : Bool) (due now : ℕ) (s : Retry)
    → s.timer ≡ some due
    → due ≤ now
    → s.has_handler ≡ true
    → (tick promises now s).events ≡ resent by_timer now ∷ s.events
unfolding tick
tick_due promises due now s h late handled =
    ap (λ t. (fire promises now t s).events) h ∙ fire_due promises due now s late handled

-- A failed message has a handler and no resend is under way, a timeout is pending, and the button is
-- pressed: the message is resent. If the handler gives a promise, the timeout is cleared, and nothing
-- happens when it would have been due. If it does not, the time of the next attempt is no longer shown,
-- but the timeout stays, and when it is due the message is sent again.
pub press_timer :
    (promises : Bool) (now due later : ℕ) (s : Retry)
    → s.is_retrying ≡ false
    → s.has_handler ≡ true
    → s.timer ≡ some due
    → due ≤ later
    → let awaited = retry_now true now s in
      let at_once = retry_now false now s in
      (awaited.events ≡ resent by_button now ∷ s.events)
      × (tick promises later awaited ≡ awaited)
      × (at_once.events ≡ resent by_button now ∷ s.events)
      × (at_once.next_retry_at ≡ none)
      × ((tick promises later at_once).events
          ≡ resent by_timer later ∷ resent by_button now ∷ s.events)
press_timer promises now due later s idle handled pending late =
    let (sent, gone) = press_awaited now s idle handled in
    let (sent', kept, hidden, there) = press_at_once now s idle handled in
    (
      sent,
      tick_unarmed promises later (retry_now true now s) gone,
      sent',
      hidden,
      tick_due promises due later (retry_now false now s) (kept ∙ pending) late there
          ∙ ap (λ es. resent by_timer later ∷ es) sent',
    )
