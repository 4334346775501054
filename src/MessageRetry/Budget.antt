-- ===== src/MessageRetry/Budget.antt =====
-- useMessageRetry.ts: the automatic attempts are limited, and each waits for its delay.
use stellar_dex_chat.Common.{
  ℕ, suc, ◌+◌, ◌≤◌, ◌<◌, ◌≡◌, ◌∙◌, refl, sym, ap, Bool, true, false, not, ◌&&◌, Option, none, some,
  List, [], ◌∷◌, arith, ltb, leb, is_some, if◌then◌else◌, inl, inr, Bool-cases,
}
use stellar_dex_chat.MessageRetry.{
  is_same, Trigger, by_timer, by_button, Event, resent, missed, recovered, Retry, first_render,
  run_retry, schedule, commit, retry_now, fire, tick, finish, fail, recover, hand_over, Action,
  presses, ticks, finishes, fails, recovers, hands_over, perform, perform_all,
}

-- The resends by the timer since the last recovery.
abbrev pub automatic_since : List Event → ℕ
automatic_since [] = 0
automatic_since (resent by_timer t ∷ es) = suc (automatic_since es)
automatic_since (resent by_button t ∷ es) = automatic_since es
automatic_since (missed by t ∷ es) = automatic_since es
automatic_since (recovered t ∷ es) = 0

-- The timeouts since the last recovery that ran while there was no handler.
abbrev pub missed_since : List Event → ℕ
missed_since [] = 0
missed_since (missed by_timer t ∷ es) = suc (missed_since es)
missed_since (missed by_button t ∷ es) = missed_since es
missed_since (resent by t ∷ es) = missed_since es
missed_since (recovered t ∷ es) = 0

-- The attempts are the timeouts that ran since the last recovery.
pub record IsCounted (s : Retry) : Type 0 where
  pub counted : automatic_since s.events + missed_since s.events ≡ s.attempts
  pub limited : s.attempts ≤ 3
  pub quiet : s.is_failed ≡ false → s.attempts ≡ 0

-- A timeout runs only for a failed message with attempts left.
abbrev pub IsArmed : Retry → Type 0
IsArmed s = is_some s.timer ≡ true → (s.is_failed ≡ true) × (s.attempts < 3)

schedule-IsCounted : (now : ℕ) (s : Retry) → IsCounted s → IsCounted (schedule now s)
unfolding schedule
schedule-IsCounted now s h =
    elim (Bool-cases (s.is_failed && s.has_handler && not s.is_retrying && ltb s.attempts 3)) [
      | inl e ↦ rw e (record { counted = h.counted; limited = h.limited; quiet = h.quiet })
      | inr e ↦ rw e h
    ]

schedule-IsArmed : (now : ℕ) (s : Retry) → s.timer ≡ none → IsArmed (schedule now s)
unfolding schedule
schedule-IsArmed now s h = λ armed. (ground (arith, h, armed), ground (arith, h, armed))

commit-IsCounted : (now : ℕ) (old s : Retry) → IsCounted s → IsCounted (commit now old s)
unfolding commit
commit-IsCounted now old s h = elim (Bool-cases (is_same old s)) [
  | inl e ↦ rw e h
  | inr e ↦ rw e (
      schedule-IsCounted now (record s { timer = none })
        (record { counted = h.counted; limited = h.limited; quiet = h.quiet }))
]

commit-IsArmed :
    (now : ℕ) (old s : Retry) → (is_same old s ≡ true → IsArmed s) → IsArmed (commit now old s)
unfolding commit
commit-IsArmed now old s h = elim (Bool-cases (is_same old s)) [
  | inl e ↦ rw e (h e)
  | inr e ↦ rw e (schedule-IsArmed now (record s { timer = none }) refl)
]

abbrev IsBudgeted : Retry → Type 0
IsBudgeted s = IsCounted s × IsArmed s

commit-IsBudgeted :
    (now : ℕ) (old s : Retry)
    → IsCounted s
    → (is_same old s ≡ true → IsArmed s)
    → IsBudgeted (commit now old s)
commit-IsBudgeted now old s h armed = (commit-IsCounted now old s h, commit-IsArmed now old s armed)

by_test :
    (b : Bool) (x y : Retry)
    → (b ≡ true → IsBudgeted x)
    → (b ≡ false → IsBudgeted y)
    → IsBudgeted (if b then x else y)
by_test true x y h h' = h refl
by_test false x y h h' = h' refl

timeouts_since : List Event → ℕ
timeouts_since es = automatic_since es + missed_since es

run_retry-keeps :
    (by : Trigger) (promises : Bool) (now : ℕ) (s : Retry)
    → ((run_retry by promises now s).attempts ≡ s.attempts)
      × ((run_retry by promises now s).is_failed ≡ s.is_failed)
      × ((run_retry by promises now s).timer ≡ s.timer)
unfolding run_retry
run_retry-keeps by promises now s = (ground arith, ground arith, ground arith)

timeouts-by_button :
    (promises : Bool) (now : ℕ) (s : Retry)
    → timeouts_since (run_retry by_button promises now s).events ≡ timeouts_since s.events
unfolding run_retry timeouts_since
timeouts-by_button promises now s = ground arith

timeouts-by_timer :
    (promises : Bool) (now : ℕ) (s : Retry)
    → timeouts_since (run_retry by_timer promises now s).events ≡ timeouts_since s.events + 1
unfolding run_retry timeouts_since
timeouts-by_timer promises now s = ground arith

retry_now-IsBudgeted :
    (promises : Bool) (now : ℕ) (s : Retry) → IsBudgeted s → IsBudgeted (retry_now promises now s)
unfolding retry_now timeouts_since
retry_now-IsBudgeted promises now s (h, armed) =
    let (attempts, failed, timer) = run_retry-keeps by_button promises now s in
    by_test s.is_retrying _ _ (λ e. (h, armed))
      (λ e.
        commit-IsBudgeted now s (run_retry by_button promises now s)
          (record {
            counted = timeouts-by_button promises now s ∙ h.counted ∙ sym attempts;
            limited = omega (arith, h.limited, attempts);
            quiet = λ q. attempts ∙ h.quiet (sym failed ∙ q);
          })
          (λ same t.
            let (was_failed, left) = armed (ap is_some (sym timer) ∙ t) in
            (failed ∙ was_failed, omega (arith, left, attempts))))

fire-IsBudgeted :
    (promises : Bool) (now : ℕ) (timer : Option ℕ) (s : Retry)
    → s.timer ≡ timer
    → IsBudgeted s
    → IsBudgeted (fire promises now timer s)
unfolding timeouts_since
fire-IsBudgeted promises now none s e h = h
fire-IsBudgeted promises now (some due) s e (h, armed) =
    let (failed, left) = armed (rw e refl) in
    let (_, same_failed, _) = run_retry-keeps by_timer promises now s in
    by_test (leb due now) _ _
      (λ d.
        commit-IsBudgeted now s
          (record (run_retry by_timer promises now s) { attempts = s.attempts + 1; timer = none })
          (record {
            counted = timeouts-by_timer promises now s ∙ ap (λ n. n + 1) h.counted;
            limited = omega (arith, left);
            quiet = λ q. ground (arith, q, failed, same_failed);
          })
          (λ same armed'. ground (arith, armed')))
      (λ d. (h, armed))

finish-IsBudgeted : (now : ℕ) (s : Retry) → IsBudgeted s → IsBudgeted (finish now s)
unfolding finish
finish-IsBudgeted now s (h, armed) =
    commit-IsBudgeted now s _ (record { counted = h.counted; limited = h.limited; quiet = h.quiet })
      (λ same. armed)

fail-IsBudgeted : (now : ℕ) (s : Retry) → IsBudgeted s → IsBudgeted (fail now s)
unfolding fail
fail-IsBudgeted now s (h, armed) =
    commit-IsBudgeted now s _
      (record { counted = h.counted; limited = h.limited; quiet = λ q. ground (arith, q) })
      (λ same t. (refl, (armed t).1))

recover-IsBudgeted : (now : ℕ) (s : Retry) → IsBudgeted s → IsBudgeted (recover now s)
unfolding recover
recover-IsBudgeted now s (h, armed) =
    by_test s.is_failed _ _
      (λ e.
        commit-IsBudgeted now s
          (record s {
            is_failed = false;
            attempts = 0;
            next_retry_at = none;
            events = recovered now ∷ s.events;
          })
          (record { counted = refl; limited = omega arith; quiet = λ q. refl })
          (λ same t. ground (arith, same, e)))
      (λ e. (h, armed))

perform-IsBudgeted : (a : Action) (s : Retry) → IsBudgeted s → IsBudgeted (perform a s)
unfolding perform tick hand_over
perform-IsBudgeted (presses promises now) s h = retry_now-IsBudgeted promises now s h
perform-IsBudgeted (ticks promises now) s h = fire-IsBudgeted promises now s.timer s refl h
perform-IsBudgeted (finishes now) s h = finish-IsBudgeted now s h
perform-IsBudgeted (fails now) s h = fail-IsBudgeted now s h
perform-IsBudgeted (recovers now) s h = recover-IsBudgeted now s h
perform-IsBudgeted (hands_over handler) s (h, armed) =
    (record { counted = h.counted; limited = h.limited; quiet = h.quiet }, armed)

perform_all-IsBudgeted :
    (as' : List Action) (s : Retry) → IsBudgeted s → IsBudgeted (perform_all as' s)
unfolding perform_all
perform_all-IsBudgeted [] s h = h
perform_all-IsBudgeted (a ∷ as') s h =
    perform_all-IsBudgeted as' (perform a s) (perform-IsBudgeted a s h)

-- Whatever the user, the clock, the message and its handler do, whether there is a handler or not, the
-- timeouts that have run since the last recovery, or since the start if there was none, are at most
-- three, and the counter of the hook is their number. A timeout that runs resends the message, or is
-- missed because there is no handler; so at most three automatic resends follow a recovery.
pub automatic_limited :
    (handler : Bool) (as' : List Action)
    → let s = perform_all as' (first_render handler) in
      (automatic_since s.events + missed_since s.events ≡ s.attempts)
      × (automatic_since s.events + missed_since s.events ≤ 3)
automatic_limited handler as' =
    let (h, _) = perform_all-IsBudgeted as' (first_render handler) (
      record { counted = refl; limited = omega arith; quiet = λ q. refl },
      λ t. ground (arith, t),
    ) in
    (h.counted, omega (arith, h.counted, h.limited))
