-- ===== src/ChatSearch/Debounce.antt =====
-- chatSearch.ts, `debounce`: the variables of the closure are the fields of a record. A function is a
-- number, and a call of it with its arguments is an entry of a log. `timer` is the time at which the
-- timeout is due, with the arguments it was set with; `tick` is the event loop looking at the clock.
use stellar_dex_chat.Common.{
  ℕ, suc, ◌+◌, ◌≡◌, ◌≤◌, refl, Option, none, some, List, [], ◌∷◌, ◌++◌, leb, arith, if◌then◌else◌,
}
use stellar_dex_chat.Stroops.{Text}

pub record Debounced : Type 0 where
  pub timer : Option (ℕ × Text)
  pub latest_fn : ℕ
  pub calls : List (ℕ × Text)

-- `debounce`
abbrev pub debounce : ℕ → Debounced
debounce fn = record { timer = none; latest_fn = fn; calls = [] }

-- What the component and the event loop do: a call at a time, a cancel, a new function, or a look at the
-- clock.
pub data Action : Type 0 where
  debounces : Text → ℕ → Action
  cancels : Action
  updates : ℕ → Action
  ticks : ℕ → Action

unfoldable pub cancel : Debounced → Debounced
cancel d = record d { timer = none }

unfoldable pub update_fn : ℕ → Debounced → Debounced
update_fn new_fn d = record d { latest_fn = new_fn }

abbrev pub fire : ℕ → Option (ℕ × Text) → Debounced → Debounced
fire now none d = d
fire now (some (due, args)) d =
    if leb due now
    then record d { timer = none; calls = d.calls ++ (d.latest_fn, args) ∷ [] }
    else d

unfoldable pub tick : ℕ → Debounced → Debounced
tick now d = fire now d.timer d

module _ (delay_ms : ℕ) where
  unfoldable pub debounced : Text → ℕ → Debounced → Debounced
  debounced args now d = record d { timer = some (now + delay_ms, args) }

  unfoldable pub perform : Action → Debounced → Debounced
  perform (debounces args now) d = debounced args now d
  perform cancels d = cancel d
  perform (updates fn) d = update_fn fn d
  perform (ticks now) d = tick now d

  unfoldable pub perform_all : List Action → Debounced → Debounced
  perform_all [] d = d
  perform_all (a ∷ as') d = perform_all as' (perform a d)

-- While a timeout waits: nothing is called or cancelled, and the clock is before it.
abbrev pub IsQuiet : ℕ → List Action → Type 0
IsQuiet due [] = Unit
IsQuiet due (debounces args now ∷ as') = ⊥
IsQuiet due (cancels ∷ as') = ⊥
IsQuiet due (updates fn ∷ as') = IsQuiet due as'
IsQuiet due (ticks now ∷ as') = (suc now ≤ due) × IsQuiet due as'

-- The function that is given last.
abbrev pub last_fn : ℕ → List Action → ℕ
last_fn fn [] = fn
last_fn fn (updates new_fn ∷ as') = last_fn new_fn as'
last_fn fn (debounces args now ∷ as') = last_fn fn as'
last_fn fn (cancels ∷ as') = last_fn fn as'
last_fn fn (ticks now ∷ as') = last_fn fn as'

module _ (delay_ms : ℕ) where
  tick-early :
      (due now : ℕ) (args : Text) (d : Debounced)
      → d.timer ≡ some (due, args)
      → suc now ≤ due
      → tick now d ≡ d
  unfolding tick
  tick-early due now args d h early = rw h (ground (arith, early))

  perform_all-quiet :
      (as' : List Action) (due : ℕ) (args : Text) (d : Debounced)
      → d.timer ≡ some (due, args)
      → IsQuiet due as'
      → perform_all delay_ms as' d ≡ record d { latest_fn = last_fn d.latest_fn as' }
  unfolding perform_all perform update_fn
  perform_all-quiet [] due args d h quiet = refl
  perform_all-quiet (debounces other now ∷ as') due args d h quiet = elim quiet [ ]
  perform_all-quiet (cancels ∷ as') due args d h quiet = elim quiet [ ]
  perform_all-quiet (updates fn ∷ as') due args d h quiet =
      perform_all-quiet as' due args (update_fn fn d) h quiet
  perform_all-quiet (ticks now ∷ as') due args d h (early, quiet) =
      rw (tick-early due now args d h early) (perform_all-quiet as' due args d h quiet)

  -- After a call, with the clock before its delay and no other call and no cancel, the timeout calls
  -- the function that was given last with the arguments of the call, once, and no timeout is left.
  pub debounced_once :
      (as' : List Action) (args : Text) (now later : ℕ) (d : Debounced)
      → IsQuiet (now + delay_ms) as'
      → now + delay_ms ≤ later
      → tick later (perform_all delay_ms as' (debounced delay_ms args now d)) ≡ record {
        timer = none;
        latest_fn = last_fn d.latest_fn as';
        calls = d.calls ++ (last_fn d.latest_fn as', args) ∷ [];
      }
  unfolding tick
  debounced_once as' args now later d quiet due =
      rw
        (perform_all-quiet as' (now + delay_ms) args (debounced delay_ms args now d)
          (unfold debounced in refl) quiet)
        (unfold debounced in ground (arith, due))
