-- ===== src/StateMachine/Reset.antt =====
-- `reset` and the object that the configuration holds.
use stellar_dex_chat.Common.{
  ℕ, ◌≡◌, refl, All, Bool, true, false, Option, none, some, List, [], ◌∷◌, arith,
}
use stellar_dex_chat.StateMachine.{
  Config, Machine, allows, find, construct, transition, set_state, update_context, subscribe,
  unsubscribe, reset, full,
}
use stellar_dex_chat.StateMachine.History.{
  Call, fire, force, update, listen, unlisten, restart, call, calls,
}

-- `reset` is never called without an argument.
abbrev pub GivesContext : {State Event Context : Type 0} → Call State Event Context → Type 0
GivesContext (restart none) = ⊥
GivesContext _ = Unit

module _ {State Event Context : Type 0} (dec : Discrete Event)
    (config : Config State Event Context) where
  abbrev IsOwn : Machine State Event Context → Type 0
  IsOwn m = (m.shared ≡ false) × (m.config_context ≡ config.context)

  call-IsOwn :
      (m : Machine State Event Context) (c : Call State Event Context)
      → GivesContext c
      → IsOwn m
      → IsOwn (call dec config m c)
  unfolding call transition set_state update_context subscribe unsubscribe reset
  call-IsOwn m (fire e u now) g h = ground arith
  call-IsOwn m (force s u now) g h = ground arith
  call-IsOwn m (update u) g h = ground arith
  call-IsOwn m (listen l) g h = ground arith
  call-IsOwn m (unlisten l) g h = ground arith
  call-IsOwn m (restart none) g h = absurd g
  call-IsOwn m (restart (some c)) g h = ground arith

  calls-IsOwn :
      (m : Machine State Event Context) (cs : List (Call State Event Context))
      → All GivesContext cs
      → IsOwn m
      → IsOwn (calls dec config m cs)
  unfolding calls
  calls-IsOwn m [] g h = h
  calls-IsOwn m (c ∷ cs) (g, gs) h = calls-IsOwn (call dec config m c) cs gs (call-IsOwn m c g h)

  -- The first `reset` with no argument, after any other calls on a new machine, brings back the
  -- configured initial state and context and an empty history.
  pub reset_restores :
      (cs : List (Call State Event Context))
      → All GivesContext cs
      → let m = reset config none (calls dec config (construct config) cs) in
        (m.current_state ≡ config.initial) × (m.context ≡ config.context) × (m.history ≡ [])
  unfolding reset
  reset_restores cs g =
      (refl, (calls-IsOwn (construct config) cs g (unfold construct in (refl, refl))).1, refl)

  -- After a `reset` with no argument, the action of an accepted transition writes to the configured
  -- context object, so the next `reset` gives what that action left behind.
  pub reset_leaks :
      (m : Machine State Event Context) (e : Event) (now : ℕ) (to : State)
      (guard : Option (Context → Bool)) (run : Context → Context)
      → find dec e (config.states config.initial) ≡ some (full to guard (some run))
      → allows (full to guard (some run)) m.config_context ≡ true
      → (reset config none (transition dec config (reset config none m) e none now).0).context
        ≡ run m.config_context
  unfolding reset transition
  reset_leaks m e now to guard run found allowed = rw (found, transition) (rw allowed)
