-- ===== src/StateMachine/History.antt =====
-- The history that a machine keeps, over any sequence of its operations.
use stellar_dex_chat.Common.{
  ℕ, ◌≡◌, refl, Option, none, some, List, [], ◌∷◌, ◌++◌, All, All-append, arith, Option-cases,
  Bool-cases, inl, inr,
}
use stellar_dex_chat.StateMachine.{
  Transition, Config, Machine, Entry, Trigger, by, forced, target, action, allows, find, construct,
  merge, act, enter, transition, set_state, update_context, subscribe, unsubscribe, reset,
}

-- A call of one of the methods that change the machine, with its arguments.
pub data Call (State Event Context : Type 0) : Type 0 where
  fire : Event → Option (Context → Context) → ℕ → Call State Event Context
  force : State → Option (Context → Context) → ℕ → Call State Event Context
  update : (Context → Context) → Call State Event Context
  listen : ℕ → Call State Event Context
  unlisten : ℕ → Call State Event Context
  restart : Option Context → Call State Event Context

-- The entries lead from `s` to `t`, each from where the one before it ended.
abbrev pub Connects : {State Event : Type 0} → State → List (Entry State Event) → State → Type 0
Connects s [] t = s ≡ t
Connects s (h ∷ hs) t = (h.from ≡ s) × Connects h.to hs t

Connects-snoc :
    {State Event : Type 0} (s : State) (hs : List (Entry State Event)) {t : State}
    (h : Entry State Event)
    → Connects s hs t
    → h.from ≡ t
    → Connects s (hs ++ h ∷ []) h.to
Connects-snoc s [] h c e = (cc, refl)
Connects-snoc s (k ∷ hs) h (p, c) e = (p, Connects-snoc k.to hs h c e)

module _ {State Event Context : Type 0} (dec : Discrete Event)
    (config : Config State Event Context) where
  -- An entry that names an event follows a transition of the configuration.
  abbrev pub Configured : Trigger Event → State → State → Type 0
  Configured forced s t = Unit
  Configured (by e) s t =
      (x : Transition State Context) × (find dec e (config.states s) ≡ some x) × (target x ≡ t)

  abbrev pub Follows : Entry State Event → Type 0
  Follows h = Configured h.event h.from h.to

  pub record IsTraced (m : Machine State Event Context) : Type 0 where
    pub connects : Connects config.initial m.history m.current_state
    pub follows : All Follows m.history

  unfoldable pub call :
      Machine State Event Context → Call State Event Context → Machine State Event Context
  unfolding transition set_state update_context subscribe unsubscribe reset
  call m (fire e u now) = (transition dec config m e u now).0
  call m (force s u now) = set_state s u now m
  call m (update u) = update_context u m
  call m (listen l) = subscribe l m
  call m (unlisten l) = unsubscribe l m
  call m (restart c) = reset config c m

  unfoldable pub calls :
      Machine State Event Context → List (Call State Event Context) → Machine State Event Context
  unfolding call
  calls m [] = m
  calls m (c ∷ cs) = calls (call m c) cs

  enter-IsTraced :
      (m : Machine State Event Context) (s : State) (trigger : Trigger Event) (now : ℕ)
      → IsTraced m
      → Configured trigger m.current_state s
      → IsTraced (enter s trigger now m)
  unfolding enter
  enter-IsTraced m s trigger now h c = record {
    connects = Connects-snoc config.initial m.history _ h.connects refl;
    follows = All-append Follows m.history _ h.follows (c, tt);
  }

  -- What the history says depends on the state and the history alone.
  IsTraced-of_same :
      {m n : Machine State Event Context}
      → IsTraced m
      → n.current_state ≡ m.current_state
      → n.history ≡ m.history
      → IsTraced n
  IsTraced-of_same {m} {n} h same_state same_history = record {
    connects = rw (same_state, same_history) h.connects;
    follows = rw same_history h.follows;
  }

  prepare-same :
      (x : Transition State Context) (u : Option (Context → Context))
      (m : Machine State Event Context)
      → let n = act (action x) (merge u m) in
        (n.current_state ≡ m.current_state) × (n.history ≡ m.history)
  unfolding act merge
  prepare-same x u m = ground arith

  transition-IsTraced :
      (m : Machine State Event Context) (e : Event) (u : Option (Context → Context)) (now : ℕ)
      → IsTraced m
      → IsTraced (transition dec config m e u now).0
  unfolding transition
  transition-IsTraced m e u now h =
      elim (Option-cases (find dec e (config.states m.current_state))) [
        | inl missing ↦ rw (missing, transition) h
        | inr (x, found) ↦ elim (Bool-cases (allows x m.context)) [
          | inl allowed ↦
              let n = act (action x) (merge u m) in
              let (same_state, same_history) = prepare-same x u m in
              rw (found, transition)
                (rw allowed (
                  IsTraced-of_same {m = enter (target x) (by e) now n}
                    (enter-IsTraced n (target x) (by e) now
                      (IsTraced-of_same h same_state same_history) (x, rw same_state found, refl))
                    refl refl))
          | inr refused ↦ rw (found, transition) (rw refused h)
        ]
      ]

  set_state-IsTraced :
      (m : Machine State Event Context) (s : State) (u : Option (Context → Context)) (now : ℕ)
      → IsTraced m
      → IsTraced (set_state s u now m)
  unfolding set_state
  set_state-IsTraced m s none now h =
      IsTraced-of_same (enter-IsTraced m s forced now h tt) refl refl
  set_state-IsTraced m s (some u) now h =
      IsTraced-of_same (enter-IsTraced m s forced now h tt) refl refl

  call-IsTraced :
      (m : Machine State Event Context) (c : Call State Event Context)
      → IsTraced m
      → IsTraced (call m c)
  unfolding call update_context subscribe unsubscribe reset
  call-IsTraced m (fire e u now) h = transition-IsTraced m e u now h
  call-IsTraced m (force s u now) h = set_state-IsTraced m s u now h
  call-IsTraced m (update u) h = IsTraced-of_same h refl refl
  call-IsTraced m (listen l) h = IsTraced-of_same h (ground arith) (ground arith)
  call-IsTraced m (unlisten l) h = IsTraced-of_same h refl refl
  call-IsTraced m (restart none) h = record { connects = refl; follows = tt }
  call-IsTraced m (restart (some c)) h = record { connects = refl; follows = tt }

  calls-IsTraced_from :
      (m : Machine State Event Context) (cs : List (Call State Event Context))
      → IsTraced m
      → IsTraced (calls m cs)
  unfolding calls
  calls-IsTraced_from m [] h = h
  calls-IsTraced_from m (c ∷ cs) h = calls-IsTraced_from (call m c) cs (call-IsTraced m c h)

  -- After any calls on a new machine, the recorded history leads from the configured initial state
  -- to the current state, and each entry that was not forced follows a configured transition.
  pub calls-IsTraced :
      (cs : List (Call State Event Context)) → IsTraced (calls (construct config) cs)
  unfolding construct
  calls-IsTraced cs =
      calls-IsTraced_from (construct config) cs (record { connects = refl; follows = tt })
