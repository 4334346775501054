-- ===== src/Chat/Cancel.antt =====
-- chatStateMachine.ts: what a cancelled conversation can still do.
use stellar_dex_chat.Common.{
  ℕ, ◌≡◌, ◌∙◌, refl, inl, inr, Bool, true, false, Option, none, some, List, [], ◌∷◌, All, arith,
  Bool-cases,
}
use stellar_dex_chat.StateMachine.{
  target, action, allows, find, transition, update_context, subscribe, unsubscribe,
}
use stellar_dex_chat.StateMachine.History.{
  Call, fire, force, update, listen, unlisten, restart, call, calls,
}
use stellar_dex_chat.StateMachine.Guards.{apply, transition_accepted, transition_refused}
use stellar_dex_chat.Chat.{
  ChatState, ChatEvent, ChatEvent-discrete, ChatMachineContext, ChatTransition, chat_states,
  ChatMachine, chat_config, chat_transition, ready_for_transaction, transaction_triggered,
  initialize_session, clear_chat, reset_flow, cancelled, cancel_flow,
}

-- The events whose actions clear the flag.
abbrev pub clears : ChatEvent → Bool
clears initialize_session = true
clears clear_chat = true
clears reset_flow = true
clears _ = false

abbrev pub committed : ChatState → Bool
committed ready_for_transaction = true
committed transaction_triggered = true
committed _ = false

-- Along an edge that does not clear the flag, a cancelled context stays out of the committed states.
edge-blocked :
    (s : ChatState) (e : ChatEvent) (c d : ChatMachineContext) (t : ChatTransition)
    → find ChatEvent-discrete e (chat_states s) ≡ some t
    → allows t c ≡ true
    → clears e ≡ false
    → committed s ≡ false
    → c.has_user_cancelled ≡ true
    → d.has_user_cancelled ≡ true
    → (committed (target t) ≡ false) × ((apply (action t) d).has_user_cancelled ≡ true)
unfolding find ChatEvent-discrete chat_states
edge-blocked s e c d t found allowed kept away flag flag' = ground arith

cancel-edge :
    (s : ChatState) (c : ChatMachineContext) (t : ChatTransition)
    → find ChatEvent-discrete cancel_flow (chat_states s) ≡ some t
    → (target t ≡ cancelled) × ((apply (action t) c).has_user_cancelled ≡ true)
unfolding find ChatEvent-discrete chat_states
cancel-edge s c t found = ground arith

abbrev pub ChatCall : Type 0
ChatCall = Call ChatState ChatEvent ChatMachineContext

-- A context update that leaves the flag alone.
abbrev pub KeepsFlag : Option (ChatMachineContext → ChatMachineContext) → Type 0
KeepsFlag none = Unit
KeepsFlag (some u) = (c : ChatMachineContext) → (u c).has_user_cancelled ≡ c.has_user_cancelled

-- The calls that the hooks make without starting over: no forced state, no reset, no event that
-- clears the flag, and updates that leave it alone.
abbrev pub CarriesOn : ChatCall → Type 0
CarriesOn (fire e u now) = (clears e ≡ false) × KeepsFlag u
CarriesOn (force s u now) = ⊥
CarriesOn (update u) = KeepsFlag (some u)
CarriesOn (listen l) = Unit
CarriesOn (unlisten l) = Unit
CarriesOn (restart c) = ⊥

pub record IsBlocked (m : ChatMachine) : Type 0 where
  pub flagged : m.context.has_user_cancelled ≡ true
  pub away : committed m.current_state ≡ false

keeps_flag :
    (u : Option (ChatMachineContext → ChatMachineContext)) (c : ChatMachineContext)
    → KeepsFlag u
    → c.has_user_cancelled ≡ true
    → (apply u c).has_user_cancelled ≡ true
keeps_flag none c k h = h
keeps_flag (some u) c k h = k c ∙ h

module _ (created : ℕ) where
  chat_transition-IsBlocked :
      (m : ChatMachine) (e : ChatEvent) (u : Option (ChatMachineContext → ChatMachineContext))
      (now : ℕ)
      → clears e ≡ false
      → KeepsFlag u
      → IsBlocked m
      → IsBlocked (chat_transition created m e u now).0
  unfolding chat_transition
  chat_transition-IsBlocked m e u now kept k b =
      elim (Bool-cases (transition ChatEvent-discrete (chat_config created) m e u now).1) [
        | inl done ↦
            let (t, found, allowed, state, context) =
              transition_accepted ChatEvent-discrete (chat_config created) m e u now done in
            let (away, flag) =
              edge-blocked m.current_state e m.context (apply u m.context) t found allowed kept
                b.away b.flagged (keeps_flag u m.context k b.flagged) in
            record { flagged = rw context flag; away = rw state away }
        | inr refused ↦
            rw (transition_refused ChatEvent-discrete (chat_config created) m e u now refused) b
      ]

  call-IsBlocked :
      (m : ChatMachine) (c : ChatCall)
      → CarriesOn c
      → IsBlocked m
      → IsBlocked (call ChatEvent-discrete (chat_config created) m c)
  unfolding call update_context subscribe unsubscribe chat_transition
  call-IsBlocked m (fire e u now) (kept, k) b = chat_transition-IsBlocked m e u now kept k b
  call-IsBlocked m (force s u now) k b = absurd k
  call-IsBlocked m (update u) k b = record { flagged = k m.context ∙ b.flagged; away = b.away }
  call-IsBlocked m (listen l) k b = ground arith
  call-IsBlocked m (unlisten l) k b = record { flagged = b.flagged; away = b.away }
  call-IsBlocked m (restart c) k b = absurd k

  calls-IsBlocked :
      (m : ChatMachine) (cs : List ChatCall)
      → All CarriesOn cs
      → IsBlocked m
      → IsBlocked (calls ChatEvent-discrete (chat_config created) m cs)
  unfolding calls
  calls-IsBlocked m [] k b = b
  calls-IsBlocked m (c ∷ cs) (k, ks) b =
      calls-IsBlocked (call ChatEvent-discrete (chat_config created) m c) cs ks
        (call-IsBlocked m c k b)

  cancel_flow-IsBlocked :
      (m : ChatMachine) (now : ℕ)
      → (chat_transition created m cancel_flow none now).1 ≡ true
      → IsBlocked (chat_transition created m cancel_flow none now).0
  unfolding chat_transition
  cancel_flow-IsBlocked m now done =
      let (t, found, allowed, state, context) =
        transition_accepted ChatEvent-discrete (chat_config created) m cancel_flow none now done in
      let (to, flag) = cancel-edge m.current_state m.context t found in
      record { flagged = rw context flag; away = rw (state, to) refl }

  -- Once `CANCEL_FLOW` has been accepted, no later calls reach READY_FOR_TRANSACTION or
  -- TRANSACTION_TRIGGERED, and the flag stays set, unless INITIALIZE_SESSION, CLEAR_CHAT or
  -- RESET_FLOW is fired, a state is forced, the machine is reset, or an update writes the flag.
  pub cancel_blocks :
      (m : ChatMachine) (now : ℕ) (cs : List ChatCall)
      → (chat_transition created m cancel_flow none now).1 ≡ true
      → All CarriesOn cs
      → IsBlocked (
          calls ChatEvent-discrete
            (chat_config created)
            (chat_transition created m cancel_flow none now).0
            cs)
  cancel_blocks m now cs done k = calls-IsBlocked _ cs k (cancel_flow-IsBlocked m now done)
