-- ===== src/Chat/Flow.antt =====
-- chatStateMachine.ts: how a transaction is reached, and that no state is a dead end.
use stellar_dex_chat.Common.{
  ℕ, ◌≡◌, sym, ◌≢◌, refl, ◌∙◌, ap, inl, inr, true, false, Option, some, List, [], ◌∷◌, Memᴰ, All,
  arith, Bool-cases,
}
use stellar_dex_chat.StateMachine.{Entry, forced, by, Trigger, target, allows, find, construct}
use stellar_dex_chat.StateMachine.Guards.{transition_accepted}
use stellar_dex_chat.StateMachine.History.{calls, Connects, Follows, Configured, calls-IsTraced}
use stellar_dex_chat.Chat.{
  ChatState, ChatEvent, ChatEvent-discrete, ChatMachineContext, ChatTransition, chat_states,
  ChatMachine, chat_config, chat_transition, ready_for_transaction, uninitialized, analyzing,
  trigger_transaction, can_trigger_transaction, has_transaction_data,
}
use stellar_dex_chat.Chat.Cancel.{committed, ChatCall}

edge-ready :
    (s : ChatState) (e : ChatEvent) (t : ChatTransition)
    → find ChatEvent-discrete e (chat_states s) ≡ some t
    → target t ≡ ready_for_transaction
    → (s ≡ analyzing) × (e ≡ trigger_transaction)
unfolding find ChatEvent-discrete chat_states
edge-ready analyzing e t found to = ground arith
edge-ready _ e t found to = ground arith

trigger-guard :
    (c : ChatMachineContext) (t : ChatTransition)
    → find ChatEvent-discrete trigger_transaction (chat_states analyzing) ≡ some t
    → allows t c ≡ true
    → can_trigger_transaction c ≡ true
unfolding find ChatEvent-discrete chat_states
trigger-guard c t found allowed = ground arith

can_trigger_lem :
    (c : ChatMachineContext)
    → can_trigger_transaction c ≡ true
    → (has_transaction_data c ≡ true) × (c.has_user_cancelled ≡ false)
unfolding can_trigger_transaction
can_trigger_lem c h = ground arith

edge-commit :
    (s : ChatState) (e : ChatEvent) (t : ChatTransition)
    → find ChatEvent-discrete e (chat_states s) ≡ some t
    → committed s ≡ false
    → committed (target t) ≡ true
    → (s ≡ analyzing) × (e ≡ trigger_transaction) × (target t ≡ ready_for_transaction)
unfolding find ChatEvent-discrete chat_states
edge-commit analyzing e t found away to = ground arith
edge-commit _ e t found away to = ground arith

-- The machine after some calls on a new one.
abbrev pub chat_calls : ℕ → List ChatCall → ChatMachine
chat_calls created cs =
    calls ChatEvent-discrete (chat_config created) (construct (chat_config created)) cs

abbrev pub ChatEntry : Type 0
ChatEntry = Entry ChatState ChatEvent

abbrev pub PassesReady : List ChatEntry → Type 0
PassesReady hs =
    (h : ChatEntry) × Memᴰ h hs
    × (h.from ≡ analyzing)
    × (h.event ≡ by trigger_transaction)
    × (h.to ≡ ready_for_transaction)

module _ (created : ℕ) where
  -- A transition into READY_FOR_TRANSACTION leaves ANALYZING by TRIGGER_TRANSACTION, and before it
  -- the context held a token, an amount or a fiat amount and the user had not cancelled.
  pub ready_needs_data :
      (m : ChatMachine) (e : ChatEvent) (u : Option (ChatMachineContext → ChatMachineContext))
      (now : ℕ)
      → (chat_transition created m e u now).1 ≡ true
      → (chat_transition created m e u now).0.current_state ≡ ready_for_transaction
      → (m.current_state ≡ analyzing)
        × (e ≡ trigger_transaction)
        × (has_transaction_data m.context ≡ true)
        × (m.context.has_user_cancelled ≡ false)
  unfolding chat_transition
  ready_needs_data m e u now done to =
      let (t, found, allowed, state, _) =
        transition_accepted ChatEvent-discrete (chat_config created) m e u now done in
      let (from, event) = edge-ready m.current_state e t found (sym state ∙ to) in
      let (data_there, flag) =
        can_trigger_lem m.context
          (trigger-guard m.context t (rw (← from, ← event) found) allowed) in
      (from, event, data_there, flag)

  -- Only the edge from ANALYZING to READY_FOR_TRANSACTION enters the committed states.
  entry-commits :
      (trigger : Trigger ChatEvent) (s t : ChatState)
      → Configured ChatEvent-discrete (chat_config created) trigger s t
      → trigger ≢ forced
      → committed s ≡ false
      → committed t ≡ true
      → (s ≡ analyzing) × (trigger ≡ by trigger_transaction) × (t ≡ ready_for_transaction)
  entry-commits forced s t f free away to = absurd (free refl)
  entry-commits (by e) s t (x, found, same) free away to =
      let (from, event, ready) = edge-commit s e x found away (rw same to) in
      (from, rw event, sym same ∙ ready)

  path-commits :
      (s : ChatState) (hs : List ChatEntry) (t : ChatState)
      → Connects s hs t
      → All (Follows ChatEvent-discrete (chat_config created)) hs
      → All (λ h. h.event ≢ forced) hs
      → committed s ≡ false
      → committed t ≡ true
      → PassesReady hs
  path-commits s [] t c f free away to = cc (ap committed c)
  path-commits s (h ∷ hs) t (from, c) (f, fs) (free, frees) away to =
      elim (Bool-cases (committed h.to)) [
        | inl enters ↦
            let (a, b, d) = entry-commits h.event h.from h.to f free (rw from away) enters in
            (h, Memᴰ.head refl, a, b, d)
        | inr stays ↦
            let (k, listed, a, b, d) = path-commits h.to hs t c fs frees stays to in
            (k, Memᴰ.tail listed, a, b, d)
      ]

  -- If any calls on a new machine lead to READY_FOR_TRANSACTION or TRANSACTION_TRIGGERED and the
  -- recorded history holds no forced state, it holds an entry from ANALYZING to
  -- READY_FOR_TRANSACTION by TRIGGER_TRANSACTION.
  pub committed-PassesReady :
      (cs : List ChatCall)
      → All (λ h. h.event ≢ forced) (chat_calls created cs).history
      → committed (chat_calls created cs).current_state ≡ true
      → PassesReady (chat_calls created cs).history
  committed-PassesReady cs free to =
      let traced = calls-IsTraced ChatEvent-discrete (chat_config created) cs in
      path-commits uninitialized _ _ traced.connects traced.follows free refl to
