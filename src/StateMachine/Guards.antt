-- ===== src/StateMachine/Guards.antt =====
-- What `transition` promises against `canTransition`.
use mathlib.Core.Logic.{if_neg}
use stellar_dex_chat.Common.{
  ℕ, ◌≡◌, refl, sym, ◌↔◌, true, false, Option, none, some, List, [], ◌∷◌, map, Memᴰ, Memᴰ-filter,
  filter-Memᴰ, arith, Option-cases, inl, inr, Bool-cases,
}
use stellar_dex_chat.StateMachine.{
  Transition, Config, Machine, target, action, allows, find, can_transition, transition,
  get_valid_transitions, act, merge,
}

-- An optional change to the context.
abbrev pub apply : {Context : Type 0} → Option (Context → Context) → Context → Context
apply none c = c
apply (some f) c = f c

module _ {State Event Context : Type 0} (dec : Discrete Event)
    (config : Config State Event Context) where
  -- `transition` reports success exactly when `canTransition` answers yes.
  pub transition-can_transition :
      (m : Machine State Event Context) (e : Event) (update : Option (Context → Context)) (now : ℕ)
      → (transition dec config m e update now).1 ≡ can_transition dec config m e
  unfolding transition can_transition
  transition-can_transition m e update now = ground arith

  -- A refused transition changes nothing.
  pub transition_refused :
      (m : Machine State Event Context) (e : Event) (update : Option (Context → Context)) (now : ℕ)
      → (transition dec config m e update now).1 ≡ false
      → (transition dec config m e update now).0 ≡ m
  unfolding transition can_transition
  transition_refused m e update now h = ground arith

  act-merge_context :
      (a u : Option (Context → Context)) (m : Machine State Event Context)
      → (act a (merge u m)).context ≡ apply a (apply u m.context)
  unfolding act merge
  act-merge_context none none m = refl
  act-merge_context none (some u) m = refl
  act-merge_context (some a) none m = refl
  act-merge_context (some a) (some u) m = refl

  find-Memᴰ :
      (e : Event) (ts : List (Event × Transition State Context)) {t : Transition State Context}
      → find dec e ts ≡ some t
      → Memᴰ e (map (λ p. p.0) ts)
  unfolding find
  find-Memᴰ e [] h = cc
  find-Memᴰ e ((k, u) ∷ ts) h = elim (dec k e) [
    | yes same ↦ Memᴰ.head (sym same)
    | no other ↦ Memᴰ.tail (find-Memᴰ e ts (rw (if_neg _ other) at h))
  ]

  can_transition-find :
      (m : Machine State Event Context) (e : Event)
      → can_transition dec config m e ≡ true
      → (t : Transition State Context) × (find dec e (config.states m.current_state) ≡ some t)
  unfolding can_transition
  can_transition-find m e h = elim (Option-cases (find dec e (config.states m.current_state))) [
    | inl missing ↦ cc (rw (missing, can_transition) at h)
    | inr found ↦ found
  ]

  -- `getValidTransitions` lists an event exactly when `canTransition` answers yes for it.
  pub get_valid_transitions_iff :
      (m : Machine State Event Context) (e : Event)
      → Memᴰ e (get_valid_transitions dec config m) ↔ (can_transition dec config m e ≡ true)
  unfolding get_valid_transitions
  get_valid_transitions_iff m e = (
    λ listed. (Memᴰ-filter (can_transition dec config m) _ listed).1,
    λ h. filter-Memᴰ (can_transition dec config m) (find-Memᴰ e _ (can_transition-find m e h).1) h,
  )

  -- What an accepted transition does, with the table's entry that it followed.
  pub transition_accepted :
      (m : Machine State Event Context) (e : Event) (update : Option (Context → Context)) (now : ℕ)
      → (transition dec config m e update now).1 ≡ true
      → let n = (transition dec config m e update now).0 in
        (t : Transition State Context) × (find dec e (config.states m.current_state) ≡ some t)
        × (allows t m.context ≡ true)
        × (n.current_state ≡ target t)
        × (n.context ≡ apply (action t) (apply update m.context))
  unfolding transition
  transition_accepted m e update now h =
      elim (Option-cases (find dec e (config.states m.current_state))) [
        | inl missing ↦ cc (rw (missing, transition) at h)
        | inr (t, found) ↦ elim (Bool-cases (allows t m.context)) [
          | inl allowed ↦ (
            t,
            found,
            allowed,
            rw (found, transition) (rw allowed),
            rw (found, transition) (rw allowed (act-merge_context (action t) update m)),
          )
          | inr refused ↦ cc (rw refused at (rw (found, transition) at h))
        ]
      ]
