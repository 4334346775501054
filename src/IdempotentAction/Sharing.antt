-- ===== src/IdempotentAction/Sharing.antt =====
-- useIdempotentAction.ts: calls while an action runs.
use stellar_dex_chat.Common.{
  ℕ, ◌≡◌, ◌∙◌, refl, sym, ap, Bool, String, true, false, none, some, ◌⊎◌, inl, inr, arith, ◌||◌,
  Bool-cases, Option-cases, get,
}
use stellar_dex_chat.IdempotentAction.{
  Guard, Result, starts, shares, suppressed, is_cooling, start, execute,
}

-- A call: the name of its action, its time, the rest of its key, and its promise if it runs.
pub record Attempt : Type 0 where
  pub action_name : String
  pub time : ℕ
  pub stamp : String
  pub promise : ℕ

abbrev pub attempt : Attempt → Guard → Guard × Result
attempt a g = execute a.action_name a.time a.stamp a.promise g

abbrev IsShared : Attempt → Guard → Type 0
IsShared a g =
    (q : ℕ) × (get a.action_name g.in_flight_actions ≡ some q) × (attempt a g ≡ (g, shares q))

abbrev IsSuppressed : Attempt → Guard → Type 0
IsSuppressed a g = attempt a g ≡ (g, suppressed)

abbrev IsStarted : Attempt → Guard → Type 0
IsStarted a g =
    (get a.action_name g.in_flight_actions ≡ none)
    × (g.is_processing ≡ false)
    × (is_cooling g.cooldown_ms g.last_execution_time a.time ≡ false)
    × (attempt a g ≡ (start a.action_name a.time a.stamp a.promise g, starts a.promise))

or_false : (b c : Bool) → b || c ≡ false → (b ≡ false) × (c ≡ false)
or_false true c h = ground arith
or_false false c h = (refl, h)

-- A call shares a run, is suppressed, or starts a run.
pub execute_split : (a : Attempt) (g : Guard) → IsShared a g ⊎ IsSuppressed a g ⊎ IsStarted a g
unfolding execute
execute_split a g = elim (Option-cases (get a.action_name g.in_flight_actions)) [
  | inl new ↦
      let cooling = is_cooling g.cooldown_ms g.last_execution_time a.time in
      elim (Bool-cases (g.is_processing || cooling)) [
        | inl held ↦ inr (inl (rw (new, execute) (rw held refl)))
        | inr free ↦
            let (idle, cool) = or_false g.is_processing cooling free in
            inr (inr (new, idle, cool, rw (new, execute) (rw free refl)))
      ]
  | inr (q, there) ↦ inl (q, there, rw (there, execute) refl)
]

pub execute_busy : (a : Attempt) (g : Guard) → g.is_processing ≡ true → (attempt a g).0 ≡ g
execute_busy a g busy = elim (execute_split a g) [
  | inl (q, there, e) ↦ ap (λ r. r.0) e
  | inr (inl e) ↦ ap (λ r. r.0) e
  | inr (inr (new, idle, cool, e)) ↦ ground (arith, busy, idle)
]

pub started_by :
    (a : Attempt) (g : Guard) (p : ℕ)
    → (attempt a g).1 ≡ starts p
    → (p ≡ a.promise) × ((attempt a g).0 ≡ start a.action_name a.time a.stamp a.promise g)
started_by a g p h = elim (execute_split a g) [
  | inl (q, there, e) ↦ let r : shares q ≡ starts p = ap (λ r. r.1) (sym e) ∙ h in ground arith
  | inr (inl e) ↦ let r : suppressed ≡ starts p = ap (λ r. r.1) (sym e) ∙ h in ground arith
  | inr (inr (new, idle, cool, e)) ↦
      let r : starts a.promise ≡ starts p = ap (λ r. r.1) (sym e) ∙ h in (cc, ap (λ r. r.0) e)
]
