-- ===== src/IdempotentAction/Single.antt =====
-- useIdempotentAction.ts: at most one run at a time, as long as the guard is neither reset nor unmounted.
use stellar_dex_chat.Common.{
  ℕ, ◌≡◌, ◌∙◌, refl, sym, ap, subst, Bool, String, true, false, some, List, [], ◌∷◌, ◌⊎◌, inl, inr,
  arith, str_eq, eq_iff, is_some, if◌then◌else◌, get, put, delete,
}
use stellar_dex_chat.IdempotentAction.{
  Guard, starts, shares, start, finish, execute, initial_guard, suppressed,
}
use stellar_dex_chat.IdempotentAction.Sharing.{
  Attempt, attempt, execute_split, execute_busy, started_by,
}
use stellar_dex_chat.IdempotentAction.Spacing.{Step, calls, ends, goes, perform, perform_all}

-- Calls, and ends of runs that are in flight; the component stays.
abbrev pub Happens : List Step → Guard → Type 0
Happens [] g = Unit
Happens (calls a ∷ xs) g = Happens xs (attempt a g).0
Happens (ends name ∷ xs) g =
    (is_some (get name g.in_flight_actions) ≡ true) × Happens xs (finish name g)
Happens (goes ∷ xs) g = ⊥

-- A run of the action ends.
abbrev pub ends_run : String → List Step → Bool
ends_run name [] = false
ends_run name (ends other ∷ xs) = if str_eq name other then true else ends_run name xs
ends_run name (calls a ∷ xs) = ends_run name xs
ends_run name (goes ∷ xs) = ends_run name xs

-- Nothing runs, or one run does.
abbrev IsIdle : Guard → Type 0
IsIdle g = (g.is_processing ≡ false) × (g.in_flight_actions ≡ [])

abbrev IsRunning : String → ℕ → Guard → Type 0
IsRunning name p g = (g.is_processing ≡ true) × (g.in_flight_actions ≡ (name, p) ∷ [])

abbrev IsSingle : Guard → Type 0
IsSingle g = IsIdle g ⊎ ((name : String) × (p : ℕ) × IsRunning name p g)

start-IsRunning :
    (name : String) (now : ℕ) (stamp : String) (p : ℕ) (g : Guard)
    → g.in_flight_actions ≡ []
    → IsRunning name p (start name now stamp p g)
unfolding start put
start-IsRunning name now stamp p g e = (refl, ap (put name p) e)

found_name :
    (name other : String) (p : ℕ)
    → is_some (get name ((other, p) ∷ [])) ≡ true
    → str_eq other name ≡ true
unfolding get
found_name name other p h = ground (arith, h)

finish-IsIdle :
    (name other : String) (p : ℕ) (g : Guard)
    → IsRunning other p g
    → is_some (get name g.in_flight_actions) ≡ true
    → IsIdle (finish name g)
unfolding finish delete
finish-IsIdle name other p g (busy, e) there =
    let found = found_name name other p (ap (λ m. is_some (get name m)) (sym e) ∙ there) in
    (refl, ap (delete name) e ∙ ground (arith, found))

execute-IsSingle : (a : Attempt) (g : Guard) → IsSingle g → IsSingle (attempt a g).0
execute-IsSingle a g (inr (name, p, (busy, e))) =
    subst IsSingle (sym (execute_busy a g busy)) (inr (name, p, (busy, e)))
execute-IsSingle a g (inl (idle, e)) = elim (execute_split a g) [
  | inl (q, there, same) ↦ rw same (inl (idle, e))
  | inr (inl same) ↦ rw same (inl (idle, e))
  | inr (inr (new, free, cool, same)) ↦
      rw same
        (inr (a.action_name, a.promise, start-IsRunning a.action_name a.time a.stamp a.promise g e))
]

ends-IsSingle :
    (name : String) (g : Guard)
    → is_some (get name g.in_flight_actions) ≡ true
    → IsSingle g
    → IsSingle (finish name g)
unfolding get
ends-IsSingle name g there (inr (other, p, running)) =
    inl (finish-IsIdle name other p g running there)
ends-IsSingle name g there (inl (idle, e)) =
    absurd (ground (arith, there, ap (λ m. is_some (get name m)) e))

perform_all-IsSingle :
    (xs : List Step) (g : Guard) → Happens xs g → IsSingle g → IsSingle (perform_all xs g)
unfolding perform_all perform
perform_all-IsSingle [] g h single = single
perform_all-IsSingle (calls a ∷ xs) g h single =
    perform_all-IsSingle xs (attempt a g).0 h (execute-IsSingle a g single)
perform_all-IsSingle (ends name ∷ xs) g (there, h) single =
    perform_all-IsSingle xs (finish name g) h (ends-IsSingle name g there single)
perform_all-IsSingle (goes ∷ xs) g h single = elim h [ ]

-- While the run goes on, nothing changes.
perform_all_running :
    (xs : List Step) (name : String) (p : ℕ) (g : Guard)
    → IsRunning name p g
    → Happens xs g
    → ends_run name xs ≡ false
    → perform_all xs g ≡ g
unfolding perform_all perform
perform_all_running [] name p g running h quiet = refl
perform_all_running (calls a ∷ xs) name p g (busy, e) h quiet =
    let same = execute_busy a g busy in
    ap (perform_all xs) same
    ∙ perform_all_running xs name p g (busy, e) (subst (Happens xs) same h) quiet
perform_all_running (ends other ∷ xs) name p g (busy, e) (there, h) quiet =
    let found = found_name other name p (ap (λ m. is_some (get other m)) (sym e) ∙ there) in
    absurd (ground (arith, quiet, found))
perform_all_running (goes ∷ xs) name p g running h quiet = elim h [ ]

started_idle :
    (a : Attempt) (g : Guard) (p : ℕ) → (attempt a g).1 ≡ starts p → g.is_processing ≡ false
started_idle a g p h = elim (execute_split a g) [
  | inl (q, there, e) ↦ let r : shares q ≡ starts p = ap (λ r. r.1) (sym e) ∙ h in ground arith
  | inr (inl e) ↦ let r : suppressed ≡ starts p = ap (λ r. r.1) (sym e) ∙ h in ground arith
  | inr (inr (new, idle, cool, e)) ↦ idle
]

idle_empty : (g : Guard) → IsSingle g → g.is_processing ≡ false → g.in_flight_actions ≡ []
idle_empty g (inl (idle, e)) free = e
idle_empty g (inr (name, p, (busy, e))) free = ground (arith, busy, free)

shared_while_running :
    (b : Attempt) (name : String) (p : ℕ) (g : Guard)
    → IsRunning name p g
    → b.action_name ≡ name
    → attempt b g ≡ (g, shares p)
unfolding execute get
shared_while_running b name p g (busy, e) same =
    let there : get b.action_name g.in_flight_actions ≡ some p =
      ap (λ m. get b.action_name m) e ∙ ground (arith, eq_iff name b.action_name, same) in
    rw (there, execute) refl

-- A guard is made, and calls are made and runs end; then a call starts a run. Until that run ends,
-- whatever calls of whatever actions are made, at whatever times, none starts a run or changes the
-- guard, and a call of the same action gets the promise of the run. The guard is neither reset nor
-- unmounted meanwhile or before, and an end is always that of a run in flight.
pub duplicates_shared :
    (cooldown p : ℕ) (before later : List Step) (a b : Attempt)
    → let g = perform_all before (initial_guard cooldown) in
      let started = attempt a g in
      Happens before (initial_guard cooldown)
      → started.1 ≡ starts p
      → Happens later started.0
      → ends_run a.action_name later ≡ false
      → b.action_name ≡ a.action_name
      → (perform_all later started.0 ≡ started.0)
        × (attempt b (perform_all later started.0) ≡ (started.0, shares p))
duplicates_shared cooldown p before later a b happened started goes_on quiet same =
    let g = perform_all before (initial_guard cooldown) in
    let single : IsSingle g =
      perform_all-IsSingle before (initial_guard cooldown) happened (inl (refl, refl)) in
    let empty = idle_empty g single (started_idle a g p started) in
    let (own, after) = started_by a g p started in
    let running : IsRunning a.action_name p (attempt a g).0 =
      subst (IsRunning a.action_name p) (sym after)
        (rw own (start-IsRunning a.action_name a.time a.stamp a.promise g empty)) in
    let still = perform_all_running later a.action_name p (attempt a g).0 running goes_on quiet in
    (
      still,
      ap (attempt b) still ∙ shared_while_running b a.action_name p (attempt a g).0 running same,
    )
