-- ===== src/IdempotentAction/Spacing.antt =====
-- useIdempotentAction.ts: the time between two runs, as long as the guard is not reset.
use stellar_dex_chat.Common.{
  ℕ, ◌+◌, ◌≤◌, ◌≡◌, refl, sym, subst, String, false, Option, none, some, List, [], ◌∷◌, ◌++◌, inl,
  inr, arith, some_injective,
}
use stellar_dex_chat.IdempotentAction.{
  Run, Guard, is_cooling, start, finish, unmount, initial_guard,
}
use stellar_dex_chat.IdempotentAction.Sharing.{Attempt, attempt, execute_split}

-- What happens to a guard: a call, the end of a run of that name, or the component goes.
pub data Step : Type 0 where
  calls : Attempt → Step
  ends : String → Step
  goes : Step

unfoldable pub perform : Step → Guard → Guard
perform (calls a) g = (attempt a g).0
perform (ends name) g = finish name g
perform goes g = unmount g

unfoldable pub perform_all : List Step → Guard → Guard
perform_all [] g = g
perform_all (x ∷ xs) g = perform_all xs (perform x g)

-- Each run starts at least the cooldown after the one before it.
abbrev pub Apart : ℕ → List Run → Type 0
Apart cooldown [] = Unit
Apart cooldown (r ∷ []) = Unit
Apart cooldown (r ∷ q ∷ rs) = (r.started + cooldown ≤ q.started) × Apart cooldown (q ∷ rs)

-- The last run is the one whose start is remembered.
abbrev LastAt : Option ℕ → List Run → Type 0
LastAt last [] = Unit
LastAt last (r ∷ []) = last ≡ some r.started
LastAt last (r ∷ q ∷ rs) = LastAt last (q ∷ rs)

Apart-append_one :
    (cooldown last : ℕ) (rs : List Run) (r : Run)
    → LastAt (some last) rs
    → last + cooldown ≤ r.started
    → Apart cooldown rs
    → Apart cooldown (rs ++ r ∷ [])
Apart-append_one cooldown last [] r at later h = tt
Apart-append_one cooldown last (q ∷ []) r at later h =
    (let e : last ≡ q.started = some_injective at in omega (arith, e), tt)
Apart-append_one cooldown last (q ∷ p ∷ rs) r at later (gap, h) =
    (gap, Apart-append_one cooldown last (p ∷ rs) r at later h)

none_last : (r : Run) (rs : List Run) → LastAt none (r ∷ rs) → ⊥
none_last r [] at = ground arith
none_last r (q ∷ rs) at = none_last q rs at

LastAt-append_one : (rs : List Run) (r : Run) → LastAt (some r.started) (rs ++ r ∷ [])
LastAt-append_one [] r = refl
LastAt-append_one (q ∷ []) r = refl
LastAt-append_one (q ∷ p ∷ rs) r = LastAt-append_one (p ∷ rs) r

Apart-start :
    (last : Option ℕ) (cooldown c : ℕ) (rs : List Run) (r : Run)
    → is_cooling c last r.started ≡ false
    → c ≡ cooldown
    → LastAt last rs
    → Apart cooldown rs
    → Apart cooldown (rs ++ r ∷ [])
Apart-start none cooldown c [] r cool same at h = tt
Apart-start none cooldown c (q ∷ rs) r cool same at h = absurd (none_last q rs at)
Apart-start (some last) cooldown c rs r cool same at h =
    Apart-append_one cooldown last rs r at (ground arith) h

abbrev IsKept : ℕ → Guard → Type 0
IsKept cooldown g =
    (g.cooldown_ms ≡ cooldown) × Apart cooldown g.runs × LastAt g.last_execution_time g.runs

start-IsKept :
    (cooldown : ℕ) (name : String) (now : ℕ) (stamp : String) (promise : ℕ) (g : Guard)
    → is_cooling g.cooldown_ms g.last_execution_time now ≡ false
    → IsKept cooldown g
    → IsKept cooldown (start name now stamp promise g)
unfolding start
start-IsKept cooldown name now stamp promise g cool (same, apart, last) = (
  same,
  Apart-start g.last_execution_time cooldown g.cooldown_ms g.runs _ cool same last apart,
  LastAt-append_one g.runs _,
)

perform-IsKept :
    (cooldown : ℕ) (x : Step) (g : Guard) → IsKept cooldown g → IsKept cooldown (perform x g)
unfolding perform finish unmount
perform-IsKept cooldown (ends name) g kept = kept
perform-IsKept cooldown goes g kept = kept
perform-IsKept cooldown (calls a) g kept = elim (execute_split a g) [
  | inl (q, there, e) ↦ subst (λ r. IsKept cooldown r.0) (sym e) kept
  | inr (inl e) ↦ subst (λ r. IsKept cooldown r.0) (sym e) kept
  | inr (inr (new, idle, cool, e)) ↦
      subst (λ r. IsKept cooldown r.0) (sym e)
        (start-IsKept cooldown a.action_name a.time a.stamp a.promise g cool kept)
]

perform_all-IsKept :
    (cooldown : ℕ) (xs : List Step) (g : Guard)
    → IsKept cooldown g
    → IsKept cooldown (perform_all xs g)
unfolding perform_all
perform_all-IsKept cooldown [] g kept = kept
perform_all-IsKept cooldown (x ∷ xs) g kept =
    perform_all-IsKept cooldown xs _ (perform-IsKept cooldown x g kept)

-- Whatever calls are made of whatever actions, and whenever runs end, two runs in a row start at least
-- the cooldown apart, as long as the guard is not reset.
pub perform_all-Apart :
    (cooldown : ℕ) (xs : List Step) → Apart cooldown (perform_all xs (initial_guard cooldown)).runs
perform_all-Apart cooldown xs =
    (perform_all-IsKept cooldown xs (initial_guard cooldown) (refl, tt, tt)).1
