-- ===== src/IdempotentAction/Overlap.antt =====
-- useIdempotentAction.ts: a reset while an action runs.
use stellar_dex_chat.Common.{◌+◌, ◌≤◌, ◌≡◌, refl, arith, eq_iff, get, put, delete}
use stellar_dex_chat.IdempotentAction.{Guard, starts, start, execute, finish, reset}
use stellar_dex_chat.IdempotentAction.Sharing.{Attempt, attempt}

-- The guard after the first run was started, the guard was reset, the second was started, and the
-- first has ended.
abbrev pub reset_between : Attempt → Attempt → Guard → Guard
reset_between a b g = finish a.action_name (attempt b (reset (attempt a g).0)).0

-- A guard is reset while an action runs, and the action is started again. When the first run ends, the
-- second is forgotten though it has not ended: from its cooldown on, a call of the same action starts
-- a third run beside it.
pub reset_overlap :
    (a b c : Attempt) (g : Guard)
    → b.action_name ≡ a.action_name
    → c.action_name ≡ a.action_name
    → b.time + g.cooldown_ms ≤ c.time
    → ((attempt b (reset (attempt a g).0)).1 ≡ starts b.promise)
      × ((attempt c (reset_between a b g)).1 ≡ starts c.promise)
unfolding execute reset finish start put get delete
reset_overlap a b c g same same' later =
    (refl, ground (arith, eq_iff b.action_name a.action_name, eq_iff b.action_name c.action_name))
