-- ===== src/NetworkQueue/Consistency.antt =====
-- networkQueue.ts: the flag of the loop, and the bound on attempts.
use stellar_dex_chat.Common.{
  ℕ, ◌≤◌, ◌<◌, ◌≡◌, refl, inl, inr, Bool, true, false, not, ◌||◌, Option, none, some, List, [], ◌∷◌,
  arith, ◌+◌, if◌then◌else◌, ◌==◌, any, is_some, All, All-append, Bool-cases, subst, ap, ◌∙◌,
}
use stellar_dex_chat.NetworkQueue.{
  QueuedRequest, TaskOutcome, value, failure, NetworkQueue, max_retry, retries, is_network_error,
  take_next, process_queue, put_back, finish, finish_working, task_ends, enqueue,
  with_network_read_queue, first_attempt, without, attempt_ends, QueueAction, reads, ends_attempt,
  ends_task, comes_online, perform, perform_all, empty_queue,
}

abbrev pub IsWithinRetries : QueuedRequest → Type 0
IsWithinRetries r = r.attempts ≤ max_retry

abbrev pub IsWithinWorking : Option QueuedRequest → Type 0
IsWithinWorking none = Unit
IsWithinWorking (some r) = IsWithinRetries r

-- As many loops run as the flag says, the flag is set exactly while a task of the loop is awaited, and
-- no request has more than five attempts behind it.
pub record IsConsistent (s : NetworkQueue) : Type 0 where
  pub single : s.loops ≡ (if s.processing then 1 else 0)
  pub flag : s.processing ≡ is_some s.working
  pub queued : All IsWithinRetries s.queue
  pub worked : IsWithinWorking s.working

pub retries-lt : (r : QueuedRequest) (o : TaskOutcome) → retries r o ≡ true → r.attempts < max_retry
unfolding retries
retries-lt r value h = cc
retries-lt r (failure online message) h = ground arith

-- The loop's head, once the flag is set.
take_next-IsConsistent :
    (rs : List QueuedRequest) (s : NetworkQueue)
    → s.processing ≡ true
    → s.loops ≡ 1
    → All IsWithinRetries rs
    → IsConsistent (take_next rs s)
unfolding take_next
take_next-IsConsistent [] s on one h = record {
  single = omega (arith, one);
  flag = refl;
  queued = tt;
  worked = tt;
}
take_next-IsConsistent (r ∷ rs) s on one (p, h) = record {
  single = rw on one;
  flag = on;
  queued = h;
  worked = p;
}

pub process_queue-IsConsistent :
    (online : Bool) (s : NetworkQueue) → IsConsistent s → IsConsistent (process_queue online s)
unfolding process_queue
process_queue-IsConsistent online s h = elim (Bool-cases (s.processing || not online)) [
  | inl busy ↦ rw busy h
  | inr free ↦
      let off : s.processing ≡ false = ground arith in
      let one : s.loops + 1 ≡ 1 = ground (arith, h.single, off) in
      rw free (
        take_next-IsConsistent s.queue (record s { processing = true; loops = s.loops + 1 }) refl
          one h.queued)
]

finish-IsConsistent :
    (r : QueuedRequest) (o : TaskOutcome) (s : NetworkQueue)
    → s.processing ≡ true
    → s.loops ≡ 1
    → IsWithinRetries r
    → All IsWithinRetries s.queue
    → IsConsistent (finish r o s)
unfolding finish put_back
finish-IsConsistent r o s on one p h = elim (Bool-cases (retries r o)) [
  | inl retried ↦ rw retried (record {
    single = omega (arith, one);
    flag = refl;
    queued = All-append IsWithinRetries s.queue _ h (omega (arith, retries-lt r o retried), tt);
    worked = tt;
  })
  | inr done ↦ rw done (take_next-IsConsistent s.queue _ on one h)
]

finish_working-IsConsistent :
    (w : Option QueuedRequest) (o : TaskOutcome) (s : NetworkQueue)
    → s.working ≡ w
    → IsConsistent s
    → IsConsistent (finish_working w o s)
finish_working-IsConsistent none o s e h = h
finish_working-IsConsistent (some r) o s e h =
    let on : s.processing ≡ true = h.flag ∙ ap is_some e in
    finish-IsConsistent r o s on (ground (arith, h.single, on)) (subst IsWithinWorking e h.worked)
      h.queued

pub task_ends-IsConsistent :
    (o : TaskOutcome) (s : NetworkQueue) → IsConsistent s → IsConsistent (task_ends o s)
unfolding task_ends
task_ends-IsConsistent o s h = finish_working-IsConsistent s.working o s refl h

enqueue-IsConsistent :
    (caller attempts : ℕ) (s : NetworkQueue)
    → attempts ≤ max_retry
    → IsConsistent s
    → IsConsistent (enqueue caller attempts s)
unfolding enqueue
enqueue-IsConsistent caller attempts s le h = record {
  single = h.single;
  flag = h.flag;
  queued = All-append IsWithinRetries s.queue _ h.queued (le, tt);
  worked = h.worked;
}

with_network_read_queue-IsConsistent :
    (online : Bool) (caller : ℕ) (s : NetworkQueue)
    → IsConsistent s
    → IsConsistent (with_network_read_queue online caller s)
unfolding with_network_read_queue
with_network_read_queue-IsConsistent false caller s h =
    enqueue-IsConsistent caller 0 s (omega arith) h
with_network_read_queue-IsConsistent true caller s h = record {
  single = h.single;
  flag = h.flag;
  queued = h.queued;
  worked = h.worked;
}

pub first_attempt-IsConsistent :
    (caller : ℕ) (o : TaskOutcome) (s : NetworkQueue)
    → IsConsistent s
    → IsConsistent (first_attempt caller o s)
unfolding first_attempt
first_attempt-IsConsistent caller value s h = record {
  single = h.single;
  flag = h.flag;
  queued = h.queued;
  worked = h.worked;
}
first_attempt-IsConsistent caller (failure online message) s h =
    elim (Bool-cases (is_network_error online message)) [
      | inl network ↦ rw network (enqueue-IsConsistent caller 1 s (omega arith) h)
      | inr other ↦
          rw other
            (record { single = h.single; flag = h.flag; queued = h.queued; worked = h.worked })
    ]

pub attempt_ends-IsConsistent :
    (online : Bool) (caller : ℕ) (o : TaskOutcome) (s : NetworkQueue)
    → IsConsistent s
    → IsConsistent (attempt_ends online caller o s)
unfolding attempt_ends
attempt_ends-IsConsistent online caller o s h =
    elim (Bool-cases (any (λ k. k == caller) s.attempting)) [
      | inl awaited ↦ rw awaited (
          process_queue-IsConsistent online _ (
            first_attempt-IsConsistent caller o
              (record s { attempting = without caller s.attempting })
              (record { single = h.single; flag = h.flag; queued = h.queued; worked = h.worked })))
      | inr other ↦ rw other h
    ]

pub perform-IsConsistent :
    (a : QueueAction) (s : NetworkQueue) → IsConsistent s → IsConsistent (perform a s)
unfolding perform
perform-IsConsistent (reads online caller) s h =
    with_network_read_queue-IsConsistent online caller s h
perform-IsConsistent (ends_attempt online caller o) s h =
    attempt_ends-IsConsistent online caller o s h
perform-IsConsistent (ends_task o) s h = task_ends-IsConsistent o s h
perform-IsConsistent comes_online s h = process_queue-IsConsistent true s h

pub perform_all-IsConsistent_from :
    (as' : List QueueAction) (s : NetworkQueue) → IsConsistent s → IsConsistent (perform_all as' s)
unfolding perform_all
perform_all-IsConsistent_from [] s h = h
perform_all-IsConsistent_from (a ∷ as') s h =
    perform_all-IsConsistent_from as' (perform a s) (perform-IsConsistent a s h)

-- However the reads, the ends of their tasks and the returns of the network interleave, the flag is
-- set exactly while a task of the loop is awaited, one call of the loop is in progress while it is set
-- and none while it is not, and no request is queued or worked on with more than five attempts.
pub perform_all-IsConsistent : (as' : List QueueAction) → IsConsistent (perform_all as' empty_queue)
unfolding empty_queue
perform_all-IsConsistent as' =
    perform_all-IsConsistent_from as' empty_queue
      (record { single = refl; flag = refl; queued = tt; worked = tt })
