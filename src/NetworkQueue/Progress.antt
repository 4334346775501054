-- ===== src/NetworkQueue/Progress.antt =====
-- networkQueue.ts: that the queue is worked off.
use stellar_dex_chat.Common.{
  ℕ, zero, suc, ◌+◌, ◌-◌, ◌≤◌, ◌≡◌, refl, sym, ◌∙◌, ap, inl, inr, Bool, true, false, not, ◌||◌,
  is_some, Option, none, some, List, [], ◌∷◌, ◌++◌, arith, All, Bool-cases,
}
use stellar_dex_chat.NetworkQueue.{
  QueuedRequest, TaskOutcome, NetworkQueue, max_retry, retries, settlement_of, settle, add_toast,
  take_next, process_queue, put_back, finish, finish_working, task_ends,
}
use stellar_dex_chat.NetworkQueue.Consistency.{
  IsWithinRetries, IsWithinWorking, IsConsistent, retries-lt, process_queue-IsConsistent,
  task_ends-IsConsistent,
}

-- How many attempts the queue can still make, with one more for each request.
abbrev pub attempts_left : List QueuedRequest → ℕ
attempts_left [] = 0
attempts_left (r ∷ rs) = suc max_retry - r.attempts + attempts_left rs

abbrev pub left_of : Option QueuedRequest → ℕ
left_of none = 0
left_of (some r) = suc max_retry - r.attempts

-- The same for the whole state.
abbrev pub work_left : NetworkQueue → ℕ
work_left s = left_of s.working + attempts_left s.queue

attempts_left-append :
    (rs qs : List QueuedRequest) → attempts_left (rs ++ qs) ≡ attempts_left rs + attempts_left qs
attempts_left-append [] qs = omega arith
attempts_left-append (r ∷ rs) qs = omega (arith, attempts_left-append rs qs)

take_next-work_left :
    (rs : List QueuedRequest) (s : NetworkQueue) → work_left (take_next rs s) ≡ attempts_left rs
unfolding take_next
take_next-work_left [] s = omega arith
take_next-work_left (r ∷ rs) s = refl

left_of_none : (w : Option QueuedRequest) → false ≡ is_some w → left_of w ≡ 0
left_of_none none e = refl
left_of_none (some r) e = absurd (cc e)

process_queue-work_left :
    (online : Bool) (s : NetworkQueue)
    → IsConsistent s
    → work_left (process_queue online s) ≡ work_left s
unfolding process_queue
process_queue-work_left online s h = elim (Bool-cases (s.processing || not online)) [
  | inl busy ↦ rw busy refl
  | inr free ↦
      let off : s.processing ≡ false = ground arith in
      rw free (
        take_next-work_left s.queue (record s { processing = true; loops = s.loops + 1 })
        ∙ omega (arith, left_of_none s.working (sym off ∙ h.flag)))
]

-- The end of a task uses up an attempt.
finish-work_left :
    (r : QueuedRequest) (o : TaskOutcome) (s : NetworkQueue)
    → IsWithinRetries r
    → work_left (finish r o s) + 1 ≤ left_of (some r) + attempts_left s.queue
unfolding finish put_back
finish-work_left r o s h = elim (Bool-cases (retries r o)) [
  | inl retried ↦ rw retried (
      omega (
        arith,
        attempts_left-append s.queue (record r { attempts = r.attempts + 1 } ∷ []),
        retries-lt r o retried,
      ))
  | inr done ↦ rw done (
      omega (
        arith,
        take_next-work_left s.queue
            (record s { journal = settle r.caller (settlement_of o) (add_toast o s.journal) }),
      ))
]

finish_working-work_left :
    (w : Option QueuedRequest) (o : TaskOutcome) (s : NetworkQueue)
    → s.working ≡ w
    → IsWithinWorking w
    → is_some w ≡ true
    → work_left (finish_working w o s) + 1 ≤ left_of w + attempts_left s.queue
finish_working-work_left none o s e h there = absurd (cc there)
finish_working-work_left (some r) o s e h there = finish-work_left r o s h

finish_working_idle :
    (w : Option QueuedRequest) (o : TaskOutcome) (s : NetworkQueue)
    → is_some w ≡ false
    → finish_working w o s ≡ s
finish_working_idle none o s e = refl
finish_working_idle (some r) o s e = absurd (cc e)

take_next_idle :
    (rs : List QueuedRequest) (s : NetworkQueue)
    → is_some (take_next rs s).working ≡ false
    → attempts_left rs ≡ 0
unfolding take_next
take_next_idle [] s e = refl
take_next_idle (r ∷ rs) s e = absurd (cc e)

-- With the network up the loop works on a request, unless nothing was left.
process_queue_idle :
    (s : NetworkQueue)
    → IsConsistent s
    → is_some (process_queue true s).working ≡ false
    → work_left (process_queue true s) ≡ 0
unfolding process_queue
process_queue_idle s h e = elim (Bool-cases (s.processing || false)) [
  | inl busy ↦
      let on : s.processing ≡ true = ground arith in absurd (cc (sym on ∙ h.flag ∙ (rw busy at e)))
  | inr free ↦ rw free (
      take_next-work_left s.queue (record s { processing = true; loops = s.loops + 1 })
      ∙ take_next_idle s.queue (record s { processing = true; loops = s.loops + 1 }) (rw free at e))
]

round-work_left :
    (o : TaskOutcome) (s : NetworkQueue)
    → IsConsistent s
    → work_left (task_ends o (process_queue true s)) ≤ work_left s - 1
unfolding task_ends
round-work_left o s h =
    let p : NetworkQueue = process_queue true s in
    let k : IsConsistent p = process_queue-IsConsistent true s h in
    let same : work_left p ≡ work_left s = process_queue-work_left true s h in
    elim (Bool-cases (is_some p.working)) [
      | inl works ↦ omega (arith, finish_working-work_left p.working o p refl k.worked works)
      | inr idle ↦ omega (
        arith,
        ap work_left (finish_working_idle p.working o p idle),
        process_queue_idle s h idle,
      )
    ]

-- The network is back, and the task of the loop ends, again and again.
unfoldable pub process_rounds : (ℕ → TaskOutcome) → ℕ → NetworkQueue → NetworkQueue
process_rounds ends zero s = s
process_rounds ends (suc n) s = process_rounds ends n (task_ends (ends n) (process_queue true s))

attempts_left_nil :
    (rs : List QueuedRequest) → All IsWithinRetries rs → attempts_left rs ≡ 0 → rs ≡ []
attempts_left_nil [] h e = refl
attempts_left_nil (r ∷ rs) (p, h) e = absurd (omega arith)

left_of_zero : (w : Option QueuedRequest) → IsWithinWorking w → left_of w ≡ 0 → w ≡ none
left_of_zero none h e = refl
left_of_zero (some r) h e = absurd (omega arith)

-- However the tasks end, as many rounds as there are attempts left, in each of which the network is
-- back and the task that the loop awaits ends, leave no request in the queue and none worked on.
pub process_rounds_empty :
    (ends : ℕ → TaskOutcome) (n : ℕ) (s : NetworkQueue)
    → IsConsistent s
    → work_left s ≤ n
    → ((process_rounds ends n s).queue ≡ []) × ((process_rounds ends n s).working ≡ none)
unfolding process_rounds
process_rounds_empty ends zero s h e = (
  attempts_left_nil s.queue h.queued (omega arith),
  left_of_zero s.working h.worked (omega arith),
)
process_rounds_empty ends (suc n) s h e =
    process_rounds_empty ends n (task_ends (ends n) (process_queue true s))
      (task_ends-IsConsistent (ends n) (process_queue true s) (process_queue-IsConsistent true s h))
      (omega (arith, round-work_left (ends n) s h))
