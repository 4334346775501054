-- ===== src/NetworkQueue/Settling.antt =====
-- networkQueue.ts: every caller is waited for or settled, and never twice.
use stellar_dex_chat.Common.{
  ℕ, ◌+◌, ◌≡◌, refl, ◌∙◌, inl, inr, Bool, true, false, Option, none, some, List, [], ◌∷◌, ◌++◌, not,
  ◌||◌, is_some, sym, ap, arith, ◌==◌, if◌then◌else◌, any, count_if, count_if-append, Bool-cases,
}
use stellar_dex_chat.NetworkQueue.Consistency.{
  IsConsistent, perform-IsConsistent, first_attempt-IsConsistent,
}
use stellar_dex_chat.NetworkQueue.{
  QueuedRequest, TaskOutcome, value, failure, Settlement, resolved, rejected, Journal, NetworkQueue,
  retries, settlement_of, is_network_error, settle, add_toast, notify_listeners, take_next,
  process_queue, put_back, finish, finish_working, task_ends, enqueue, with_network_read_queue,
  first_attempt, without, attempt_ends, QueueAction, reads, ends_attempt, ends_task, comes_online,
  perform, perform_all, empty_queue,
}

abbrev pub one_if : Bool → ℕ
one_if b = if b then 1 else 0

-- How often the caller waits in the queue, and how often its promise was settled.
abbrev pub waiting : ℕ → List QueuedRequest → ℕ
waiting c rs = count_if (λ r. r.caller == c) rs

abbrev pub settled_times : ℕ → Journal → ℕ
settled_times c j = count_if (λ p. p.0 == c) j.settled

abbrev pub worked_on : ℕ → Option QueuedRequest → ℕ
worked_on c none = 0
worked_on c (some r) = one_if (r.caller == c)

-- The first attempts of the caller that are awaited.
abbrev pub attempts_of : ℕ → List ℕ → ℕ
attempts_of c ks = count_if (λ k. k == c) ks

abbrev pub owed : ℕ → NetworkQueue → ℕ
owed c s =
    waiting c s.queue
    + worked_on c s.working
    + attempts_of c s.attempting
    + settled_times c s.journal

-- What is owed but for the request that is worked on.
abbrev others : ℕ → NetworkQueue → ℕ
others c s = waiting c s.queue + attempts_of c s.attempting + settled_times c s.journal

settled_times-settle :
    (c caller : ℕ) (how : Settlement) (j : Journal)
    → settled_times c (settle caller how j) ≡ settled_times c j + one_if (caller == c)
unfolding settle
settled_times-settle c caller how j =
    ground (arith, count_if-append (λ p. p.0 == c) j.settled ((caller, how) ∷ []))

settled_times-add_toast :
    (c : ℕ) (o : TaskOutcome) (j : Journal) → settled_times c (add_toast o j) ≡ settled_times c j
unfolding add_toast
settled_times-add_toast c value j = refl
settled_times-add_toast c (failure online message) j = refl

module _ (c : ℕ) where
  take_next-owed :
      (rs : List QueuedRequest) (s : NetworkQueue)
      → owed c (take_next rs s)
        ≡ waiting c rs + attempts_of c s.attempting + settled_times c s.journal
  unfolding take_next notify_listeners
  take_next-owed [] s = omega arith
  take_next-owed (r ∷ rs) s = ground arith

  waiting-snoc :
      (rs : List QueuedRequest) (r : QueuedRequest)
      → waiting c (rs ++ r ∷ []) ≡ waiting c rs + one_if (r.caller == c)
  waiting-snoc rs r = ground (arith, count_if-append (λ q. q.caller == c) rs (r ∷ []))

  finish-owed :
      (r : QueuedRequest) (o : TaskOutcome) (s : NetworkQueue)
      → owed c (finish r o s) ≡ others c s + one_if (r.caller == c)
  unfolding finish put_back notify_listeners
  finish-owed r o s = elim (Bool-cases (retries r o)) [
    | inl retried ↦
        rw retried (omega (arith, waiting-snoc s.queue (record r { attempts = r.attempts + 1 })))
    | inr done ↦ rw done (
        take_next-owed s.queue
          (record s { journal = settle r.caller (settlement_of o) (add_toast o s.journal) })
        ∙ omega (
          arith,
          settled_times-settle c r.caller (settlement_of o) (add_toast o s.journal),
          settled_times-add_toast c o s.journal,
        ))
  ]

  finish_working-owed :
      (w : Option QueuedRequest) (o : TaskOutcome) (s : NetworkQueue)
      → s.working ≡ w
      → owed c (finish_working w o s) ≡ others c s + worked_on c w
  finish_working-owed none o s e = omega (arith, ap (worked_on c) e)
  finish_working-owed (some r) o s e = finish-owed r o s

  task_ends-owed : (o : TaskOutcome) (s : NetworkQueue) → owed c (task_ends o s) ≡ owed c s
  unfolding task_ends
  task_ends-owed o s = finish_working-owed s.working o s refl ∙ omega arith

  worked_on_none : (w : Option QueuedRequest) → false ≡ is_some w → worked_on c w ≡ 0
  worked_on_none none e = refl
  worked_on_none (some r) e = absurd (cc e)

  process_queue-owed :
      (online : Bool) (s : NetworkQueue)
      → IsConsistent s
      → owed c (process_queue online s) ≡ owed c s
  unfolding process_queue
  process_queue-owed online s h = elim (Bool-cases (s.processing || not online)) [
    | inl busy ↦ rw busy refl
    | inr free ↦
        let off : s.processing ≡ false = ground arith in
        rw free (
          take_next-owed s.queue (record s { processing = true; loops = s.loops + 1 })
          ∙ omega (arith, worked_on_none s.working (sym off ∙ h.flag)))
  ]

  enqueue-owed :
      (caller attempts : ℕ) (s : NetworkQueue)
      → owed c (enqueue caller attempts s) ≡ owed c s + one_if (caller == c)
  unfolding enqueue notify_listeners
  enqueue-owed caller attempts s = omega (
    arith,
    waiting-snoc s.queue (record { id = s.next_id; caller = caller; attempts = attempts }),
  )

  with_network_read_queue-owed :
      (online : Bool) (caller : ℕ) (s : NetworkQueue)
      → owed c (with_network_read_queue online caller s) ≡ owed c s + one_if (caller == c)
  unfolding with_network_read_queue
  with_network_read_queue-owed false caller s = enqueue-owed caller 0 s
  with_network_read_queue-owed true caller s =
      ground (arith, count_if-append (λ k. k == c) s.attempting (caller ∷ []))

  first_attempt-owed :
      (caller : ℕ) (o : TaskOutcome) (s : NetworkQueue)
      → owed c (first_attempt caller o s) ≡ owed c s + one_if (caller == c)
  unfolding first_attempt
  first_attempt-owed caller value s =
      omega (arith, settled_times-settle c caller resolved s.journal)
  first_attempt-owed caller (failure online message) s =
      elim (Bool-cases (is_network_error online message)) [
        | inl network ↦ rw network (enqueue-owed caller 1 s)
        | inr other ↦ rw other (omega (arith, settled_times-settle c caller rejected s.journal))
      ]

  attempts_of-without :
      (caller : ℕ) (ks : List ℕ)
      → any (λ k. k == caller) ks ≡ true
      → attempts_of c (without caller ks) + one_if (caller == c) ≡ attempts_of c ks
  attempts_of-without caller [] h = absurd (cc h)
  attempts_of-without caller (k ∷ ks) h = ground (arith, attempts_of-without caller ks)

  attempt_ends-owed :
      (online : Bool) (caller : ℕ) (o : TaskOutcome) (s : NetworkQueue)
      → IsConsistent s
      → owed c (attempt_ends online caller o s) ≡ owed c s
  unfolding attempt_ends
  attempt_ends-owed online caller o s h =
      let left : NetworkQueue = record s { attempting = without caller s.attempting } in
      elim (Bool-cases (any (λ k. k == caller) s.attempting)) [
        | inl awaited ↦ rw awaited (
            process_queue-owed online (first_attempt caller o left) (
              first_attempt-IsConsistent caller o left
                (record { single = h.single; flag = h.flag; queued = h.queued; worked = h.worked }))
            ∙ first_attempt-owed caller o left
            ∙ omega (arith, attempts_of-without caller s.attempting awaited))
        | inr other ↦ rw other refl
      ]

-- Whether the action is the caller's asking for a read.
abbrev pub calls_of : ℕ → QueueAction → Bool
calls_of c (reads online caller) = caller == c
calls_of c _ = false

perform-owed :
    (c : ℕ) (a : QueueAction) (s : NetworkQueue)
    → IsConsistent s
    → owed c (perform a s) ≡ owed c s + one_if (calls_of c a)
unfolding perform
perform-owed c (reads online caller) s h = with_network_read_queue-owed c online caller s
perform-owed c (ends_attempt online caller o) s h =
    attempt_ends-owed c online caller o s h ∙ omega arith
perform-owed c (ends_task o) s h = task_ends-owed c o s ∙ omega arith
perform-owed c comes_online s h = process_queue-owed c true s h ∙ omega arith

perform_all-owed :
    (c : ℕ) (as' : List QueueAction) (s : NetworkQueue)
    → IsConsistent s
    → owed c (perform_all as' s) ≡ owed c s + count_if (calls_of c) as'
unfolding perform_all
perform_all-owed c [] s h = omega arith
perform_all-owed c (a ∷ as') s h =
    ground (
      arith,
      perform_all-owed c as' (perform a s) (perform-IsConsistent a s h),
      perform-owed c a s h,
    )

-- However the reads, the ends of their tasks and the returns of the network interleave, each caller
-- waits in the queue, is worked on, is at its first attempt or has been settled exactly as often,
-- taken together, as it has asked for a read.
pub owed_exactly :
    (c : ℕ) (as' : List QueueAction)
    → owed c (perform_all as' empty_queue) ≡ count_if (calls_of c) as'
unfolding empty_queue
owed_exactly c as' =
    perform_all-owed c as' empty_queue
      (record { single = refl; flag = refl; queued = tt; worked = tt })
    ∙ omega arith
