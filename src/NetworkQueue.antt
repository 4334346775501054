-- ===== src/NetworkQueue.antt =====
-- Dechat/dex_with_fiat_frontend/src/lib/networkQueue.ts: reads that wait for the network. A call's
-- promise is named by a number, its caller. Where the code awaits a task, the state says so, and how the
-- task ended enters by the action that goes on from there; other actions may come in between.
pub mod Consistency
pub mod Settling
pub mod Progress
mod Tests
use stellar_dex_chat.Common.{
  ℕ, ◌+◌, ◌-◌, String, Bool, true, false, not, ◌&&◌, ◌||◌, Option, none, some, List, [], ◌∷◌, ◌++◌,
  ltb, if◌then◌else◌, length, any, ◌==◌,
}
use stellar_dex_chat.Toasts.{ToastVariant, success, error}
use stellar_dex_chat.Common.Text.{codes, lower_codes, includes, to_lower}

pub record QueuedRequest : Type 0 where
  pub id : ℕ
  pub caller : ℕ
  pub attempts : ℕ

-- How a task ended: with a value, or with an error, which is an `Error` with a message or is not,
-- while the browser was online or was not.
pub data TaskOutcome : Type 0 where
  value : TaskOutcome
  failure : Bool → Option String → TaskOutcome

pub data Settlement : Type 0 where
  resolved rejected : Settlement

-- What the module has done: the promises that were settled, the counts that the
-- listeners were told, and the toasts that were asked for.
pub record Journal : Type 0 where
  pub settled : List (ℕ × Settlement)
  pub counts : List ℕ
  pub toasts : List (String × ToastVariant)

-- `loops` counts the calls of `processQueue` that are in their loop: begun and not returned.
-- `working` is the request whose task the loop awaits, `attempting` the callers whose first attempt is
-- awaited.
pub record NetworkQueue : Type 0 where
  pub queue : List QueuedRequest
  pub next_id : ℕ
  pub processing : Bool
  pub loops : ℕ
  pub working : Option QueuedRequest
  pub attempting : List ℕ
  pub journal : Journal

abbrev pub max_retry : ℕ
max_retry = 5

unfoldable pub mentions_network : Option String → Bool
unfolding to_lower
mentions_network none = false
mentions_network (some message) =
    let msg = lower_codes message in
    includes msg (codes "failed to fetch")
    || includes msg (codes "network request failed")
    || includes msg (codes "networkerror")
    || includes msg (codes "offline")
    || includes msg (codes "timed out")

unfoldable pub is_network_error : Bool → Option String → Bool
unfolding mentions_network
is_network_error online message = not online || mentions_network message

unfoldable pub notify_listeners : ℕ → Journal → Journal
notify_listeners count j = record j { counts = j.counts ++ count ∷ [] }

unfoldable pub settle : ℕ → Settlement → Journal → Journal
settle caller how j = record j { settled = j.settled ++ (caller, how) ∷ [] }

unfoldable pub add_toast : TaskOutcome → Journal → Journal
add_toast value j = record j { toasts = j.toasts ++ ("Message sent!", success) ∷ [] }
add_toast (failure online message) j = record j {
  toasts = j.toasts ++ ("Could not send. Please try again.", error) ∷ [];
}

-- Whether the request goes back to the end of the queue.
unfoldable pub retries : QueuedRequest → TaskOutcome → Bool
retries r value = false
retries r (failure online message) = ltb r.attempts max_retry && is_network_error online message

abbrev pub settlement_of : TaskOutcome → Settlement
settlement_of value = resolved
settlement_of (failure online message) = rejected

-- The head of the `while` loop: the next request is taken and its task is begun, or the loop ends and
-- the call returns.
unfoldable pub take_next : List QueuedRequest → NetworkQueue → NetworkQueue
unfolding notify_listeners
take_next [] s = record s { queue = []; processing = false; loops = s.loops - 1; working = none }
take_next (r ∷ rs) s = record s {
  queue = rs;
  working = some r;
  journal = notify_listeners (length rs) s.journal;
}

unfoldable pub process_queue : Bool → NetworkQueue → NetworkQueue
unfolding take_next
process_queue online s =
    if s.processing || not online
    then s
    else take_next s.queue (record s { processing = true; loops = s.loops + 1 })

-- A retry ends the loop, and the call returns.
unfoldable pub put_back : QueuedRequest → NetworkQueue → NetworkQueue
unfolding notify_listeners
put_back r s =
    let queue' = s.queue ++ record r { attempts = r.attempts + 1 } ∷ [] in
    record s {
      queue = queue';
      journal = notify_listeners (length queue') s.journal;
      processing = false;
      loops = s.loops - 1;
      working = none;
    }

unfoldable pub finish : QueuedRequest → TaskOutcome → NetworkQueue → NetworkQueue
unfolding put_back take_next settle add_toast retries
finish r o s =
    if retries r o
    then put_back r s
    else take_next s.queue
        (record s { journal = settle r.caller (settlement_of o) (add_toast o s.journal) })

abbrev pub finish_working : Option QueuedRequest → TaskOutcome → NetworkQueue → NetworkQueue
finish_working none o s = s
finish_working (some r) o s = finish r o s

-- The loop goes on after its `await`.
unfoldable pub task_ends : TaskOutcome → NetworkQueue → NetworkQueue
task_ends o s = finish_working s.working o s

unfoldable pub enqueue : ℕ → ℕ → NetworkQueue → NetworkQueue
unfolding notify_listeners
enqueue caller attempts s =
    let queue' = s.queue ++ record { id = s.next_id; caller = caller; attempts = attempts } ∷ [] in
    record s {
      queue = queue';
      next_id = s.next_id + 1;
      journal = notify_listeners (length queue') s.journal;
    }

-- `withNetworkReadQueue` up to its `await`.
unfoldable pub with_network_read_queue : Bool → ℕ → NetworkQueue → NetworkQueue
unfolding enqueue
with_network_read_queue false caller s = enqueue caller 0 s
with_network_read_queue true caller s = record s { attempting = s.attempting ++ caller ∷ [] }

-- The `try` and the `catch` with the first attempt's outcome.
unfoldable pub first_attempt : ℕ → TaskOutcome → NetworkQueue → NetworkQueue
unfolding enqueue settle is_network_error
first_attempt caller value s = record s { journal = settle caller resolved s.journal }
first_attempt caller (failure online message) s =
    if is_network_error online message
    then enqueue caller 1 s
    else record s { journal = settle caller rejected s.journal }

abbrev pub without : ℕ → List ℕ → List ℕ
without c [] = []
without c (k ∷ ks) = if k == c then ks else k ∷ without c ks

-- `withNetworkReadQueue` from its `await` on, with the network as it is then.
unfoldable pub attempt_ends : Bool → ℕ → TaskOutcome → NetworkQueue → NetworkQueue
unfolding process_queue first_attempt
attempt_ends online caller o s =
    if any (λ k. k == caller) s.attempting
    then process_queue online
        (first_attempt caller o (record s { attempting = without caller s.attempting }))
    else s

-- What the program, its tasks and the browser do: a read is asked for, its first attempt ends, the task
-- of the loop ends, or the network is back.
pub data QueueAction : Type 0 where
  reads : Bool → ℕ → QueueAction
  ends_attempt : Bool → ℕ → TaskOutcome → QueueAction
  ends_task : TaskOutcome → QueueAction
  comes_online : QueueAction

unfoldable pub perform : QueueAction → NetworkQueue → NetworkQueue
perform (reads online caller) s = with_network_read_queue online caller s
perform (ends_attempt online caller o) s = attempt_ends online caller o s
perform (ends_task o) s = task_ends o s
perform comes_online s = process_queue true s

unfoldable pub perform_all : List QueueAction → NetworkQueue → NetworkQueue
perform_all [] s = s
perform_all (a ∷ as') s = perform_all as' (perform a s)

unfoldable pub empty_queue : NetworkQueue
empty_queue = record {
  queue = [];
  next_id = 1;
  processing = false;
  loops = 0;
  working = none;
  attempting = [];
  journal = record { settled = []; counts = []; toasts = [] };
}
