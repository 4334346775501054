-- ===== src/NetworkQueue/Tests.antt =====
-- The network queue at concrete inputs.
use stellar_dex_chat.Common.{◌≡◌, refl, true, false, some, none, List, [], ◌∷◌, arith, count_if}
use stellar_dex_chat.NetworkQueue.{
  value, failure, NetworkQueue, is_network_error, QueueAction, reads, ends_attempt, ends_task,
  comes_online, perform_all, empty_queue,
}
use stellar_dex_chat.NetworkQueue.Consistency.{IsConsistent, perform_all-IsConsistent}
use stellar_dex_chat.NetworkQueue.Settling.{owed, calls_of, owed_exactly}
use stellar_dex_chat.NetworkQueue.Progress.{process_rounds, process_rounds_empty}

reads_the_message : is_network_error true (some "TypeError: Failed to fetch") ≡ true
unfolding is_network_error
reads_the_message = refl

-- A read is asked for offline; the network is back, and a second read ends while the first is worked on.
abbrev day : List QueueAction
day =
    reads false 7
    ∷ comes_online
    ∷ reads true 8
    ∷ ends_attempt true 8 (failure true (some "timed out"))
    ∷ ends_task value
    ∷ []

owed_exactly_example : owed 7 (perform_all day empty_queue) ≡ count_if (calls_of 7) day
owed_exactly_example = owed_exactly 7 day

perform_all-IsConsistent_example : IsConsistent (perform_all day empty_queue)
perform_all-IsConsistent_example = perform_all-IsConsistent day

abbrev two_waiting : NetworkQueue
two_waiting = record {
  queue =
      record { id = 1; caller = 7; attempts = 4 }
      ∷ record { id = 2; caller = 8; attempts = 5 }
      ∷ [];
  next_id = 3;
  processing = false;
  loops = 0;
  working = none;
  attempting = [];
  journal = record { settled = []; counts = []; toasts = [] };
}

process_rounds_empty_example :
    ((process_rounds (λ n. failure true (some "timed out")) 3 two_waiting).queue ≡ [])
    × ((process_rounds (λ n. failure true (some "timed out")) 3 two_waiting).working ≡ none)
process_rounds_empty_example =
    process_rounds_empty (λ n. failure true (some "timed out")) 3 two_waiting
      (record {
        single = refl;
        flag = refl;
        queued = (omega arith, (omega arith, tt));
        worked = tt;
      })
      (omega arith)
