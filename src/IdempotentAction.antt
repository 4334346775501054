-- ===== src/IdempotentAction.antt =====
-- Dechat/dex_with_fiat_frontend/src/hooks/useIdempotentAction.ts: a guard against running an action
-- twice. The refs of the hook are its state; a promise is a number, and `Date.now()` and the random
-- part of a key are arguments. A call runs up to its await; the action's end is a later step. What is
-- shown by React and the warnings are left out.
pub mod Spacing
pub mod Sharing
pub mod Single
pub mod Overlap
mod Tests
use stellar_dex_chat.Common.{
  ℕ, ◌+◌, String, Bool, true, false, Option, none, some, List, [], ◌∷◌, ◌++◌, ◌||◌, ltb,
  if◌then◌else◌, get, put, delete,
}
use Prim.Native.String

-- A run of an action: its name, its key and its promise.
pub record Run : Type 0 where
  pub action_name : String
  pub key : String
  pub promise : ℕ
  pub started : ℕ

-- `lastExecutionTime` is absent where it is `-cooldownMs`.
pub record Guard : Type 0 where
  pub cooldown_ms : ℕ
  pub is_processing : Bool
  pub last_execution_time : Option ℕ
  pub idempotency_key : String
  pub in_flight_actions : List (String × ℕ)
  pub runs : List Run

-- What `execute` returns: the promise of the run it starts or shares, or `null`.
pub data Result : Type 0 where
  starts shares : ℕ → Result
  suppressed : Result

-- `timeSinceLastExecution < cooldownMs`, for times from 0 on.
abbrev pub is_cooling : ℕ → Option ℕ → ℕ → Bool
is_cooling cooldown none now = false
is_cooling cooldown (some last) now = ltb now (last + cooldown)

-- `${actionName}_${now}_${random}`, the last two as one text.
abbrev pub make_key : String → String → String
make_key name stamp = String.◌++◌ name (String.◌++◌ "_" stamp)

-- The start of a run: an action that returns a promise is in flight from then on.
unfoldable pub start : String → ℕ → String → ℕ → Guard → Guard
start name now stamp promise g = record g {
  idempotency_key = make_key name stamp;
  is_processing = true;
  last_execution_time = some now;
  in_flight_actions = put name promise g.in_flight_actions;
  runs =
      g.runs
      ++ record { action_name = name; key = make_key name stamp; promise = promise; started = now }
        ∷ [];
}

unfoldable pub execute : String → ℕ → String → ℕ → Guard → Guard × Result
execute name now stamp promise g = elim (get name g.in_flight_actions) [
  | some shared ↦ (g, shares shared)
  | none ↦
      if g.is_processing || is_cooling g.cooldown_ms g.last_execution_time now
      then (g, suppressed)
      else (start name now stamp promise g, starts promise)
]

-- The `finally` of a run, when its promise has settled.
unfoldable pub finish : String → Guard → Guard
finish name g = record g {
  in_flight_actions = delete name g.in_flight_actions;
  is_processing = false;
}

unfoldable pub reset : Guard → Guard
reset g = record g {
  is_processing = false;
  in_flight_actions = [];
  last_execution_time = none;
  idempotency_key = "";
}

-- The cleanup of the effect, when the component goes.
unfoldable pub unmount : Guard → Guard
unmount g = record g { in_flight_actions = [] }

-- The refs at the first render.
abbrev pub initial_guard : ℕ → Guard
initial_guard cooldown = record {
  cooldown_ms = cooldown;
  is_processing = false;
  last_execution_time = none;
  idempotency_key = "";
  in_flight_actions = [];
  runs = [];
}
