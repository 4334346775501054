-- ===== src/Transfers.antt =====
-- Dechat/dex_with_fiat_frontend/src/lib/transferStore.ts: the status of each transfer, and the cache
-- of webhook deliveries that were seen.
pub mod Bounds
pub mod Replay
mod Tests
use stellar_dex_chat.Common.{
  ℕ, ◌-◌, String, Bool, true, false, not, Option, none, some, List, [], ◌∷◌, ltb, if◌then◌else◌,
  filter, length, str_eq, get, put, has,
}

pub data TransferStatus : Type 0 where
  pending success failed reversed cancelled : TransferStatus

-- An amount is absent where the webhook's payload has none.
pub record TransferStatusRecord : Type 0 where
  pub reference : String
  pub status : TransferStatus
  pub amount : Option ℕ
  pub failure_reason : Option String
  pub updated_at : String
  pub client_session_id : Option String

abbrev pub TransferStore : Type 0
TransferStore = List (String × TransferStatusRecord)

unfoldable pub get_transfer_status : String → TransferStore → Option TransferStatusRecord
get_transfer_status reference store = get reference store

unfoldable pub set_transfer_status : TransferStatusRecord → TransferStore → TransferStore
set_transfer_status record' store = put record'.reference record' store

-- The cache: each key with the time, in milliseconds, at which it was first seen.
abbrev pub ReplayCache : Type 0
ReplayCache = List (String × ℕ)

abbrev pub replay_ttl_ms : ℕ
replay_ttl_ms = 900000

abbrev pub replay_max_size : ℕ
replay_max_size = 1000

-- `!(now - entry.seenAt > DEFAULT_REPLAY_TTL_MS)`
abbrev pub is_fresh : ℕ → String × ℕ → Bool
is_fresh now p = not (ltb replay_ttl_ms (now - p.1))

-- The `while` loop: the oldest entry goes until the size fits; an empty oldest key stops it.
unfoldable pub drop_oldest : ReplayCache → ReplayCache
drop_oldest [] = []
drop_oldest ((k, t) ∷ cache) =
    let rest = drop_oldest cache in
    if ltb replay_max_size (length ((k, t) ∷ cache))
    then (if str_eq k "" then (k, t) ∷ cache else rest)
    else (k, t) ∷ cache

unfoldable pub prune_replay_cache : ℕ → ReplayCache → ReplayCache
prune_replay_cache now cache = drop_oldest (filter (is_fresh now) cache)

unfoldable pub is_replay_event : String → ℕ → ReplayCache → ReplayCache × Bool
is_replay_event key now cache =
    let pruned = prune_replay_cache now cache in
    if has key pruned then (pruned, true) else (put key now pruned, false)
