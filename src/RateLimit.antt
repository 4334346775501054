-- ===== src/RateLimit.antt =====
-- Dechat/dex_with_fiat_frontend/src/lib/rateLimit.ts: the rate limiter of the API routes.
pub mod Window
mod Tests
use Prim.Native.Char.{Char, code}
use Prim.Native.String
use stellar_dex_chat.Common.{
  ℕ, ◌+◌, ◌/◌, String, Bool, Option, none, some, List, leb, ltb, ◌==◌, str_eq, if◌then◌else◌, get,
  put,
}
use stellar_dex_chat.Common.Text.{trim}

pub record RateLimitConfig : Type 0 where
  pub max_requests : ℕ
  pub window_ms : ℕ

pub record Bucket : Type 0 where
  pub count : ℕ
  pub window_start : ℕ

abbrev pub Store : Type 0
Store = List (String × Bucket)

-- The response with status 429 and its two headers.
pub record TooManyRequests : Type 0 where
  pub retry_after : ℕ
  pub limit : ℕ

-- `text.split(',')[0]`
unfoldable pub before_comma : String → String
before_comma String.[] = String.[]
before_comma (String.◌∷◌ c s) =
    let rest = before_comma s in if code c == b',' then String.[] else String.◌∷◌ c rest

abbrev from_real_ip : Option String → String
from_real_ip none = "unknown"
from_real_ip (some r) = if str_eq r "" then "unknown" else trim r

-- The headers `x-forwarded-for` and `x-real-ip`; an empty header counts as a missing one.
unfoldable pub get_client_ip : Option String → Option String → String
unfolding before_comma
get_client_ip none real_ip = from_real_ip real_ip
get_client_ip (some f) real_ip = if str_eq f "" then from_real_ip real_ip else trim (before_comma f)

unfoldable pub bucket_key : String → String → String
bucket_key ip route = String.◌++◌ ip (String.◌++◌ ":" route)

-- `Math.ceil(config.windowMs / 1000)`
abbrev pub ceil_seconds : ℕ → ℕ
ceil_seconds ms = (ms + 999) / 1000

-- `now - entry.windowStart >= config.windowMs`, also where the clock went back.
abbrev pub is_over : RateLimitConfig → ℕ → Bucket → Bool
is_over config now b = leb (b.window_start + config.window_ms) now

abbrev pub fresh_bucket : ℕ → Bucket
fresh_bucket now = record { count = 1; window_start = now }

abbrev pub count_request : RateLimitConfig → Bucket → Option TooManyRequests
count_request config b =
    if ltb config.max_requests (b.count + 1)
    then some (record { retry_after = ceil_seconds config.window_ms; limit = config.max_requests })
    else none

unfoldable pub limit_key : String → ℕ → RateLimitConfig → Store → Store × Option TooManyRequests
limit_key key now config store = elim (get key store) [
  | none ↦ (put key (fresh_bucket now) store, none)
  | some b ↦
      if is_over config now b
      then (put key (fresh_bucket now) store, none)
      else (put key (record b { count = b.count + 1 }) store, count_request config b)
]

-- `applyRateLimit(ip, route, config)` at a time.
unfoldable pub apply_rate_limit :
    String → String → ℕ → RateLimitConfig → Store → Store × Option TooManyRequests
unfolding limit_key
apply_rate_limit ip route now config store = limit_key (bucket_key ip route) now config store
