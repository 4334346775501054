-- ===== src/RateLimit/Window.antt =====
-- rateLimit.ts: how many requests a window lets through.
use stellar_dex_chat.Common.{
  ℕ, suc, ◌+◌, ◌-◌, ◌≤◌, ◌<◌, min, ◌≡◌, ◌∙◌, zero, length-replicate, ◌≢◌, ◌⊎◌, inl, inr, String,
  none, some, List, [], ◌∷◌, ◌++◌, arith, if◌then◌else◌, length, replicate, get, put, get-put_self,
  get-put_ne, All, Bool-cases, Option-cases, is_some,
}
use stellar_dex_chat.RateLimit.{
  RateLimitConfig, Bucket, Store, is_over, fresh_bucket, count_request, limit_key,
}

-- Requests by one client on one route at the given times: the store, and how many were let through.
unfoldable pub request_all : String → RateLimitConfig → List ℕ → Store → Store × ℕ
request_all key config [] store = (store, 0)
request_all key config (t ∷ ts) store =
    let (store', refusal) = limit_key key t config store in
    let (store'', admitted) = request_all key config ts store' in
    (store'', if is_some refusal then admitted else admitted + 1)

-- No window of the key is open at the time.
abbrev pub IsClosed : String → RateLimitConfig → ℕ → Store → Type 0
IsClosed key config t store =
    (get key store ≡ none)
    ⊎ (b : Bucket) × (get key store ≡ some b) × (b.window_start + config.window_ms ≤ t)

abbrev pub IsWithin : RateLimitConfig → ℕ → ℕ → Type 0
IsWithin config start t = (start ≤ t) × (t < start + config.window_ms)

module _ (key : String) (config : RateLimitConfig) where
  limit_key_open :
      (t c start : ℕ) (store : Store)
      → get key store ≡ some (record { count = c; window_start = start })
      → t < start + config.window_ms
      → (limit_key key t config store ≡ (
        put key (record { count = c + 1; window_start = start }) store,
        count_request config (record { count = c; window_start = start }),
      ))
  unfolding limit_key
  limit_key_open t c start store h soon = rw (h, limit_key) (ground arith)

  limit_key_closed :
      (t : ℕ) (store : Store)
      → IsClosed key config t store
      → limit_key key t config store ≡ (put key (fresh_bucket t) store, none)
  unfolding limit_key
  limit_key_closed t store (inl h) = rw (h, limit_key)
  limit_key_closed t store (inr (b, h, over)) = rw (h, limit_key) (ground arith)

  -- In an open window that has counted `c` requests.
  request_all_open :
      (ts : List ℕ) (c start : ℕ) (store : Store)
      → get key store ≡ some (record { count = c; window_start = start })
      → All (IsWithin config start) ts
      → ((request_all key config ts store).1 ≡ min (length ts) (config.max_requests - c))
        × (get key (request_all key config ts store).0
            ≡ some (record { count = c + length ts; window_start = start }))
  unfolding request_all
  request_all_open [] c start store h w = (omega arith, ground arith)
  request_all_open (t ∷ ts) c start store h ((from, to), w) =
      let (admitted, left) =
        request_all_open ts (c + 1) start
          (put key (record { count = c + 1; window_start = start }) store)
          (get-put_self key _ store) w in
      rw (limit_key_open t c start store h to) (ground (arith, admitted), ground (arith, left))

  -- A window that opens with a request at `t`: of this and the later requests in it, as many are let
  -- through as the limit says, or one if the limit is zero.
  pub request_all_window :
      (t : ℕ) (ts : List ℕ) (store : Store)
      → IsClosed key config t store
      → All (IsWithin config t) ts
      → ((request_all key config (t ∷ ts) store).1
          ≡ min (suc (length ts)) (suc (config.max_requests - 1)))
        × (get key (request_all key config (t ∷ ts) store).0
            ≡ some (record { count = suc (length ts); window_start = t }))
  unfolding request_all
  request_all_window t ts store closed w =
      let (admitted, left) =
        request_all_open ts 1 t (put key (fresh_bucket t) store) (get-put_self key _ store) w in
      rw (limit_key_closed t store closed) (ground (arith, admitted), ground (arith, left))

  request_all-append :
      (ts us : List ℕ) (store : Store)
      → (request_all key config (ts ++ us) store).1
        ≡ (request_all key config ts store).1
          + (request_all key config us (request_all key config ts store).0).1
  unfolding request_all
  request_all-append [] us store = omega arith
  request_all-append (t ∷ ts) us store =
      ground (arith, request_all-append ts us (limit_key key t config store).0)

  All-replicate-IsWithin :
      (start t n : ℕ) → IsWithin config start t → All (IsWithin config start) (replicate n t)
  All-replicate-IsWithin start t zero w = tt
  All-replicate-IsWithin start t (suc n) w = (w, All-replicate-IsWithin start t n w)

  -- The windows do not slide: with a limit of `n + 1` and windows of at least two milliseconds, one
  -- request at `t`, `n` at the last instant of the window and `n + 1` one millisecond later are all
  -- let through, so the last millisecond and the next one see `2 n + 1` of them.
  pub burst_admitted :
      (t n : ℕ) (store : Store)
      → IsClosed key config t store
      → config.max_requests ≡ suc n
      → 2 ≤ config.window_ms
      → (request_all key config
          ((t ∷ replicate n (t + config.window_ms - 1)) ++ replicate (suc n) (t + config.window_ms))
          store).1
        ≡ suc n + suc n
  burst_admitted t n store closed limit wide =
      let first = t + config.window_ms - 1 in
      let second = t + config.window_ms in
      let (a, left) =
        request_all_window t (replicate n first) store closed
          (All-replicate-IsWithin t first n (omega arith)) in
      let (b, _) =
        request_all_window second (replicate n second) _ (inr (_, left, omega arith))
          (All-replicate-IsWithin second second n (omega arith)) in
      request_all-append (t ∷ replicate n first) (replicate (suc n) second) store
      ∙ omega (arith, a, b, length-replicate {0} n first, length-replicate {0} n second)

-- A request on one key leaves the bucket of every other key as it was.
pub limit_key_other :
    (key other : String) (now : ℕ) (config : RateLimitConfig) (store : Store)
    → key ≢ other
    → get other (limit_key key now config store).0 ≡ get other store
unfolding limit_key
limit_key_other key other now config store h = elim (Option-cases (get key store)) [
  | inl absent ↦ rw (absent, limit_key) (get-put_ne key other _ store h)
  | inr (b, there) ↦ elim (Bool-cases (is_over config now b)) [
    | inl over ↦ rw (there, limit_key) (rw over (get-put_ne key other _ store h))
    | inr open_still ↦ rw (there, limit_key) (rw open_still (get-put_ne key other _ store h))
  ]
]
