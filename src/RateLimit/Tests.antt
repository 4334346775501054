-- ===== src/RateLimit/Tests.antt =====
-- The rate limiter at concrete inputs.
use stellar_dex_chat.Common.{◌≡◌, refl, inl, some, [], ◌∷◌, arith, get, min}
use stellar_dex_chat.RateLimit.{RateLimitConfig}
use stellar_dex_chat.RateLimit.Window.{request_all, request_all_window}

abbrev two_a_second : RateLimitConfig
two_a_second = record { max_requests = 2; window_ms = 1000 }

request_all_window_example :
    ((request_all "a:/b" two_a_second (5 ∷ 6 ∷ 7 ∷ 900 ∷ []) []).1 ≡ min 4 2)
    × (get "a:/b" (request_all "a:/b" two_a_second (5 ∷ 6 ∷ 7 ∷ 900 ∷ []) []).0
        ≡ some (record { count = 4; window_start = 5 }))
unfolding get
request_all_window_example =
    request_all_window "a:/b" two_a_second 5 (6 ∷ 7 ∷ 900 ∷ []) [] (inl refl) (omega arith)
