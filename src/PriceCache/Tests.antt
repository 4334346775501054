-- ===== src/PriceCache/Tests.antt =====
-- The price service at concrete calls; the symbols are in upper case and the currencies in lower case.
use stellar_dex_chat.Common.{◌≤◌, ◌≡◌, refl, String, List, [], ◌∷◌, count_if, has, get, put}
use stellar_dex_chat.PriceCache.{
  Service, price, unreachable, answered, look_up, to_symbols, fetch_for, price_fetched,
  fetch_crypto_prices, get_fallback_prices, fallback_row,
}
use stellar_dex_chat.PriceCache.Fetching.{
  Step, asks, ends, forgets, clears, perform_all, idle, is_for, one_if, one_request_per_key,
}

abbrev same_case : String → String
same_case s = s

abbrev empty_service : Service
empty_service = record { price_cache = []; inflight_requests = []; fetches = [] }

abbrev steps : List Step
steps =
    asks "XLM" "usd" 0 1
    ∷ asks "XLM" "usd" 5 2
    ∷ asks "ETH" "usd" 6 3
    ∷ ends 0 unreachable 9
    ∷ forgets 0
    ∷ clears
    ∷ asks "XLM" "usd" 20 4
    ∷ []

one_request_per_key_example :
    (count_if
        (is_for "XLM_usd")
        (perform_all same_case same_case steps (idle empty_service)).awaiting
      ≤ 1)
    × (count_if
          (is_for "XLM_usd")
          (perform_all same_case same_case steps (idle empty_service)).awaiting
        ≤ one_if (
            has "XLM_usd"
              (perform_all same_case same_case steps
                (idle empty_service)).service.inflight_requests))
one_request_per_key_example = one_request_per_key same_case same_case steps empty_service "XLM_usd"

falls_back :
    price_fetched same_case same_case (fetch_for same_case same_case "XLM" "usd" 1) unreachable
    ≡ price 11 2
unfolding price_fetched fetch_crypto_prices get_fallback_prices fallback_row look_up get put
falls_back = refl

-- A token that the API knows and that has no fallback price: without the API its price is 0.
has_no_fallback :
    price_fetched same_case same_case (fetch_for same_case same_case "BTC" "usd" 1) unreachable
    ≡ price 0 0
unfolding price_fetched fetch_crypto_prices get_fallback_prices fallback_row look_up get put
has_no_fallback = refl

reads_answer :
    price_fetched same_case same_case
      (fetch_for same_case same_case "BTC" "usd" 1)
      (answered (("bitcoin", ("usd", price 60000 0) ∷ []) ∷ []))
    ≡ price 60000 0
unfolding price_fetched fetch_crypto_prices to_symbols look_up get put
reads_answer = refl
