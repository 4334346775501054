-- ===== src/PriceCache.antt =====
-- Dechat/dex_with_fiat_frontend/src/lib/cryptoPriceService.ts: the prices of tokens, their cache and the
-- requests that are under way. A price is a decimal number; the upper and the lower case of a text are
-- parameters. `getTokenPrice` and `fetchCryptoPrices` are cut at their awaits: a promise is a number,
-- and what the request ends with is an argument.
pub mod Fetching
pub mod Freshness
mod Tests
use stellar_dex_chat.Common.{
  ℕ, ◌+◌, ◌*◌, ◌==◌, String, Bool, true, false, not, Option, none, some, List, [], ◌∷◌, ◌++◌, any,
  filter, map, ltb, length, is_some, if◌then◌else◌, str_eq, get, put, delete,
}
use Prim.Native.String

-- The number `digits / 10 ^ scale`.
pub record Price : Type 0 where
  pub digits : ℕ
  pub scale : ℕ

abbrev pub price : ℕ → ℕ → Price
price d s = record { digits = d; scale = s }

-- An object from currencies to prices, and one from tokens to those.
abbrev pub Prices : Type 0
Prices = List (String × Price)

abbrev pub CryptoPrice : Type 0
CryptoPrice = List (String × Prices)

-- `value || 0`
abbrev pub or_zero : Option Price → Price
or_zero none = price 0 0
or_zero (some p) = if p.digits == 0 then price 0 0 else p

abbrev pub in_table : String → Option Prices → Option Price
in_table currency none = none
in_table currency (some prices) = get currency prices

-- `prices[symbol]?.[currency] || 0`
unfoldable pub look_up : String → String → CryptoPrice → Price
look_up symbol currency prices = or_zero (in_table currency (get symbol prices))

abbrev pub token_ids : List (String × String)
token_ids =
    ("XLM", "stellar")
    ∷ ("ETH", "ethereum")
    ∷ ("BTC", "bitcoin")
    ∷ ("USDC", "usd-coin")
    ∷ ("USDT", "tether")
    ∷ []

abbrev pub supported_currencies : List String
supported_currencies = "usd" ∷ "eur" ∷ "gbp" ∷ "ngn" ∷ "cad" ∷ "aud" ∷ "jpy" ∷ []

abbrev row : Price → Price → Price → Price → Price → Price → Price → Prices
row usd eur gbp ngn cad aud jpy =
    ("usd", usd)
    ∷ ("eur", eur)
    ∷ ("gbp", gbp)
    ∷ ("ngn", ngn)
    ∷ ("cad", cad)
    ∷ ("aud", aud)
    ∷ ("jpy", jpy)
    ∷ []

abbrev pub fallback_prices : CryptoPrice
fallback_prices =
    (
      "XLM",
      row (price 11 2) (price 1 1) (price 87 3) (price 180 0) (price 15 2) (price 17 2)
          (price 165 1),
    )
    ∷ (
      "ETH",
      row (price 4000 0) (price 3700 0) (price 3200 0) (price 6500000 0) (price 5400 0)
          (price 6200 0) (price 600000 0),
    )
    ∷ (
      "STRK",
      row (price 8 1) (price 74 2) (price 64 2) (price 1300 0) (price 108 2) (price 124 2)
          (price 120 0),
    )
    ∷ (
      "USDC",
      row (price 1 0) (price 92 2) (price 8 1) (price 1650 0) (price 135 2) (price 155 2)
          (price 150 0),
    )
    ∷ (
      "USDT",
      row (price 1 0) (price 92 2) (price 8 1) (price 1650 0) (price 135 2) (price 155 2)
          (price 150 0),
    )
    ∷ []

-- The token whose id it is.
abbrev pub symbol_of : String → List (String × String) → Option String
symbol_of coin [] = none
symbol_of coin ((symbol, id) ∷ ids) = if str_eq id coin then some symbol else symbol_of coin ids

abbrev pub put_if : Option String → Prices → CryptoPrice → CryptoPrice
put_if none prices result = result
put_if (some symbol) prices result = put symbol prices result

-- The answer, from ids back to symbols.
unfoldable pub to_symbols : CryptoPrice → CryptoPrice → CryptoPrice
to_symbols [] result = result
to_symbols ((coin, prices) ∷ rest) result =
    to_symbols rest (put_if (symbol_of coin token_ids) prices result)

-- How the request to the API ends: a failure of the network, a status that is not ok, or an answer.
pub data Ended : Type 0 where
  unreachable not_ok : Ended
  answered : CryptoPrice → Ended

pub record TokenPriceData : Type 0 where
  pub token_symbol : String
  pub currency : String
  pub price_in : Price
  pub last_updated : ℕ

-- A request under way: its promise, its key, and what it was made for.
pub record Fetch : Type 0 where
  pub promise : ℕ
  pub key : String
  pub symbol : String
  pub currency : String

pub record Service : Type 0 where
  pub price_cache : List (String × TokenPriceData)
  pub inflight_requests : List (String × ℕ)
  pub fetches : List Fetch

pub data Result : Type 0 where
  cached : Price → Result
  shared fetching : ℕ → Result

abbrev pub cache_duration : ℕ
cache_duration = 120000

-- `Date.now() - cached.lastUpdated < CACHE_DURATION`
abbrev pub is_fresh : ℕ → TokenPriceData → Bool
is_fresh now d = ltb now (d.last_updated + cache_duration)

abbrev pub fresh_only : ℕ → Option TokenPriceData → Option TokenPriceData
fresh_only now none = none
fresh_only now (some d) = if is_fresh now d then some d else none

-- `cached.prices[currency] || 0`
abbrev pub price_of : String → TokenPriceData → Price
price_of currency d = or_zero (if str_eq d.currency currency then some d.price_in else none)

unfoldable pub cache_key : String → String → String
cache_key symbol currency = String.◌++◌ symbol (String.◌++◌ "_" currency)

-- A fallback price of 0 would be left out.
abbrev pub put_price : String → Option Price → Prices → Prices
put_price currency none row = row
put_price currency (some p) row = if p.digits == 0 then row else put currency p row

abbrev pub is_known : String → Bool
is_known symbol = is_some (get symbol token_ids)

abbrev pub or_fetch : Option ℕ → Fetch → Service → Service × Result
or_fetch (some promise) fetch s = (s, shared promise)
or_fetch none fetch s = (
  record s {
    inflight_requests = put fetch.key fetch.promise s.inflight_requests;
    fetches = s.fetches ++ fetch ∷ [];
  },
  fetching fetch.promise,
)

-- The `finally` of the call that made the request.
unfoldable pub forget : Fetch → Service → Service
forget fetch s = record s { inflight_requests = delete fetch.key s.inflight_requests }

module _ (upper lower : String → String) where
  -- The currencies of one token that have a fallback price.
  unfoldable pub fallback_row : Prices → List String → Prices → Prices
  fallback_row known [] row = row
  fallback_row known (currency ∷ currencies) row =
      fallback_row known currencies (put_price (lower currency) (get (lower currency) known) row)

  abbrev pub put_row : String → Option Prices → List String → CryptoPrice → CryptoPrice
  put_row symbol none currencies result = result
  put_row symbol (some known) currencies result =
      put symbol (fallback_row known currencies []) result

  unfoldable pub get_fallback_prices : List String → List String → CryptoPrice → CryptoPrice
  get_fallback_prices [] currencies result = result
  get_fallback_prices (symbol ∷ symbols) currencies result =
      get_fallback_prices symbols currencies
        (put_row (upper symbol) (get (upper symbol) fallback_prices) currencies result)

  abbrev pub prices_from : List String → List String → Ended → CryptoPrice
  prices_from symbols currencies (answered prices) = to_symbols prices []
  prices_from symbols currencies _ = get_fallback_prices symbols currencies []

  -- `fetchCryptoPrices`, once its request has ended. Without a known token no request is made.
  unfoldable pub fetch_crypto_prices : List String → List String → Ended → CryptoPrice
  fetch_crypto_prices symbols currencies ended =
      if any (λ s. is_known (upper s)) symbols
      then prices_from symbols currencies ended
      else get_fallback_prices symbols currencies []

  abbrev pub fetch_for : String → String → ℕ → Fetch
  fetch_for symbol currency promise = record {
    promise = promise;
    key = cache_key (upper symbol) (lower currency);
    symbol = symbol;
    currency = currency;
  }

  abbrev pub answer_for : Option TokenPriceData → Fetch → Service → Service × Result
  answer_for (some d) fetch s = (s, cached (price_of (lower fetch.currency) d))
  answer_for none fetch s = or_fetch (get fetch.key s.inflight_requests) fetch s

  -- `getTokenPrice` up to its await.
  unfoldable pub get_token_price : String → String → ℕ → ℕ → Service → Service × Result
  get_token_price symbol currency now promise s =
      let fetch = fetch_for symbol currency promise in
      answer_for (fresh_only now (get fetch.key s.price_cache)) fetch s

  -- `doFetchAndCache` from the prices on: it never has to use the stale entry, since
  -- `fetchCryptoPrices` ends with prices of its own where the request fails.
  unfoldable pub price_fetched : Fetch → Ended → Price
  price_fetched fetch ended =
      look_up (upper fetch.symbol) (lower fetch.currency)
        (fetch_crypto_prices (fetch.symbol ∷ []) (fetch.currency ∷ []) ended)

  unfoldable pub store_price : Fetch → Ended → ℕ → Service → Service
  store_price fetch ended now s = record s {
    price_cache =
        put fetch.key
          (record {
            token_symbol = upper fetch.symbol;
            currency = lower fetch.currency;
            price_in = price_fetched fetch ended;
            last_updated = now;
          })
          s.price_cache;
  }

unfoldable pub clear_price_cache : Service → Service
clear_price_cache s = record s { price_cache = [] }

-- `convertCryptoToFiat`, for a whole amount.
abbrev pub convert_crypto_to_fiat : ℕ → Price → Price
convert_crypto_to_fiat amount p = price (amount * p.digits) p.scale

abbrev pub quote_lock_duration_ms : ℕ
quote_lock_duration_ms = 120000

pub record LockedQuote : Type 0 where
  pub ngn_amount : Price
  pub locked_at : ℕ
  pub expires_at : ℕ

-- `fetchLockedQuote` from the price on.
unfoldable pub fetch_locked_quote : ℕ → Price → ℕ → LockedQuote
fetch_locked_quote amount p now = record {
  ngn_amount = convert_crypto_to_fiat amount p;
  locked_at = now;
  expires_at = now + quote_lock_duration_ms;
}
