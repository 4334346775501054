-- ===== src/PriceCache/Freshness.antt =====
-- cryptoPriceService.ts: how long a price is served from the cache.
use stellar_dex_chat.Common.{
  ℕ, ◌+◌, ◌==◌, ◌≡◌, refl, ap, String, Option, none, some, inl, inr, ltb, if◌then◌else◌, eq_refl,
  Bool-cases, get, get-put_self,
}
use stellar_dex_chat.PriceCache.{
  Price, Fetch, Ended, Service, cached, cache_duration, or_zero, in_table, look_up, fetch_for,
  or_fetch, get_token_price, price_fetched, store_price,
}

or_zero_twice : (o : Option Price) → or_zero (some (or_zero o)) ≡ or_zero o
or_zero_twice none = refl
or_zero_twice (some p) = elim (Bool-cases (p.digits == 0)) [
  | inl e ↦ rw e refl
  | inr e ↦ rw e (rw e refl)
]

module _ (upper lower : String → String) where
  or_zero-price_fetched :
      (f : Fetch) (ended : Ended)
      → or_zero (some (price_fetched upper lower f ended)) ≡ price_fetched upper lower f ended
  unfolding price_fetched look_up
  or_zero-price_fetched f ended = or_zero_twice (in_table (lower f.currency) _)

  -- Once the price of a token in a currency is stored, calls for the same token and currency get it
  -- without a request for two minutes, and from then on make one, or share the one that is under way.
  pub get_token_price-store_price :
      (symbol currency : String) (p₁ p₂ t₁ t₂ : ℕ) (ended : Ended) (s : Service)
      → get_token_price upper lower symbol currency t₂ p₂
          (store_price upper lower (fetch_for upper lower symbol currency p₁) ended t₁ s)
        ≡ (if ltb t₂ (t₁ + cache_duration)
            then (
              store_price upper lower (fetch_for upper lower symbol currency p₁) ended t₁ s,
              cached (price_fetched upper lower (fetch_for upper lower symbol currency p₁) ended),
            )
            else or_fetch
                (get (fetch_for upper lower symbol currency p₂).key s.inflight_requests)
                (fetch_for upper lower symbol currency p₂)
                (store_price upper lower (fetch_for upper lower symbol currency p₁) ended t₁ s))
  unfolding get_token_price store_price
  get_token_price-store_price symbol currency p₁ p₂ t₁ t₂ ended s =
      let kept = store_price upper lower (fetch_for upper lower symbol currency p₁) ended t₁ s in
      rw (get-put_self _ _ s.price_cache) (elim (Bool-cases (ltb t₂ (t₁ + cache_duration))) [
        | inl soon ↦ rw soon (
            ap (λ p. (kept, cached p))
              (rw (eq_refl (lower currency))
                (or_zero-price_fetched (fetch_for upper lower symbol currency p₁) ended)))
        | inr late ↦ rw late refl
      ])
