-- ===== src/PriceCache/Fetching.antt =====
-- cryptoPriceService.ts: the requests under way.
use stellar_dex_chat.Common.{
  ℕ, zero, suc, ◌+◌, ◌≤◌, ◌≡◌, ◌∙◌, refl, sym, ap, String, Bool, true, false, Option, none, some,
  List, [], ◌∷◌, ◌++◌, arith, inl, inr, count_if, count_if-append, if◌then◌else◌, str_eq, eq_iff,
  Bool-cases, Option-cases, get, has, get-put, get-delete, some_injective, IsMap, put-IsMap,
  delete-IsMap,
}
use stellar_dex_chat.PriceCache.{
  Fetch, Ended, TokenPriceData, Service, Result, cached, shared, fetching, fetch_for, answer_for,
  get_token_price, store_price, forget, clear_price_cache,
}

-- The service with the requests that have not ended, and those whose price is stored while their
-- `finally` has still to run.
pub record World : Type 0 where
  pub service : Service
  pub awaiting : List Fetch
  pub stored : List Fetch

pub data Step : Type 0 where
  asks : String → String → ℕ → ℕ → Step
  ends : ℕ → Ended → ℕ → Step
  forgets : ℕ → Step
  clears : Step

abbrev nth : ℕ → List Fetch → Option Fetch
nth n [] = none
nth zero (f ∷ fs) = some f
nth (suc n) (f ∷ fs) = nth n fs

abbrev remove_nth : ℕ → List Fetch → List Fetch
remove_nth n [] = []
remove_nth zero (f ∷ fs) = fs
remove_nth (suc n) (f ∷ fs) = f ∷ remove_nth n fs

abbrev started : Result → Fetch → List Fetch → List Fetch
started (cached p) f fs = fs
started (shared q) f fs = fs
started (fetching q) f fs = fs ++ f ∷ []

abbrev pub is_for : String → Fetch → Bool
is_for k f = str_eq f.key k

abbrev pub one_if : Bool → ℕ
one_if true = 1
one_if false = 0

-- Nothing is under way.
abbrev pub idle : Service → World
idle s = record { service = record s { inflight_requests = [] }; awaiting = []; stored = [] }

module _ (upper lower : String → String) where
  abbrev end_at : Option Fetch → ℕ → Ended → ℕ → World → World
  end_at none i ended now w = w
  end_at (some f) i ended now w = record {
    service = store_price upper lower f ended now w.service;
    awaiting = remove_nth i w.awaiting;
    stored = w.stored ++ f ∷ [];
  }

  abbrev forget_at : Option Fetch → ℕ → World → World
  forget_at none i w = w
  forget_at (some f) i w = record w { service = forget f w.service; stored = remove_nth i w.stored }

  unfoldable pub perform : Step → World → World
  perform (asks symbol currency now promise) w =
      let (s, result) = get_token_price upper lower symbol currency now promise w.service in
      record w {
        service = s;
        awaiting = started result (fetch_for upper lower symbol currency promise) w.awaiting;
      }
  perform (ends i ended now) w = end_at (nth i w.awaiting) i ended now w
  perform (forgets i) w = forget_at (nth i w.stored) i w
  perform clears w = record w { service = clear_price_cache w.service }

  unfoldable pub perform_all : List Step → World → World
  perform_all [] w = w
  perform_all (x ∷ xs) w = perform_all xs (perform x w)

  one_if_most : (b : Bool) → one_if b ≤ 1
  one_if_most true = omega arith
  one_if_most false = omega arith

  count_one : (b : Bool) (n : ℕ) → (if b then suc n else n) ≡ n + one_if b
  count_one true n = omega arith
  count_one false n = omega arith

  count-remove_nth :
      (p : Fetch → Bool) (i : ℕ) (fs : List Fetch) (f : Fetch)
      → nth i fs ≡ some f
      → count_if p fs ≡ count_if p (remove_nth i fs) + one_if (p f)
  count-remove_nth p i [] f h = ground arith
  count-remove_nth p zero (g ∷ fs) f h =
      count_one (p g) (count_if p fs) ∙ ap (λ x. count_if p fs + one_if (p x)) (some_injective h)
  count-remove_nth p (suc i) (g ∷ fs) f h = ground (arith, count-remove_nth p i fs f h)

  -- For each key there is an entry in flight exactly while one of its requests is not over.
  abbrev Tracks : World → Type 0
  Tracks w =
      IsMap w.service.inflight_requests
      × ((k : String)
          → count_if (is_for k) w.awaiting + count_if (is_for k) w.stored
            ≡ one_if (has k w.service.inflight_requests))

  answer-Tracks :
      (cached_now : Option TokenPriceData) (under_way : Option ℕ) (f : Fetch) (w : World)
      → get f.key w.service.inflight_requests ≡ under_way
      → Tracks w
      → Tracks (record w {
        service = (answer_for upper lower cached_now f w.service).0;
        awaiting = started (answer_for upper lower cached_now f w.service).1 f w.awaiting;
      })
  answer-Tracks (some d) under_way f w e h = h
  answer-Tracks none (some q) f w e h = rw e h
  answer-Tracks none none f w e (distinct, counts) = rw e (
    put-IsMap f.key f.promise w.service.inflight_requests distinct,
    λ k.
        let before = counts k in
        let more = count_if-append (is_for k) w.awaiting (f ∷ []) in
        let now_there = get-put f.key k f.promise w.service.inflight_requests in
        rw now_there (elim (Bool-cases (str_eq f.key k)) [
          | inl same ↦
              let absent : get k w.service.inflight_requests ≡ none =
                ap (λ j. get j w.service.inflight_requests) (sym ((eq_iff f.key k).0 same)) ∙ e in
              rw same (ground (arith, before, more, absent))
          | inr other ↦ rw other (ground (arith, before, more))
        ]),
  )

  perform-Tracks : (x : Step) (w : World) → Tracks w → Tracks (perform x w)
  unfolding perform store_price forget clear_price_cache
  perform-Tracks (asks symbol currency now promise) w h =
      unfold get_token_price in
      answer-Tracks _ _ (fetch_for upper lower symbol currency promise) w refl h
  perform-Tracks (ends i ended now) w (distinct, counts) = elim (Option-cases (nth i w.awaiting)) [
    | inl e ↦ rw e (distinct, counts)
    | inr (f, e) ↦ rw e (
      distinct,
      λ k. omega (
        arith,
        counts k,
        count-remove_nth (is_for k) i w.awaiting f e,
        count_if-append (is_for k) w.stored (f ∷ []),
        count_one (is_for k f) 0,
      ),
    )
  ]
  perform-Tracks (forgets i) w (distinct, counts) = elim (Option-cases (nth i w.stored)) [
    | inl e ↦ rw e (distinct, counts)
    | inr (f, e) ↦ rw e (
      delete-IsMap f.key w.service.inflight_requests distinct,
      λ k.
          let before = counts k in
          let less = count-remove_nth (is_for k) i w.stored f e in
          let gone = get-delete f.key k w.service.inflight_requests distinct in
          rw gone (ground (arith, before, less)),
    )
  ]
  perform-Tracks clears w h = h

  perform_all-Tracks : (xs : List Step) (w : World) → Tracks w → Tracks (perform_all xs w)
  unfolding perform_all
  perform_all-Tracks [] w h = h
  perform_all-Tracks (x ∷ xs) w h = perform_all-Tracks xs (perform x w) (perform-Tracks x w h)

  -- However calls, ends of requests and clearings of the cache follow each other, from the time on at
  -- which nothing is under way, at most one request for a key has not ended, and if there is one then
  -- calls for its key find it in flight.
  pub one_request_per_key :
      (xs : List Step) (s : Service) (k : String)
      → (count_if (is_for k) (perform_all xs (idle s)).awaiting ≤ 1)
        × (count_if (is_for k) (perform_all xs (idle s)).awaiting
            ≤ one_if (has k (perform_all xs (idle s)).service.inflight_requests))
  one_request_per_key xs s k =
      let (_, counts) = perform_all-Tracks xs (idle s) (tt, λ j. unfold get in refl) in
      let all = perform_all xs (idle s) in
      let most = one_if_most (has k all.service.inflight_requests) in
      (omega (arith, counts k, most), omega (arith, counts k))
