-- ===== src/Beneficiaries/Sharing.antt =====
-- useBeneficiaries.ts, `RequestDeduplicator`: one request for each key at a time.
use stellar_dex_chat.Common.{
  ℕ, ◌≡◌, ◌∙◌, refl, String, Bool, true, false, some, List, [], ◌∷◌, arith, if◌then◌else◌, str_eq,
  eq_iff, get, get-put, get-put_self, get-delete_ne,
}
use stellar_dex_chat.Beneficiaries.{Deduplicator, fetch, settle}

-- A fetch for a key, with the promise of its request if it begins one; or the request of a key ends.
pub data FetchAction : Type 0 where
  fetches : String → ℕ → FetchAction
  settles : String → FetchAction

unfoldable pub perform_fetch : FetchAction → Deduplicator → Deduplicator
perform_fetch (fetches key promise) d = (fetch key promise d).0
perform_fetch (settles key) d = settle key d

unfoldable pub perform_fetches : List FetchAction → Deduplicator → Deduplicator
perform_fetches [] d = d
perform_fetches (a ∷ as') d = perform_fetches as' (perform_fetch a d)

-- Whether the request of the key ends among the actions.
abbrev pub ends : String → List FetchAction → Bool
ends key [] = false
ends key (fetches other promise ∷ as') = ends key as'
ends key (settles other ∷ as') = if str_eq other key then true else ends key as'

fetch-get :
    (key : String) (promise : ℕ) (d : Deduplicator)
    → get key (fetch key promise d).0.in_flight_requests ≡ some (fetch key promise d).1
unfolding fetch
fetch-get key promise d = ground (arith, get-put_self key promise d.in_flight_requests)

fetch-get_other :
    (other key : String) (promise p : ℕ) (d : Deduplicator)
    → get key d.in_flight_requests ≡ some p
    → get key (fetch other promise d).0.in_flight_requests ≡ some p
unfolding fetch
fetch-get_other other key promise p d h =
    ground (arith, h, (eq_iff other key).0, get-put other key promise d.in_flight_requests)

settle-get_other :
    (other key : String) (p : ℕ) (d : Deduplicator)
    → get key d.in_flight_requests ≡ some p
    → str_eq other key ≡ false
    → get key (settle other d).in_flight_requests ≡ some p
unfolding settle
settle-get_other other key p d h e =
    get-delete_ne other key d.in_flight_requests (λ g. ground (arith, e, (eq_iff other key).1 g))
    ∙ h

fetch-shared :
    (key : String) (promise p : ℕ) (d : Deduplicator)
    → get key d.in_flight_requests ≡ some p
    → fetch key promise d ≡ (d, p)
unfolding fetch
fetch-shared key promise p d h = rw (fetch, h) refl

perform_fetches-get :
    (as' : List FetchAction) (key : String) (p : ℕ) (d : Deduplicator)
    → get key d.in_flight_requests ≡ some p
    → ends key as' ≡ false
    → get key (perform_fetches as' d).in_flight_requests ≡ some p
unfolding perform_fetches perform_fetch fetch settle
perform_fetches-get [] key p d h quiet = h
perform_fetches-get (fetches other promise ∷ as') key p d h quiet =
    perform_fetches-get as' key p (fetch other promise d).0
      (fetch-get_other other key promise p d h) quiet
perform_fetches-get (settles other ∷ as') key p d h quiet =
    perform_fetches-get as' key p (settle other d)
      (settle-get_other other key p d h (ground (arith, quiet))) (ground (arith, quiet))

-- As long as the request of a key has not ended, whatever else is fetched and whatever other requests
-- end, a fetch of the key begins no request and returns the promise that the first fetch returned.
pub fetches_shared :
    (as' : List FetchAction) (key : String) (first later : ℕ) (d : Deduplicator)
    → ends key as' ≡ false
    → let d' = perform_fetches as' (fetch key first d).0 in
      fetch key later d' ≡ (d', (fetch key first d).1)
fetches_shared as' key first later d quiet =
    fetch-shared key later (fetch key first d).1 (perform_fetches as' (fetch key first d).0) (
      perform_fetches-get as' key (fetch key first d).1 (fetch key first d).0
        (fetch-get key first d) quiet)
