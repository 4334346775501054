-- ===== src/Transfers/Bounds.antt =====
-- transferStore.ts: the size of the cache of seen deliveries, and what leaves it.
use stellar_dex_chat.Common.{
  ℕ, ◌+◌, ◌-◌, ◌≤◌, ◌<◌, ◌≡◌, refl, ◌≢◌, String, false, none, some, List, [], ◌∷◌, arith, ltb,
  filter, length, length-put, str_eq, eq_iff, get, put_absent, get-put_self, All, All-filter,
  All-append, Bool-cases, Option-cases, inl, inr,
}
use stellar_dex_chat.Transfers.{
  ReplayCache, replay_ttl_ms, replay_max_size, is_fresh, drop_oldest, prune_replay_cache,
  is_replay_event,
}
use stellar_dex_chat.Transfers.Replay.{deliver_all}

abbrev pub IsNamed : String × ℕ → Type 0
IsNamed p = p.0 ≢ ""

drop_oldest_bound :
    (cache : ReplayCache) → All IsNamed cache → length (drop_oldest cache) ≤ replay_max_size
unfolding drop_oldest
drop_oldest_bound [] h = omega arith
drop_oldest_bound ((k, t) ∷ cache) (named, h) =
    ground (arith, eq_iff k "", drop_oldest_bound cache h)

drop_oldest-IsNamed : (cache : ReplayCache) → All IsNamed cache → All IsNamed (drop_oldest cache)
unfolding drop_oldest
drop_oldest-IsNamed [] h = tt
drop_oldest-IsNamed ((k, t) ∷ cache) (named, h) =
    elim (Bool-cases (ltb replay_max_size (length ((k, t) ∷ cache)))) [
      | inl over ↦ elim (Bool-cases (str_eq k "")) [
        | inl empty ↦ rw over (rw empty (named, h))
        | inr other ↦ rw over (rw other (drop_oldest-IsNamed cache h))
      ]
      | inr fits ↦ rw fits (named, h)
    ]

pub record IsBounded (cache : ReplayCache) : Type 0 where
  pub named : All IsNamed cache
  pub small : length cache ≤ replay_max_size + 1

is_replay_event-IsBounded :
    (key : String) (now : ℕ) (cache : ReplayCache)
    → key ≢ ""
    → All IsNamed cache
    → IsBounded (is_replay_event key now cache).0
unfolding is_replay_event prune_replay_cache
is_replay_event-IsBounded key now cache named h =
    let fresh = filter (is_fresh now) cache in
    let fresh-named = All-filter IsNamed (is_fresh now) cache h in
    let pruned-named = drop_oldest-IsNamed fresh fresh-named in
    let bound = drop_oldest_bound fresh fresh-named in
    elim (Option-cases (get key (drop_oldest fresh))) [
      | inl absent ↦ rw absent (record {
        named =
            rw (put_absent key now (drop_oldest fresh) absent)
              (All-append IsNamed (drop_oldest fresh) _ pruned-named (named, tt));
        small = omega (arith, length-put key now (drop_oldest fresh), bound);
      })
      | inr (s, present) ↦
          rw present (record { named = pruned-named; small = omega (arith, bound) })
    ]

deliver_all-IsBounded :
    (es : List (String × ℕ)) (cache : ReplayCache)
    → All IsNamed es
    → IsBounded cache
    → IsBounded (deliver_all es cache)
unfolding deliver_all
deliver_all-IsBounded [] cache h b = b
deliver_all-IsBounded ((key, now) ∷ es) cache (named, h) b =
    deliver_all-IsBounded es _ h (is_replay_event-IsBounded key now cache named b.named)

-- After any deliveries with non-empty keys the cache holds at most one entry more than its maximum
-- size.
pub replay_cache_bounded :
    (es : List (String × ℕ)) → All IsNamed es → length (deliver_all es []) ≤ replay_max_size + 1
replay_cache_bounded es h =
    (deliver_all-IsBounded es [] h (record { named = tt; small = omega arith })).small

-- Every entry of the key is older than fifteen minutes.
abbrev pub IsExpired : String → ℕ → String × ℕ → Type 0
IsExpired key now p = p.0 ≡ key → replay_ttl_ms < now - p.1

get-filter_expired :
    (key : String) (now : ℕ) (cache : ReplayCache)
    → All (IsExpired key now) cache
    → get key (filter (is_fresh now) cache) ≡ none
unfolding get
get-filter_expired key now [] h = refl
get-filter_expired key now ((k, t) ∷ cache) (old, h) =
    ground (arith, eq_iff k key, get-filter_expired key now cache h)

get-drop_oldest :
    (key : String) (cache : ReplayCache) → get key cache ≡ none → get key (drop_oldest cache) ≡ none
unfolding get drop_oldest
get-drop_oldest key [] h = refl
get-drop_oldest key ((k, t) ∷ cache) h = ground (arith, get-drop_oldest key cache)

-- A key whose entries are all older than fifteen minutes is accepted as new, and is then in the
-- cache with the present time.
pub expired_accepted :
    (key : String) (now : ℕ) (cache : ReplayCache)
    → All (IsExpired key now) cache
    → ((is_replay_event key now cache).1 ≡ false)
      × (get key (is_replay_event key now cache).0 ≡ some now)
unfolding is_replay_event prune_replay_cache
expired_accepted key now cache h =
    let absent = get-drop_oldest key _ (get-filter_expired key now cache h) in
    (rw absent, rw absent (get-put_self key now _))
