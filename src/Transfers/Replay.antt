-- ===== src/Transfers/Replay.antt =====
-- transferStore.ts: what the cache of seen deliveries promises.
use stellar_dex_chat.Common.{
  ℕ, ◌+◌, ◌≤◌, ◌<◌, ◌≡◌, refl, ◌⊎◌, inl, inr, String, true, false, List, [], ◌∷◌, ◌++◌, arith, ltb,
  filter, length, length-filter, length-append, str_eq, eq_iff, get, has, put_absent, All,
  Bool-cases, Option-cases,
}
use stellar_dex_chat.Transfers.{
  ReplayCache, replay_ttl_ms, replay_max_size, is_fresh, drop_oldest, prune_replay_cache,
  is_replay_event,
}

-- The key was first seen at `t`, and at most `n` keys have been added since.
abbrev pub Keeps : String → ℕ → ℕ → ReplayCache → Type 0
Keeps key t n [] = ⊥
Keeps key t n ((k, s) ∷ cache) = ((k ≡ key) × (s ≡ t) × (length cache ≤ n)) ⊎ Keeps key t n cache

module _ (key : String) (t : ℕ) where
  Keeps-has : (n : ℕ) (cache : ReplayCache) → Keeps key t n cache → has key cache ≡ true
  unfolding get
  Keeps-has n [] h = elim h [ ]
  Keeps-has n ((k, s) ∷ cache) (inl (same, _, _)) = ground (arith, eq_iff k key)
  Keeps-has n ((k, s) ∷ cache) (inr later) = ground (arith, Keeps-has n cache later)

  Keeps-filter :
      (n now : ℕ) (cache : ReplayCache)
      → now ≤ t + replay_ttl_ms
      → Keeps key t n cache
      → Keeps key t n (filter (is_fresh now) cache)
  Keeps-filter n now [] h k = elim k [ ]
  Keeps-filter n now ((k, s) ∷ cache) h (inl (same, seen, few)) =
      ground (arith, length-filter (is_fresh now) cache)
  Keeps-filter n now ((k, s) ∷ cache) h (inr later) = elim (Bool-cases (is_fresh now (k, s))) [
    | inl fresh ↦ rw fresh (inr (Keeps-filter n now cache h later))
    | inr stale ↦ rw stale (Keeps-filter n now cache h later)
  ]

  Keeps-drop_oldest :
      (n : ℕ) (cache : ReplayCache)
      → n < replay_max_size
      → Keeps key t n cache
      → Keeps key t n (drop_oldest cache)
  unfolding drop_oldest
  Keeps-drop_oldest n [] h k = elim k [ ]
  Keeps-drop_oldest n ((k, s) ∷ cache) h (inl (same, seen, few)) = ground arith
  Keeps-drop_oldest n ((k, s) ∷ cache) h (inr later) =
      elim (Bool-cases (ltb replay_max_size (length ((k, s) ∷ cache)))) [
        | inl over ↦ elim (Bool-cases (str_eq k "")) [
          | inl empty ↦ rw over (rw empty (inr later))
          | inr named ↦ rw over (rw named (Keeps-drop_oldest n cache h later))
        ]
        | inr fits ↦ rw fits (inr later)
      ]

  Keeps-snoc :
      (n : ℕ) (cache : ReplayCache) (p : String × ℕ)
      → Keeps key t n cache
      → Keeps key t (n + 1) (cache ++ p ∷ [])
  Keeps-snoc n [] p h = elim h [ ]
  Keeps-snoc n ((k, s) ∷ cache) p (inl (same, seen, few)) =
      inl (same, seen, omega (arith, length-append cache (p ∷ [])))
  Keeps-snoc n ((k, s) ∷ cache) p (inr later) = inr (Keeps-snoc n cache p later)

  pub Keeps-mono :
      (n m : ℕ) (cache : ReplayCache) → n ≤ m → Keeps key t n cache → Keeps key t m cache
  Keeps-mono n m [] h k = elim k [ ]
  Keeps-mono n m ((k, s) ∷ cache) h (inl (same, seen, few)) = inl (same, seen, omega arith)
  Keeps-mono n m ((k, s) ∷ cache) h (inr later) = inr (Keeps-mono n m cache h later)

  Keeps-prune :
      (n now : ℕ) (cache : ReplayCache)
      → now ≤ t + replay_ttl_ms
      → n < replay_max_size
      → Keeps key t n cache
      → Keeps key t n (prune_replay_cache now cache)
  unfolding prune_replay_cache
  Keeps-prune n now cache fresh room k =
      Keeps-drop_oldest n (filter (is_fresh now) cache) room (Keeps-filter n now cache fresh k)

  -- One more delivery, by any key, keeps the entry and adds at most one behind it.
  pub Keeps-is_replay_event :
      (n : ℕ) (other : String) (now : ℕ) (cache : ReplayCache)
      → now ≤ t + replay_ttl_ms
      → n < replay_max_size
      → Keeps key t n cache
      → Keeps key t (n + 1) (is_replay_event other now cache).0
  unfolding is_replay_event
  Keeps-is_replay_event n other now cache fresh room k =
      let pruned = prune_replay_cache now cache in
      let kept = Keeps-prune n now cache fresh room k in
      elim (Option-cases (get other pruned)) [
        | inl absent ↦
            rw absent
              (rw (put_absent other now pruned absent) (Keeps-snoc n pruned (other, now) kept))
        | inr (s, present) ↦ rw present (Keeps-mono n (n + 1) pruned (omega arith) kept)
      ]

  pub Keeps-detected :
      (n now : ℕ) (cache : ReplayCache)
      → now ≤ t + replay_ttl_ms
      → n < replay_max_size
      → Keeps key t n cache
      → (is_replay_event key now cache).1 ≡ true
  unfolding is_replay_event
  Keeps-detected n now cache fresh room k =
      rw (Keeps-has n _ (Keeps-prune n now cache fresh room k))

Keeps-last : (key : String) (t : ℕ) (cache : ReplayCache) → Keeps key t 0 (cache ++ (key, t) ∷ [])
Keeps-last key t [] = inl (refl, refl, omega arith)
Keeps-last key t (p ∷ cache) = inr (Keeps-last key t cache)

-- A delivery that was not seen before is now kept, with nothing behind it.
pub is_replay_event-Keeps :
    (key : String) (t : ℕ) (cache : ReplayCache)
    → (is_replay_event key t cache).1 ≡ false
    → Keeps key t 0 (is_replay_event key t cache).0
unfolding is_replay_event
is_replay_event-Keeps key t cache h =
    let pruned = prune_replay_cache t cache in
    elim (Option-cases (get key pruned)) [
      | inl absent ↦ rw absent (rw (put_absent key t pruned absent) (Keeps-last key t pruned))
      | inr (s, present) ↦ cc
    ]

-- Deliveries in a row.
unfoldable pub deliver_all : List (String × ℕ) → ReplayCache → ReplayCache
deliver_all [] cache = cache
deliver_all ((key, now) ∷ es) cache = deliver_all es (is_replay_event key now cache).0

Keeps-deliver_all :
    (key : String) (t n : ℕ) (es : List (String × ℕ)) (cache : ReplayCache)
    → All (λ e. e.1 ≤ t + replay_ttl_ms) es
    → n + length es ≤ replay_max_size
    → Keeps key t n cache
    → Keeps key t (n + length es) (deliver_all es cache)
unfolding deliver_all
Keeps-deliver_all key t n [] cache fresh room k = Keeps-mono key t n _ cache (omega arith) k
Keeps-deliver_all key t n ((other, now) ∷ es) cache (fresh, later) room k =
    Keeps-mono key t (n + 1 + length es) _ _ (omega arith) (
      Keeps-deliver_all key t (n + 1) es _ later (omega arith)
        (Keeps-is_replay_event key t n other now cache fresh (omega arith) k))

-- A key that was accepted as new is reported as a replay within fifteen minutes of that, after any
-- deliveries by any keys, as long as they are fewer than a thousand and none is later than the
-- fifteen minutes.
pub replay_detected :
    (key : String) (t now : ℕ) (es : List (String × ℕ)) (cache : ReplayCache)
    → (is_replay_event key t cache).1 ≡ false
    → All (λ e. e.1 ≤ t + replay_ttl_ms) es
    → length es < replay_max_size
    → now ≤ t + replay_ttl_ms
    → (is_replay_event key now (deliver_all es (is_replay_event key t cache).0)).1 ≡ true
replay_detected key t now es cache new fresh room soon =
    Keeps-detected key t (length es) now _ soon room (
      Keeps-mono key t (0 + length es) (length es) _ (omega arith) (
        Keeps-deliver_all key t 0 es _ fresh (omega arith) (is_replay_event-Keeps key t cache new)))
