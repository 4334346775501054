-- ===== src/SensitiveTerms/Loop.antt =====
-- sensitiveTerms.ts: the loop that collects the matches of one term.
use stellar_dex_chat.Common.{
  ℕ, zero, suc, ◌+◌, ◌-◌, ◌≤◌, ◌<◌, ◌≡◌, refl, Bool, true, false, ◌&&◌, none, some, List, [], ◌∷◌,
  any, leb, ltb, arith, inl, inr, All, Option-cases,
}
use stellar_dex_chat.SensitiveTerms.{first_from, find_all}

module _ (test : ℕ → Bool) where
  first_from-hit :
      (left start i : ℕ)
      → first_from test start left ≡ some i
      → (test i ≡ true) × (start ≤ i) × (i ≤ start + left)
  unfolding first_from
  first_from-hit zero start i h = ground arith
  first_from-hit (suc left) start i h = ground (arith, first_from-hit left (suc start) i)

  -- Nothing before the first hit is one.
  first_from-miss :
      (left start j : ℕ)
      → first_from test start left ≡ none
      → start ≤ j
      → j ≤ start + left
      → test j ≡ false
  unfolding first_from
  first_from-miss zero start j h from to = let e : start ≡ j = omega arith in ground arith
  first_from-miss (suc left) start j h from to = ground (arith, first_from-miss left (suc start) j)

  first_from-first :
      (left start i j : ℕ) → first_from test start left ≡ some i → start ≤ j → test j ≡ true → i ≤ j
  unfolding first_from
  first_from-first zero start i j h from hit = ground arith
  first_from-first (suc left) start i j h from hit =
      ground (arith, first_from-first left (suc start) i j)

  first_here : (left start : ℕ) → test start ≡ true → first_from test start left ≡ some start
  unfolding first_from
  first_here zero start hit = ground arith
  first_here (suc left) start hit = ground arith

  -- A place is inside the match that begins at an index.
  abbrev pub covers : ℕ → ℕ → ℕ → Bool
  covers size j i = leb i j && ltb j (i + size)

  -- The indices are places that pass the test, and every place that passes it from the start on is
  -- inside a match.
  abbrev pub Finds : ℕ → ℕ → ℕ → List ℕ → Type 0
  Finds size end start found =
      All (λ i. test i ≡ true) found
      × ((j : ℕ) → start ≤ j → j ≤ end → test j ≡ true → any (covers size j) found ≡ true)

  first_from-Finds :
      (size end start i : ℕ) (found : List ℕ)
      → first_from test start (end - start) ≡ some i
      → start ≤ end
      → Finds size end (i + size) found
      → Finds size end start (i ∷ found)
  first_from-Finds size end start i found h within (hits, complete) = (
    ((first_from-hit (end - start) start i h).0, hits),
    λ j from to hit.
        let earlier : i ≤ j = first_from-first (end - start) start i j h from hit in
        ground (arith, complete j),
  )

  -- For a term that is not empty the loop ends within one round more than there are characters left.
  pub find_all_lem :
      (size end fuel start : ℕ)
      → 1 ≤ size
      → ((i : ℕ) → test i ≡ true → i + size ≤ end)
      → start ≤ end
      → end - start < fuel
      → (found : List ℕ) × (find_all test size end fuel start ≡ some found)
        × Finds size end start found
  unfolding find_all
  find_all_lem size end zero start some_size fit within enough = absurd (omega (arith, enough))
  find_all_lem size end (suc fuel) start some_size fit within enough =
      elim (Option-cases (first_from test start (end - start))) [
        | inl e ↦ (
          [],
          rw e refl,
          (
            tt,
            λ j from to hit.
                let missed = first_from-miss (end - start) start j e from (omega arith) in
                ground arith,
          ),
        )
        | inr (i, e) ↦
            let (hit, later, _) = first_from-hit (end - start) start i e in
            let fits = fit i hit in
            let (found, same, finds) =
              find_all_lem size end fuel (i + size) some_size fit fits (omega arith) in
            (i ∷ found, rw e (rw same refl), first_from-Finds size end start i found e within finds)
      ]

  -- With an empty term that is found, no number of rounds is enough.
  pub find_all_endless :
      (end fuel start : ℕ) → test start ≡ true → find_all test 0 end fuel start ≡ none
  unfolding find_all
  find_all_endless end zero start hit = refl
  find_all_endless end (suc fuel) start hit =
      rw (first_here (end - start) start hit) (
        let e : start + 0 ≡ start = omega arith in rw (e, find_all_endless end fuel start hit) refl)
