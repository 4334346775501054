-- ===== src/ApiSchemas/Attempts.antt =====
-- apiSchemas.ts, `withRetry`: which attempts are made, and what they lead to.
use stellar_dex_chat.Common.{
  ℕ, zero, suc, ◌+◌, ◌≤◌, ◌<◌, ◌≡◌, refl, ◌⊎◌, inl, inr, Bool, true, false, ◌∷◌, arith, All, length,
  Bool-cases,
}
use stellar_dex_chat.ApiSchemas.Retry.{
  Outcome, returned, threw, RetryConfig, goes_on, calculate_backoff_delay, Run, ends_at, or_again,
  attempt_from, with_retry,
}

module _ {ℓ} {A : Type ℓ} (jittered : ℕ → ℕ → ℕ) (c : RetryConfig) (fn : ℕ → Outcome A) where
  -- The attempt failed by an error after which the loop goes on.
  abbrev pub is_transient : Outcome A → Bool
  is_transient (returned a) = false
  is_transient (threw e) = goes_on c e

  again-transient :
      (attempt : ℕ) (o : Outcome A) (rest : Run A)
      → is_transient o ≡ true
      → or_again jittered c fn attempt o rest
        ≡ record rest { delays = calculate_backoff_delay jittered attempt c ∷ rest.delays }
  again-transient attempt (returned a) rest h = ground (arith, h)
  again-transient attempt (threw e) rest h = rw h refl

  again-last :
      (attempt : ℕ) (o : Outcome A) (rest : Run A)
      → is_transient o ≡ false
      → or_again jittered c fn attempt o rest ≡ ends_at jittered c fn attempt
  again-last attempt (returned a) rest h = refl
  again-last attempt (threw e) rest h = rw h refl

  -- From an attempt on, with as many left.
  pub record EndsWell (left attempt : ℕ) (r : Run A) : Type ℓ where
    pub outcome : r.result ≡ fn r.last_attempt
    pub begun : attempt ≤ r.last_attempt
    pub within : r.last_attempt ≤ attempt + left
    pub transient_before : (i : ℕ) → attempt ≤ i → i < r.last_attempt → is_transient (fn i) ≡ true
    pub ended : (is_transient (fn r.last_attempt) ≡ false) ⊎ (r.last_attempt ≡ attempt + left)
    pub slept : attempt + length r.delays ≡ r.last_attempt
    pub bounded : All (λ d. d ≤ c.max_delay_ms) r.delays

  ends_at-EndsWell :
      (left attempt : ℕ)
      → (is_transient (fn attempt) ≡ false) ⊎ (attempt ≡ attempt + left)
      → EndsWell left attempt (ends_at jittered c fn attempt)
  ends_at-EndsWell left attempt h = record {
    outcome = refl;
    begun = omega arith;
    within = omega arith;
    transient_before = λ i h h'. absurd (omega arith);
    ended = h;
    slept = omega arith;
    bounded = tt;
  }

  -- The first attempt, or one after it.
  transient_from :
      (attempt last : ℕ)
      → is_transient (fn attempt) ≡ true
      → ((i : ℕ) → attempt + 1 ≤ i → i < last → is_transient (fn i) ≡ true)
      → (i : ℕ) → attempt ≤ i
      → i < last
      → is_transient (fn i) ≡ true
  transient_from attempt last first later i h below =
      let split : (attempt ≡ i) ⊎ (attempt + 1 ≤ i) = omega arith in
      elim split [ inl here ↦ rw⁻¹ here first | inr there ↦ later i there below ]

  again-EndsWell :
      (left attempt : ℕ) (r : Run A)
      → is_transient (fn attempt) ≡ true
      → EndsWell left (attempt + 1) r
      → EndsWell
          (suc left)
          attempt
          (record r { delays = calculate_backoff_delay jittered attempt c ∷ r.delays })
  unfolding calculate_backoff_delay
  again-EndsWell left attempt r first h = record {
    outcome = h.outcome;
    begun = omega (arith, h.begun);
    within = omega (arith, h.within);
    transient_before = transient_from attempt r.last_attempt first h.transient_before;
    ended = elim h.ended [ inl done ↦ inl done | inr last ↦ inr (omega (arith, last)) ];
    slept = omega (arith, h.slept);
    bounded = (omega arith, h.bounded);
  }

  attempt_from-EndsWell :
      (left attempt : ℕ) → EndsWell left attempt (attempt_from jittered c fn left attempt)
  unfolding attempt_from
  attempt_from-EndsWell zero attempt = ends_at-EndsWell zero attempt (inr (omega arith))
  attempt_from-EndsWell (suc left) attempt = elim (Bool-cases (is_transient (fn attempt))) [
    | inl h ↦
        rw (again-transient attempt (fn attempt) (attempt_from jittered c fn left (attempt + 1)) h)
          (again-EndsWell left attempt _ h (attempt_from-EndsWell left (attempt + 1)))
    | inr h ↦
        rw (again-last attempt (fn attempt) (attempt_from jittered c fn left (attempt + 1)) h)
          (ends_at-EndsWell (suc left) attempt (inl h))
  ]

  -- `withRetry` ends with what its last attempt ends with. It makes at most max_retries attempts after
  -- the first; all before the last failed by an error that may be retried, and the last did not, or
  -- no attempt was left. It sleeps between the attempts, never for longer than max_delay_ms.
  pub with_retry-EndsWell : EndsWell c.max_retries 0 (with_retry jittered c fn)
  unfolding with_retry
  with_retry-EndsWell = attempt_from-EndsWell c.max_retries 0
