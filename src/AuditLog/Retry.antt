-- ===== src/AuditLog/Retry.antt =====
-- auditLog.ts: attempts with growing delays between them.
use stellar_dex_chat.Common.{
  ℕ, zero, suc, ◌+◌, ◌*◌, ◌^◌, ◌≤◌, ◌<◌, min, ◌≡◌, refl, ◌⊎◌, inl, inr, ap, List, [], ◌∷◌, arith,
  All,
}

pub record RetryOptions : Type 0 where
  pub retries : ℕ
  pub min_delay_ms : ℕ
  pub max_delay_ms : ℕ
  pub factor : ℕ

abbrev pub default_retry_options : RetryOptions
default_retry_options = record { retries = 3; min_delay_ms = 100; max_delay_ms = 2000; factor = 2 }

-- The delay after the attempt of that number.
abbrev pub delay_before : RetryOptions → ℕ → ℕ
delay_before o attempt = min (o.min_delay_ms * o.factor ^ attempt) o.max_delay_ms

-- How an operation ends: with a value, or with an error that is thrown.
pub data Outcome {ℓ κ} (A : Type ℓ) (E : Type κ) : Type (ℓ ⊔ κ) where
  returned : A → Outcome A E
  threw : E → Outcome A E

module _ {ℓ κ} {A : Type ℓ} {E : Type κ} (operation : ℕ → Outcome A E) (o : RetryOptions) where
  abbrev pub or_retry : Outcome A E → ℕ → Outcome A E × List ℕ → Outcome A E × List ℕ
  or_retry (returned a) delay rest = (returned a, [])
  or_retry (threw e) delay rest = (rest.0, delay ∷ rest.1)

  -- The loop from an attempt on, with the number of attempts that may follow it. The operation's
  -- outcomes enter by the number of the attempt; the delays that were waited are returned with it.
  unfoldable pub attempt_from : ℕ → ℕ → Outcome A E × List ℕ
  attempt_from zero attempt = (operation attempt, [])
  attempt_from (suc left) attempt =
      let rest = attempt_from left (attempt + 1) in
      or_retry (operation attempt) (delay_before o attempt) rest

  unfoldable pub retry_with_backoff : Outcome A E × List ℕ
  retry_with_backoff = attempt_from o.retries 0

  abbrev pub IsReturned : Outcome A E → Type 0
  IsReturned (returned a) = Unit
  IsReturned (threw e) = ⊥

  abbrev pub IsThrown : Outcome A E → Type 0
  IsThrown (returned a) = ⊥
  IsThrown (threw e) = Unit

  cases : (x : Outcome A E) → ((a : A) × (x ≡ returned a)) ⊎ ((e : E) × (x ≡ threw e))
  cases (returned a) = inl (a, refl)
  cases (threw e) = inr (e, refl)

  -- The delays after a number of attempts from one on.
  abbrev pub delays : ℕ → ℕ → List ℕ
  delays attempt zero = []
  delays attempt (suc k) = delay_before o attempt ∷ delays (attempt + 1) k

  -- The result of the loop is that of the attempt `k` places on: those before it threw, and it
  -- returned or no attempt was left.
  pub record EndsAfter (left attempt : ℕ) (result : Outcome A E × List ℕ) (k : ℕ)
      : Type (ℓ ⊔ κ) where
    pub within : k ≤ left
    pub outcome : result ≡ (operation (attempt + k), delays attempt k)
    pub threw_before : (i : ℕ) → i < k → IsThrown (operation (attempt + i))
    pub ended : IsReturned (operation (attempt + k)) ⊎ (k ≡ left)

  ends_at_once :
      (left attempt : ℕ) (result : Outcome A E × List ℕ)
      → result ≡ (operation attempt, [])
      → IsReturned (operation attempt) ⊎ (0 ≡ left)
      → EndsAfter left attempt result 0
  ends_at_once left attempt result e h =
      let here : attempt + 0 ≡ attempt = omega arith in
      record {
        within = omega arith;
        outcome = rw here e;
        threw_before = λ i h. absurd (omega arith);
        ended = rw here h;
      }

  threw_from :
      (attempt k : ℕ) (e : E)
      → operation attempt ≡ threw e
      → ((i : ℕ) → i < k → IsThrown (operation (attempt + 1 + i)))
      → (i : ℕ) → i < suc k
      → IsThrown (operation (attempt + i))
  threw_from attempt k e threw_first later zero h =
      let here : attempt + 0 ≡ attempt = omega arith in rw here (rw threw_first tt)
  threw_from attempt k e threw_first later (suc i) h =
      let there : attempt + suc i ≡ attempt + 1 + i = omega arith in
      rw there (later i (omega arith))

  ends_later :
      (left attempt k : ℕ) (rest : Outcome A E × List ℕ) (e : E)
      → operation attempt ≡ threw e
      → EndsAfter left (attempt + 1) rest k
      → EndsAfter (suc left) attempt (rest.0, delay_before o attempt ∷ rest.1) (suc k)
  ends_later left attempt k rest e threw_first h =
      let there : attempt + suc k ≡ attempt + 1 + k = omega arith in
      record {
        within = omega (arith, h.within);
        outcome = rw there (rw h.outcome refl);
        threw_before = threw_from attempt k e threw_first h.threw_before;
        ended = rw there (elim h.ended [ inl done ↦ inl done | inr last ↦ inr (ap suc last) ]);
      }

  attempt_from_lem :
      (left attempt : ℕ) → (k : ℕ) × EndsAfter left attempt (attempt_from left attempt) k
  unfolding attempt_from
  attempt_from_lem zero attempt = (0, ends_at_once 0 attempt _ refl (inr refl))
  attempt_from_lem (suc left) attempt = elim (cases (operation attempt)) [
    | inl (a, e) ↦ (0, ends_at_once (suc left) attempt _ (rw e refl) (inl (rw e tt)))
    | inr (x, e) ↦
        let (k, h) = attempt_from_lem left (attempt + 1) in
        (suc k, rw e (ends_later left attempt k _ x e h))
  ]

  -- The operation is attempted until it returns, at most `retries` times more, and its last outcome is
  -- the result; after the attempt number i the wait is min_delay_ms * factor ^ i, at most max_delay_ms.
  pub retry_with_backoff_lem : (k : ℕ) × EndsAfter o.retries 0 retry_with_backoff k
  unfolding retry_with_backoff
  retry_with_backoff_lem = attempt_from_lem o.retries 0

  delays-bounded : (attempt k : ℕ) → All (λ d. d ≤ o.max_delay_ms) (delays attempt k)
  delays-bounded attempt zero = tt
  delays-bounded attempt (suc k) = (omega arith, delays-bounded (attempt + 1) k)
