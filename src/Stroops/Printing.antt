-- ===== src/Stroops/Printing.antt =====
-- stroops.ts: padding, and the zeros that are stripped.
use stellar_dex_chat.Common.{
  ℕ, zero, suc, ◌+◌, ◌-◌, ◌≤◌, ◌≡◌, refl, ap, ap₂, sym, inl, inr, true, ◌&&◌, [], ◌∷◌, ◌++◌, arith,
  ◌==◌, ==_iff, length, replicate, length-append, length-replicate, All, All-append, Bool-cases,
  and-true,
}
use stellar_dex_chat.Stroops.{Text, is_empty, strip_zeros, pad_end, pad_start, decimals}
use stellar_dex_chat.Stroops.Decimal.{IsDigit}

module _ where
  is_empty-nil : (cs : Text) → is_empty cs ≡ true → cs ≡ []
  is_empty-nil [] h = refl
  is_empty-nil (c ∷ cs) h = cc

  pub length-strip_zeros : (cs : Text) → length (strip_zeros cs) ≤ length cs
  unfolding strip_zeros
  length-strip_zeros [] = omega arith
  length-strip_zeros (c ∷ cs) = ground (arith, length-strip_zeros cs)

  -- What was stripped is put back by as many zeros as the length lacks.
  strip_zeros-restored :
      (cs : Text) (k : ℕ)
      → k + length (strip_zeros cs) ≡ length cs
      → strip_zeros cs ++ replicate k b'0' ≡ cs
  unfolding strip_zeros
  strip_zeros-restored [] zero e = refl
  strip_zeros-restored [] (suc k) e = absurd (omega arith)
  strip_zeros-restored (c ∷ cs) k e = elim (Bool-cases ((c == b'0') && is_empty (strip_zeros cs))) [
    | inl gone ↦
        let (zero_here, none_left) = and-true gone in
        let nil = is_empty-nil (strip_zeros cs) none_left in
        let count : k ≡ suc (length cs) = omega (arith, rw gone at e) in
        let ih = strip_zeros-restored cs (length cs) (rw nil (omega arith)) in
        rw gone (rw count (ap₂ (λ d ds. d ∷ ds) (sym ((==_iff c b'0').0 zero_here)) (rw nil at ih)))
    | inr kept ↦ rw kept (ap (λ t. c ∷ t) (strip_zeros-restored cs k (omega (arith, rw kept at e))))
  ]

  pub IsDigit-strip_zeros : (cs : Text) → All IsDigit cs → All IsDigit (strip_zeros cs)
  unfolding strip_zeros
  IsDigit-strip_zeros [] h = tt
  IsDigit-strip_zeros (c ∷ cs) (d, h) = ground (arith, IsDigit-strip_zeros cs h)

  IsDigit-zeros : (n : ℕ) → All IsDigit (replicate n b'0')
  IsDigit-zeros zero = tt
  IsDigit-zeros (suc n) = (refl, IsDigit-zeros n)

-- Stripping the zeros of a text of seven digits and padding it again changes nothing.
pub pad_end-strip_zeros : (cs : Text) → length cs ≡ decimals → pad_end (strip_zeros cs) ≡ cs
pad_end-strip_zeros cs h =
    strip_zeros-restored cs (decimals - length (strip_zeros cs))
      (omega (arith, length-strip_zeros cs, h))

pub length-pad_start : (cs : Text) → length cs ≤ decimals → length (pad_start cs) ≡ decimals
length-pad_start cs h = omega (
  arith,
  length-append (replicate (decimals - length cs) b'0') cs,
  length-replicate {A = ℕ} (decimals - length cs) b'0',
)

pub IsDigit-pad_start : (cs : Text) → All IsDigit cs → All IsDigit (pad_start cs)
IsDigit-pad_start cs h =
    All-append IsDigit (replicate (decimals - length cs) b'0') cs (IsDigit-zeros _) h
