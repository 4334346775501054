-- ===== src/Stroops/RoundTrip.antt =====
-- stroops.ts: printing an amount and reading it again.
use stellar_dex_chat.Common.{
  ℕ, ◌+◌, ◌*◌, ◌/◌, ◌%◌, ◌≤◌, ◌<◌, ◌≡◌, ◌∙◌, ap, some, [], ◌∷◌, arith, length, All,
}
use stellar_dex_chat.Stroops.{
  Text, pos, decimal, strip_zeros, pad_start, pad_end, join_parts, big_int, value_from, divisor,
  decimals, xlm_to_stroops, stroops_to_xlm,
}
use stellar_dex_chat.Stroops.Decimal.{
  IsDigit, big_int-decimal, IsDigit-decimal, decimal-ne-nil, length-decimal, value_from-zeros,
}
use stellar_dex_chat.Stroops.Printing.{
  pad_end-strip_zeros, length-pad_start, IsDigit-pad_start, IsDigit-strip_zeros, length-strip_zeros,
}
use stellar_dex_chat.Stroops.Parsing.{xlm_to_stroops_amount, xlm_to_stroops_digits}

-- Reading whole digits joined with a fraction that was stripped of zeros.
read_joined :
    (whole fraction : Text)
    → All IsDigit whole
    → All IsDigit fraction
    → 0 < length whole
    → length fraction ≤ decimals
    → xlm_to_stroops (join_parts whole fraction)
      ≡ some (big_int whole * divisor + big_int (pad_end fraction))
read_joined whole [] w f there short =
    xlm_to_stroops_digits whole w there ∙ ap some (unfold value_from in omega arith)
read_joined whole (c ∷ cs) w f there short =
    xlm_to_stroops_amount whole (c ∷ cs) w f short (omega arith)

-- Every amount of stroops that is not negative is printed to a text that is read as the same amount.
pub xlm_to_stroops-stroops_to_xlm : (n : ℕ) → xlm_to_stroops (stroops_to_xlm (pos n)) ≡ some n
unfolding stroops_to_xlm
xlm_to_stroops-stroops_to_xlm n =
    let frac = decimal (n % divisor) in
    let digits-frac = IsDigit-pad_start frac (IsDigit-decimal (n % divisor)) in
    let seven = length-pad_start frac (length-decimal (n % divisor) (omega arith)) in
    read_joined (decimal (n / divisor)) (strip_zeros (pad_start frac))
      (IsDigit-decimal (n / divisor)) (IsDigit-strip_zeros _ digits-frac)
      (decimal-ne-nil (n / divisor)) (omega (arith, length-strip_zeros (pad_start frac), seven))
    ∙ ap some (
        rw (pad_end-strip_zeros (pad_start frac) seven)
          (rw (value_from-zeros _ frac) (rw (big_int-decimal, big_int-decimal) (omega arith))))
