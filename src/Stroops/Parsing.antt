-- ===== src/Stroops/Parsing.antt =====
-- stroops.ts: how a text of digits with at most one point is read.
use stellar_dex_chat.Common.{
  ℕ, ◌+◌, ◌*◌, ◌≤◌, ◌<◌, ◌≡◌, refl, ◌∙◌, ap, true, false, some, List, [], ◌∷◌, ◌++◌, arith, length,
  All, All-append, le→leb, append-nil,
}
use stellar_dex_chat.Common.Text.{is_space}
use stellar_dex_chat.Stroops.{
  Text, is_empty, trim_start, trim_end, trim, all_digits, is_amount, split_dot, scale,
  xlm_to_stroops, divisor, value_from, big_int, or_zero, pad_end, decimals,
}
use stellar_dex_chat.Stroops.Decimal.{IsDigit}

-- A text that `xlmToStroops` reads: digits, or digits, a point and digits.
abbrev pub amount_text : Text → Text → Text
amount_text whole fraction = whole ++ b'.' ∷ fraction

abbrev IsSolid : ℕ → Type 0
IsSolid c = is_space c ≡ false

IsSolid-digits : (cs : Text) → All IsDigit cs → All IsSolid cs
unfolding is_space
IsSolid-digits [] h = tt
IsSolid-digits (c ∷ cs) (d, h) = (ground arith, IsSolid-digits cs h)

trim_end_solid : (cs : Text) → All IsSolid cs → trim_end cs ≡ cs
unfolding trim_end
trim_end_solid [] h = refl
trim_end_solid (c ∷ cs) (d, h) = ground (arith, trim_end_solid cs h)

trim_start_solid : (cs : Text) → All IsSolid cs → trim_start cs ≡ cs
unfolding trim_start
trim_start_solid [] h = refl
trim_start_solid (c ∷ cs) (d, h) = ground arith

trim_solid : (cs : Text) → All IsSolid cs → trim cs ≡ cs
unfolding trim
trim_solid cs h = rw (trim_end_solid cs h) (trim_start_solid cs h)

all_digits_lem : (cs : Text) → All IsDigit cs → all_digits cs ≡ true
unfolding all_digits
all_digits_lem [] h = refl
all_digits_lem (c ∷ cs) (d, h) = rw (d, all_digits_lem cs h)

is_amount-append : (ds cs : Text) → All IsDigit ds → is_amount (ds ++ cs) ≡ is_amount cs
unfolding is_amount
is_amount-append [] cs h = refl
is_amount-append (d ∷ ds) cs (p, h) = rw p (is_amount-append ds cs h)

split_dot-append :
    (ds cs : Text) {p : Text} {ps : List Text}
    → All IsDigit ds
    → split_dot cs ≡ p ∷ ps
    → split_dot (ds ++ cs) ≡ (ds ++ p) ∷ ps
unfolding split_dot
split_dot-append [] cs h e = e
split_dot-append (d ∷ ds) cs (p, h) e = ground (arith, split_dot-append ds cs h e)

split_dot_digits : (ds : Text) → All IsDigit ds → split_dot ds ≡ ds ∷ []
split_dot_digits ds h =
    rw (append-nil ds) at (split_dot-append ds [] {p = []} {ps = []} h (unfold split_dot in refl))

is_empty-or_zero : (cs : Text) → big_int (or_zero cs) ≡ big_int cs
is_empty-or_zero [] = unfold value_from in refl
is_empty-or_zero (c ∷ cs) = refl

-- A point and digits behind some digits.
scale_lem :
    (whole fraction : Text)
    → 0 < length whole + length fraction
    → scale whole fraction ≡ some (big_int whole * divisor + big_int (pad_end fraction))
unfolding scale
scale_lem [] [] h = absurd (omega arith)
scale_lem [] (f ∷ fs) h = unfold value_from in refl
scale_lem (c ∷ cs) [] h = refl
scale_lem (c ∷ cs) (f ∷ fs) h = refl

is_amount_lem :
    (whole fraction : Text)
    → All IsDigit whole
    → All IsDigit fraction
    → length fraction ≤ decimals
    → is_amount (amount_text whole fraction) ≡ true
is_amount_lem whole fraction w f short =
    is_amount-append whole (b'.' ∷ fraction) w
    ∙ (unfold is_amount in rw (le→leb _ _ short, all_digits_lem fraction f))

split_dot_lem :
    (whole fraction : Text)
    → All IsDigit whole
    → All IsDigit fraction
    → split_dot (amount_text whole fraction) ≡ whole ∷ fraction ∷ []
split_dot_lem whole fraction w f = rw (append-nil whole) at (
    split_dot-append whole (b'.' ∷ fraction) {p = []} {ps = fraction ∷ []} w
      (unfold split_dot in rw (split_dot_digits fraction f)))

is_empty_split : (xs : Text) (c : ℕ) (ys : Text) → is_empty (xs ++ c ∷ ys) ≡ false
is_empty_split [] c ys = refl
is_empty_split (x ∷ xs) c ys = refl

-- Digits, a point and at most seven digits, not both parts empty, are read as the whole part times
-- ten million plus the fraction padded to seven digits.
pub xlm_to_stroops_amount :
    (whole fraction : Text)
    → All IsDigit whole
    → All IsDigit fraction
    → length fraction ≤ decimals
    → 0 < length whole + length fraction
    → xlm_to_stroops (amount_text whole fraction)
      ≡ some (big_int whole * divisor + big_int (pad_end fraction))
unfolding xlm_to_stroops
xlm_to_stroops_amount whole fraction w f short some_digit =
    let text = amount_text whole fraction in
    let solid =
      All-append IsSolid whole (b'.' ∷ fraction) (IsSolid-digits whole w)
        (unfold is_space in refl, IsSolid-digits fraction f) in
    rw (trim_solid text solid) (
      rw (is_empty_split whole b'.' fraction) (
        rw (is_amount_lem whole fraction w f short)
          (rw (split_dot_lem whole fraction w f) (scale_lem whole fraction some_digit))))

is_amount_digits : (ds : Text) → All IsDigit ds → is_amount ds ≡ true
unfolding is_amount
is_amount_digits [] h = refl
is_amount_digits (d ∷ ds) (p, h) = rw p (is_amount_digits ds h)

big_int_zeros : big_int (pad_end []) ≡ 0
unfolding value_from
big_int_zeros = refl

-- A text of digits alone is read as its value times ten million.
pub xlm_to_stroops_digits :
    (whole : Text)
    → All IsDigit whole
    → 0 < length whole
    → xlm_to_stroops whole ≡ some (big_int whole * divisor)
unfolding xlm_to_stroops
xlm_to_stroops_digits [] w there = absurd (omega arith)
xlm_to_stroops_digits (c ∷ cs) w there = rw (trim_solid (c ∷ cs) (IsSolid-digits (c ∷ cs) w)) (
    rw (is_amount_digits (c ∷ cs) w) (
      rw (split_dot_digits (c ∷ cs) w) (scale_lem (c ∷ cs) [] (omega arith) ∙ ap some no_fraction)))
  where
    no_fraction : big_int (c ∷ cs) * divisor + big_int (pad_end []) ≡ big_int (c ∷ cs) * divisor
    no_fraction = omega (arith, big_int_zeros)
