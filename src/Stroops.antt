-- ===== src/Stroops.antt =====
-- Dechat/dex_with_fiat_frontend/src/lib/stroops.ts: amounts of XLM as decimal texts and as stroops. A
-- text is the list of its UTF-16 code units, a `bigint` an integer.
pub mod Decimal
pub mod Printing
pub mod Parsing
pub mod RoundTrip
mod Tests
use stellar_dex_chat.Common.{
  ℕ, zero, suc, ◌+◌, ◌-◌, ◌*◌, ◌/◌, ◌%◌, Bool, true, false, ◌&&◌, Option, none, some, List, [], ◌∷◌,
  ◌++◌, leb, ltb, ◌==◌, if◌then◌else◌, length, replicate,
}
use stellar_dex_chat.Common.Text.{is_space}

abbrev pub Text : Type 0
Text = List ℕ

-- `negsuc n` is -(n + 1).
pub data ℤ : Type 0 where
  pos : ℕ → ℤ
  negsuc : ℕ → ℤ

abbrev pub neg : ℕ → ℤ
neg zero = pos 0
neg (suc n) = negsuc n

abbrev pub decimals : ℕ
decimals = 7

abbrev pub divisor : ℕ
divisor = 10000000

abbrev pub is_empty : Text → Bool
is_empty [] = true
is_empty (c ∷ cs) = false

abbrev pub is_digit : ℕ → Bool
is_digit c = leb b'0' c && leb c b'9'

unfoldable pub trim_start : Text → Text
unfolding is_space
trim_start [] = []
trim_start (c ∷ cs) = let rest = trim_start cs in if is_space c then rest else c ∷ cs

unfoldable pub trim_end : Text → Text
unfolding is_space
trim_end [] = []
trim_end (c ∷ cs) = let rest = trim_end cs in if is_space c && is_empty rest then [] else c ∷ rest

unfoldable pub trim : Text → Text
unfolding trim_start trim_end
trim cs = trim_start (trim_end cs)

-- The expression `/^\d*(?:\.\d{0,7})?$/`.
unfoldable pub all_digits : Text → Bool
all_digits [] = true
all_digits (c ∷ cs) = is_digit c && all_digits cs

unfoldable pub is_amount : Text → Bool
unfolding all_digits
is_amount [] = true
is_amount (c ∷ cs) =
    let more = is_amount cs in
    if is_digit c then more else (c == b'.') && leb (length cs) decimals && all_digits cs

-- `text.split('.')`
abbrev pub cons_first : ℕ → List Text → List Text
cons_first c [] = (c ∷ []) ∷ []
cons_first c (p ∷ ps) = (c ∷ p) ∷ ps

unfoldable pub split_dot : Text → List Text
split_dot [] = [] ∷ []
split_dot (c ∷ cs) = let rest = split_dot cs in if c == b'.' then [] ∷ rest else cons_first c rest

-- `const [wholePart = '0', fractionalPart = ''] = ...`
abbrev pub whole_part : List Text → Text
whole_part [] = b'0' ∷ []
whole_part (p ∷ ps) = p

abbrev pub fractional_part : List Text → Text
fractional_part (p ∷ q ∷ ps) = q
fractional_part _ = []

-- `BigInt(text)` of a text of digits.
unfoldable pub value_from : ℕ → Text → ℕ
value_from acc [] = acc
value_from acc (c ∷ cs) = value_from (acc * 10 + (c - b'0')) cs

abbrev pub big_int : Text → ℕ
big_int cs = value_from 0 cs

abbrev pub pad_end : Text → Text
pad_end cs = cs ++ replicate (decimals - length cs) b'0'

abbrev pub pad_start : Text → Text
pad_start cs = replicate (decimals - length cs) b'0' ++ cs

abbrev pub or_zero : Text → Text
or_zero [] = b'0' ∷ []
or_zero (c ∷ cs) = c ∷ cs

-- What `xlmToStroops` does with the parts of a text that has passed the expression.
unfoldable pub scale : Text → Text → Option ℕ
scale whole fraction =
    if is_empty whole && is_empty fraction
    then none
    else some (big_int (or_zero whole) * divisor + big_int (or_zero (pad_end fraction)))

unfoldable pub xlm_to_stroops : Text → Option ℕ
unfolding trim is_amount split_dot scale
xlm_to_stroops xlm =
    let normalized = trim xlm in
    if is_empty normalized
    then none
    else if is_amount normalized
    then scale (whole_part (split_dot normalized)) (fractional_part (split_dot normalized))
    else none

-- `n.toString()`: at most `n + 1` digits.
unfoldable pub digits : ℕ → ℕ → Text
digits zero n = []
digits (suc fuel) n =
    let front = digits fuel (n / 10) in
    if ltb n 10 then (b'0' + n) ∷ [] else front ++ (b'0' + n % 10) ∷ []

unfoldable pub decimal : ℕ → Text
unfolding digits
decimal n = digits (suc n) n

unfoldable pub to_string : ℤ → Text
unfolding decimal
to_string (pos n) = decimal n
to_string (negsuc n) = b'-' ∷ decimal (suc n)

-- Division of `bigint`s rounds towards zero, and the remainder has the sign of the dividend.
abbrev pub whole_of : ℤ → ℤ
whole_of (pos n) = pos (n / divisor)
whole_of (negsuc n) = neg (suc n / divisor)

abbrev pub rest_of : ℤ → ℤ
rest_of (pos n) = pos (n % divisor)
rest_of (negsuc n) = neg (suc n % divisor)

-- `text.replace(/0+$/, '')`
unfoldable pub strip_zeros : Text → Text
strip_zeros [] = []
strip_zeros (c ∷ cs) =
    let rest = strip_zeros cs in if (c == b'0') && is_empty rest then [] else c ∷ rest

abbrev pub join_parts : Text → Text → Text
join_parts whole [] = whole
join_parts whole (c ∷ cs) = whole ++ b'.' ∷ c ∷ cs

unfoldable pub stroops_to_xlm : ℤ → Text
unfolding to_string strip_zeros
stroops_to_xlm value =
    join_parts (to_string (whole_of value)) (strip_zeros (pad_start (to_string (rest_of value))))
