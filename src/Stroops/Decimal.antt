-- ===== src/Stroops/Decimal.antt =====
-- stroops.ts: decimal digits and their value.
use stellar_dex_chat.Common.{
  ℕ, zero, suc, ◌+◌, ◌-◌, ◌*◌, ◌/◌, ◌%◌, ◌≤◌, ◌<◌, ◌≡◌, refl, ◌∙◌, ap, inl, inr, true, [], ◌∷◌,
  ◌++◌, arith, ltb, length, replicate, length-append, All, All-append, Bool-cases,
}
use stellar_dex_chat.Stroops.{Text, is_digit, value_from, digits, decimal}

abbrev pub IsDigit : ℕ → Type 0
IsDigit c = is_digit c ≡ true

pub value_from-append :
    (acc : ℕ) (xs ys : Text) → value_from acc (xs ++ ys) ≡ value_from (value_from acc xs) ys
unfolding value_from
value_from-append acc [] ys = refl
value_from-append acc (x ∷ xs) ys = value_from-append (acc * 10 + (x - 48)) xs ys

pub value_from-zeros : (n : ℕ) (xs : Text) → value_from 0 (replicate n b'0' ++ xs) ≡ value_from 0 xs
unfolding value_from
value_from-zeros zero xs = refl
value_from-zeros (suc n) xs = value_from-zeros n xs

last-digit : (n : ℕ) → value_from (n / 10) ((b'0' + n % 10) ∷ []) ≡ n
unfolding value_from
last-digit n = omega arith

value_from-digits : (fuel n : ℕ) → n < fuel → value_from 0 (digits fuel n) ≡ n
unfolding digits
value_from-digits zero n h = absurd (omega arith)
value_from-digits (suc fuel) n h = elim (Bool-cases (ltb n 10)) [
  | inl small ↦ rw small (unfold value_from in omega arith)
  | inr large ↦ rw large (
      value_from-append 0 (digits fuel (n / 10)) ((b'0' + n % 10) ∷ [])
      ∙ ap (λ v. value_from v ((b'0' + n % 10) ∷ []))
          (value_from-digits fuel (n / 10) (ground arith))
      ∙ last-digit n)
]

-- The printed digits of a number have its value.
pub big_int-decimal : (n : ℕ) → value_from 0 (decimal n) ≡ n
unfolding decimal
big_int-decimal n = value_from-digits (suc n) n (omega arith)

IsDigit-digits : (fuel n : ℕ) → All IsDigit (digits fuel n)
unfolding digits
IsDigit-digits zero n = tt
IsDigit-digits (suc fuel) n = elim (Bool-cases (ltb n 10)) [
  | inl small ↦ rw small (ground arith, tt)
  | inr large ↦ rw large (
      All-append IsDigit (digits fuel (n / 10)) _ (IsDigit-digits fuel (n / 10)) (ground arith, tt))
]

pub IsDigit-decimal : (n : ℕ) → All IsDigit (decimal n)
unfolding decimal
IsDigit-decimal n = IsDigit-digits (suc n) n

pub decimal-ne-nil : (n : ℕ) → 0 < length (decimal n)
unfolding decimal digits
decimal-ne-nil n = elim (Bool-cases (ltb n 10)) [
  | inl small ↦ rw small (omega arith)
  | inr large ↦ rw large (omega (arith, length-append (digits n (n / 10)) ((b'0' + n % 10) ∷ [])))
]

-- 10 to the power of k.
abbrev pub ten_to : ℕ → ℕ
ten_to zero = 1
ten_to (suc k) = 10 * ten_to k

length-digits : (fuel n k : ℕ) → n < ten_to (suc k) → length (digits fuel n) ≤ suc k
unfolding digits
length-digits zero n k h = omega arith
length-digits (suc fuel) n zero h = ground arith
length-digits (suc fuel) n (suc k) h = elim (Bool-cases (ltb n 10)) [
  | inl small ↦ rw small (omega arith)
  | inr large ↦ rw large (
      omega (
        arith,
        length-append (digits fuel (n / 10)) ((b'0' + n % 10) ∷ []),
        length-digits fuel (n / 10) k (omega arith),
      ))
]

-- A number below ten million has at most seven digits.
pub length-decimal : (n : ℕ) → n < 10000000 → length (decimal n) ≤ 7
unfolding decimal
length-decimal n h = length-digits (suc n) n 6 h
