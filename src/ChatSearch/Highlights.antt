-- ===== src/ChatSearch/Highlights.antt =====
-- chatSearch.ts: that the highlights are the occurrences of the keyword.
use stellar_dex_chat.Common.{
  ℕ, zero, suc, ◌+◌, ◌-◌, ◌≤◌, ◌<◌, true, false, ◌≡◌, refl, inl, inr, Option, none, some, List, [],
  ◌∷◌, arith, ltb, length, drop, length-drop, drop-drop, Bool-cases,
}
use stellar_dex_chat.Common.Text.{starts_with}
use stellar_dex_chat.Stroops.{Text, is_empty, trim}
use stellar_dex_chat.ChatSearch.{plus, next, find_in, index_of, continue_at, scan, find_highlights}

-- The key stands in the text at that position.
abbrev pub OccursAt : Text → Text → ℕ → Type 0
OccursAt text key i = starts_with (drop i text) key ≡ true

abbrev pub IsAbsentAt : Text → Text → ℕ → Type 0
IsAbsentAt text key i = starts_with (drop i text) key ≡ false

-- The intervals are the occurrences of the key that a reader from left to right finds from a position
-- on, each sought behind the one before.
abbrev pub IsScan : Text → Text → ℕ → List (ℕ × ℕ) → Type 0
IsScan text key pos [] = (i : ℕ) → pos ≤ i → i < length text → IsAbsentAt text key i
IsScan text key pos ((start, end) ∷ hs) =
    (pos ≤ start)
    × (end ≡ start + length key)
    × (end ≤ length text)
    × OccursAt text key start
    × ((i : ℕ) → pos ≤ i → i < start → IsAbsentAt text key i)
    × IsScan text key end hs

starts_with-length : (text key : Text) → starts_with text key ≡ true → length key ≤ length text
starts_with-length text [] h = omega arith
starts_with-length [] (k ∷ ks) h = absurd (cc h)
starts_with-length (c ∷ cs) (k ∷ ks) h = ground (arith, starts_with-length cs ks)

-- What `find_in` returns for a key that is not empty.
abbrev FindsFirst : Text → Text → Option ℕ → Type 0
FindsFirst key text none = (i : ℕ) → IsAbsentAt text key i
FindsFirst key text (some n) = OccursAt text key n × ((i : ℕ) → i < n → IsAbsentAt text key i)

module _ (c : ℕ) (cs key : Text) (here : starts_with (c ∷ cs) key ≡ false) where
  absent_everywhere : ((i : ℕ) → IsAbsentAt cs key i) → (i : ℕ) → IsAbsentAt (c ∷ cs) key i
  absent_everywhere later zero = here
  absent_everywhere later (suc i) = later i

  absent_below :
      (n : ℕ)
      → ((i : ℕ) → i < n → IsAbsentAt cs key i)
      → (i : ℕ) → i < suc n
      → IsAbsentAt (c ∷ cs) key i
  absent_below n later zero h = here
  absent_below n later (suc i) h = later i (omega arith)

  FindsFirst-next : (o : Option ℕ) → FindsFirst key cs o → FindsFirst key (c ∷ cs) (next o)
  FindsFirst-next none later = absent_everywhere later
  FindsFirst-next (some n) (found, before) = (found, absent_below n before)

absent_nil : (k : ℕ) (ks : Text) (i : ℕ) → IsAbsentAt [] (k ∷ ks) i
absent_nil k ks zero = refl
absent_nil k ks (suc i) = refl

find_in-FindsFirst : (key text : Text) → 0 < length key → FindsFirst key text (find_in key text)
unfolding find_in
find_in-FindsFirst [] text h = absurd (omega arith)
find_in-FindsFirst (k ∷ ks) [] h = absent_nil k ks
find_in-FindsFirst (k ∷ ks) (c ∷ cs) h = elim (Bool-cases (starts_with (c ∷ cs) (k ∷ ks))) [
  | inl here ↦ rw here (here, λ i lt. absurd (omega arith))
  | inr other ↦
      rw other (
        FindsFirst-next c cs (k ∷ ks) other (find_in (k ∷ ks) cs)
          (find_in-FindsFirst (k ∷ ks) cs h))
]

-- What `indexOf` returns.
abbrev FindsFrom : Text → Text → ℕ → Option ℕ → Type 0
FindsFrom key text pos none = (i : ℕ) → pos ≤ i → IsAbsentAt text key i
FindsFrom key text pos (some n) =
    (pos ≤ n) × OccursAt text key n × ((i : ℕ) → pos ≤ i → i < n → IsAbsentAt text key i)

module _ (key text : Text) (pos : ℕ) where
  absent_at : (i : ℕ) → pos ≤ i → IsAbsentAt (drop pos text) key (i - pos) → IsAbsentAt text key i
  absent_at i h absent =
      let e : pos + (i - pos) ≡ i = omega arith in
      rw (← e) (rw (drop-drop pos (i - pos) text) at absent)

  FindsFrom-plus :
      (o : Option ℕ) → FindsFirst key (drop pos text) o → FindsFrom key text pos (plus pos o)
  FindsFrom-plus none absent = λ i h. absent_at i h (absent (i - pos))
  FindsFrom-plus (some n) (found, before) = (
    omega arith,
    rw (drop-drop pos n text) at found,
    λ i h lt. absent_at i h (before (i - pos) (omega arith)),
  )

  index_of-FindsFrom : 0 < length key → FindsFrom key text pos (index_of text key pos)
  unfolding index_of
  index_of-FindsFrom h = FindsFrom-plus _ (find_in-FindsFirst key (drop pos text) h)

occurs-bounded :
    (text key : Text) (i : ℕ) → 0 < length key → OccursAt text key i → i + length key ≤ length text
occurs-bounded text key i h found =
    omega (arith, starts_with-length (drop i text) key found, length-drop i text)

module _ (lower key : Text) (positive : 0 < length key) where
  continue_at-IsScan :
      (fuel pos : ℕ) (rest : ℕ → List (ℕ × ℕ)) (o : Option ℕ)
      → length lower ≤ pos + suc fuel
      → FindsFrom key lower pos o
      → ((p : ℕ) → length lower ≤ p + fuel → IsScan lower key p (rest p))
      → IsScan lower key pos (continue_at (length key) o rest)
  continue_at-IsScan fuel pos rest none h absent k = λ i le lt. absent i le
  continue_at-IsScan fuel pos rest (some n) h (le, found, before) k = (
    le,
    refl,
    occurs-bounded lower key n positive found,
    found,
    before,
    k (n + length key) (omega arith),
  )

  -- A round moves the position on, so that as many rounds as there are characters left are enough.
  scan-IsScan :
      (fuel pos : ℕ) → length lower ≤ pos + fuel → IsScan lower key pos (scan fuel lower key pos)
  unfolding scan
  scan-IsScan zero pos h = λ i le lt. absurd (omega arith)
  scan-IsScan (suc fuel) pos h = elim (Bool-cases (ltb pos (length lower))) [
    | inl more ↦ rw more (
        continue_at-IsScan fuel pos (scan fuel lower key) (index_of lower key pos) h
          (index_of-FindsFrom key lower pos positive) (scan-IsScan fuel))
    | inr over ↦ rw over (λ i le lt. ground arith)
  ]

-- The highlights of a keyword that is not only white space are the occurrences of its lower case form in
-- that of the text, from left to right and without overlap, and there are no others between them.
pub find_highlights_lem :
    (to_lower_case : Text → Text) (time_of : Text → Option ℕ) (text keyword : Text)
    → is_empty (trim keyword) ≡ false
    → 0 < length (to_lower_case keyword)
    → IsScan
        (to_lower_case text)
        (to_lower_case keyword)
        0
        (find_highlights to_lower_case time_of text keyword)
unfolding find_highlights
find_highlights_lem to_lower_case time_of text keyword visible positive =
    rw visible (scan-IsScan (to_lower_case text) (to_lower_case keyword) positive _ 0 (omega arith))
