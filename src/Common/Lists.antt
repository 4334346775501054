-- ===== src/Common/Lists.antt =====
-- Lists measured and cut by native numbers, under the library's names, and predicates on lists.
use Prim.Native.Nat.{ℕ, zero, suc, ◌+◌, ◌-◌, ◌≤◌, min}
use mathlib.Core.Path.{◌≡◌, refl, ap, sym, subst}
use mathlib.Core.Bool.{true, false, Bool, false, ◌||◌}
use mathlib.Core.List.Memᴰ
use mathlib.Core.List.{Memᴰ, List, [], ◌∷◌, ◌++◌, map}
use native.Mathlib.Omega.{arith}
use mathlib.Core.Logic.{inl, inr}
use stellar_dex_chat.Common.Tests.{if◌then◌else◌, Bool-cases}

module _ {ℓ} {A : Type ℓ} where
  abbrev pub length : List A → ℕ
  length [] = 0
  length (x ∷ xs) = suc (length xs)

  abbrev pub take : ℕ → List A → List A
  take zero xs = []
  take (suc n) [] = []
  take (suc n) (x ∷ xs) = x ∷ take n xs

  abbrev pub drop : ℕ → List A → List A
  drop zero xs = xs
  drop (suc n) [] = []
  drop (suc n) (x ∷ xs) = drop n xs

  abbrev pub replicate : ℕ → A → List A
  replicate zero a = []
  replicate (suc n) a = a ∷ replicate n a

  -- `xs.filter(p)`
  abbrev pub filter : (A → Bool) → List A → List A
  filter p [] = []
  filter p (x ∷ xs) = let rest = filter p xs in if p x then x ∷ rest else rest

  -- `xs.some(p)`
  abbrev pub any : (A → Bool) → List A → Bool
  any p [] = false
  any p (x ∷ xs) = p x || any p xs

  -- `xs.slice(-n)`: the last n elements, but all of them for n = 0, since -0 is 0.
  abbrev pub slice_last : ℕ → List A → List A
  slice_last zero xs = xs
  slice_last (suc n) xs = drop (length xs - suc n) xs

  -- How many elements pass the test.
  abbrev pub count_if : (A → Bool) → List A → ℕ
  count_if p [] = 0
  count_if p (x ∷ xs) = let rest = count_if p xs in if p x then suc rest else rest

  pub count_if-append :
      (p : A → Bool) (xs ys : List A) → count_if p (xs ++ ys) ≡ count_if p xs + count_if p ys
  count_if-append p [] ys = omega arith
  count_if-append p (x ∷ xs) ys = ground (arith, count_if-append p xs ys)

  pub any-append_one : (p : A → Bool) (xs : List A) (x : A) → any p (xs ++ x ∷ []) ≡ any p xs || p x
  any-append_one p [] x = ground arith
  any-append_one p (y ∷ ys) x = ground (arith, any-append_one p ys x)

  pub length-append : (xs ys : List A) → length (xs ++ ys) ≡ length xs + length ys
  length-append [] ys = omega arith
  length-append (x ∷ xs) ys = omega (arith, length-append xs ys)

  pub length-replicate : (n : ℕ) (a : A) → length (replicate n a) ≡ n
  length-replicate zero a = refl
  length-replicate (suc n) a = ap suc (length-replicate n a)

  pub length-drop : (n : ℕ) (xs : List A) → length (drop n xs) ≡ length xs - n
  length-drop zero xs = omega arith
  length-drop (suc n) [] = omega arith
  length-drop (suc n) (x ∷ xs) = omega (arith, length-drop n xs)

  pub length-take : (n : ℕ) (xs : List A) → length (take n xs) ≡ min n (length xs)
  length-take zero xs = omega arith
  length-take (suc n) [] = omega arith
  length-take (suc n) (x ∷ xs) = omega (arith, length-take n xs)

  pub take-append-drop : (n : ℕ) (xs : List A) → take n xs ++ drop n xs ≡ xs
  take-append-drop zero xs = refl
  take-append-drop (suc n) [] = refl
  take-append-drop (suc n) (x ∷ xs) = ap (λ ys. x ∷ ys) (take-append-drop n xs)

  pub drop-drop : (m n : ℕ) (xs : List A) → drop n (drop m xs) ≡ drop (m + n) xs
  drop-drop zero n xs = let e : 0 + n ≡ n = omega arith in rw e refl
  drop-drop (suc m) zero [] = let e : suc m + 0 ≡ suc m = omega arith in rw e refl
  drop-drop (suc m) (suc n) [] = let e : suc m + suc n ≡ suc (m + suc n) = omega arith in rw e refl
  drop-drop (suc m) n (x ∷ xs) =
      let e : suc m + n ≡ suc (m + n) = omega arith in rw e (drop-drop m n xs)

  pub length-filter : (p : A → Bool) (xs : List A) → length (filter p xs) ≤ length xs
  length-filter p [] = omega arith
  length-filter p (x ∷ xs) = ground (arith, length-filter p xs)

module _ {ℓ κ} {A : Type ℓ} (P : A → Type κ) where
  abbrev pub All : List A → Type κ
  All [] = Unit
  All (x ∷ xs) = P x × All xs

  pub All-append : (xs ys : List A) → All xs → All ys → All (xs ++ ys)
  All-append [] ys _ k = k
  All-append (x ∷ xs) ys (p, h) k = (p, All-append xs ys h k)

  pub All-append_left : (xs ys : List A) → All (xs ++ ys) → All xs
  All-append_left [] ys h = tt
  All-append_left (x ∷ xs) ys (p, h) = (p, All-append_left xs ys h)

  pub All-append_right : (xs ys : List A) → All (xs ++ ys) → All ys
  All-append_right [] ys h = h
  All-append_right (x ∷ xs) ys (p, h) = All-append_right xs ys h

  pub All-filter : (p : A → Bool) (xs : List A) → All xs → All (filter p xs)
  All-filter p [] h = tt
  All-filter p (x ∷ xs) (h, hs) = ground (arith, All-filter p xs hs)

  pub All-Memᴰ : {x : A} {xs : List A} → Memᴰ x xs → All xs → P x
  All-Memᴰ (Memᴰ.head e) (h, _) = subst P (sym e) h
  All-Memᴰ (Memᴰ.tail m) (_, hs) = All-Memᴰ m hs

  pub All-drop : (n : ℕ) (xs : List A) → All xs → All (drop n xs)
  All-drop zero xs h = h
  All-drop (suc n) [] h = tt
  All-drop (suc n) (x ∷ xs) (_, h) = All-drop n xs h

module _ {ℓ} {A : Type ℓ} (p : A → Bool) where
  pub Memᴰ-filter : {x : A} (xs : List A) → Memᴰ x (filter p xs) → Memᴰ x xs × (p x ≡ true)
  Memᴰ-filter [] m = absurd (Memᴰ.not-nil m)
  Memᴰ-filter {x} (y ∷ ys) m = elim (Bool-cases (p y)) [
    | inl keep ↦ elim (Memᴰ.cases_cons (rw keep at m)) [
      | inl e ↦ (Memᴰ.head e, rw e keep)
      | inr later ↦ let (there, holds) = Memᴰ-filter ys later in (Memᴰ.tail there, holds)
    ]
    | inr dropped ↦
        let (there, holds) = Memᴰ-filter ys (rw dropped at m) in (Memᴰ.tail there, holds)
  ]

  pub filter-Memᴰ : {x : A} {xs : List A} → Memᴰ x xs → p x ≡ true → Memᴰ x (filter p xs)
  filter-Memᴰ (Memᴰ.head e) h = rw (← e) (rw h (Memᴰ.head refl))
  filter-Memᴰ (Memᴰ.tail {x = y} m) h = elim (Bool-cases (p y)) [
    | inl keep ↦ rw keep (Memᴰ.tail (filter-Memᴰ m h))
    | inr dropped ↦ rw dropped (filter-Memᴰ m h)
  ]

module _ {ℓ κ μ} {A : Type ℓ} {B : Type μ} (P : A → Type κ) (f : B → A) where
  pub All-map : (xs : List B) → All (λ x. P (f x)) xs → All P (map f xs)
  All-map [] h = tt
  All-map (x ∷ xs) (p, h) = (p, All-map xs h)
