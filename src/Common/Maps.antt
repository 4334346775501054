-- ===== src/Common/Maps.antt =====
-- A JavaScript `Map` with string keys: an association list in insertion order. Writing to a key
-- that is present keeps its place.
use Prim.Native.Nat.{◌+◌, ◌≤◌}
use Prim.Native.String.{String}
use mathlib.Core.Path.{◌≡◌, refl, sym, ◌∙◌}
use mathlib.Core.Logic.{◌≢◌, inl, inr}
use mathlib.Core.Bool.{Bool}
use mathlib.Core.Option.{Option, none, some}
use mathlib.Core.List.{List, [], ◌∷◌, ◌++◌}
use native.Mathlib.Omega.{arith}
use text.Mathlib.Text.{◌==◌ as str_eq}
use text.Mathlib.TextEquality.{eq_iff}
use stellar_dex_chat.Common.Tests.{if◌then◌else◌, is_some, Bool-cases}
use stellar_dex_chat.Common.Lists.{length}

module _ {ℓ} {V : Type ℓ} where
  -- `map.get(k)`
  unfoldable pub get : String → List (String × V) → Option V
  get k [] = none
  get k ((j, v) ∷ m) = if str_eq j k then some v else get k m

  -- `map.set(k, v)`
  unfoldable pub put : String → V → List (String × V) → List (String × V)
  put k v [] = (k, v) ∷ []
  put k v ((j, w) ∷ m) = if str_eq j k then (j, v) ∷ m else (j, w) ∷ put k v m

  -- `map.delete(k)`
  unfoldable pub delete : String → List (String × V) → List (String × V)
  delete k [] = []
  delete k ((j, w) ∷ m) = if str_eq j k then m else (j, w) ∷ delete k m

  -- `map.has(k)`
  abbrev pub has : String → List (String × V) → Bool
  has k m = is_some (get k m)

  pub get-put :
      (k j : String) (v : V) (m : List (String × V))
      → get j (put k v m) ≡ (if str_eq k j then some v else get j m)
  unfolding get put
  get-put k j v [] = refl
  get-put k j v ((i, w) ∷ m) = ground (arith, eq_iff k j, eq_iff i k, eq_iff i j, get-put k j v m)

  pub get-put_self : (k : String) (v : V) (m : List (String × V)) → get k (put k v m) ≡ some v
  get-put_self k v m = ground (arith, get-put k k v m, eq_iff k k)

  pub get-put_ne :
      (k j : String) (v : V) (m : List (String × V)) → k ≢ j → get j (put k v m) ≡ get j m
  get-put_ne k j v m h = ground (arith, get-put k j v m, eq_iff k j)

  pub put_absent :
      (k : String) (v : V) (m : List (String × V)) → get k m ≡ none → put k v m ≡ m ++ (k, v) ∷ []
  unfolding get put
  put_absent k v [] h = refl
  put_absent k v ((j, w) ∷ m) h = ground (arith, put_absent k v m)

  pub length-put : (k : String) (v : V) (m : List (String × V)) → length (put k v m) ≤ length m + 1
  unfolding put
  length-put k v [] = omega arith
  length-put k v ((j, w) ∷ m) = ground (arith, length-put k v m)

  -- The keys are distinct.
  abbrev pub IsMap : List (String × V) → Type ℓ
  IsMap [] = Unit
  IsMap ((k, v) ∷ m) = (get k m ≡ none) × IsMap m

  pub get-delete_ne : (k j : String) (m : List (String × V)) → k ≢ j → get j (delete k m) ≡ get j m
  unfolding get delete
  get-delete_ne k j [] h = refl
  get-delete_ne k j ((i, w) ∷ m) h = ground (arith, eq_iff i k, eq_iff i j, get-delete_ne k j m h)

  get-delete_self : (k : String) (m : List (String × V)) → IsMap m → get k (delete k m) ≡ none
  unfolding get delete
  get-delete_self k [] h = refl
  get-delete_self k ((i, w) ∷ m) (new, h) = ground (arith, eq_iff i k, get-delete_self k m h)

  pub get-delete :
      (k j : String) (m : List (String × V))
      → IsMap m
      → get j (delete k m) ≡ (if str_eq k j then none else get j m)
  get-delete k j m h = ground (arith, eq_iff k j, get-delete_ne k j m, get-delete_self k m h)

  pub put-IsMap : (k : String) (v : V) (m : List (String × V)) → IsMap m → IsMap (put k v m)
  unfolding put
  put-IsMap k v [] h = (unfold get in refl, tt)
  put-IsMap k v ((j, w) ∷ m) (new, h) = elim (Bool-cases (str_eq j k)) [
    | inl same ↦ rw same (new, h)
    | inr other ↦
        rw other (get-put_ne k j v m (λ e. cc ((eq_iff j k).1 (sym e))) ∙ new, put-IsMap k v m h)
  ]

  pub delete-IsMap : (k : String) (m : List (String × V)) → IsMap m → IsMap (delete k m)
  unfolding delete
  delete-IsMap k [] h = tt
  delete-IsMap k ((j, w) ∷ m) (new, h) = elim (Bool-cases (str_eq j k)) [
    | inl same ↦ rw same h
    | inr other ↦
        rw other (get-delete_ne k j m (λ e. cc ((eq_iff j k).1 (sym e))) ∙ new, delete-IsMap k m h)
  ]
