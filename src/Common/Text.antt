-- ===== src/Common/Text.antt =====
-- JavaScript's `trim`, `toLowerCase` and `includes`, on native texts.
use Prim.Native.Char.{code}
use Prim.Native.String.{String}
use Prim.Native.Nat.{ℕ, ◌+◌}
use mathlib.Core.Path.{◌≡◌, refl}
use mathlib.Core.Logic.{◌↔◌}
use native.Mathlib.Omega.{arith}
use mathlib.Core.List.{List, [], ◌∷◌, map}
use mathlib.Core.Bool.{Bool, true, false, ◌&&◌, ◌||◌}
use text.Mathlib.Text.{◌==◌ as str_eq}
use stellar_dex_chat.Common.Tests.{leb, ◌==◌, if◌then◌else◌}

-- The white space and line terminators of ECMAScript.
unfoldable pub is_space : ℕ → Bool
is_space c =
    leb 9 c && leb c 13
    || (c == 32 || c == 160 || c == 0x1680 || leb 0x2000 c && leb c 0x200a)
    || (c == 0x2028 || c == 0x2029 || c == 0x202f || c == 0x205f || c == 0x3000 || c == 0xfeff)

unfoldable pub trim_start : String → String
unfolding is_space
trim_start String.[] = String.[]
trim_start (String.◌∷◌ c s) =
    let rest = trim_start s in if is_space (code c) then rest else String.◌∷◌ c s

unfoldable pub trim_end : String → String
unfolding is_space
trim_end String.[] = String.[]
trim_end (String.◌∷◌ c s) =
    let rest = trim_end s in
    if is_space (code c) && str_eq rest "" then String.[] else String.◌∷◌ c rest

unfoldable pub trim : String → String
unfolding trim_start trim_end
trim s = trim_start (trim_end s)

-- The code points of a text.
abbrev pub codes : String → List ℕ
codes String.[] = []
codes (String.◌∷◌ c s) = code c ∷ codes s

-- `toLowerCase` as far as the ASCII letters of a text go: the letters A to Z, and the Kelvin sign,
-- which becomes a k. No other code point turns into ASCII letters alone.
unfoldable pub to_lower : ℕ → ℕ
to_lower c = if leb b'A' c && leb c b'Z' then c + 32 else if c == 0x212a then b'k' else c

abbrev pub same : List ℕ → List ℕ → Bool
same [] [] = true
same (a ∷ as') (b ∷ bs) = (a == b) && same as' bs
same _ _ = false

abbrev pub starts_with : List ℕ → List ℕ → Bool
starts_with cs [] = true
starts_with [] (k ∷ ks) = false
starts_with (c ∷ cs) (k ∷ ks) = (c == k) && starts_with cs ks

-- `text.includes(key)`
abbrev pub includes : List ℕ → List ℕ → Bool
includes [] ks = starts_with [] ks
includes (c ∷ cs) ks = starts_with (c ∷ cs) ks || includes cs ks

abbrev pub lower_codes : String → List ℕ
lower_codes s = map to_lower (codes s)

pub same_iff : (as' bs : List ℕ) → (same as' bs ≡ true) ↔ (as' ≡ bs)
same_iff [] [] = (λ e. refl, λ e. refl)
same_iff [] (b ∷ bs) = (λ e. ground arith, λ e. ground arith)
same_iff (a ∷ as') [] = (λ e. ground arith, λ e. ground arith)
same_iff (a ∷ as') (b ∷ bs) =
    let rest = same_iff as' bs in (λ e. ground (arith, rest.0), λ e. ground (arith, rest.1))
