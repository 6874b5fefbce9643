-- ===== src/Common/Text.antt =====
-- What the program uses of Go's package strings, over texts as sequences of Unicode characters.
pub mod Cut
pub mod Blank
pub mod Decimal
use Prim.Native.Nat.{ℕ, ◌+◌}
use Prim.Native.Char.{Char, code}
use Prim.Native.String
use Prim.Native.String.{String, [], ◌∷◌}
use mathlib.Core.Path.{◌≡◌, refl}
use mathlib.Core.Logic.{◌↔◌, ◌≢◌}
use mathlib.Core.Bool.{Bool, true, false, ◌&&◌, ◌||◌}
use mathlib.Core.Option
use mathlib.Core.Option.{Option, none, some}
use mathlib.Core.List.{List, [], ◌∷◌}
use native.Mathlib.Omega.{arith}
use text.Mathlib.Text.{◌==◌}
use text.Mathlib.TextEquality.{eq_iff}
use genkit_proxy.Common.Tests.{leb, nat_eq, if◌then◌else◌}

-- unicode.IsSpace.
unfoldable pub is_space : ℕ → Bool
is_space c =
    (leb 9 c && leb c 13)
    || nat_eq c 32
    || nat_eq c 0x85
    || nat_eq c 0xa0
    || nat_eq c 0x1680
    || (leb 0x2000 c && leb c 0x200a)
    || nat_eq c 0x2028
    || nat_eq c 0x2029
    || nat_eq c 0x202f
    || nat_eq c 0x205f
    || nat_eq c 0x3000

abbrev pub text_is_empty : String → Bool
text_is_empty [] = true
text_is_empty (c ∷ s) = false

trim_left : String → String
trim_left [] = []
trim_left (c ∷ s) = if is_space (code c) then trim_left s else c ∷ s

trim_right : String → String
trim_right [] = []
trim_right (c ∷ s) =
    let rest = trim_right s in if is_space (code c) && text_is_empty rest then [] else c ∷ rest

-- strings.TrimSpace.
unfoldable pub trim_space : String → String
unfolding trim_left trim_right is_space
trim_space s = trim_right (trim_left s)

-- strings.Cut at a one-character separator; `none` stands for found == false.
unfoldable pub cut : ℕ → String → Option (String × String)
cut sep [] = none
cut sep (c ∷ s) =
    if nat_eq (code c) sep
    then some ([], s)
    else Option.map (λ (p : String × String). (c ∷ p.0, p.1)) (cut sep s)

-- The `before` of strings.Cut: the whole text where the separator is not found.
unfoldable pub cut_before : ℕ → String → String
cut_before sep [] = []
cut_before sep (c ∷ s) = if nat_eq (code c) sep then [] else c ∷ cut_before sep s

-- Cut at the last occurrence: strings.LastIndex with the two slices around it.
unfoldable pub cut_last : ℕ → String → Option (String × String)
cut_last sep [] = none
cut_last sep (c ∷ s) = elim (cut_last sep s) [
  | some p ↦ some (c ∷ p.0, p.1)
  | none ↦ if nat_eq (code c) sep then some ([], s) else none
]

-- strings.Contains for a one-character needle.
unfoldable pub contains : ℕ → String → Bool
contains sep [] = false
contains sep (c ∷ s) = nat_eq (code c) sep || contains sep s

-- strings.Split at a one-character separator: never empty, and the parts hold no separator.
abbrev pub push_first : Char → List String → List String
push_first c [] = (c ∷ []) ∷ []
push_first c (w ∷ ws) = (c ∷ w) ∷ ws

unfoldable pub split : ℕ → String → List String
split sep [] = [] ∷ []
split sep (c ∷ s) = if nat_eq (code c) sep then [] ∷ split sep s else push_first c (split sep s)
