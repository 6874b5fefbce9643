-- ===== src/Common/Text/Blank.antt =====
-- strings.TrimSpace and texts of white space.
use Prim.Native.Char.{code}
use Prim.Native.String
use text.Mathlib.Text.{◌==◌}
use text.Mathlib.TextLemmas.{cons-append, cons≢nil}
use Prim.Native.String.{String, [], ◌∷◌}
use mathlib.Core.Path.{◌≡◌, refl, ◌∙◌}
use mathlib.Core.Logic.{inl, inr}
use mathlib.Core.Bool.{Bool, true, false, ◌&&◌}
use native.Mathlib.Omega.{arith}
use genkit_proxy.Common.Tests.{text_cases}
use genkit_proxy.Common.Text.{trim_space, trim_left, trim_right, is_space, text_is_empty}

unfoldable pub all_space : String → Bool
all_space [] = true
all_space (c ∷ s) = is_space (code c) && all_space s

trim_right-empty : (s : String) → text_is_empty (trim_right s) ≡ all_space s
unfolding trim_right all_space
trim_right-empty [] = refl
trim_right-empty (c ∷ s) = ground (arith, trim_right-empty s)

all_space-trim_left : (s : String) → all_space (trim_left s) ≡ all_space s
unfolding trim_left all_space
all_space-trim_left [] = refl
all_space-trim_left (c ∷ s) = ground (arith, all_space-trim_left s)

pub trim_space-empty : (s : String) → text_is_empty (trim_space s) ≡ all_space s
unfolding trim_space
trim_space-empty s = trim_right-empty (trim_left s) ∙ all_space-trim_left s

pub text_is_empty-eq : (s : String) → (s == "") ≡ text_is_empty s
text_is_empty-eq [] = refl
text_is_empty-eq (c ∷ s) = elim (text_cases (c ∷ s) "") [
  | inl e ↦ absurd (cons≢nil e.0)
  | inr n ↦ n.1
]

pub all_space-append_left :
    (s t : String) → all_space s ≡ false → all_space (String.◌++◌ s t) ≡ false
unfolding all_space
all_space-append_left [] t h = cc
all_space-append_left (c ∷ s) t h = rw cons-append (ground (arith, all_space-append_left s t))
