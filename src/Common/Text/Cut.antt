-- ===== src/Common/Text/Cut.antt =====
-- strings.Cut against concatenation.
use Prim.Native.Nat.{ℕ}
use Prim.Native.Char.{Char, code}
use Prim.Native.String
use Prim.Native.String.{String, [], ◌∷◌}
use mathlib.Core.Path.{◌≡◌, refl}
use mathlib.Core.Logic.{◌↔◌, inl, inr}
use mathlib.Core.Bool.{false}
use mathlib.Core.Option.{none, some}
use native.Mathlib.Omega.{arith}
use text.Mathlib.TextLemmas.{nil-append, cons-append}
use text.Mathlib.TextEquality.{Char-path}
use genkit_proxy.Common.Tests.{nat_eq, Bool-cases, Option-cases}
use genkit_proxy.Common.Text.{cut, cut_before, cut_last, contains}

-- The separator as a character.
module _ (sep : Char) where
  pub cut-append :
      (b a : String)
      → contains (code sep) b ≡ false
      → cut (code sep) (String.◌++◌ b (sep ∷ a)) ≡ some (b, a)
  unfolding cut contains
  cut-append [] a h = rw nil-append (ground arith)
  cut-append (c ∷ b) a h = rw cons-append (ground (arith, cut-append b a))

  pub append-cut :
      (s b a : String)
      → cut (code sep) s ≡ some (b, a)
      → (s ≡ String.◌++◌ b (sep ∷ a)) × (contains (code sep) b ≡ false)
  unfolding cut contains
  append-cut [] b a h = cc
  append-cut (c ∷ s) b a h = elim (Option-cases (cut (code sep) s)) [
    | inl e ↦ here (ground arith) (ground arith) (ground arith)
    | inr (p, e) ↦ elim (Bool-cases (nat_eq (code c) (code sep))) [
      | inl hit ↦ here (ground arith) (ground arith) (ground arith)
      | inr miss ↦
          let ih = append-cut s (p.0) (p.1) e in
          let eb : c ∷ p.0 ≡ b = ground arith in
          let ea : p.1 ≡ a = ground arith in
          rw (← eb, ← ea) (cons_step c s (p.0) (p.1) ih.0, ground (arith, ih.1))
    ]
  ]
    where
      here :
          code c ≡ code sep
          → b ≡ []
          → a ≡ s
          → (c ∷ s ≡ String.◌++◌ b (sep ∷ a)) × (contains (code sep) b ≡ false)
      here hit eb ea = rw (eb, ea, nil-append, Char-path c sep hit) (refl, refl)

      cons_step :
          (d : Char) (t u v : String)
          → t ≡ String.◌++◌ u (sep ∷ v)
          → d ∷ t ≡ String.◌++◌ (d ∷ u) (sep ∷ v)
      cons_step d t u v e = rw (cons-append, e)

pub cut-contains : (sep : ℕ) (s : String) → (cut sep s ≡ none) ↔ (contains sep s ≡ false)
unfolding cut contains
cut-contains sep [] = ground arith
cut-contains sep (c ∷ s) = ground (arith, cut-contains sep s)

cut_last-none : (sep : ℕ) (s : String) → contains sep s ≡ false → cut_last sep s ≡ none
unfolding cut_last contains
cut_last-none sep [] h = refl
cut_last-none sep (c ∷ s) h = ground (arith, cut_last-none sep s)

pub cut_before-cut : (sep : ℕ) (s b a : String) → cut sep s ≡ some (b, a) → cut_before sep s ≡ b
unfolding cut cut_before
cut_before-cut sep [] b a h = cc
cut_before-cut sep (c ∷ s) b a h = elim (Option-cases (cut sep s)) [
  | inl e ↦ ground arith
  | inr (p, e) ↦ ground (arith, cut_before-cut sep s (p.0) (p.1) e)
]

-- The last separator is the one in front of a text that holds none.
pub cut_last-append :
    (sep : Char) (b a : String)
    → contains (code sep) a ≡ false
    → cut_last (code sep) (String.◌++◌ b (sep ∷ a)) ≡ some (b, a)
unfolding cut_last contains
cut_last-append sep [] a h = rw nil-append (ground (arith, cut_last-none (code sep) a h))
cut_last-append sep (c ∷ b) a h = rw cons-append (ground (arith, cut_last-append sep b a h))
