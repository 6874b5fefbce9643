-- ===== src/Common/Text/Decimal.antt =====
-- strconv.FormatInt in base ten.
use Prim.Native.Nat.{ℕ, zero, suc, ◌+◌, ◌-◌, ◌*◌, ◌/◌, ◌%◌, ◌<◌}
use Prim.Native.Char.{Char, code}
use Prim.Native.String.{String, [], ◌∷◌}
use mathlib.Core.Path.{◌≡◌, refl, sym, ap, ◌∙◌}
use mathlib.Core.Bool.{true, false}
use native.Mathlib.Omega.{arith}
use genkit_proxy.Common.Tests.{
  ltb, nat_eq_iff, all_below, all_below-true, nat_eq, if◌then◌else◌, Bool-cases,
}
use genkit_proxy.Common.Int.{ℤ, pos, negsuc}
use genkit_proxy.Common.Text.{contains}
use mathlib.Core.Logic.{◌⊎◌, ◌≢◌, inl, inr}
use text.Mathlib.TextLemmas.{tail-eq_of_cons-eq}

digit : ℕ → Char
digit d =
    if nat_eq d 0
    then "0"
    else if nat_eq d 1
    then "1"
    else if nat_eq d 2
    then "2"
    else if nat_eq d 3
    then "3"
    else if nat_eq d 4
    then "4"
    else if nat_eq d 5
    then "5"
    else if nat_eq d 6
    then "6"
    else if nat_eq d 7
    then "7"
    else if nat_eq d 8
    then "8"
    else "9"

code-digit : (d : ℕ) → d < 10 → code (digit d) ≡ 48 + d
unfolding digit all_below
code-digit d h =
    (nat_eq_iff (code (digit d)) (48 + d)).0
      (all_below-true 10 (λ d. nat_eq (code (digit d)) (48 + d)) table d h)
  where
    table : all_below 10 (λ d. nat_eq (code (digit d)) (48 + d)) ≡ true
    table = refl

-- The digits of n before `after`; fuel above n is enough.
digits_from : ℕ → ℕ → String → String
digits_from zero n after = after
digits_from (suc fuel) n after =
    let more = digits_from fuel (n / 10) (digit (n % 10) ∷ after) in
    if ltb n 10 then digit n ∷ after else more

unfoldable pub format_nat : ℕ → String
unfolding digits_from digit
format_nat n = digits_from (suc n) n ""

unfoldable pub format_int : ℤ → String
unfolding format_nat
format_int (pos n) = format_nat n
format_int (negsuc n) = "-" ∷ format_nat (suc n)

-- The number that a text of digits stands for, behind the number `acc`.
value : ℕ → String → ℕ
value acc [] = acc
value acc (c ∷ s) = value (acc * 10 + (code c - 48)) s

value-digits_from :
    (fuel n : ℕ) (after : String) → n < fuel → value 0 (digits_from fuel n after) ≡ value n after
unfolding digits_from value
value-digits_from zero n after h = absurd (omega arith)
value-digits_from (suc fuel) n after h = elim (Bool-cases (ltb n 10)) [
  | inl small ↦ rw small (ap (λ (t : ℕ). value t after) (ground (arith, code-digit n)))
  | inr big ↦ rw big (
      value-digits_from fuel (n / 10) (digit (n % 10) ∷ after) (ground arith)
      ∙ ap (λ (t : ℕ). value t after) (omega (arith, code-digit (n % 10) (omega arith))))
]

-- A separator that is no digit.
abbrev NotDigit : ℕ → Type 0
NotDigit sep = (sep < 48) ⊎ (57 < sep)

digit-NotDigit : (sep d : ℕ) → NotDigit sep → d < 10 → nat_eq (code (digit d)) sep ≡ false
digit-NotDigit sep d s h = ground (arith, code-digit d)

contains-digits_from :
    (sep fuel n : ℕ) (after : String)
    → NotDigit sep
    → contains sep (digits_from fuel n after) ≡ contains sep after
unfolding digits_from contains
contains-digits_from sep zero n after s = refl
contains-digits_from sep (suc fuel) n after s = elim (Bool-cases (ltb n 10)) [
  | inl small ↦ rw small (rw (digit-NotDigit sep n s (ground arith)) refl)
  | inr big ↦ rw big (
      contains-digits_from sep fuel (n / 10) (digit (n % 10) ∷ after) s
      ∙ rw (digit-NotDigit sep (n % 10) s (omega arith)) refl)
]

value-format_nat : (n : ℕ) → value 0 (format_nat n) ≡ n
unfolding format_nat value
value-format_nat n = value-digits_from (suc n) n "" (omega arith)

contains-format_nat : (sep n : ℕ) → NotDigit sep → contains sep (format_nat n) ≡ false
unfolding format_nat contains
contains-format_nat sep n s = contains-digits_from sep (suc n) n "" s

pub contains-format_int : (z : ℤ) → contains b':' (format_int z) ≡ false
unfolding format_int contains
contains-format_int (pos n) = contains-format_nat b':' n (omega arith)
contains-format_int (negsuc n) = contains-format_nat b':' (suc n) (omega arith)

format_nat_inj : (n m : ℕ) → format_nat n ≡ format_nat m → n ≡ m
format_nat_inj n m e = sym (value-format_nat n) ∙ ap (value 0) e ∙ value-format_nat m

signs_differ : (n m : ℕ) → format_nat n ≢ "-" ∷ format_nat m
unfolding contains
signs_differ n m e =
    cc (sym (contains-format_nat b'-' n (omega arith)) ∙ ap (contains b'-') e ∙ minus)
  where
    minus : contains b'-' ("-" ∷ format_nat m) ≡ true
    minus = refl

-- Different numbers are printed differently.
pub format_int_inj : (y z : ℤ) → format_int y ≡ format_int z → y ≡ z
unfolding format_int
format_int_inj (pos n) (pos m) e = ap pos (format_nat_inj n m e)
format_int_inj (pos n) (negsuc m) e = absurd (signs_differ n (suc m) e)
format_int_inj (negsuc n) (pos m) e = absurd (signs_differ m (suc n) (sym e))
format_int_inj (negsuc n) (negsuc m) e =
    let same = format_nat_inj (suc n) (suc m) (tail-eq_of_cons-eq e) in
    let e : n ≡ m = omega arith in ap negsuc e
