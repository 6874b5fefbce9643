-- ===== src/Config/Loading/Numbers.antt =====
-- strconv.Atoi and strconv.ParseBool, as loadConfig uses them; `none` is an error.
use Prim.Native.Char.{code}
use Prim.Native.String.{String, [], ◌∷◌}
use genkit_proxy.Common.{
  ℕ, zero, suc, ◌+◌, ◌-◌, ◌*◌, ◌^◌, Bool, true, false, ◌&&◌, ◌||◌, Option, none, some, ◌==◌, leb,
  ltb, nat_eq, ◌≡◌, ◌↔◌, ◌<◌, arith, if◌then◌else◌,
}
use genkit_proxy.Common.Int.{ℤ, pos, negsuc}

-- The number of a text of digits, behind the number `acc`.
digits : ℕ → String → Option ℕ
digits acc [] = some acc
digits acc (c ∷ s) =
    if leb b'0' (code c) && leb (code c) b'9' then digits (acc * 10 + (code c - b'0')) s else none

unsigned : String → Option ℕ
unsigned s = if s == "" then none else digits 0 s

-- An int has 64 bits.
below_bound : ℕ → Option ℕ → Option ℕ
below_bound bound none = none
below_bound bound (some n) = if ltb n bound then some n else none

positive_sign : Option ℕ → Option ℤ
positive_sign none = none
positive_sign (some n) = some (pos n)

negative_sign : Option ℕ → Option ℤ
negative_sign none = none
negative_sign (some zero) = some (pos 0)
negative_sign (some (suc n)) = some (negsuc n)

unfoldable pub atoi : String → Option ℤ
unfolding digits unsigned below_bound positive_sign negative_sign
atoi [] = none
atoi (c ∷ s) =
    if nat_eq (code c) b'-'
    then negative_sign (below_bound (2 ^ 63 + 1) (unsigned s))
    else if nat_eq (code c) b'+'
    then positive_sign (below_bound (2 ^ 63) (unsigned s))
    else positive_sign (below_bound (2 ^ 63) (unsigned (c ∷ s)))

at_least_zero : Option ℤ → Option ℕ
at_least_zero (some (pos n)) = some n
at_least_zero _ = none

at_least_one : Option ℤ → Option ℕ
at_least_one (some (pos (suc n))) = some (suc n)
at_least_one _ = none

-- strconv.Atoi with the tests `err != nil || n < 0` and `err != nil || n <= 0`.
unfoldable pub non_negative : String → Option ℕ
unfolding at_least_zero
non_negative s = at_least_zero (atoi s)

pub non_negative_iff : (s : String) (n : ℕ) → (non_negative s ≡ some n) ↔ (atoi s ≡ some (pos n))
unfolding non_negative
non_negative_iff s n = go (atoi s)
  where
    go : (a : Option ℤ) → (at_least_zero a ≡ some n) ↔ (a ≡ some (pos n))
    go a = ground arith

unfoldable pub positive : String → Option ℕ
unfolding at_least_one
positive s = at_least_one (atoi s)

pub positive_iff :
    (s : String) (n : ℕ) → (positive s ≡ some n) ↔ ((atoi s ≡ some (pos n)) × (0 < n))
unfolding positive
positive_iff s n = go (atoi s)
  where
    go : (a : Option ℤ) → (at_least_one a ≡ some n) ↔ ((a ≡ some (pos n)) × (0 < n))
    go a = ground arith

unfoldable pub parse_bool : String → Option Bool
parse_bool s =
    if s == "1" || s == "t" || s == "T" || s == "true" || s == "TRUE" || s == "True"
    then some true
    else if s == "0" || s == "f" || s == "F" || s == "false" || s == "FALSE" || s == "False"
    then some false
    else none
