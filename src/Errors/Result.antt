-- ===== src/Errors/Result.antt =====
-- A Go result `(value, error)`, and a check that may find an error.
use genkit_proxy.Common.{
  ◌≡◌, refl, ◌↔◌, ◌⊎◌, inl, inr, Bool, true, false, Option, none, some, arith,
}
use genkit_proxy.Errors.Chain.{GoError}

pub data GoResult {ℓ} (A : Type ℓ) : Type ℓ where
  ok : A → GoResult A
  err : GoError → GoResult A

infixl 5 ◌>>=◌ ◌>>◌
abbrev pub ◌>>=◌ {ℓ κ} : {A : Type ℓ} {B : Type κ} → GoResult A → (A → GoResult B) → GoResult B
ok a >>= f = f a
err e >>= f = err e

-- The `if err != nil { return err }` of a function that returns only an error: the first one wins.
abbrev pub ◌>>◌ : Option GoError → Option GoError → Option GoError
none >> k = k
some e >> k = some e

abbrev pub reject_if : Bool → GoError → Option GoError
reject_if true e = some e
reject_if false e = none

abbrev pub error_of {ℓ} : {A : Type ℓ} → GoResult A → Option GoError
error_of (ok a) = none
error_of (err e) = some e

pub >>-eq-none : (a b : Option GoError) → ((a >> b) ≡ none) ↔ ((a ≡ none) × (b ≡ none))
>>-eq-none a b = ground arith

pub reject_if-eq-none : (b : Bool) (e : GoError) → (reject_if b e ≡ none) ↔ (b ≡ false)
reject_if-eq-none b e = ground arith

pub error_of-eq-none {ℓ} :
    {A : Type ℓ} (r : GoResult A) → (error_of r ≡ none) ↔ ((a : A) × (r ≡ ok a))
error_of-eq-none (ok a) = (λ _. (a, refl), λ _. refl)
error_of-eq-none (err e) = (λ h. cc, λ h. cc (h.1))

pub ok_inj {ℓ} : {A : Type ℓ} {a b : A} → ok a ≡ ok b → a ≡ b
ok_inj e = cc e

pub GoResult-cases {ℓ} :
    {A : Type ℓ} (r : GoResult A) → ((a : A) × (r ≡ ok a)) ⊎ ((e : GoError) × (r ≡ err e))
GoResult-cases (ok a) = inl (a, refl)
GoResult-cases (err e) = inr (e, refl)

-- A chain that succeeds: its first step gave a value, from which the rest succeeds.
pub record Succeeds {ℓ κ} {A : Type ℓ} {B : Type κ} (first : GoResult A) (rest : A → GoResult B)
    (b : B) : Type (ℓ ⊔ κ) where
  pub value : A
  pub step : first ≡ ok value
  pub remaining : rest value ≡ ok b

pub chain-Succeeds {ℓ κ} :
    {A : Type ℓ} {B : Type κ} {b : B} (first : GoResult A) (rest : A → GoResult B)
    → (first >>= rest) ≡ ok b
    → Succeeds first rest b
chain-Succeeds (err e) rest h = cc
chain-Succeeds (ok a) rest h = record { value = a; step = refl; remaining = h }
