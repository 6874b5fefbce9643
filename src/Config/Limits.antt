-- ===== src/Config/Limits.antt =====
-- The limits of models and their key tags.
use Prim.Native.Char.{Char, code}
use Prim.Native.String.{String, [], ◌∷◌}
use Prim.Native.String
use text.Mathlib.TextLemmas.{cons-append, append_cancel_left}
use mathlib.Core.Option.{some-injective}
use genkit_proxy.Common.{
  ℕ, ◌≡◌, ◌≢◌, refl, ◌∙◌, ap, sym, inl, inr, some, ltb, arith, Bool-cases, Option-cases,
}
use genkit_proxy.Common.Assoc.{lookup}
use genkit_proxy.Common.Text.{cut_before}
use genkit_proxy.Config.{RateLimits, limit_for, provider_limit, limit_for_model}

-- Where a limit and its tag come from.
data Source (to_lower : String → String) (c : RateLimits) (model : String) (r : ℕ × String)
    : Type 0 where
  of_model :
      (limit : ℕ)
      → lookup model c.by_model ≡ some limit
      → r ≡ (limit, String.◌++◌ "model:" model)
      → Source to_lower c model r
  of_provider :
      (provider : String)
      → r ≡ (limit_for to_lower c provider, String.◌++◌ "provider:" provider)
      → Source to_lower c model r
  unlimited : r ≡ (0, "") → Source to_lower c model r

-- The first letter of a tag.
initial : String → ℕ
initial [] = 0
initial (c ∷ s) = code c

limit : {p q : ℕ × String} → p ≡ q → p.0 ≡ q.0
limit e = ap (λ (r : ℕ × String). r.0) e

tag : {p q : ℕ × String} → p ≡ q → p.1 ≡ q.1
tag e = ap (λ (r : ℕ × String). r.1) e

cons-initial : (a : Char) (s t : String) → initial (String.◌++◌ (a ∷ s) t) ≡ code a
unfolding initial
cons-initial a s t = ap initial (cons-append a s t)

initial-model : (m : String) → initial (String.◌++◌ "model:" m) ≡ 109
initial-model m = cons-initial "m" "odel:" m

initial-provider : (m : String) → initial (String.◌++◌ "provider:" m) ≡ 112
initial-provider m = cons-initial "p" "rovider:" m

-- Texts with different first letters differ.
clash : {s t : String} → s ≡ t → initial s ≢ initial t → ⊥
clash e h = h (ap initial e)

module _ (to_lower : String → String) (c : RateLimits) where
  limit_for_model-Source :
      (model : String) → Source to_lower c model (limit_for_model to_lower c model)
  unfolding limit_for_model provider_limit
  limit_for_model-Source model = elim (Option-cases (lookup model c.by_model)) [
    | inr (limit, e) ↦ of_model limit e (rw (e, limit_for_model) refl)
    | inl e ↦ elim (Bool-cases (ltb 0 (limit_for to_lower c (cut_before b'/' model)))) [
      | inl f ↦
          of_provider (cut_before b'/' model)
            (rw (e, limit_for_model) (rw (f, limit_for_model) refl))
      | inr f ↦ unlimited (rw (e, limit_for_model) (rw (f, limit_for_model) refl))
    ]
  ]

  Source-limit :
      (m n : String) (p q : ℕ × String)
      → Source to_lower c m p
      → Source to_lower c n q
      → p.1 ≡ q.1
      → p.0 ≡ q.0
  unfolding initial
  Source-limit m n p q (of_model k a b) (of_model l d f) e =
      let same : m ≡ n = append_cancel_left "model:" m n (sym (tag b) ∙ e ∙ tag f) in
      limit b
      ∙ some-injective k l (sym a ∙ (ap (λ (x : String). lookup x c.by_model) same ∙ d))
      ∙ sym (limit f)
  Source-limit m n p q (of_provider x a) (of_provider y b) e =
      let same : x ≡ y = append_cancel_left "provider:" x y (sym (tag a) ∙ e ∙ tag b) in
      limit a ∙ ap (limit_for to_lower c) same ∙ sym (limit b)
  Source-limit m n p q (unlimited a) (unlimited b) e = limit a ∙ sym (limit b)
  Source-limit m n p q (of_model k a b) (of_provider y d) e =
      absurd (clash (sym (tag b) ∙ e ∙ tag d) (omega (arith, initial-model m, initial-provider y)))
  Source-limit m n p q (of_model k a b) (unlimited d) e =
      absurd (clash (sym (tag b) ∙ e ∙ tag d) (omega (arith, initial-model m)))
  Source-limit m n p q (of_provider x a) (of_model k b d) e =
      absurd (clash (sym (tag a) ∙ e ∙ tag d) (omega (arith, initial-provider x, initial-model n)))
  Source-limit m n p q (of_provider x a) (unlimited d) e =
      absurd (clash (sym (tag a) ∙ e ∙ tag d) (omega (arith, initial-provider x)))
  Source-limit m n p q (unlimited a) (of_model k b d) e =
      absurd (clash (sym (tag a) ∙ e ∙ tag d) (omega (arith, initial-model n)))
  Source-limit m n p q (unlimited a) (of_provider x d) e =
      absurd (clash (sym (tag a) ∙ e ∙ tag d) (omega (arith, initial-provider x)))

  -- Two models that are checked under the same key tag are checked against the same limit,
  -- whatever the configuration.
  pub limit_for_model-tag :
      (m n : String)
      → (limit_for_model to_lower c m).1 ≡ (limit_for_model to_lower c n).1
      → (limit_for_model to_lower c m).0 ≡ (limit_for_model to_lower c n).0
  limit_for_model-tag m n e =
      Source-limit m n _ _ (limit_for_model-Source m) (limit_for_model-Source n) e
