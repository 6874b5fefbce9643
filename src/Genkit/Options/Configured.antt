-- ===== src/Genkit/Options/Configured.antt =====
-- The configuration of a call of Genkit, said without `config_for`, and lists of translated values.
use genkit_proxy.Common.{String, ◌≡◌, refl, sym, subst, Option, none, some, List, [], ◌∷◌, map}
use genkit_proxy.Common.Int.{ℤ, pos}
use genkit_proxy.Request.{GenerateRequest}
use genkit_proxy.Genkit.{GenerationConfig, or_zero, config_for}

-- Two lists, member by member.
pub data Each {A B : Type 0} (R : A → B → Type 0) : List A → List B → Type 0 where
  nothing : Each R [] []
  next :
      {a : A} {b : B} {xs : List A} {ys : List B} → R a b → Each R xs ys → Each R (a ∷ xs) (b ∷ ys)

pub each-map :
    {A B : Type 0} (R : A → B → Type 0) (f : A → B)
    → ((a : A) → R a (f a))
    → (xs : List A) → Each R xs (map f xs)
each-map R f h [] = nothing
each-map R f h (x ∷ xs) = next (h x) (each-map R f h xs)

-- A number that is given, or zero.
pub data Amount : Option ℤ → ℤ → Type 0 where
  given : (x : ℤ) → Amount (some x) x
  left_out : Amount none (pos 0)

or_zero-Amount : (o : Option ℤ) → Amount o (or_zero o)
or_zero-Amount none = left_out
or_zero-Amount (some x) = given x

-- The configuration: none if the request gives no parameter, and otherwise each one.
pub data Configured (r : GenerateRequest) : Option GenerationConfig → Type 0 where
  default_config :
      r.temperature ≡ none
      → r.max_output_tokens ≡ none
      → r.top_p ≡ none
      → r.top_k ≡ none
      → r.stop_sequences ≡ []
      → Configured r none
  own_config :
      (c : GenerationConfig)
      → Amount r.temperature c.temperature
      → Amount r.max_output_tokens c.max_output_tokens
      → Amount r.top_p c.top_p
      → Amount r.top_k c.top_k
      → c.stop_sequences ≡ r.stop_sequences
      → Configured r (some c)

pub config_for-Configured : (r : GenerateRequest) → Configured r (config_for r)
unfolding config_for
config_for-Configured r =
    go r.temperature r.max_output_tokens r.top_p r.top_k r.stop_sequences refl refl refl refl refl
  where
    every : GenerationConfig
    every = record {
      temperature = or_zero r.temperature;
      max_output_tokens = or_zero r.max_output_tokens;
      top_p = or_zero r.top_p;
      top_k = or_zero r.top_k;
      stop_sequences = r.stop_sequences;
    }

    own : config_for r ≡ some every → Configured r (config_for r)
    own same = subst (Configured r) (sym same) (
        own_config every (or_zero-Amount r.temperature) (or_zero-Amount r.max_output_tokens)
          (or_zero-Amount r.top_p) (or_zero-Amount r.top_k) refl)

    go :
        (t m p k : Option ℤ) (ss : List String)
        → r.temperature ≡ t
        → r.max_output_tokens ≡ m
        → r.top_p ≡ p
        → r.top_k ≡ k
        → r.stop_sequences ≡ ss
        → Configured r (config_for r)
    go none none none none [] a b c d e =
        let same : config_for r ≡ none =
          rw (a, config_for)
            (rw (b, config_for)
              (rw (c, config_for) (rw (d, config_for) (rw (e, config_for) refl)))) in
        subst (Configured r) (sym same) (default_config a b c d e)
    go none none none none (s ∷ ss) a b c d e = own (
        rw (a, config_for)
          (rw (b, config_for) (rw (c, config_for) (rw (d, config_for) (rw (e, config_for) refl)))))
    go none none none (some k) ss a b c d e =
        own (rw (a, config_for) (rw (b, config_for) (rw (c, config_for) (rw (d, config_for) refl))))
    go none none (some p) k ss a b c d e =
        own (rw (a, config_for) (rw (b, config_for) (rw (c, config_for) refl)))
    go none (some m) p k ss a b c d e = own (rw (a, config_for) (rw (b, config_for) refl))
    go (some t) m p k ss a b c d e = own (rw (a, config_for) refl)
