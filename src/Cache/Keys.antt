-- ===== src/Cache/Keys.antt =====
-- What the key of a cache entry says of the provider and the API key.
use Prim.Native.Char.{Char, code}
use genkit_proxy.Common.{
  ◌≡◌, refl, sym, ap, ◌∙◌, inl, inr, String, true, false, Option, some, arith,
}
use mathlib.Core.Option.{some-injective}
use genkit_proxy.Common.Text.{cut, contains}
use genkit_proxy.Common.Text.Cut.{cut-append}
use genkit_proxy.Router.{provider_of, plugin_for, is_known_provider}
use genkit_proxy.Router.Known.{known_elim}
use genkit_proxy.Router.Laws.{provider_of-Accepts}
use genkit_proxy.Errors.Result.{ok, GoResult-cases}
use genkit_proxy.Cache.{Query, cache_key, key_of}

-- A digest without collisions.
abbrev pub Injective : (String → String) → Type 0
Injective digest = (s t : String) → digest s ≡ digest t → s ≡ t

unfoldable nul : Char
nul = "\0"

known-nul : (p : String) → is_known_provider p ≡ true → contains (code nul) p ≡ false
unfolding contains nul
known-nul = known_elim (λ p. contains (code nul) p ≡ false) refl refl refl refl

module _ (digest : String → String) (inj : Injective digest) where
  cache_key_inj :
      (p p' a a' : String)
      → is_known_provider p ≡ true
      → is_known_provider p' ≡ true
      → cache_key digest p a ≡ cache_key digest p' a'
      → (p ≡ p') × (a ≡ a')
  unfolding cache_key nul
  cache_key_inj p p' a a' k k' e =
      let cuts = cut-append nul p a (known-nul p k) in
      let cuts' = cut-append nul p' a' (known-nul p' k') in
      let same : Path (Option (String × String)) (some (p, a)) (some (p', a')) =
        sym cuts ∙ ap (cut (code nul)) (inj _ _ e) ∙ cuts' in
      let pair = some-injective _ _ same in
      (ap (λ (r : String × String). r.0) pair, ap (λ (r : String × String). r.1) pair)

  -- The provider of a query with a key.
  pub record Keyed (q : Query) (key : String) : Type 0 where
    pub provider : String
    pub routed : provider_of q.model_name ≡ ok provider
    pub spelled : cache_key digest provider q.api_key ≡ key

  key_of-Keyed : (q : Query) (key : String) → key_of digest q ≡ ok key → Keyed q key
  unfolding key_of
  key_of-Keyed q key h = elim (GoResult-cases (provider_of q.model_name)) [
    | inr (e, bad) ↦ ground arith
    | inl (p, routed) ↦ record { provider = p; routed = routed; spelled = ground arith }
  ]

  -- Queries with one key are for one plugin: the same provider with the same API key.
  pub key_of-plugin_for :
      (q r : Query) (key : String)
      → key_of digest q ≡ ok key
      → key_of digest r ≡ ok key
      → plugin_for q.model_name q.api_key ≡ plugin_for r.model_name r.api_key
  unfolding plugin_for
  key_of-plugin_for q r key h k =
      let a = key_of-Keyed q key h in
      let b = key_of-Keyed r key k in
      let known = (provider_of-Accepts q.model_name a.provider a.routed).1.known in
      let known' = (provider_of-Accepts r.model_name b.provider b.routed).1.known in
      let same =
        cache_key_inj a.provider b.provider q.api_key r.api_key known known'
          (a.spelled ∙ sym b.spelled) in
      ground (arith, a.routed, b.routed, same.0, same.1)
