-- ===== src/Credentials/Laws.antt =====
-- Which key a tenant gets, and which status a failure has.
use genkit_proxy.Common.{
  ◌≡◌, inl, inr, refl, String, true, false, none, some, [], ◌∷◌, ◌==◌, Option-cases, Bool-cases,
  arith, ◌↔◌,
}
use genkit_proxy.Common.Assoc.{lookup}
use genkit_proxy.Errors.{status_for, classify}
use genkit_proxy.Errors.Chain.{
  GoError, Message, lit, quoted, is, as_validation, errorf, sentinel, unsupported_provider,
  unknown_tenant, no_provider_secret, secret_unavailable,
}
use genkit_proxy.Errors.Result.{ok, err, GoResult-cases}
use genkit_proxy.Router.{provider_of, provider_vertex_ai}
use genkit_proxy.Router.Plugins.{provider_of_err}
use genkit_proxy.Auth.{Resolver, Tenant, SecretSource}
use genkit_proxy.Auth
use genkit_proxy.Credentials.{resolve}

-- The errors of a secret source, as its interface asks: each wraps ErrSecretUnavailable.
abbrev pub Honest : SecretSource → Type 0
Honest source =
    (ref : String) (e : GoError)
    → source.resolve_secret ref ≡ err e
    → (is secret_unavailable e ≡ true)
      × (as_validation e ≡ none)
      × (is unsupported_provider e ≡ false)
      × (is unknown_tenant e ≡ false)
      × (is no_provider_secret e ≡ false)

Honest-status :
    (source : SecretSource)
    → Honest source
    → (ref : String) (e : GoError) → source.resolve_secret ref ≡ err e
    → status_for e ≡ 500
unfolding status_for classify
Honest-status source h ref e f = let facts = h ref e f in ground arith

tenant-status : status_for (sentinel unknown_tenant) ≡ 401
unfolding status_for classify is as_validation
tenant-status = refl

no_secret-status : (m : Message) → status_for (errorf [] (sentinel no_provider_secret) m) ≡ 403
unfolding status_for classify is as_validation errorf
no_secret-status m = refl

module _ (digest : String → String) (r : Resolver) where
  -- A known tenant's key for a model: the secret behind the reference that this tenant's own entry
  -- has for the model's provider, and no key for Vertex AI.
  pub data Granted (token model_name key : String) : Type 0 where
    by_secret :
        (p : String) (t : Tenant) (ref : String)
        → provider_of model_name ≡ ok p
        → (p == provider_vertex_ai) ≡ false
        → lookup (digest token) r.tenants ≡ some t
        → lookup p t.secrets ≡ some ref
        → r.source.resolve_secret ref ≡ ok key
        → Granted token model_name key
    by_adc :
        (p : String) (t : Tenant)
        → provider_of model_name ≡ ok p
        → (p == provider_vertex_ai) ≡ true
        → lookup (digest token) r.tenants ≡ some t
        → key ≡ ""
        → Granted token model_name key

  resolve-Granted : (token m key : String) → resolve digest r token m ≡ ok key → Granted token m key
  unfolding resolve Auth.resolve Auth.authenticate
  resolve-Granted token m key h = elim (GoResult-cases (provider_of m)) [
    | inr (e, bad) ↦ ground arith
    | inl (p, routed) ↦ elim (Option-cases (lookup (digest token) r.tenants)) [
      | inl missing ↦ ground arith
      | inr (t, known) ↦ elim (Bool-cases (p == provider_vertex_ai)) [
        | inl adc ↦ by_adc p t routed adc known (ground arith)
        | inr keyed ↦ elim (Option-cases (lookup p t.secrets)) [
          | inl none_for ↦ ground arith
          | inr (ref, named) ↦ by_secret p t ref routed keyed known named (ground arith)
        ]
      ]
    ]
  ]

  Granted-resolve : (token m key : String) → Granted token m key → resolve digest r token m ≡ ok key
  unfolding resolve Auth.resolve Auth.authenticate
  Granted-resolve token m key (by_secret p t ref a b c d e) = ground arith
  Granted-resolve token m key (by_adc p t a b c d) = ground arith

  -- Resolve yields a key exactly when it is granted.
  pub resolve_iff :
      (token m key : String) → (resolve digest r token m ≡ ok key) ↔ Granted token m key
  resolve_iff token m key = (resolve-Granted token m key, Granted-resolve token m key)

  -- Why no key is granted, with the status that the client gets.
  pub data Refused (token model_name : String) (e : GoError) : Type 0 where
    not_routed : provider_of model_name ≡ err e → status_for e ≡ 400 → Refused token model_name e
    unknown :
        (p : String)
        → provider_of model_name ≡ ok p
        → lookup (digest token) r.tenants ≡ none
        → status_for e ≡ 401
        → Refused token model_name e
    no_secret :
        (p : String) (t : Tenant)
        → provider_of model_name ≡ ok p
        → lookup (digest token) r.tenants ≡ some t
        → lookup p t.secrets ≡ none
        → status_for e ≡ 403
        → Refused token model_name e
    unavailable :
        (p ref : String) (t : Tenant)
        → provider_of model_name ≡ ok p
        → lookup (digest token) r.tenants ≡ some t
        → lookup p t.secrets ≡ some ref
        → r.source.resolve_secret ref ≡ err e
        → status_for e ≡ 500
        → Refused token model_name e

  -- With a source that wraps ErrSecretUnavailable, a refusal is one of four, in this order: the
  -- model is not routed (400), the token is no tenant's (401), the tenant has no reference for the
  -- provider (403), or the source fails on the reference (500).
  pub resolve-Refused :
      Honest r.source
      → (token m : String) (e : GoError) → resolve digest r token m ≡ err e
      → Refused token m e
  unfolding resolve Auth.resolve Auth.authenticate
  resolve-Refused honest token m e h = elim (GoResult-cases (provider_of m)) [
    | inr (bad, f) ↦
        let same : bad ≡ e = ground arith in
        not_routed (rw (← same) f) (rw (← same) ((provider_of_err m bad f).0))
    | inl (p, routed) ↦ elim (Option-cases (lookup (digest token) r.tenants)) [
      | inl missing ↦ unknown p routed missing (ground (arith, tenant-status))
      | inr (t, known) ↦ elim (Bool-cases (p == provider_vertex_ai)) [
        | inl adc ↦ ground arith
        | inr keyed ↦ elim (Option-cases (lookup p t.secrets)) [
          | inl none_for ↦ no_secret p t routed known none_for (
              ground (
                arith,
                no_secret-status (lit ": tenant " ∷ quoted t.id ∷ lit " provider " ∷ quoted p ∷ []),
              ))
          | inr (ref, named) ↦
              let failed : r.source.resolve_secret ref ≡ err e = ground arith in
              unavailable p ref t routed known named failed
                (Honest-status r.source honest ref e failed)
        ]
      ]
    ]
  ]
