-- ===== src/Wiring/Grants.antt =====
-- The keys that a gateway of this configuration hands out.
use genkit_proxy.Common.{
  ◌≡◌, ◌⊎◌, inl, inr, sym, ◌∙◌, ap, subst, String, true, some, List, ◌==◌, Option-cases, if-on,
  arith,
}
use genkit_proxy.Common.Assoc.{lookup}
use genkit_proxy.Common.Text.{split}
use genkit_proxy.Errors.Result.{GoResult, ok, chain-Succeeds}
use genkit_proxy.Router.{provider_of, provider_vertex_ai}
use genkit_proxy.Auth.{
  SecretSource, Tenant, TenantConfig, static_resolve, new_static_secret_source,
  parse_static_secrets, new_resolver,
}
use genkit_proxy.Auth.Secrets.{Names, Exists, parse_static_secrets-lookup}
use genkit_proxy.Auth.Tenants.{Listed, new_resolver-Made}
use genkit_proxy.Credentials.{CredentialResolver, new_credential_resolver}
use genkit_proxy.Credentials.Laws.{resolve_iff, by_secret, by_adc}
use genkit_proxy.Config.Loading.{Config}
use genkit_proxy.Wiring.{handler_resolver}

static_resolve-lookup :
    (m : List (String × String)) (ref key : String)
    → static_resolve m ref ≡ ok key
    → lookup ref m ≡ some key
unfolding static_resolve
static_resolve-lookup m ref key h = elim (Option-cases (lookup ref m)) [
  | inl missing ↦ ground arith
  | inr (v, found) ↦ ground arith
]

module _ (digest : String → String) (decode : String → GoResult (List (String × TenantConfig)))
    (cfg : Config) where
  -- Where a key comes from: the table lists a tenant under the digest of the token, and either the
  -- model is one of Vertex AI and the key empty, or the tenant's entry for the model's provider is
  -- a ref that an entry of the secrets names with this key.
  pub data Origin (token model_name key : String) : Type 0 where
    origin :
        (p : String) (t : Tenant) (table : List (String × TenantConfig))
        → provider_of model_name ≡ ok p
        → decode cfg.gateway_auth_tenants ≡ ok table
        → Listed (digest token) t table
        → ((p == provider_vertex_ai) ≡ true) × (key ≡ "")
          ⊎ ((ref : String) × (lookup p t.secrets ≡ some ref)
              × Exists (Names ref key) (split b',' cfg.gateway_secrets))
        → Origin token model_name key

  -- With gateway authentication on, a resolver that the start-up builds hands out a key only to a
  -- token whose digest the tenant table lists: the key that an entry of the secrets names under the
  -- ref which this tenant has for the model's provider, and an empty one for Vertex AI.
  pub handler_resolver-Origin :
      (r : CredentialResolver) (token model_name key : String)
      → cfg.gateway_auth_enabled ≡ true
      → handler_resolver digest decode cfg ≡ ok r
      → r.resolve token model_name ≡ ok key
      → Origin token model_name key
  unfolding handler_resolver new_credential_resolver new_static_secret_source
  handler_resolver-Origin r token m key on built given =
      let s =
        chain-Succeeds (parse_static_secrets cfg.gateway_secrets) _
          (sym (if-on cfg.gateway_auth_enabled _ _ on) ∙ built) in
      let n =
        chain-Succeeds
          (new_resolver (decode cfg.gateway_auth_tenants) (some (new_static_secret_source s.value)))
          _ s.remaining in
      let made = new_resolver-Made _ _ n.value n.step in
      let same : new_credential_resolver digest n.value ≡ r = cc (n.remaining) in
      elim ((resolve_iff digest n.value token m key).0
        (ap (λ (x : CredentialResolver). x.resolve token m) same ∙ given)) [
          | by_adc p t routed adc known none_needed ↦
              origin p t made.table routed made.read (made.listed _ t known)
                (inl (adc, none_needed))
          | by_secret p t ref routed keyed known named found ↦
              let value : static_resolve s.value ref ≡ ok key =
                subst (λ (x : SecretSource). x.resolve_secret ref ≡ ok key) made.kept found in
              origin p t made.table routed made.read (made.listed _ t known) (
                inr (
                  ref,
                  named,
                  (parse_static_secrets-lookup cfg.gateway_secrets s.value s.step ref key).0
                      (static_resolve-lookup s.value ref key value),
                ))
        ]
