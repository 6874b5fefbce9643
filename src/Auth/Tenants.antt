-- ===== src/Auth/Tenants.antt =====
-- What NewResolver of internal/auth/resolver.go keeps of the tenant table.
use genkit_proxy.Common.{
  ◌≡◌, ◌⊎◌, inl, inr, refl, sym, ◌∙◌, ap, String, Bool-cases, some, List, [], ◌∷◌, ◌==◌, if-on,
  if-off, text_cases,
}
use genkit_proxy.Common.Assoc.{lookup, insert, lookup-insert}
use genkit_proxy.Errors.Result.{GoResult, ok, err, chain-Succeeds}
use genkit_proxy.Auth.{
  SecretSource, Tenant, TenantConfig, Resolver, add_tenants, with_source, new_resolver,
}

-- The table has a member for the hash with this tenant's providers.
abbrev pub Listed : String → Tenant → List (String × TenantConfig) → Type 0
Listed hash t [] = ⊥
Listed hash t (x ∷ xs) =
    ((x.0 ≡ hash) × ((x.1).tenant ≡ t.id) × ((x.1).providers ≡ t.secrets)) ⊎ Listed hash t xs

add_tenants-Listed :
    (raw : List (String × TenantConfig)) (ts ts' : List (String × Tenant)) (hash : String)
    (t : Tenant)
    → add_tenants raw ts ≡ ok ts'
    → lookup hash ts' ≡ some t
    → (lookup hash ts ≡ some t) ⊎ Listed hash t raw
unfolding add_tenants
add_tenants-Listed [] ts ts' hash t eq found = let same : ts ≡ ts' = cc eq in inl (cc (same, found))
add_tenants-Listed ((h, cfg) ∷ raw) ts ts' hash t eq found =
    let tenant : Tenant = record { id = cfg.tenant; secrets = cfg.providers } in
    elim (Bool-cases (cfg.tenant == "")) [
      | inl nameless ↦ cc (sym (if-on (cfg.tenant == "") _ _ nameless) ∙ eq)
      | inr fine ↦
          let deeper =
            add_tenants-Listed raw (insert h tenant ts) ts' hash t
              (sym (if-off (cfg.tenant == "") _ _ fine) ∙ eq) found in
          elim deeper [
            | inr later ↦ inr (inr later)
            | inl here ↦ elim (text_cases h hash) [
              | inl (same, test) ↦
                  let e : tenant ≡ t =
                    cc (sym (lookup-insert h hash tenant ts ∙ if-on (h == hash) _ _ test) ∙ here) in
                  inr (inl (same, ap (λ (x : Tenant). x.id) e, ap (λ (x : Tenant). x.secrets) e))
              | inr (other, test) ↦
                  inl (sym (lookup-insert h hash tenant ts ∙ if-off (h == hash) _ _ test) ∙ here)
            ]
          ]
    ]

-- A resolver that NewResolver made of a decoded table, with the source that it was given.
pub record Made (decoded : GoResult (List (String × TenantConfig))) (source : SecretSource)
    (r : Resolver) : Type 0 where
  pub table : List (String × TenantConfig)
  pub read : decoded ≡ ok table
  pub kept : r.source ≡ source
  pub listed : (hash : String) (t : Tenant) → lookup hash r.tenants ≡ some t → Listed hash t table

pub new_resolver-Made :
    (decoded : GoResult (List (String × TenantConfig))) (source : SecretSource) (r : Resolver)
    → new_resolver decoded (some source) ≡ ok r
    → Made decoded source r
unfolding new_resolver with_source lookup
new_resolver-Made (err e) source r eq = cc eq
new_resolver-Made (ok raw) source r eq =
    let s = chain-Succeeds (add_tenants raw []) (λ tenants. ok (with_source source tenants)) eq in
    let same : with_source source s.value ≡ r = cc (s.remaining) in
    record {
      table = raw;
      read = refl;
      kept = sym (ap (λ (x : Resolver). x.source) same);
      listed = λ hash t found.
          elim (add_tenants-Listed raw [] s.value hash t s.step
            (ap (λ (x : Resolver). lookup hash x.tenants) same ∙ found)) [
              | inl impossible ↦ cc impossible
              | inr l ↦ l
            ];
    }
