-- ===== src/Auth.antt =====
-- internal/auth: resolver.go and source.go. `digest` stands for the hex form of SHA-256. The JSON
-- decoder's answer on GATEWAY_AUTH_TENANTS is an argument of `new_resolver`; its object is the
-- list of its members, in the order in which the range loop meets them.
pub mod Secrets
pub mod Tenants
use genkit_proxy.Common.{String, Option, none, some, List, [], ◌∷◌, ◌==◌, if◌then◌else◌}
use genkit_proxy.Common.Assoc.{lookup, insert}
use genkit_proxy.Common.Text.{split, trim_space, cut}
use genkit_proxy.Errors.Chain.{
  opaque, errorf, sentinel, unknown_tenant, no_provider_secret, secret_unavailable, lit, quoted,
  text,
}
use genkit_proxy.Errors.Result.{GoResult, ok, err, ◌>>=◌}

pub record SecretSource : Type 0 where
  pub resolve_secret : String → GoResult String

-- StaticSecretSource.Resolve.
unfoldable pub static_resolve : List (String × String) → String → GoResult String
static_resolve values ref = elim (lookup ref values) [
  | some value ↦ ok value
  | none ↦ err (errorf [] (sentinel secret_unavailable) (lit ": " ∷ quoted ref ∷ []))
]

unfoldable pub new_static_secret_source : List (String × String) → SecretSource
new_static_secret_source values = record { resolve_secret = static_resolve values }

-- One round of the loop of ParseStaticSecrets, on the trimmed entry.
add_secret : String → List (String × String) → GoResult (List (String × String))
add_secret entry values = if entry == "" then ok values else elim (cut b'=' entry) [
  | none ↦
      err (opaque (lit "GATEWAY_SECRETS entry " ∷ quoted entry ∷ lit ": expected ref=value" ∷ []))
  | some p ↦
      let ref = trim_space p.0 in
      if ref == ""
      then err
          (opaque (lit "GATEWAY_SECRETS entry " ∷ quoted entry ∷ lit ": expected ref=value" ∷ []))
      else elim (lookup ref values) [
        | some old ↦ err (opaque (lit "GATEWAY_SECRETS: duplicate ref " ∷ quoted ref ∷ []))
        | none ↦ ok (insert ref p.1 values)
      ]
]

add_secrets : List String → List (String × String) → GoResult (List (String × String))
unfolding add_secret
add_secrets [] values = ok values
add_secrets (entry ∷ entries) values = do
  values' ← add_secret (trim_space entry) values
  add_secrets entries values'

-- The map that ParseStaticSecrets gives to NewStaticSecretSource.
unfoldable pub parse_static_secrets : String → GoResult (List (String × String))
unfolding add_secrets
parse_static_secrets raw = add_secrets (split b',' raw) []

pub record Tenant : Type 0 where
  pub id : String
  pub secrets : List (String × String)

pub record Resolver : Type 0 where
  pub tenants : List (String × Tenant)
  pub source : SecretSource

pub record TenantConfig : Type 0 where
  pub tenant : String
  pub providers : List (String × String)

-- The loop of NewResolver.
add_tenants :
    List (String × TenantConfig) → List (String × Tenant) → GoResult (List (String × Tenant))
add_tenants [] tenants = ok tenants
add_tenants ((hash, cfg) ∷ raw) tenants =
    let rest =
      add_tenants raw (insert hash (record { id = cfg.tenant; secrets = cfg.providers }) tenants) in
    if cfg.tenant == ""
    then err
        (opaque (lit "GATEWAY_AUTH_TENANTS: entry " ∷ quoted hash ∷ lit " missing tenant" ∷ []))
    else rest

with_source : SecretSource → List (String × Tenant) → Resolver
with_source source tenants = record { tenants = tenants; source = source }

unfoldable pub new_resolver :
    GoResult (List (String × TenantConfig)) → Option SecretSource → GoResult Resolver
unfolding add_tenants with_source
new_resolver decoded none = err (opaque (text "auth: nil SecretSource"))
new_resolver (err e) (some source) = err (errorf (text "GATEWAY_AUTH_TENANTS: ") e [])
new_resolver (ok raw) (some source) = do
  tenants ← add_tenants raw []
  ok (with_source source tenants)

module _ (digest : String → String) where
  -- hashKey.
  unfoldable pub hash_key : String → String
  hash_key gateway_key = digest gateway_key

  -- Resolver.Authenticate; `none` stands for ok == false.
  unfoldable pub authenticate : Resolver → String → Option String
  unfolding hash_key
  authenticate r gateway_key = elim (lookup (hash_key gateway_key) r.tenants) [
    | none ↦ none
    | some t ↦ some t.id
  ]

  -- Resolver.Resolve: the provider key with the tenant's id.
  unfoldable pub resolve : Resolver → String → String → GoResult (String × String)
  unfolding hash_key
  resolve r gateway_key provider = elim (lookup (hash_key gateway_key) r.tenants) [
    | none ↦ err (sentinel unknown_tenant)
    | some t ↦ elim (lookup provider t.secrets) [
      | none ↦ err (
          errorf [] (sentinel no_provider_secret)
            (lit ": tenant " ∷ quoted t.id ∷ lit " provider " ∷ quoted provider ∷ []))
      | some ref ↦ do key ← r.source.resolve_secret ref; ok (key, t.id)
    ]
  ]
