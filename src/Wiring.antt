-- ===== src/Wiring.antt =====
-- The credential resolver that cmd/app/main.go builds. `digest` stands for the hex form of SHA-256
-- and `decode` for the JSON decoder on the tenant table. An error ends the start-up.
pub mod Grants
pub mod Assembly
pub mod Startup
pub mod Choices
pub mod Exact
pub mod Gateway
use genkit_proxy.Common.{String, List, some, if◌then◌else◌}
use genkit_proxy.Errors.Result.{GoResult, ok, err, ◌>>=◌}
use genkit_proxy.Auth.{TenantConfig, parse_static_secrets, new_static_secret_source, new_resolver}
use genkit_proxy.Credentials.{CredentialResolver, passthrough_resolver, new_credential_resolver}
use genkit_proxy.Config.Loading.{Config}

module _ (digest : String → String)
    (decode : String → GoResult (List (String × TenantConfig))) where
  -- buildCredentialResolver.
  unfoldable pub build_credential_resolver : Config → GoResult CredentialResolver
  build_credential_resolver cfg = do
    values ← parse_static_secrets cfg.gateway_secrets
    resolver ←
        new_resolver (decode cfg.gateway_auth_tenants) (some (new_static_secret_source values))
    ok (new_credential_resolver digest resolver)

  -- The resolver of the handler: raw keys pass through unless gateway authentication is on.
  unfoldable pub handler_resolver : Config → GoResult CredentialResolver
  unfolding build_credential_resolver
  handler_resolver cfg =
      if cfg.gateway_auth_enabled then build_credential_resolver cfg else ok passthrough_resolver
