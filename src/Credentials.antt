-- ===== src/Credentials.antt =====
-- internal/proxy/credentials.go: from the inbound token to the provider's key.
pub mod Laws
use genkit_proxy.Common.{String, Option, none, some, ◌==◌, if◌then◌else◌}
use genkit_proxy.Errors.Chain.{GoError, sentinel, unknown_tenant}
use genkit_proxy.Errors.Result.{GoResult, ok, err, ◌>>=◌}
use genkit_proxy.Router.{provider_of, provider_vertex_ai}
use genkit_proxy.Auth.{Resolver}
use genkit_proxy.Auth

pub record CredentialResolver : Type 0 where
  pub authenticate : String → Option GoError
  pub resolve : String → String → GoResult String

-- passthroughResolver.
abbrev pub passthrough_resolver : CredentialResolver
passthrough_resolver = record {
  authenticate = λ token. none;
  resolve = λ token model_name. ok token;
}

module _ (digest : String → String) (resolver : Resolver) where
  -- secretCredentialResolver.Authenticate.
  unfoldable pub authenticate : String → Option GoError
  authenticate token = elim (Auth.authenticate digest resolver token) [
    | none ↦ some (sentinel unknown_tenant)
    | some tenant_id ↦ none
  ]

  -- secretCredentialResolver.Resolve, once the provider is known.
  resolve_for : String → String → GoResult String
  resolve_for token provider =
      if provider == provider_vertex_ai
      then (elim (Auth.authenticate digest resolver token) [
        | none ↦ err (sentinel unknown_tenant)
        | some tenant_id ↦ ok ""
      ])
      else do found ← Auth.resolve digest resolver token provider; ok found.0

  unfoldable pub resolve : String → String → GoResult String
  unfolding resolve_for
  resolve token model_name = do provider ← provider_of model_name; resolve_for token provider

  -- NewCredentialResolver.
  unfoldable pub new_credential_resolver : CredentialResolver
  new_credential_resolver = record { authenticate = authenticate; resolve = resolve }
