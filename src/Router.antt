-- ===== src/Router.antt =====
-- internal/proxy/router.go: from a model name to the provider and its plugin.
pub mod Known
pub mod Laws
pub mod Plugins
use genkit_proxy.Common.{String, Bool, ◌||◌, Option, none, some, List, [], ◌∷◌, ◌==◌, if◌then◌else◌}
use genkit_proxy.Common.Text.{cut, trim_space}
use genkit_proxy.Errors.Chain.{
  GoError, validation, errorf, sentinel, unsupported_provider, lit, quoted, text,
}
use genkit_proxy.Errors.Result.{GoResult, ok, err, ◌>>=◌}

abbrev pub provider_google_ai : String
provider_google_ai = "googleai"

abbrev pub provider_open_ai : String
provider_open_ai = "openai"

abbrev pub provider_anthropic : String
provider_anthropic = "anthropic"

abbrev pub provider_vertex_ai : String
provider_vertex_ai = "vertexai"

unfoldable pub is_known_provider : String → Bool
is_known_provider provider =
    provider == provider_google_ai
    || provider == provider_open_ai
    || provider == provider_anthropic
    || provider == provider_vertex_ai

-- strings.TrimSpace(s) == "".
unfoldable pub is_blank : String → Bool
is_blank s = trim_space s == ""

unfoldable pub not_prefixed : String → GoError
not_prefixed model_name =
    errorf [] (sentinel unsupported_provider)
      (lit ": " ∷ quoted model_name ∷ lit " is not provider-prefixed" ∷ [])

unfoldable pub unsupported : String → GoError
unsupported provider = errorf [] (sentinel unsupported_provider) (lit ": " ∷ quoted provider ∷ [])

unfoldable pub missing_model : GoError
missing_model = validation (text "modelName") (text "missing model after provider prefix")

check_provider : String → String → GoResult String
check_provider provider model =
    if is_known_provider provider
    then (if is_blank model then err missing_model else ok provider)
    else err (unsupported provider)

unfoldable pub provider_of : String → GoResult String
unfolding check_provider
provider_of model_name = elim (cut b'/' model_name) [
  | none ↦ err (not_prefixed model_name)
  | some p ↦ if p.0 == "" then err (not_prefixed model_name) else check_provider (p.0) (p.1)
]

-- The Genkit plugin of a provider, with the credential that it is built with.
pub data Plugin : Type 0 where
  google_ai open_ai anthropic : String → Plugin
  vertex_ai : Plugin

plugin_of : String → String → GoResult Plugin
plugin_of provider api_key =
    if provider == provider_google_ai
    then ok (google_ai api_key)
    else if provider == provider_open_ai
    then ok (open_ai api_key)
    else if provider == provider_anthropic
    then ok (anthropic api_key)
    else if provider == provider_vertex_ai
    then ok vertex_ai
    else err (unsupported provider)

unfoldable pub plugin_for : String → String → GoResult Plugin
unfolding plugin_of
plugin_for model_name api_key = do provider ← provider_of model_name; plugin_of provider api_key
