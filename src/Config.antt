-- ===== src/Config.antt =====
-- limitFor and handlerRateLimitConfig of cmd/app/config.go: the limits that main gives the
-- handler. `to_lower` stands for strings.ToLower. The limits are natural numbers, since loadConfig
-- rejects negative ones.
pub mod Limits
pub mod Loading
use Prim.Native.String
use genkit_proxy.Common.{ℕ, String, Option, none, some, List, ltb, ◌==◌, if◌then◌else◌}
use genkit_proxy.Common.Assoc.{lookup}
use genkit_proxy.Common.Text.{cut_before}
use genkit_proxy.Http.Handler.{HandlerRlConfig}

-- The fields of config that limit requests.
pub record RateLimits : Type 0 where
  pub stream_rps : ℕ
  pub google_ai_rps : ℕ
  pub open_ai_rps : ℕ
  pub anthropic_rps : ℕ
  pub vertex_ai_rps : ℕ
  pub by_model : List (String × ℕ)

module _ (to_lower : String → String) where
  unfoldable pub limit_for : RateLimits → String → ℕ
  limit_for c provider =
      let name = to_lower provider in
      if name == "googleai"
      then c.google_ai_rps
      else if name == "openai"
      then c.open_ai_rps
      else if name == "anthropic"
      then c.anthropic_rps
      else if name == "vertexai"
      then c.vertex_ai_rps
      else 0

  -- The limit of a provider with its key tag, if it has one.
  unfoldable pub provider_limit : RateLimits → String → ℕ × String
  provider_limit c provider =
      let limit = limit_for c provider in
      if ltb 0 limit then (limit, String.◌++◌ "provider:" provider) else (0, "")

  -- LimitForModel.
  unfoldable pub limit_for_model : RateLimits → String → ℕ × String
  unfolding provider_limit
  limit_for_model c model = elim (lookup model c.by_model) [
    | some limit ↦ (limit, String.◌++◌ "model:" model)
    | none ↦ provider_limit c (cut_before b'/' model)
  ]

  unfoldable pub handler_rate_limit_config : RateLimits → HandlerRlConfig
  handler_rate_limit_config c = record {
    stream_limit = c.stream_rps;
    limit_for_model = some (limit_for_model c);
  }
