-- ===== src/Examples/Configuring.antt =====
-- Concrete inputs for the theorems on the loaded configuration.
use genkit_proxy.Common.{
  ℕ, ◌<◌, ◌≡◌, ◌⊎◌, ◌↔◌, refl, Bool, String, Option, none, some, List, [], ◌∷◌, ◌==◌, if◌then◌else◌,
}
use genkit_proxy.Common.Int.{ℤ, pos, negsuc}
use genkit_proxy.Errors.Chain.{text, opaque}
use genkit_proxy.Errors.Result.{GoResult, ok, err}
use genkit_proxy.Config.{limit_for_model}
use genkit_proxy.Config.Loading.{Config, load_config, default_config, seconds, parse_model_limits}
use genkit_proxy.Config.Loading.Numbers.{atoi, non_negative}
use genkit_proxy.Config.Loading.Accepts.{ValidEnv, load_config_iff}
use genkit_proxy.Config.Loading.Steps.{Loads}
use genkit_proxy.Config.Loading.Positive.{load_config-limit_for_model}

-- An environment with three variables.
abbrev environment : String → String
environment name =
    if name == "RATE_LIMIT_MODELS"
    then " googleai/gemini:5,openai/gpt:x:+2"
    else if name == "READ_TIMEOUT"
    then "90s"
    else if name == "RETRY_MAX_ATTEMPTS"
    then "7"
    else ""

abbrev only_90s : String → GoResult ℤ
only_90s s = if s == "90s" then ok (seconds 90) else err (opaque (text "time: invalid duration"))

program : Unit {0}
unfolding load_config genkit_proxy.Config.Loading.durations genkit_proxy.Config.Loading.integers
    genkit_proxy.Config.Loading.texts genkit_proxy.Config.Loading.setting
    genkit_proxy.Config.Loading.parse_entry genkit_proxy.Common.Text.split
    genkit_proxy.Common.Text.cut_last genkit_proxy.Common.Text.trim_space
    genkit_proxy.Common.Text.is_space genkit_proxy.Config.Loading.Numbers.positive atoi non_negative
    genkit_proxy.Common.Assoc.insert default_config parse_model_limits
program = tt

numbers :
    (atoi "-12" ≡ some (negsuc 11))
    × (atoi "+7" ≡ some (pos 7))
    × (atoi "1_0" ≡ none)
    × (atoi "" ≡ none)
    × (atoi "-" ≡ none)
    × (atoi "9223372036854775808" ≡ none)
    × (non_negative "-0" ≡ some 0)
unfolding program
numbers = (refl, refl, refl, refl, refl, refl, refl)

defaults : load_config (λ name. "") only_90s ≡ ok default_config
unfolding program
defaults = refl

abbrev loaded : Config
loaded = record {
  port = "8080";
  read_header_timeout = seconds 10;
  read_timeout = seconds 90;
  write_timeout = seconds 120;
  idle_timeout = seconds 60;
  generate_timeout = seconds 30;
  redis_url = "";
  redis_cluster_addrs = "";
  redis_sentinel_addrs = "";
  redis_master_name = "mymaster";
  rate_limit_rps = 60;
  rate_limit_window = seconds 60;
  limits = record {
    stream_rps = 0;
    google_ai_rps = 0;
    open_ai_rps = 0;
    anthropic_rps = 0;
    vertex_ai_rps = 0;
    by_model = ("googleai/gemini", 5) ∷ ("openai/gpt:x", 2) ∷ [];
  };
  cors_allow_origins = "*";
  retry_max_attempts = 7;
  retry_base_backoff = pos 100_000_000;
  cache_enabled = Bool.true;
  cache_ttl = seconds 600;
  cache_max_size = 1024;
  model_allowlist = [];
  gateway_auth_enabled = Bool.false;
  gateway_auth_tenants = "";
  gateway_secrets = "";
}

loads : load_config environment only_90s ≡ ok loaded
unfolding program
loads = refl

load_config_iff_example : Loads (load_config environment only_90s) ↔ ValidEnv environment only_90s
load_config_iff_example = load_config_iff environment only_90s

load_config-limit_for_model_example :
    (0 < (limit_for_model (λ s. s) loaded.limits "openai/gpt:x").0)
    ⊎ (limit_for_model (λ s. s) loaded.limits "openai/gpt:x" ≡ (0, ""))
load_config-limit_for_model_example =
    load_config-limit_for_model environment only_90s (λ s. s) loaded loads "openai/gpt:x"
