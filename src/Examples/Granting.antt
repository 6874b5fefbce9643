-- ===== src/Examples/Granting.antt =====
-- A gateway with two tenants.
use genkit_proxy.Common.{
  ℕ, ◌⊎◌, ◌≡◌, ◌↔◌, refl, String, Bool, true, List, [], ◌∷◌, ◌++◌, none, ◌==◌, if◌then◌else◌,
}
use genkit_proxy.Common.Int.{pos}
use Prim.Native.String
use genkit_proxy.Errors.Result.{GoResult, ok}
use genkit_proxy.Auth.{TenantConfig}
use genkit_proxy.Credentials.{CredentialResolver, new_credential_resolver}
use genkit_proxy.Config.Loading.{
  Config, default_config, load_config, setting, settings, durations, integers, texts, boolean,
}
use genkit_proxy.Config.Loading.Numbers.{parse_bool}
use genkit_proxy.Http.{HttpRequest, Writer, write_header, fresh_writer, World}
use genkit_proxy.Metrics.{Meters, no_samples}
use genkit_proxy.RateLimit.Redis.{Redis, answered}
use genkit_proxy.Server.{Backend, serve}
use genkit_proxy.Wiring.{handler_resolver, build_credential_resolver}
use genkit_proxy.Wiring.Assembly.{Backing, backing_limiter, build_handler, build_site, redis_client}
use genkit_proxy.Wiring.Startup.{Outside, Started, start, start_with, new_cache}
use genkit_proxy.Wiring.Exact.{Serves, start_iff_Serves}
use genkit_proxy.Wiring.Gateway.{retrying, Granted, start-Granted}
use genkit_proxy.Examples.{token_id, patient, busy_then_ok}
use genkit_proxy.Examples.Serving.{post}
use genkit_proxy.Examples.Visiting.{midday, call}
use genkit_proxy.Wiring.Grants.{Origin, handler_resolver-Origin}

abbrev digest : String → String
digest token = String.◌++◌ "#" token

abbrev table : List (String × TenantConfig)
table =
    ("#key-1", record { tenant = "acme"; providers = ("openai", "a") ∷ [] })
    ∷ ("#key-2", record { tenant = "bolt"; providers = ("openai", "b") ∷ [] })
    ∷ []

abbrev decode : String → GoResult (List (String × TenantConfig))
decode text = ok table

gateway : Config
unfolding default_config
gateway = record default_config {
  gateway_auth_enabled = true;
  gateway_secrets = " a =sk-1, b=sk=2,";
}

program : Unit {0}
unfolding gateway handler_resolver new_credential_resolver genkit_proxy.Auth.parse_static_secrets
    genkit_proxy.Auth.new_resolver genkit_proxy.Auth.new_static_secret_source
    genkit_proxy.Auth.static_resolve genkit_proxy.Common.Text.split genkit_proxy.Common.Text.cut
    genkit_proxy.Common.Text.trim_space genkit_proxy.Common.Text.is_space
    genkit_proxy.Common.Assoc.insert genkit_proxy.Common.Assoc.lookup
    genkit_proxy.Credentials.resolve genkit_proxy.Auth.resolve genkit_proxy.Router.provider_of
    genkit_proxy.Router.is_known_provider genkit_proxy.Router.is_blank
program = tt

built : (r : CredentialResolver) × (handler_resolver digest decode gateway ≡ ok r)
unfolding program
built = (_, refl)

granted : built.0.resolve "key-2" "openai/gpt" ≡ ok "sk=2"
unfolding program built
granted = refl

handler_resolver-Origin_example : Origin digest decode gateway "key-2" "openai/gpt" "sk=2"
unfolding gateway
handler_resolver-Origin_example =
    handler_resolver-Origin digest decode gateway (built.0) "key-2" "openai/gpt" "sk=2" refl
      (built.1) granted

page : Meters → Writer → Writer
page m w = write_header 200 w

not_found : HttpRequest → String → Writer → Writer
not_found req path w = write_header 404 w

idle_redis : Redis ℕ
idle_redis = record { incr = λ k n. (1, n); pexpireat = λ k t n. n; pttl = λ k n. pos 0 }

variables : String → String
variables name =
    if name == "GATEWAY_AUTH_ENABLED"
    then "true"
    else if name == "GATEWAY_SECRETS"
    then " a =sk-1, b=sk=2,"
    else ""

outside : Outside ℕ String ℕ String String
outside = record {
  getenv = variables;
  parse_duration = λ v. ok (pos 0);
  otel = record {
    new_exporter = ok "exporter";
    int64_counter = λ m i. ok i.name;
    float64_histogram = λ m i. ok i.name;
  };
  parse_url = λ url. ok url;
  connect = λ client. 0;
  redis = idle_redis;
  exchange = λ clock. answered;
  to_lower = token_id;
  digest = digest;
  decode = decode;
  retry_env = patient;
  upstream = λ cfg. busy_then_ok;
  release = "dev";
  build_time = "unknown";
  exposition = page;
  no_pattern = not_found;
}

started : (s : Started ℕ ℕ) × (start outside ≡ ok s)
unfolding program outside variables start start_with build_site build_handler
    build_credential_resolver load_config setting settings durations integers texts default_config
    boolean parse_bool redis_client new_cache genkit_proxy.Metrics.Setup.new_metrics
started = (_, refl)

start_iff_Serves_example : (start outside ≡ ok started.0) ↔ Serves outside started.0
start_iff_Serves_example = start_iff_Serves outside started.0

abbrev idle_backing : World (Backend ℕ) (Backing ℕ)
idle_backing = record {
  generator = record { generator = 2; meters = no_samples; access = []; panics = [] };
  limiter = started.0.backing;
  writer = fresh_writer;
  slot = none;
}

start-Granted_example :
    let site = started.0.site in
    let lim = backing_limiter idle_redis (λ clock. answered) in
    let after = (serve digest site midday call post idle_backing).1 in
    (site.handler.generator
      ≡ retrying token_id digest decode patient busy_then_ok lim started.0.config)
    × ((after.generator.generator ≡ 2)
        ⊎ Granted token_id digest decode patient busy_then_ok lim started.0.config post site.handler
            2 after.generator.generator)
unfolding outside variables parse_bool
start-Granted_example = start-Granted outside started.0 midday call post idle_backing refl started.1
