-- ===== src/Config/Loading.antt =====
-- loadConfig and parseModelLimits of cmd/app/config.go. `getenv` is os.Getenv, and `parse_duration`
-- stands for time.ParseDuration, in nanoseconds. A table of environment variables with their
-- destinations is a list of names and writes.
pub mod Numbers
pub mod Steps
pub mod Accepts
pub mod Positive
pub mod Gateway
use genkit_proxy.Common.{
  ℕ, ◌*◌, String, Bool, true, false, not, Option, none, some, List, [], ◌∷◌, ◌==◌, if◌then◌else◌,
}
use genkit_proxy.Common.Assoc.{insert}
use genkit_proxy.Common.Int.{ℤ, pos}
use genkit_proxy.Common.Text.{trim_space, split, cut_last}
use genkit_proxy.Errors.Chain.{GoError, Message, lit, quoted, opaque, errorf}
use genkit_proxy.Errors.Result.{GoResult, ok, err, ◌>>=◌}
use genkit_proxy.Config.{RateLimits}
use Numbers.{non_negative, positive, parse_bool}

pub record Config : Type 0 where
  pub port : String
  pub read_header_timeout : ℤ
  pub read_timeout : ℤ
  pub write_timeout : ℤ
  pub idle_timeout : ℤ
  pub generate_timeout : ℤ
  pub redis_url : String
  pub redis_cluster_addrs : String
  pub redis_sentinel_addrs : String
  pub redis_master_name : String
  pub rate_limit_rps : ℕ
  pub rate_limit_window : ℤ
  pub limits : RateLimits
  pub cors_allow_origins : String
  pub retry_max_attempts : ℕ
  pub retry_base_backoff : ℤ
  pub cache_enabled : Bool
  pub cache_ttl : ℤ
  pub cache_max_size : ℕ
  pub model_allowlist : List String
  pub gateway_auth_enabled : Bool
  pub gateway_auth_tenants : String
  pub gateway_secrets : String

abbrev pub milliseconds : ℕ → ℤ
milliseconds n = pos (n * 1_000_000)

abbrev pub seconds : ℕ → ℤ
seconds n = pos (n * 1_000_000_000)

unfoldable pub default_config : Config
default_config = record {
  port = "8080";
  read_header_timeout = seconds 10;
  read_timeout = seconds 30;
  write_timeout = seconds 120;
  idle_timeout = seconds 60;
  generate_timeout = seconds 30;
  redis_url = "";
  redis_cluster_addrs = "";
  redis_sentinel_addrs = "";
  redis_master_name = "mymaster";
  rate_limit_rps = 60;
  rate_limit_window = seconds 60;
  limits = record {
    stream_rps = 0;
    google_ai_rps = 0;
    open_ai_rps = 0;
    anthropic_rps = 0;
    vertex_ai_rps = 0;
    by_model = [];
  };
  cors_allow_origins = "*";
  retry_max_attempts = 3;
  retry_base_backoff = milliseconds 100;
  cache_enabled = true;
  cache_ttl = seconds 600;
  cache_max_size = 1024;
  model_allowlist = [];
  gateway_auth_enabled = false;
  gateway_auth_tenants = "";
  gateway_secrets = "";
}

abbrev pub Table : Type 0 → Type 0
Table A = List (String × (A → Config → Config))

unfoldable pub durations : Table ℤ
durations =
    ("READ_HEADER_TIMEOUT", λ d c. record c { read_header_timeout = d })
    ∷ ("READ_TIMEOUT", λ d c. record c { read_timeout = d })
    ∷ ("WRITE_TIMEOUT", λ d c. record c { write_timeout = d })
    ∷ ("IDLE_TIMEOUT", λ d c. record c { idle_timeout = d })
    ∷ ("GENERATE_TIMEOUT", λ d c. record c { generate_timeout = d })
    ∷ ("RATE_LIMIT_WINDOW", λ d c. record c { rate_limit_window = d })
    ∷ ("RETRY_BASE_BACKOFF", λ d c. record c { retry_base_backoff = d })
    ∷ ("GENKIT_CACHE_TTL", λ d c. record c { cache_ttl = d })
    ∷ []

abbrev pub limit_setting : (ℕ → RateLimits → RateLimits) → ℕ → Config → Config
limit_setting put n c = record c { limits = put n c.limits }

unfoldable pub integers : Table ℕ
integers =
    ("RATE_LIMIT_RPS", λ n c. record c { rate_limit_rps = n })
    ∷ ("RATE_LIMIT_STREAM_RPS", limit_setting (λ n l. record l { stream_rps = n }))
    ∷ ("RATE_LIMIT_GOOGLEAI_RPS", limit_setting (λ n l. record l { google_ai_rps = n }))
    ∷ ("RATE_LIMIT_OPENAI_RPS", limit_setting (λ n l. record l { open_ai_rps = n }))
    ∷ ("RATE_LIMIT_ANTHROPIC_RPS", limit_setting (λ n l. record l { anthropic_rps = n }))
    ∷ ("RATE_LIMIT_VERTEXAI_RPS", limit_setting (λ n l. record l { vertex_ai_rps = n }))
    ∷ ("RETRY_MAX_ATTEMPTS", λ n c. record c { retry_max_attempts = n })
    ∷ ("GENKIT_CACHE_MAX_SIZE", λ n c. record c { cache_max_size = n })
    ∷ []

unfoldable pub texts : Table String
texts =
    ("REDIS_URL", λ s c. record c { redis_url = s })
    ∷ ("REDIS_CLUSTER_ADDRS", λ s c. record c { redis_cluster_addrs = s })
    ∷ ("REDIS_SENTINEL_ADDRS", λ s c. record c { redis_sentinel_addrs = s })
    ∷ ("REDIS_MASTER_NAME", λ s c. record c { redis_master_name = s })
    ∷ ("CORS_ALLOW_ORIGINS", λ s c. record c { cors_allow_origins = s })
    ∷ ("GATEWAY_AUTH_TENANTS", λ s c. record c { gateway_auth_tenants = s })
    ∷ ("GATEWAY_SECRETS", λ s c. record c { gateway_secrets = s })
    ∷ []

-- The destinations of the single variables.
abbrev pub set_port : String → Config → Config
set_port s c = record c { port = s }

abbrev pub set_by_model : List (String × ℕ) → Config → Config
set_by_model m c = record c { limits = record (c.limits) { by_model = m } }

abbrev pub set_cache_enabled : Bool → Config → Config
set_cache_enabled b c = record c { cache_enabled = b }

abbrev pub set_model_allowlist : List String → Config → Config
set_model_allowlist l c = record c { model_allowlist = l }

abbrev pub set_gateway_auth_enabled : Bool → Config → Config
set_gateway_auth_enabled b c = record c { gateway_auth_enabled = b }

-- One entry of RATE_LIMIT_MODELS, written into the map.
unfoldable pub parse_entry : String → List (String × ℕ) → GoResult (List (String × ℕ))
parse_entry entry m = if entry == "" then ok m else elim (cut_last b':' entry) [
  | none ↦ err (
      opaque (lit "RATE_LIMIT_MODELS entry " ∷ quoted entry ∷ lit ": missing limit after ':'" ∷ []))
  | some p ↦ elim (positive (p.1)) [
    | none ↦ err (
        opaque (
          lit "RATE_LIMIT_MODELS entry "
          ∷ quoted entry
          ∷ lit ": limit must be a positive integer"
          ∷ []))
    | some n ↦ ok (insert (p.0) n m)
  ]
]

unfoldable pub parse_entries : List String → List (String × ℕ) → GoResult (List (String × ℕ))
parse_entries [] m = ok m
parse_entries (e ∷ es) m = do m' ← parse_entry (trim_space e) m; parse_entries es m'

-- parseModelLimits.
unfoldable pub parse_model_limits : String → GoResult (List (String × ℕ))
unfolding parse_entries
parse_model_limits raw = if raw == "" then ok [] else parse_entries (split b',' raw) []

module _ (parse_duration : String → GoResult ℤ) where
  unfoldable pub duration : String → String → GoResult ℤ
  duration env v = elim (parse_duration v) [
    | ok d ↦ ok d
    | err e ↦ err (errorf (lit env ∷ lit ": " ∷ []) e [])
  ]

abbrev pub or_error {ℓ} : {A : Type ℓ} → Message → Option A → GoResult A
or_error m none = err (opaque m)
or_error m (some a) = ok a

unfoldable pub integer : String → String → GoResult ℕ
integer env v = or_error (lit env ∷ lit ": must be a non-negative integer" ∷ []) (non_negative v)

-- The error of strconv.ParseBool names the text.
unfoldable pub boolean : String → String → GoResult Bool
boolean env v = elim (parse_bool v) [
  | some b ↦ ok b
  | none ↦ err (
      errorf (lit env ∷ lit ": " ∷ [])
        (opaque (lit "strconv.ParseBool: parsing " ∷ quoted v ∷ lit ": invalid syntax" ∷ [])) [])
]

module _ (getenv : String → String) (parse_duration : String → GoResult ℤ) where
  -- What a variable that is set and valid writes; the error of one that is not valid.
  unfoldable pub setting {ℓ} :
      {A : Type ℓ}
      → (String → String → GoResult A)
      → String
      → (A → Config → Config)
      → Config
      → GoResult Config
  setting parse env put c =
      if getenv env == "" then ok c else (parse env (getenv env) >>= λ v. ok (put v c))

  -- One of the loops of loadConfig.
  unfoldable pub settings :
      {A : Type 0} → (String → String → GoResult A) → Table A → Config → GoResult Config
  unfolding setting
  settings parse [] c = ok c
  settings parse (row ∷ rows) c = do c' ← setting parse (row.0) (row.1) c; settings parse rows c'

  -- loadConfig.
  unfoldable pub load_config : GoResult Config
  unfolding settings duration integer boolean parse_model_limits default_config
  load_config = do
    c ← setting (λ env v. ok v) "PORT" set_port default_config
    c ← settings (duration parse_duration) durations c
    c ← settings integer integers c
    c ← settings (λ env v. ok v) texts c
    c ← setting (λ env v. parse_model_limits v) "RATE_LIMIT_MODELS" set_by_model c
    c ← setting boolean "GENKIT_CACHE_ENABLED" set_cache_enabled c
    c ← setting (λ env v. ok (split b',' v)) "MODEL_ALLOWLIST" set_model_allowlist c
    setting boolean "GATEWAY_AUTH_ENABLED" set_gateway_auth_enabled c
