-- ===== src/Wiring/Assembly.antt =====
-- What main of cmd/app/main.go makes of its configuration: the Redis client, the limiter, the
-- handler, and the server around it. `parse_url` stands for redis.ParseURL, whose options are the
-- type `O`, and `connect` for the server that a client reaches; `exchange` says how a call of Redis
-- goes at a reading of the clock. The flags that the linker overrides are arguments.
use genkit_proxy.Common.{ℕ, String, Option, none, some, List, not, ◌&&◌, ◌==◌, if◌then◌else◌}
use genkit_proxy.Common.Text.{split}
use genkit_proxy.Errors.Result.{GoResult, ok, ◌>>=◌}
use genkit_proxy.Auth.{TenantConfig}
use genkit_proxy.Policy.{new_model_allowlist}
use genkit_proxy.Generating.{Generator}
use genkit_proxy.Retry.{Env, new_retrying_generator}
use genkit_proxy.RateLimit.{Clock, Verdict, Limiter}
use genkit_proxy.RateLimit.Memory.{MemLimiter, new_memory_limiter}
use genkit_proxy.RateLimit.Redis.{Redis, RedisLimiter, Exchange, new_redis_limiter}
use genkit_proxy.Http.{HttpRequest, Writer}
use genkit_proxy.Http.Handler.{Handler, new_handler, with_credential_resolver}
use genkit_proxy.Metrics.{Meters}
use genkit_proxy.Config.{handler_rate_limit_config}
use genkit_proxy.Config.Loading.{Config}
use genkit_proxy.Wiring.{build_credential_resolver}
use genkit_proxy.Server.{Site}

pub data RedisClient (O : Type 0) : Type 0 where
  cluster_client : List String → RedisClient O
  failover_client : String → List String → RedisClient O
  single_client : O → RedisClient O

-- The switch over the addresses; no client if none is set.
unfoldable pub redis_client :
    {O : Type 0} → (String → GoResult O) → Config → GoResult (Option (RedisClient O))
redis_client parse_url cfg =
    if not (cfg.redis_cluster_addrs == "")
    then ok (some (cluster_client (split b',' cfg.redis_cluster_addrs)))
    else if not (cfg.redis_sentinel_addrs == "") && not (cfg.redis_master_name == "")
    then ok (some (failover_client cfg.redis_master_name (split b',' cfg.redis_sentinel_addrs)))
    else if not (cfg.redis_url == "")
    then (parse_url cfg.redis_url >>= λ opt. ok (some (single_client opt)))
    else ok none

-- The limiter behind the interface: one of the two implementations.
pub data Backing (R : Type 0) : Type 0 where
  in_memory : MemLimiter → Backing R
  in_redis : RedisLimiter R → Backing R

module _ {R : Type 0} (redis : Redis R) (exchange : Clock → Exchange) where
  unfoldable pub backing_allow : Clock → String → ℕ → Backing R → Verdict × Backing R
  backing_allow clock key limit (in_memory m) =
      let (v, m') = genkit_proxy.RateLimit.Memory.allow clock key limit m in (v, in_memory m')
  backing_allow clock key limit (in_redis r) =
      let (v, r') = genkit_proxy.RateLimit.Redis.allow redis (exchange clock) clock key limit r in
      (v, in_redis r')

  abbrev pub backing_limiter : Limiter (Backing R)
  backing_limiter = record { allow = backing_allow }

unfoldable pub new_backing :
    {O R : Type 0} → (RedisClient O → R) → Config → Option (RedisClient O) → Backing R
new_backing connect cfg none = in_memory (new_memory_limiter cfg.rate_limit_window)
new_backing connect cfg (some client) =
    in_redis (new_redis_limiter (connect client) cfg.rate_limit_window)

module _ (to_lower digest : String → String)
    (decode : String → GoResult (List (String × TenantConfig))) {G L : Type 0} (env : Env)
    (generator : Generator G) (lim : Limiter L) where
  -- The handler, with its resolver if gateway authentication is on.
  unfoldable pub build_handler : Config → GoResult (Handler G L)
  unfolding build_credential_resolver
  build_handler cfg =
      let handler =
        new_handler
          (new_retrying_generator env generator cfg.retry_max_attempts cfg.retry_base_backoff)
          (some lim) (handler_rate_limit_config to_lower cfg.limits)
          (new_model_allowlist cfg.model_allowlist) in
      if cfg.gateway_auth_enabled
      then (build_credential_resolver digest decode cfg >>= λ resolver.
          ok (with_credential_resolver resolver handler))
      else ok handler

  -- The server; the global limit and the handler's checks have the same limiter.
  unfoldable pub build_site :
      String
      → String
      → (Meters → Writer → Writer)
      → (HttpRequest → String → Writer → Writer)
      → Config
      → GoResult (Site G L)
  unfolding build_handler
  build_site version build_time exposition no_pattern cfg = do
    handler ← build_handler cfg
    ok (record {
      handler = handler;
      limiter = lim;
      limit = cfg.rate_limit_rps;
      allow_origins = cfg.cors_allow_origins;
      version = version;
      build_time = build_time;
      exposition = exposition;
      no_pattern = no_pattern;
    })
