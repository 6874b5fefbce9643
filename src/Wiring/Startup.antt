-- ===== src/Wiring/Startup.antt =====
-- The start of main in cmd/app/main.go, up to the server: what it takes from outside is the record
-- `Outside`, and an error stands for the exit with status 1.
use genkit_proxy.Common.{
  ◌≡◌, refl, sym, subst, ◌↔◌, String, Option, none, some, List, if◌then◌else◌,
}
use genkit_proxy.Common.Int.{ℤ, pos}
use genkit_proxy.Errors.Result.{GoResult, ok, ◌>>=◌, chain-Succeeds, ok_inj}
use genkit_proxy.Auth.{TenantConfig}
use genkit_proxy.Cache.{GenkitCache, new_genkit_cache}
use genkit_proxy.Generating.{Generator}
use genkit_proxy.Retry.{Env}
use genkit_proxy.RateLimit.{Clock}
use genkit_proxy.RateLimit.Redis.{Redis, Exchange}
use genkit_proxy.Http.{HttpRequest, Writer}
use genkit_proxy.Metrics.{Meters}
use genkit_proxy.Metrics.Setup.{Telemetry, Instruments, new_metrics}
use genkit_proxy.Config.Loading.{Config, load_config}
use genkit_proxy.Server.{Site}
use genkit_proxy.Wiring.Assembly.{
  RedisClient, redis_client, Backing, backing_limiter, new_backing, build_site,
}

-- `upstream` is the generator that NewGenkitGenerator gives for a configuration, and
-- `otel` what NewMetrics calls.
pub record Outside (G O R E I : Type 0) : Type 0 where
  pub getenv : String → String
  pub parse_duration : String → GoResult ℤ
  pub otel : Telemetry E I
  pub parse_url : String → GoResult O
  pub connect : RedisClient O → R
  pub redis : Redis R
  pub exchange : Clock → Exchange
  pub to_lower : String → String
  pub digest : String → String
  pub decode : String → GoResult (List (String × TenantConfig))
  pub retry_env : Env
  pub upstream : Config → Generator G
  pub release : String
  pub build_time : String
  pub exposition : Meters → Writer → Writer
  pub no_pattern : HttpRequest → String → Writer → Writer

-- What serves the requests.
pub record Started (G R : Type 0) : Type 0 where
  pub config : Config
  pub site : Site G (Backing R)
  pub backing : Backing R
  pub cache : Option GenkitCache

unfoldable pub new_cache : Config → Option GenkitCache
new_cache cfg =
    if cfg.cache_enabled
    then some (new_genkit_cache cfg.cache_ttl (pos cfg.cache_max_size))
    else none

module _ {G O R E I : Type 0} (o : Outside G O R E I) where
  abbrev pub site_of : Config → GoResult (Site G (Backing R))
  site_of cfg =
      build_site o.to_lower o.digest o.decode o.retry_env (o.upstream cfg)
        (backing_limiter o.redis o.exchange) o.release o.build_time o.exposition o.no_pattern cfg

  -- From a configuration on.
  unfoldable pub start_with : Config → GoResult (Started G R)
  start_with cfg = do
    instruments ← new_metrics o.otel
    client ← redis_client o.parse_url cfg
    site ← site_of cfg
    ok (record {
      config = cfg;
      site = site;
      backing = new_backing o.connect cfg client;
      cache = new_cache cfg;
    })

  unfoldable pub start : GoResult (Started G R)
  unfolding start_with
  start = load_config o.getenv o.parse_duration >>= start_with

  -- What a process that serves has loaded and built.
  pub record Running (s : Started G R) : Type 0 where
    pub loaded : load_config o.getenv o.parse_duration ≡ ok s.config
    pub instruments : Instruments I
    pub metrics : new_metrics o.otel ≡ ok instruments
    pub client : Option (RedisClient O)
    pub reached : redis_client o.parse_url s.config ≡ ok client
    pub built : site_of s.config ≡ ok s.site
    pub backed : s.backing ≡ new_backing o.connect s.config client
    pub cached : s.cache ≡ new_cache s.config

  Running-start_with : (s : Started G R) → Running s → start_with s.config ≡ ok s
  unfolding start_with
  Running-start_with s r =
      rw (r.metrics, start_with)
        (rw (r.reached, start_with)
          (rw (r.built, start_with)
            (λ i. ok (record {
              config = s.config;
              site = s.site;
              backing = sym r.backed i;
              cache = sym r.cached i;
            }))))

  start_with-Running :
      (cfg : Config) (s : Started G R)
      → load_config o.getenv o.parse_duration ≡ ok cfg
      → start_with cfg ≡ ok s
      → Running s
  unfolding start_with
  start_with-Running cfg s loaded eq =
      let i = chain-Succeeds (new_metrics o.otel) _ eq in
      let c = chain-Succeeds (redis_client o.parse_url cfg) _ i.remaining in
      let t = chain-Succeeds (site_of cfg) _ c.remaining in
      subst Running (ok_inj t.remaining) (record {
        loaded = loaded;
        instruments = i.value;
        metrics = i.step;
        client = c.value;
        reached = c.step;
        built = t.step;
        backed = refl;
        cached = refl;
      })

  -- The process serves exactly if loadConfig gives a configuration, NewMetrics gives the
  -- instruments, the choice of the Redis client for it succeeds and the server is built from it;
  -- the limiter is the one for that client and the cache the one of the configuration.
  pub start_iff : (s : Started G R) → (start ≡ ok s) ↔ Running s
  unfolding start
  start_iff s = (
    λ eq.
        let c = chain-Succeeds (load_config o.getenv o.parse_duration) start_with eq in
        start_with-Running c.value s c.step c.remaining,
    λ r. rw (r.loaded, start) (Running-start_with s r),
  )
