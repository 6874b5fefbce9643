-- ===== src/Wiring/Exact.antt =====
-- When the process of cmd/app/main.go serves, and with what, said without the functions that choose
-- it.
use genkit_proxy.Common.{
  ◌≡◌, ◌↔◌, inl, inr, refl, sym, subst, ap, ◌∙◌, true, false, Bool-cases, Option, some,
}
use genkit_proxy.Errors.Result.{ok, err, GoResult-cases, ok_inj}
use genkit_proxy.Credentials.{passthrough_resolver, CredentialResolver}
use genkit_proxy.Policy.{new_model_allowlist}
use genkit_proxy.Retry.{new_retrying_generator}
use genkit_proxy.Http.Handler.{new_handler, with_credential_resolver}
use genkit_proxy.Metrics.Setup.{Instruments, new_metrics}
use genkit_proxy.Config.{handler_rate_limit_config}
use genkit_proxy.Config.Loading.{Config, load_config}
use genkit_proxy.Server.{Site}
use genkit_proxy.Wiring.{build_credential_resolver}
use genkit_proxy.Wiring.Assembly.{RedisClient, Backing, backing_limiter, build_handler, build_site}
use genkit_proxy.Wiring.Startup.{Outside, Started, start, start_iff, site_of}
use genkit_proxy.Wiring.Choices.{
  CacheOf, new_cache-CacheOf, CacheOf-eq, ClientOf, ClientOf-redis_client, redis_client-ClientOf,
  BackingOf, new_backing-BackingOf, BackingOf-eq,
}

module _ {G O R E I : Type 0} (o : Outside G O R E I) where
  -- The resolver of the handler: the passthrough, or with gateway authentication that of the
  -- tenant table.
  pub data ResolverOf (cfg : Config) : CredentialResolver → Type 0 where
    raw_keys : cfg.gateway_auth_enabled ≡ false → ResolverOf cfg passthrough_resolver
    tenants :
        (resolver : CredentialResolver)
        → cfg.gateway_auth_enabled ≡ true
        → build_credential_resolver o.digest o.decode cfg ≡ ok resolver
        → ResolverOf cfg resolver

  -- The server: the generator with the configured retries, one limiter for both limits, and the
  -- limits, the allowlist and the origins of the configuration.
  abbrev pub site_with : Config → CredentialResolver → Site G (Backing R)
  site_with cfg resolver = record {
    handler = record {
      generator =
          new_retrying_generator o.retry_env (o.upstream cfg) cfg.retry_max_attempts
            cfg.retry_base_backoff;
      limiter = some (backing_limiter o.redis o.exchange);
      rl_cfg = handler_rate_limit_config o.to_lower cfg.limits;
      allowlist = new_model_allowlist cfg.model_allowlist;
      resolver = resolver;
    };
    limiter = backing_limiter o.redis o.exchange;
    limit = cfg.rate_limit_rps;
    allow_origins = cfg.cors_allow_origins;
    version = o.release;
    build_time = o.build_time;
    exposition = o.exposition;
    no_pattern = o.no_pattern;
  }

  ResolverOf-site :
      (cfg : Config) (r : CredentialResolver)
      → ResolverOf cfg r
      → site_of o cfg ≡ ok (site_with cfg r)
  unfolding build_site build_handler new_handler with_credential_resolver
  ResolverOf-site cfg r (raw_keys e) = rw (e, build_handler) refl
  ResolverOf-site cfg r (tenants r' e b) = rw (e, build_handler) (rw (b, build_handler) refl)

  site-ResolverOf :
      (cfg : Config) (s : Site G (Backing R))
      → site_of o cfg ≡ ok s
      → (r : CredentialResolver) × ResolverOf cfg r × (s ≡ site_with cfg r)
  unfolding build_site build_handler
  site-ResolverOf cfg s h =
      let chosen : (r : CredentialResolver)
          → ResolverOf cfg r
          → (r : CredentialResolver) × ResolverOf cfg r × (s ≡ site_with cfg r) =
        λ r x. (r, x, ok_inj (sym h ∙ ResolverOf-site cfg r x)) in
      elim (Bool-cases cfg.gateway_auth_enabled) [
        | inr e ↦ chosen _ (raw_keys e)
        | inl e ↦ elim (GoResult-cases (build_credential_resolver o.digest o.decode cfg)) [
          | inl (r, b) ↦ chosen r (tenants r e b)
          | inr (bad, b) ↦
              let failed : site_of o cfg ≡ err bad =
                rw (e, build_handler) (rw (b, build_handler) refl) in
              cc (failed, h)
        ]
      ]

  -- What a process that serves has loaded and built.
  pub record Serves (s : Started G R) : Type 0 where
    pub loaded : load_config o.getenv o.parse_duration ≡ ok s.config
    pub instruments : Instruments I
    pub metrics : new_metrics o.otel ≡ ok instruments
    pub client : Option (RedisClient O)
    pub reached : ClientOf o.parse_url s.config client
    pub backed : BackingOf o.connect s.config client s.backing
    pub resolver : CredentialResolver
    pub resolved : ResolverOf s.config resolver
    pub built : s.site ≡ site_with s.config resolver
    pub cached : CacheOf s.config s.cache

  -- The process serves exactly if loadConfig gives a configuration, NewMetrics gives the instruments,
  -- the URL of Redis parses where it is used, and the tenant table gives a resolver where gateway
  -- authentication is on. Then it has the site of that configuration and resolver; its limiter keeps
  -- empty buckets of its own if no Redis is configured, and otherwise uses the server of the cluster
  -- addresses, of the sentinel addresses with a master name, or of the URL, in this order; and it
  -- has an empty cache of the configured bounds exactly if the cache is on.
  pub start_iff_Serves : (s : Started G R) → (start o ≡ ok s) ↔ Serves s
  start_iff_Serves s = (
    λ eq.
        let r = (start_iff o s).0 eq in
        let (resolver, resolved, built) = site-ResolverOf s.config s.site r.built in
        record {
          loaded = r.loaded;
          instruments = r.instruments;
          metrics = r.metrics;
          client = r.client;
          reached = redis_client-ClientOf o.parse_url s.config r.client r.reached;
          backed =
              subst (BackingOf o.connect s.config r.client) (sym r.backed)
                (new_backing-BackingOf o.connect s.config r.client);
          resolver = resolver;
          resolved = resolved;
          built = built;
          cached = subst (CacheOf s.config) (sym r.cached) (new_cache-CacheOf s.config);
        },
    λ v. (start_iff o s).1 (record {
      loaded = v.loaded;
      instruments = v.instruments;
      metrics = v.metrics;
      client = v.client;
      reached = ClientOf-redis_client o.parse_url s.config v.client v.reached;
      built = ResolverOf-site s.config v.resolver v.resolved ∙ ap ok (sym v.built);
      backed = BackingOf-eq o.connect s.config v.client s.backing v.backed;
      cached = CacheOf-eq s.config s.cache v.cached;
    }),
  )
