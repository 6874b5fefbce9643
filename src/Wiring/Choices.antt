-- ===== src/Wiring/Choices.antt =====
-- What main of cmd/app/main.go chooses by its configuration: the cache, the Redis client and the
-- buckets of the limiter, each said without the function that chooses it.
use genkit_proxy.Common.{
  ◌≡◌, ◌≢◌, ◌⊎◌, inl, inr, refl, sym, subst, ◌∙◌, String, true, false, Bool-cases, Option, none,
  some, [], text_cases, eq_iff, arith,
}
use genkit_proxy.Common.Int.{pos}
use genkit_proxy.Common.Text.{split}
use genkit_proxy.Errors.Result.{GoResult, ok, err, GoResult-cases, ok_inj}
use genkit_proxy.Cache.{GenkitCache, blank_entry}
use genkit_proxy.RateLimit.Memory.{new_memory_limiter}
use genkit_proxy.RateLimit.Redis.{new_redis_limiter}
use genkit_proxy.Config.Loading.{Config}
use genkit_proxy.Wiring.Assembly.{
  RedisClient, cluster_client, failover_client, single_client, redis_client, Backing, in_memory,
  in_redis, new_backing,
}
use genkit_proxy.Wiring.Startup.{new_cache}

-- The instances are cached in an empty cache of the configured bounds, or not at all.
abbrev pub empty_cache : Config → GenkitCache
empty_cache cfg = record {
  entries = [];
  heap = λ n. blank_entry;
  closed = false;
  ttl = cfg.cache_ttl;
  max_size = pos cfg.cache_max_size;
}

pub data CacheOf (cfg : Config) : Option GenkitCache → Type 0 where
  off : cfg.cache_enabled ≡ false → CacheOf cfg none
  on : cfg.cache_enabled ≡ true → CacheOf cfg (some (empty_cache cfg))

pub new_cache-CacheOf : (cfg : Config) → CacheOf cfg (new_cache cfg)
unfolding new_cache
new_cache-CacheOf cfg = elim (Bool-cases cfg.cache_enabled) [
  | inl e ↦
      let same : new_cache cfg ≡ some (empty_cache cfg) = rw (e, new_cache) refl in
      subst (CacheOf cfg) (sym same) (on e)
  | inr e ↦
      let same : new_cache cfg ≡ none = rw (e, new_cache) refl in
      subst (CacheOf cfg) (sym same) (off e)
]

pub CacheOf-eq : (cfg : Config) (c : Option GenkitCache) → CacheOf cfg c → c ≡ new_cache cfg
unfolding new_cache
CacheOf-eq cfg none (off e) = rw (e, new_cache) refl
CacheOf-eq cfg (some c) (on e) = rw (e, new_cache) refl

module _ {O : Type 0} (parse_url : String → GoResult O) (cfg : Config) where
  -- The addresses are looked at in this order: those of a cluster, those of sentinels with the name
  -- of the master, the URL of one server.
  pub data ClientOf : Option (RedisClient O) → Type 0 where
    cluster :
        cfg.redis_cluster_addrs ≢ ""
        → ClientOf (some (cluster_client (split b',' cfg.redis_cluster_addrs)))
    sentinels :
        cfg.redis_cluster_addrs ≡ ""
        → cfg.redis_sentinel_addrs ≢ ""
        → cfg.redis_master_name ≢ ""
        → ClientOf
            (some (failover_client cfg.redis_master_name (split b',' cfg.redis_sentinel_addrs)))
    one_server :
        (opt : O)
        → cfg.redis_cluster_addrs ≡ ""
        → (cfg.redis_sentinel_addrs ≡ "") ⊎ (cfg.redis_master_name ≡ "")
        → cfg.redis_url ≢ ""
        → parse_url cfg.redis_url ≡ ok opt
        → ClientOf (some (single_client opt))
    no_server :
        cfg.redis_cluster_addrs ≡ ""
        → (cfg.redis_sentinel_addrs ≡ "") ⊎ (cfg.redis_master_name ≡ "")
        → cfg.redis_url ≡ ""
        → ClientOf none

  pub ClientOf-redis_client :
      (c : Option (RedisClient O)) → ClientOf c → redis_client parse_url cfg ≡ ok c
  unfolding redis_client
  ClientOf-redis_client c (cluster a) = ground (arith, eq_iff cfg.redis_cluster_addrs "")
  ClientOf-redis_client c (sentinels a b m) = ground (
    arith,
    eq_iff cfg.redis_cluster_addrs "",
    eq_iff cfg.redis_sentinel_addrs "",
    eq_iff cfg.redis_master_name "",
  )
  ClientOf-redis_client c (one_server opt a b u p) = ground (
    arith,
    eq_iff cfg.redis_cluster_addrs "",
    eq_iff cfg.redis_sentinel_addrs "",
    eq_iff cfg.redis_master_name "",
    eq_iff cfg.redis_url "",
  )
  ClientOf-redis_client c (no_server a b u) = ground (
    arith,
    eq_iff cfg.redis_cluster_addrs "",
    eq_iff cfg.redis_sentinel_addrs "",
    eq_iff cfg.redis_master_name "",
    eq_iff cfg.redis_url "",
  )

  url-ClientOf :
      cfg.redis_cluster_addrs ≡ ""
      → (cfg.redis_sentinel_addrs ≡ "") ⊎ (cfg.redis_master_name ≡ "")
      → (c : Option (RedisClient O)) → redis_client parse_url cfg ≡ ok c
      → ClientOf c
  unfolding redis_client
  url-ClientOf a b c h = elim (text_cases cfg.redis_url "") [
    | inl (u, t) ↦
        let chosen : redis_client parse_url cfg ≡ ok none = ground (
          arith,
          eq_iff cfg.redis_cluster_addrs "",
          eq_iff cfg.redis_sentinel_addrs "",
          eq_iff cfg.redis_master_name "",
        ) in
        subst ClientOf (ok_inj (sym chosen ∙ h)) (no_server a b u)
    | inr (u, t) ↦ elim (GoResult-cases (parse_url cfg.redis_url)) [
      | inl (opt, p) ↦
          subst ClientOf (ok_inj (sym (ClientOf-redis_client _ (one_server opt a b u p)) ∙ h))
            (one_server opt a b u p)
      | inr (e, p) ↦
          let chosen : redis_client parse_url cfg ≡ err e = ground (
            arith,
            eq_iff cfg.redis_cluster_addrs "",
            eq_iff cfg.redis_sentinel_addrs "",
            eq_iff cfg.redis_master_name "",
          ) in
          cc (chosen, h)
    ]
  ]

  pub redis_client-ClientOf :
      (c : Option (RedisClient O)) → redis_client parse_url cfg ≡ ok c → ClientOf c
  redis_client-ClientOf c h =
      let chosen = λ (d : Option (RedisClient O)) (x : ClientOf d).
        subst ClientOf (ok_inj (sym (ClientOf-redis_client d x) ∙ h)) x in
      elim (text_cases cfg.redis_cluster_addrs "") [
        | inr (a, t) ↦ chosen _ (cluster a)
        | inl (a, t) ↦ elim (text_cases cfg.redis_sentinel_addrs "") [
          | inl (b, t) ↦ url-ClientOf a (inl b) c h
          | inr (b, t) ↦ elim (text_cases cfg.redis_master_name "") [
            | inl (m, t) ↦ url-ClientOf a (inr m) c h
            | inr (m, t) ↦ chosen _ (sentinels a b m)
          ]
        ]
      ]

-- The buckets are those of the process where no Redis is configured, and otherwise those of the
-- server that the client reaches; the window is the configured one.
pub data BackingOf {O R : Type 0} (connect : RedisClient O → R) (cfg : Config)
    : Option (RedisClient O) → Backing R → Type 0 where
  local :
      BackingOf connect cfg none
        (in_memory (record { window = cfg.rate_limit_window; buckets = [] }))
  remote :
      (client : RedisClient O)
      → BackingOf connect cfg
          (some client)
          (in_redis (record { window = cfg.rate_limit_window; server = connect client }))

pub new_backing-BackingOf :
    {O R : Type 0} (connect : RedisClient O → R) (cfg : Config) (c : Option (RedisClient O))
    → BackingOf connect cfg c (new_backing connect cfg c)
unfolding new_backing new_memory_limiter new_redis_limiter
new_backing-BackingOf connect cfg none = local
new_backing-BackingOf connect cfg (some client) = remote client

pub BackingOf-eq :
    {O R : Type 0} (connect : RedisClient O → R) (cfg : Config) (c : Option (RedisClient O))
    (b : Backing R)
    → BackingOf connect cfg c b
    → b ≡ new_backing connect cfg c
unfolding new_backing new_memory_limiter new_redis_limiter
BackingOf-eq connect cfg none b local = refl
BackingOf-eq connect cfg (some client) b (remote client') = refl
