-- ===== src/Wiring/Gateway.antt =====
-- What a server with gateway authentication calls the generator for.
use genkit_proxy.Common.{
  ◌≡◌, refl, ap, sym, ◌∙◌, subst, ◌⊎◌, inl, inr, String, true, ◌||◌, ◌==◌, Option, none, some, List,
  any, all, Bool-cases, if-on, if-off,
}
use genkit_proxy.Common.Text.{trim_space}
use genkit_proxy.Errors.Result.{GoResult, ok, err, chain-Succeeds}
use genkit_proxy.Request.{GenerateRequest, validate}
use genkit_proxy.Auth.{TenantConfig}
use genkit_proxy.Policy.{ModelAllowlist, new_model_allowlist, allows}
use genkit_proxy.Policy.Laws.{grants, allows-new_model_allowlist}
use genkit_proxy.Generating.{Generator}
use genkit_proxy.Retry.{Env, new_retrying_generator}
use genkit_proxy.RateLimit.{Limiter}
use genkit_proxy.Http.{HttpRequest, World, Writer}
use genkit_proxy.Http.Bearer.{bearer_token}
use genkit_proxy.Http.Calls.{Reaches, Used}
use genkit_proxy.Http.Handler.{Handler, new_handler, with_credential_resolver}
use genkit_proxy.Metrics.{Meters}
use genkit_proxy.Config.{handler_rate_limit_config}
use genkit_proxy.Config.Loading.{Config}
use genkit_proxy.Config.Loading.Gateway.{load_config-gateway_auth_enabled}
use genkit_proxy.Config.Loading.Numbers.{parse_bool}
use genkit_proxy.Server.{Visit, Backend, Site, Moment, serve}
use genkit_proxy.Server.Calls.{serve-Change}
use genkit_proxy.Wiring.{build_credential_resolver, handler_resolver}
use genkit_proxy.Wiring.Assembly.{Backing, backing_limiter, build_handler, build_site}
use genkit_proxy.Wiring.Startup.{Outside, Started, start, start_iff}
use genkit_proxy.Wiring.Grants.{Origin, handler_resolver-Origin}

module _ (to_lower digest : String → String)
    (decode : String → GoResult (List (String × TenantConfig))) {G L : Type 0} (env : Env)
    (upstream : Generator G) (lim : Limiter L) (cfg : Config) where
  abbrev pub retrying : Generator G
  retrying = new_retrying_generator env upstream cfg.retry_max_attempts cfg.retry_base_backoff

  -- What the configuration puts into the handler.
  pub record Made (h : Handler G L) : Type 0 where
    pub resolver : handler_resolver digest decode cfg ≡ ok h.resolver
    pub allowlist : h.allowlist ≡ new_model_allowlist cfg.model_allowlist
    pub generator : h.generator ≡ retrying

  -- The handler before its resolver is set.
  abbrev plain_handler : Handler G L
  plain_handler =
      new_handler retrying (some lim) (handler_rate_limit_config to_lower cfg.limits)
        (new_model_allowlist cfg.model_allowlist)

  build_handler-Made :
      (h : Handler G L) → build_handler to_lower digest decode env upstream lim cfg ≡ ok h → Made h
  unfolding build_handler handler_resolver new_handler with_credential_resolver
  build_handler-Made h built = elim (Bool-cases cfg.gateway_auth_enabled) [
    | inl on ↦
        let s =
          chain-Succeeds (build_credential_resolver digest decode cfg) _
            (sym (if-on cfg.gateway_auth_enabled _ _ on) ∙ built) in
        let same : with_credential_resolver s.value plain_handler ≡ h = cc (s.remaining) in
        subst Made same (record {
          resolver = if-on cfg.gateway_auth_enabled _ _ on ∙ s.step;
          allowlist = refl;
          generator = refl;
        })
    | inr off ↦
        let same : plain_handler ≡ h = cc (sym (if-off cfg.gateway_auth_enabled _ _ off) ∙ built) in
        subst Made same (record {
          resolver = if-off cfg.gateway_auth_enabled _ _ off;
          allowlist = refl;
          generator = refl;
        })
  ]

  -- A call of the generator, for a request with a bearer token, a body that decodes and validates,
  -- a model that MODEL_ALLOWLIST permits, and a key that has an origin in the tenant table and the
  -- secrets.
  pub record Granted (req : HttpRequest) (h : Handler G L) (g after : G) : Type 0 where
    pub token : String
    pub request : GenerateRequest
    pub key : String
    pub bearer : bearer_token req.authorization ≡ ok token
    pub decoded : req.body ≡ ok request
    pub valid : validate request ≡ none
    pub permitted :
        (all (λ e. trim_space e == "") cfg.model_allowlist
          || any (grants request.model_name) cfg.model_allowlist)
        ≡ true
    pub keyed : Origin digest decode cfg token request.model_name key
    pub reached : Reaches h request key g after

  Used-Granted :
      (req : HttpRequest) (h : Handler G L) (g after : G)
      → cfg.gateway_auth_enabled ≡ true
      → Made h
      → Used h req g after
      → Granted req h g after
  Used-Granted req h g after on made u = record {
    token = u.token;
    request = u.request;
    key = u.key;
    bearer = u.requested.bearer;
    decoded = u.requested.decoded;
    valid = u.requested.valid;
    permitted =
        sym (allows-new_model_allowlist cfg.model_allowlist u.request.model_name)
        ∙ ap (λ (a : Option ModelAllowlist). allows a u.request.model_name) (sym made.allowlist)
        ∙ u.permitted;
    keyed =
        handler_resolver-Origin digest decode cfg h.resolver u.token u.request.model_name u.key on
          made.resolver u.keyed;
    reached = u.reached;
  }

  build_site-Made :
      (release build_time : String) (exposition : Meters → Writer → Writer)
      (no_pattern : HttpRequest → String → Writer → Writer) (site : Site G L)
      → build_site to_lower digest decode env upstream lim release build_time exposition no_pattern
          cfg
        ≡ ok site
      → Made site.handler
  unfolding build_site
  build_site-Made release build_time exposition no_pattern site built =
      let s = chain-Succeeds (build_handler to_lower digest decode env upstream lim cfg) _ built in
      let same : s.value ≡ site.handler =
        ap (λ (r : GoResult (Site G L)). elim r [ ok x ↦ x.handler | err e ↦ s.value ])
          s.remaining in
      subst Made same (build_handler-Made s.value s.step)

  -- With gateway authentication on, a server built from the configuration leaves the generator as
  -- it is, or calls it once for a request and a key that are granted.
  serve-Granted :
      (release build_time : String) (exposition : Meters → Writer → Writer)
      (no_pattern : HttpRequest → String → Writer → Writer) (site : Site G L) (moment : Moment)
      (v : Visit) (req : HttpRequest) (w : World (Backend G) L)
      → cfg.gateway_auth_enabled ≡ true
      → build_site to_lower digest decode env upstream lim release build_time exposition no_pattern
          cfg
        ≡ ok site
      → let after = (serve digest site moment v req w).1 in
        (site.handler.generator ≡ retrying)
        × ((after.generator.generator ≡ w.generator.generator)
            ⊎ Granted req site.handler w.generator.generator after.generator.generator)
  serve-Granted release build_time exposition no_pattern site moment v req w on built =
      let made = build_site-Made release build_time exposition no_pattern site built in
      (
        made.generator,
        elim (serve-Change digest site moment v req w) [
          | inl same ↦ inl same
          | inr used ↦ inr (Used-Granted req site.handler _ _ on made used)
        ],
      )

-- If the process serves with a text in GATEWAY_AUTH_ENABLED that ParseBool reads as true: on a
-- request the server leaves the generator as it is, or calls the handler's generator, which is the
-- retrying one, once: for a bearer token and a valid request whose model MODEL_ALLOWLIST permits,
-- with a key that the secrets name for the tenant whom the tenant table lists under the token's
-- digest (an empty key for Vertex AI).
pub start-Granted :
    {G O R E I : Type 0} (o : Outside G O R E I) (s : Started G R) (moment : Moment) (v : Visit)
    (req : HttpRequest) (w : World (Backend G) (Backing R))
    → parse_bool (o.getenv "GATEWAY_AUTH_ENABLED") ≡ some true
    → start o ≡ ok s
    → let lim = backing_limiter o.redis o.exchange in
      let after = (serve o.digest s.site moment v req w).1 in
      (s.site.handler.generator
        ≡ retrying o.to_lower o.digest o.decode o.retry_env (o.upstream s.config) lim s.config)
      × ((after.generator.generator ≡ w.generator.generator)
          ⊎ Granted o.to_lower o.digest o.decode o.retry_env
              (o.upstream s.config)
              lim
              s.config
              req
              s.site.handler
              w.generator.generator
              after.generator.generator)
start-Granted o s moment v req w on started =
    let running = (start_iff o s).0 started in
    serve-Granted o.to_lower o.digest o.decode o.retry_env (o.upstream s.config)
      (backing_limiter o.redis o.exchange) s.config o.release o.build_time o.exposition o.no_pattern
      s.site moment v req w
      (load_config-gateway_auth_enabled o.getenv o.parse_duration s.config true on running.loaded)
      running.built
