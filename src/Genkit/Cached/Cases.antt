-- ===== src/Genkit/Cached/Cases.antt =====
-- How a call of the Genkit generator over the instance cache ends.
use genkit_proxy.Common.{
  ℕ, suc, ◌≡◌, refl, ap, sym, subst, ◌∙◌, ◌⊎◌, inl, inr, String, true, Option, none, some, ◌∷◌,
  if-on,
}
use genkit_proxy.Errors.Chain.{GoError, Message, opaque, lit, sentinel, cache_closed}
use genkit_proxy.Errors.Result.{ok, err, error_of, GoResult-cases}
use genkit_proxy.Generating.{Panic, Outcome, returned, panicked, finish}
use genkit_proxy.RateLimit.{Clock}
use genkit_proxy.Request.{GenerateRequest}
use genkit_proxy.Router.{Plugin, plugin_for, provider_of}
use genkit_proxy.Cache.{
  GenkitCache, Instance, Query, Stage, fresh, waiting, closing, building, key_of, cache_key,
  returned as ended_with, enter,
}
use genkit_proxy.Cache.Alone.{get_alone}
use genkit_proxy.Cache.Alone.Settled.{Settled}
use genkit_proxy.Cache.Alone.Owned.{owned, unrouted, shut, unplugged, not_built, get_alone-Ends}
use genkit_proxy.Cache.Keys.{Injective}
use genkit_proxy.Genkit.Runs.{
  Genkit, call_error, genkit_run, genkit_run_stream, generate, generate_stream,
  new_genkit_generator,
}
use genkit_proxy.Genkit.Cached.{Shared, default_init_app, obtained, initialised, cached_source}

module _ {G V : Type 0} (genkit : Genkit (Shared G) V Instance) (digest : String → String)
    (clock : ℕ → Clock) (ended : ℕ → GoError) (crash : Message) where
  -- genkit.Init ended with an error, or by a panic, which defaultInitApp turns into one.
  pub data InitFailed : Outcome Instance → GoError → Type 0 where
    with_error : (e : GoError) → InitFailed (returned (err e)) e
    with_panic : (p : Panic) → InitFailed (panicked p) (opaque (lit "genkit init: " ∷ crash))

  -- Why `get` gives no instance but the error, and the state behind Genkit then.
  pub data Denied (model_name key : String) (s : Shared G) : GoError → G → Type 0 where
    not_routed : (e : GoError) → provider_of model_name ≡ err e → Denied model_name key s e s.state
    closed : s.cache.closed ≡ true → Denied model_name key s (sentinel cache_closed) s.state
    no_plugin :
        (e : GoError) → plugin_for model_name key ≡ err e → Denied model_name key s e s.state
    init_failed :
        (e : GoError) (plugin : Plugin)
        → plugin_for model_name key ≡ ok plugin
        → InitFailed (genkit.init plugin s).0 e
        → Denied model_name key s e (genkit.init plugin s).1.state

  -- A call ends before the instance is asked, with an error of `get` that has its reason, or it is
  -- the call with an instance that holds the plugin of its own model and API key. Nothing was done
  -- behind Genkit before, but for at most the initialisation with that plugin.
  pub data Served (r : GenerateRequest) (key : String) (s : Shared G) : Type 0 where
    refused :
        (e : GoError) (s' : Shared G)
        → Denied r.model_name key s e s'.state
        → (new_genkit_generator genkit
              (some (cached_source genkit digest clock ended crash))).generate
            r key s
          ≡ (returned (err (call_error r e)), s')
        → (new_genkit_generator genkit
              (some (cached_source genkit digest clock ended crash))).generate_stream
            r key s
          ≡ finish (returned (err (call_error r e))) s'
        → s'.calls ≡ suc s.calls
        → Settled digest s'.cache s'.calls
        → Served r key s
    served :
        (a : Instance) (s' : Shared G)
        → plugin_for r.model_name key ≡ ok a.plugin
        → (s'.state ≡ s.state) ⊎ (s'.state ≡ (genkit.init a.plugin s).1.state)
        → (new_genkit_generator genkit
              (some (cached_source genkit digest clock ended crash))).generate
            r key s
          ≡ generate genkit (λ _ _ t. (returned (ok a), t)) r "" s'
        → (new_genkit_generator genkit
              (some (cached_source genkit digest clock ended crash))).generate_stream
            r key s
          ≡ generate_stream genkit (λ _ _ t. (returned (ok a), t)) r "" s'
        → s'.calls ≡ suc s.calls
        → Settled digest s'.cache s'.calls
        → Served r key s

  -- What `initialised` did: nothing, or one call of genkit.Init.
  data Init (q : Query) (s : Shared G) (r : Option GoError × G) : Type 0 where
    skipped : r.0 ≡ none → r.1 ≡ s.state → Init q s r
    ran :
        (plugin : Plugin)
        → plugin_for q.model_name q.api_key ≡ ok plugin
        → r.0 ≡ error_of (default_init_app crash (genkit.init plugin s).0)
        → r.1 ≡ (genkit.init plugin s).1.state
        → Init q s r

  initialised-Init :
      (p : Stage) (q : Query) (s : Shared G)
      → Init q s (initialised genkit digest clock ended crash p q s)
  unfolding initialised
  initialised-Init (building key) q s = elim (GoResult-cases (plugin_for q.model_name q.api_key)) [
    | inl (plugin, e) ↦ rw (e, initialised) (ran plugin e refl refl)
    | inr (bad, e) ↦ rw (e, initialised) (skipped refl refl)
  ]
  initialised-Init fresh q s = skipped refl refl
  initialised-Init (waiting m) q s = skipped refl refl
  initialised-Init (closing a f) q s = skipped refl refl
  initialised-Init (ended_with a f) q s = skipped refl refl

  error_of-InitFailed :
      (o : Outcome Instance) (e : GoError)
      → error_of (default_init_app crash o) ≡ some e
      → InitFailed o e
  unfolding default_init_app
  error_of-InitFailed (returned (ok a)) e h = cc
  error_of-InitFailed (returned (err x)) e h =
      let same : x ≡ e = cc h in subst (InitFailed (returned (err x))) same (with_error x)
  error_of-InitFailed (panicked p) e h =
      let same : opaque (lit "genkit init: " ∷ crash) ≡ e = cc h in
      subst (InitFailed (panicked p)) same (with_panic p)

  -- Without a plugin, or where `get` does not build, the state behind Genkit is left alone.
  Init-no_plugin :
      (q : Query) (s : Shared G) (r : Option GoError × G) (e : GoError)
      → Init q s r
      → plugin_for q.model_name q.api_key ≡ err e
      → s.state ≡ r.1
  Init-no_plugin q s r e (skipped a b) bad = sym b
  Init-no_plugin q s r e (ran plugin p a b) bad = cc (p, bad)

  Init-not_built :
      (q : Query) (s : Shared G) (r : Option GoError × G) (e : GoError)
      → Init q s r
      → r.0 ≡ some e
      → Denied q.model_name q.api_key s e (r.1)
  Init-not_built q s r e (skipped a b) h = cc (a, h)
  Init-not_built q s r e (ran plugin p a b) h =
      subst (Denied q.model_name q.api_key s e) (sym b)
        (init_failed e plugin p (error_of-InitFailed (genkit.init plugin s).0 e (sym a ∙ h)))

  Init-owned :
      (q : Query) (s : Shared G) (r : Option GoError × G) (plugin : Plugin)
      → Init q s r
      → plugin_for q.model_name q.api_key ≡ ok plugin
      → (r.1 ≡ s.state) ⊎ (r.1 ≡ (genkit.init plugin s).1.state)
  Init-owned q s r plugin (skipped a b) p = inl b
  Init-owned q s r plugin (ran built p' a b) p =
      let same : built ≡ plugin = cc (p, p') in inr (b ∙ ap (λ x. (genkit.init x s).1.state) same)

  key_of-provider_of :
      (q : Query) (e : GoError)
      → key_of digest q ≡ err e
      → (provider_of q.model_name ≡ err e) × (plugin_for q.model_name q.api_key ≡ err e)
  unfolding key_of plugin_for
  key_of-provider_of q e h = elim (GoResult-cases (provider_of q.model_name)) [
    | inl (p, a) ↦ absurd (never p a h)
    | inr (x, a) ↦ let same : x ≡ e = failed x a h in (a ∙ ap err same, rw a (ap err same))
  ]
    where
      never : (p : String) → provider_of q.model_name ≡ ok p → key_of digest q ≡ err e → ⊥
      never p a h =
          let h' : key_of digest q ≡ ok (cache_key digest p q.api_key) = rw a refl in cc (h', h)

      failed : (x : GoError) → provider_of q.model_name ≡ err x → key_of digest q ≡ err e → x ≡ e
      failed x a h = let h' : key_of digest q ≡ err x = rw a refl in cc (h', h)

  -- A closed cache builds nothing.
  closed-initialised :
      (clk : Clock) (n : ℕ) (q : Query) (s : Shared G)
      → s.cache.closed ≡ true
      → s.state
        ≡ (initialised genkit digest clock ended crash (enter digest clk n q s.cache).1 q s).1
  unfolding enter initialised
  closed-initialised clk n q s h = elim (GoResult-cases (key_of digest q)) [
    | inr (e, bad) ↦ rw (bad, enter) refl
    | inl (key, keyed) ↦
        rw (keyed, enter)
          (subst
            (λ (p : GenkitCache × Stage).
              s.state ≡ (initialised genkit digest clock ended crash (p.1) q s).1)
            (sym (if-on s.cache.closed _ _ h)) refl)
  ]

  by_error :
      (r : GenerateRequest) (key : String) (s s' : Shared G) (e : GoError)
      → cached_source genkit digest clock ended crash r.model_name key s ≡ (returned (err e), s')
      → Denied r.model_name key s e s'.state
      → s'.calls ≡ suc s.calls
      → Settled digest s'.cache s'.calls
      → Served r key s
  unfolding new_genkit_generator genkit_run genkit_run_stream
  by_error r key s s' e h why c t = refused e s' why (rw h refl) (rw h refl) c t

  by_instance :
      (r : GenerateRequest) (key : String) (s s' : Shared G) (a : Instance)
      → cached_source genkit digest clock ended crash r.model_name key s ≡ (returned (ok a), s')
      → plugin_for r.model_name key ≡ ok a.plugin
      → (s'.state ≡ s.state) ⊎ (s'.state ≡ (genkit.init a.plugin s).1.state)
      → s'.calls ≡ suc s.calls
      → Settled digest s'.cache s'.calls
      → Served r key s
  unfolding new_genkit_generator genkit_run genkit_run_stream
  by_instance r key s s' a h p before c t = served a s' p before (rw h refl) (rw h refl) c t

  -- With the cache, if the digest has no collisions and no calls of its `get` overlap: a call ends
  -- before Genkit is called for the answer, with an error that has its reason: the model is not
  -- routed, the cache is closed, there is no plugin for the key, or genkit.Init failed or panicked
  -- with that plugin. Or it is the call with an instance that holds the plugin of its own model and
  -- API key, and the key is used nowhere else. Behind Genkit nothing changes before but by at most
  -- one genkit.Init with that plugin, the call is counted once, and the entries in the map are all
  -- built, so that the next call finds the same.
  pub cached_cases :
      Injective digest
      → (r : GenerateRequest) (key : String) (s : Shared G) → Settled digest s.cache s.calls
      → Served r key s
  unfolding cached_source
  cached_cases inj r key s h =
      let n = s.calls in
      let q : Query = record { model_name = r.model_name; api_key = key } in
      let stage0 = (enter digest (clock n) n q s.cache).1 in
      let (failure, g) = initialised genkit digest clock ended crash stage0 q s in
      let i = initialised-Init stage0 q s in
      let (settled, o) = get_alone-Ends digest inj (clock n) s.cache n q failure (ended n) h in
      let (c, stage) = get_alone digest (clock n) n q failure (ended n) s.cache in
      let s' : Shared G = record { state = g; cache = c; calls = suc n } in
      let fails : (e : GoError)
          → stage ≡ ended_with none (some e)
          → Denied r.model_name key s e g
          → Served r key s =
        λ e same why. by_error r key s s' e (λ j. (obtained (same j), s')) why refl settled in
      elim o [
        | owned a same plugged ↦
            by_instance r key s s' a (λ j. (obtained (same j), s')) plugged
              (Init-owned q s _ a.plugin i plugged) refl settled
        | unrouted e same bad ↦
            let (no_route, no_plugged) = key_of-provider_of q e bad in
            fails e same (
              subst (Denied r.model_name key s e) (Init-no_plugin q s _ e i no_plugged)
                (not_routed e no_route))
        | shut same off ↦ fails _ same (
            subst (Denied r.model_name key s (sentinel cache_closed))
              (closed-initialised (clock n) n q s off) (closed off))
        | unplugged e same bad ↦
            fails e same
              (subst (Denied r.model_name key s e) (Init-no_plugin q s _ e i bad) (no_plugin e bad))
        | not_built e same bad ↦ fails e same (Init-not_built q s _ e i bad)
      ]
