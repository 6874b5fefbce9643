-- ===== src/Genkit/Cached.antt =====
-- The Genkit generator over the instance cache of internal/proxy/cache.go, with calls that do not
-- overlap. The state behind it holds the cache and the number of calls; the clock and the end of
-- the request's context are functions of that number. `crash` is the text of a panic of genkit.Init.
pub mod Cases
use genkit_proxy.Common.{
  ℕ, suc, ◌≡◌, refl, ap, sym, subst, ◌∙◌, ◌⊎◌, inl, inr, String, true, Option, none, some, ◌∷◌,
  if-on,
}
use genkit_proxy.Errors.Chain.{GoError, Message, opaque, lit, sentinel, cache_closed}
use genkit_proxy.Errors.Result.{GoResult, ok, err, error_of, GoResult-cases}
use genkit_proxy.Generating.{Panic, fault, Outcome, returned, panicked, finish}
use genkit_proxy.RateLimit.{Clock}
use genkit_proxy.Request.{GenerateRequest}
use genkit_proxy.Router.{Plugin, plugin_for, provider_of}
use genkit_proxy.Cache.{
  GenkitCache, Instance, Query, Stage, fresh, waiting, closing, building, key_of, cache_key,
  returned as ended_with, enter,
}
use genkit_proxy.Cache.Alone.{get_alone}
use genkit_proxy.Cache.Alone.Settled.{Settled}
use genkit_proxy.Cache.Alone.Owned.{owned, unrouted, shut, unplugged, not_built, get_alone-Ends}
use genkit_proxy.Cache.Keys.{Injective}
use genkit_proxy.Genkit.Runs.{
  Genkit, AppSource, call_error, genkit_run, genkit_run_stream, generate, generate_stream,
  new_genkit_generator,
}

pub record Shared (G : Type 0) : Type 0 where
  pub state : G
  pub cache : GenkitCache
  pub calls : ℕ

-- defaultInitApp.
unfoldable pub default_init_app : {A : Type 0} → Message → Outcome A → GoResult A
default_init_app crash (panicked p) = err (opaque (lit "genkit init: " ∷ crash))
default_init_app crash (returned r) = r

-- What the caller of `get` is given. Without an instance and without an error Genkit would panic.
abbrev pub obtained : Stage → Outcome Instance
obtained (ended_with app (some e)) = returned (err e)
obtained (ended_with (some a) none) = returned (ok a)
obtained _ = panicked fault

module _ {G V : Type 0} (genkit : Genkit (Shared G) V Instance) (digest : String → String)
    (clock : ℕ → Clock) (ended : ℕ → GoError) (crash : Message) where
  -- genkit.Init, if this call builds an instance, with its error.
  unfoldable pub initialised : Stage → Query → Shared G → Option GoError × G
  unfolding default_init_app
  initialised (building key) q s = elim (plugin_for q.model_name q.api_key) [
    | err e ↦ (none, s.state)
    | ok plugin ↦
        let (o, s') = genkit.init plugin s in (error_of (default_init_app crash o), s'.state)
  ]
  initialised _ q s = (none, s.state)

  -- GenkitCache.get as the source of the instances.
  unfoldable pub cached_source : AppSource (Shared G) Instance
  unfolding initialised
  cached_source model_name key s =
      let n = s.calls in
      let q : Query = record { model_name = model_name; api_key = key } in
      let (failure, g) = initialised (enter digest (clock n) n q s.cache).1 q s in
      let (c, stage) = get_alone digest (clock n) n q failure (ended n) s.cache in
      (obtained stage, record { state = g; cache = c; calls = suc n })
