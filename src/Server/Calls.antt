-- ===== src/Server/Calls.antt =====
-- What the server calls the generator for.
use genkit_proxy.Common.{◌≡◌, refl, subst, sym, inl, String, ◌⊎◌}
use genkit_proxy.Http.{HttpRequest, World}
use genkit_proxy.Http.Calls.{Used, serve_http-Spent, serve_stream-Spent}
use genkit_proxy.Http.Handler.{Exit}
use genkit_proxy.Metrics.{Meters}
use genkit_proxy.Middleware.Calls.{chain-Changing}
use genkit_proxy.Server.{
  Visit, Backend, Route, generate, stream, metrics_page, healthz, readyz, version, unrouted, route,
  unobserved, Site, Moment, serve_route, mux, serve,
}
use genkit_proxy.Server.Observer.{erase-serve}

module _ (digest : String → String) {G L : Type 0} (site : Site G L) (moment : Moment) where
  abbrev pub Change : HttpRequest → G → G → Type 0
  Change req g after = (after ≡ g) ⊎ Used site.handler req g after

  serve_route-Change :
      (r : Route) (path : String) (m : Meters) (req : HttpRequest) (w : World G L)
      → Change req w.generator (serve_route digest site moment r path m req w).1.generator
  unfolding serve_route
  serve_route-Change generate path m req w =
      serve_http-Spent site.handler digest moment.clocks req w
  serve_route-Change stream path m req w =
      serve_stream-Spent site.handler digest moment.clocks moment.network req w
  serve_route-Change metrics_page path m req w = inl refl
  serve_route-Change healthz path m req w = inl refl
  serve_route-Change readyz path m req w = inl refl
  serve_route-Change version path m req w = inl refl
  serve_route-Change unrouted path m req w = inl refl

  -- The server leaves the generator as it is, or calls it once, for a request that its handler
  -- accepts.
  pub serve-Change :
      (v : Visit) (req : HttpRequest) (w : World (Backend G) L)
      → Change req w.generator.generator (serve digest site moment v req w).1.generator.generator
  unfolding mux
  serve-Change v req w =
      subst (λ (res : Exit × World G L). Change req w.generator.generator res.1.generator)
        (sym (erase-serve digest site moment v req w))
        (chain-Changing Change (λ r g. inl refl) digest site.allow_origins v.inbound_id
          v.generated_id site.limiter moment.global_check site.limit _
          (λ r x. serve_route-Change (route r.method v.path) v.path w.generator.meters r x) req
          (unobserved w))
