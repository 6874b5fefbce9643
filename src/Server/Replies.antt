-- ===== src/Server/Replies.antt =====
-- What the client of the server receives on each route.
use genkit_proxy.Common.{◌≡◌, String, some, [], ◌∷◌}
use genkit_proxy.Http.{HttpRequest, Writer, version_body}
use genkit_proxy.Http.Answered.{Answered}
use genkit_proxy.Http.Serve.Replies.{Unwritten, Complete, Failed}
use genkit_proxy.Http.Streaming.Transcript.{Transcript, CutShort}
use genkit_proxy.Metrics.{Meters}
use genkit_proxy.Server.{
  Route, generate, stream, metrics_page, healthz, readyz, version, unrouted, route, Site,
}

module _ {G L : Type 0} (site : Site G L) where
  -- The replies of a route: a JSON error, or what the route is for. A stream that a panic cut short
  -- has no closing event.
  pub data Reply (m : Meters) (path : String) (req : HttpRequest) (w : Writer)
      : Route → Type 0 where
    refused : (r : Route) → Failed w → Reply m path req w r
    generated : Complete w → Reply m path req w generate
    streamed : Transcript w → Reply m path req w stream
    cut_short : CutShort w → Reply m path req w stream
    page : (v : Writer) → Unwritten v → w ≡ site.exposition m v → Reply m path req w metrics_page
    alive : w.status ≡ some 200 → w.body ≡ [] → Reply m path req w healthz
    ready : w.status ≡ some 200 → w.body ≡ [] → Reply m path req w readyz
    versioned :
        w.status ≡ some 200
        → w.body ≡ version_body site.version site.build_time ∷ []
        → Reply m path req w version
    elsewhere :
        (v : Writer) → Unwritten v → w ≡ site.no_pattern req path v → Reply m path req w unrouted

  -- The reply of the route that a request has.
  abbrev pub Routed : Meters → String → HttpRequest → Writer → Type 0
  Routed m path req w = Reply m path req w (route req.method path)
