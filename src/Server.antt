-- ===== src/Server.antt =====
-- The server of cmd/app/main.go: the routes, and the chain of internal/proxy/middleware.go and
-- metrics.go around them with what they log and count. One call of `site` is one request, with what
-- the request carries besides its `HttpRequest` in a `Visit`. What net/http's ServeMux answers
-- where no pattern matches, and the page of the Prometheus handler, are parameters.
pub mod Observer
pub mod Replies
pub mod Records
pub mod Calls
use genkit_proxy.Generating.{abort_handler, fault}
use genkit_proxy.Common.{
  ℕ, String, Bool, ◌||◌, ◌&&◌, Option, none, some, List, [], ◌∷◌, ◌++◌, ◌==◌, if◌then◌else◌,
}
use genkit_proxy.RateLimit.{Clock, Limiter}
use genkit_proxy.Http.{
  HttpRequest, plain, Writer, set_header, write_header, write, version_body, World, ModelSlot,
}
use genkit_proxy.Http.Handler.{Handler, Clocks, Exit, done, unwound, respond}
use genkit_proxy.Http.Serve.{serve_http}
use genkit_proxy.Http.Streaming.{Network, serve_stream}
use genkit_proxy.Metrics.{Meters, slot_of, metrics}
use genkit_proxy.Middleware.{Served, recovered, request_id, logger, log_status, cors, rate_limit}

-- The rest of a request: its path (with no escaped slash), the header X-Request-ID, the value of uuid.New, and how long the
-- handler takes for Logger (in milliseconds) and for the metrics (in nanoseconds).
pub record Visit : Type 0 where
  pub path : String
  pub inbound_id : String
  pub generated_id : String
  pub latency_ms : ℕ
  pub elapsed : ℕ

-- What Logger logs: the attributes of its record.
pub record AccessRecord : Type 0 where
  pub method : String
  pub path : String
  pub status : ℕ
  pub latency_ms : ℕ
  pub request_id : String
  pub model : Option String

-- What stands behind a handler, with all that is logged and counted. Of a panic with another value
-- than http.ErrAbortHandler, Recover logs the request id.
pub record Backend (G : Type 0) : Type 0 where
  pub generator : G
  pub meters : Meters
  pub access : List AccessRecord
  pub panics : List String

module _ {G L : Type 0} where
  abbrev pub unobserved : World (Backend G) L → World G L
  unobserved w = record {
    generator = w.generator.generator;
    limiter = w.limiter;
    writer = w.writer;
    slot = w.slot;
  }

  abbrev pub watched : Backend G → World G L → World (Backend G) L
  watched b w = record {
    generator = record b { generator = w.generator };
    limiter = w.limiter;
    writer = w.writer;
    slot = w.slot;
  }

  -- A handler that logs and counts nothing.
  abbrev pub within : Served G L → Served (Backend G) L
  within next req w = let (e, v) = next req (unobserved w) in (e, watched w.generator v)

-- requestIDFromContext.
abbrev pub request_id_from : Option String → String
request_id_from none = ""
request_id_from (some id) = id

-- The id that RequestID puts into the context.
unfoldable pub id_of : Visit → String
id_of v = if v.inbound_id == "" then v.generated_id else v.inbound_id

abbrev pub named_model : ModelSlot → Option String
named_model s = if s.name == "" then none else some s.name

module _ {G L : Type 0} where
  -- The record of Logger, for a handler that returned. `context` is the id in the context.
  unfoldable pub access_record :
      Visit → Option String → HttpRequest → World (Backend G) L → AccessRecord
  access_record v context req w = record {
    method = req.method;
    path = v.path;
    status = log_status w;
    latency_ms = v.latency_ms;
    request_id = request_id_from context;
    model = named_model (slot_of w.slot);
  }

  unfoldable pub log_access :
      Visit → Option String → HttpRequest → Exit × World (Backend G) L → Exit × World (Backend G) L
  unfolding access_record
  log_access v context req (unwound p, w) = (unwound p, w)
  log_access v context req (done, w) = (
    done,
    record w {
      generator = record (w.generator) {
        access = w.generator.access ++ access_record v context req w ∷ [];
      };
    },
  )

  -- Logger.
  unfoldable pub access_log : Visit → Option String → Served (Backend G) L → Served (Backend G) L
  unfolding log_access
  access_log v context next req w = log_access v context req (logger next req w)

  -- Metrics.Middleware.
  unfoldable pub metered : Visit → Served (Backend G) L → Served (Backend G) L
  metered v next req w =
      let (e, w', m) = metrics v.elapsed next req w w.generator.meters in
      (e, record w' { generator = record (w'.generator) { meters = m } })

  unfoldable pub log_panic : Option String → Exit × World (Backend G) L → Exit × World (Backend G) L
  log_panic context (done, w) = (done, w)
  log_panic context (unwound abort_handler, w) = (unwound abort_handler, w)
  log_panic context (unwound fault, w) = (
    unwound fault,
    record w {
      generator = record (w.generator) {
        panics = w.generator.panics ++ request_id_from context ∷ [];
      };
    },
  )

  -- Recover, which reads the id from the context of the request that it was given.
  unfoldable pub recover_logged : Option String → Served (Backend G) L → Served (Backend G) L
  unfolding log_panic
  recover_logged context next req w = recovered (log_panic context (next req w))

pub data Route : Type 0 where
  generate stream metrics_page healthz readyz version unrouted : Route

-- The patterns of the mux; a pattern with GET takes HEAD too.
unfoldable pub route : String → String → Route
route method path =
    if method == "POST" && path == "/v1/generate"
    then generate
    else if method == "POST" && path == "/v1/generate/stream"
    then stream
    else if (method == "GET" || method == "HEAD") && path == "/metrics"
    then metrics_page
    else if (method == "GET" || method == "HEAD") && path == "/healthz"
    then healthz
    else if (method == "GET" || method == "HEAD") && path == "/readyz"
    then readyz
    else if (method == "GET" || method == "HEAD") && path == "/version"
    then version
    else unrouted

-- The parameters of the server: main's flags, the two replies of libraries, and the chain's own.
pub record Site (G L : Type 0) : Type 0 where
  pub handler : Handler G L
  pub limiter : Limiter L
  pub limit : ℕ
  pub allow_origins : String
  pub version : String
  pub build_time : String
  pub exposition : Meters → Writer → Writer
  pub no_pattern : HttpRequest → String → Writer → Writer

-- The clocks and the network of one request.
pub record Moment : Type 0 where
  pub clocks : Clocks
  pub global_check : Clock
  pub network : Network

module _ (digest : String → String) {G L : Type 0} (site : Site G L) (moment : Moment) where
  -- The handlers of the mux, with the meters that the metrics page shows.
  unfoldable pub serve_route : Route → String → Meters → Served G L
  serve_route generate path m req w = serve_http digest site.handler moment.clocks req w
  serve_route stream path m req w =
      serve_stream moment.network digest site.handler moment.clocks req w
  serve_route metrics_page path m req w = (done, respond (site.exposition m) w)
  serve_route healthz path m req w = (done, respond (write_header 200) w)
  serve_route readyz path m req w = (done, respond (write_header 200) w)
  serve_route version path m req w = (
    done,
    respond
        (λ v.
          write (version_body site.version site.build_time)
            (set_header "Content-Type" (plain "application/json") v))
        w,
  )
  serve_route unrouted path m req w = (done, respond (site.no_pattern req path) w)

  unfoldable pub mux : String → Meters → Served G L
  unfolding serve_route
  mux path m req w = serve_route (route req.method path) path m req w

  unfoldable pub metered_mux : Visit → Served (Backend G) L
  metered_mux v req w = metered v (within (mux v.path w.generator.meters)) req w

  -- main's chain around the mux.
  unfoldable pub serve : Visit → Served (Backend G) L
  serve v = cors site.allow_origins (
      recover_logged none (
        request_id v.inbound_id v.generated_id (
          rate_limit digest site.limiter moment.global_check site.limit
            (access_log v (some (id_of v)) (metered_mux v)))))
