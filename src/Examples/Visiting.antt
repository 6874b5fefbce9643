-- ===== src/Examples/Visiting.antt =====
-- Requests to a server.
use genkit_proxy.Common.{ℕ, ◌≡◌, none, []}
use genkit_proxy.Http.{write_header, fresh_writer, World}
use genkit_proxy.Http.Streaming.Delivery.{perfect}
use genkit_proxy.Metrics.{no_samples}
use genkit_proxy.Middleware.{chain}
use genkit_proxy.RateLimit.Memory.{MemLimiter, memory_limiter}
use genkit_proxy.Server.{Visit, Backend, Site, Moment, unobserved, mux, serve}
use genkit_proxy.Server.Observer.{erase, erase-serve}
use genkit_proxy.Examples.{token_id}
use genkit_proxy.Examples.Serving.{proxy, noon, post, quiet}

abbrev server : Site ℕ MemLimiter
server = record {
  handler = proxy;
  limiter = memory_limiter;
  limit = 60;
  allow_origins = "*";
  version = "dev";
  build_time = "unknown";
  exposition = λ m w. write_header 200 w;
  no_pattern = λ req path w. write_header 404 w;
}

abbrev pub midday : Moment
midday = record {
  clocks = noon;
  global_check = record { now = 999; later = 999 };
  network = perfect;
}

abbrev pub call : Visit
call = record {
  path = "/v1/generate";
  inbound_id = "";
  generated_id = "id-1";
  latency_ms = 12;
  elapsed = 12_345_678;
}

abbrev pub idle : World (Backend ℕ) MemLimiter
idle = record {
  generator = record { generator = 2; meters = no_samples; access = []; panics = [] };
  limiter = quiet.limiter;
  writer = fresh_writer;
  slot = none;
}

erase-serve_example :
    erase (serve token_id server midday call post idle)
    ≡ chain token_id "*" "" "id-1" memory_limiter midday.global_check 60
        (mux token_id server midday "/v1/generate" no_samples)
        post
        (unobserved idle)
erase-serve_example = erase-serve token_id server midday call post idle
