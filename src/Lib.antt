-- ===== src/Lib.antt =====
-- Genkit Proxy: an HTTP service that takes generation requests for several model providers,
-- authenticates the caller, checks policy and rate limits, and calls the provider through Genkit
-- with the caller's own key.
--
-- How the parts interact. A request reaches `ServeHTTP` or `ServeStream` (internal/proxy), which
-- extract the bearer token, let the credential resolver authenticate it, decode and validate the
-- body, ask the allowlist and the rate limiter, resolve the provider's key, and call a Generator.
-- Both are routes of the server, which stands behind the middlewares CORS, Recover, RequestID,
-- RateLimit, Logger and Metrics. The Generator they are given is the retrying one around Genkit's.
-- Errors of every part are classified in one place, which decides the status, the message to the
-- client and the retries.
--
-- Which file models which part:
--   Errors, Errors/Chain   internal/proxy/errors.go, statusFor of proxy.go, isRetryable of retry.go
--   Router                 internal/proxy/router.go
--   Policy                 internal/proxy/policy.go
--   Request                internal/proxy/request.go; Request/Valid says which requests are valid
--   Generating             the Generator interface of internal/proxy/generator.go
--   Retry                  internal/proxy/retry.go
--   RateLimit              internal/ratelimit/ratelimit.go and memory.go; RateLimit/Memory/Spec is
--                          the fixed-window budget
--   RateLimit/Redis        internal/ratelimit/redis.go
--   Auth                   internal/auth/resolver.go and source.go
--   Credentials            internal/proxy/credentials.go
--   Http, Http/Handler, Http/Serve   internal/proxy/proxy.go
--   Http/Streaming         internal/proxy/stream.go
--   Cache                  internal/proxy/cache.go; Cache/System is the interleaving, and
--                          Cache/Alone a call that nothing overlaps
--   Genkit, Genkit/Runs    internal/proxy/generator.go: what is handed to Genkit and made of its
--                          answers, and the Generator that is made of the two calls;
--                          Genkit/Cached puts the cache behind it
--   Metrics, Metrics/Setup   internal/proxy/metrics.go
--   Middleware             internal/proxy/middleware.go and the order in which cmd/app/main.go
--                          composes it
--   Server                 the routes of cmd/app/main.go and the chain around them, with what
--                          Logger, Recover and Metrics record
--   Config, Config/Loading   cmd/app/config.go
--   Wiring, Wiring/Assembly, Wiring/Startup   buildCredentialResolver of cmd/app/main.go, the handler
--                          and server that main makes of its configuration, and its start;
--                          Wiring/Choices and Wiring/Exact say the same without those functions
--   Common                 helpers, and what the code uses of Go's strings and strconv
--   Examples               concrete inputs and tests
-- A definition has the name of the Go function in snake case; a method's receiver is an argument.
--
-- Conventions. State is passed explicitly: the generator has a state `G`, the limiter a state
-- `L`, and a handler changes a `World` of both, the response and the slot of the Logger. A nil
-- error is `none` and a pair of a value and an error a `GoResult`. A panic is the outcome
-- `panicked`, with http.ErrAbortHandler or another value, or `none` of `retry_delay`. A streaming
-- call is a tree of the chunks it delivers, so it may react to what onChunk answers. A text of an
-- error is kept as its pieces, where a `quoted` piece is one that %q prints. A float64 of a JSON
-- body is finite and so a whole multiple of 2^-1074, which is how it is kept. Times are
-- nanoseconds since the zero time of package time; the conversion to Unix nanoseconds is that of
-- the years 1678 to 2262, where Go defines it. Limits are natural numbers, since loadConfig
-- rejects negative ones. The loops run over the list or the number of attempts that the code
-- ranges over, so no fuel is chosen; the decimal print of a number has one more digit of fuel
-- than the number's value, which is enough.
--
-- Parameters of the model: the hex form of SHA-256 (`digest`), strings.ToLower, time.ParseDuration,
-- the environment, the answers of the JSON coders, the clocks, the random source and the end of the
-- context during a wait, the failures of the network, the generator behind the retrying one, the
-- calls of Genkit (its initialisation, which may fail or panic, and its answers), the commands of
-- the Redis server and how time passes on it, the calls of OpenTelemetry that set up the
-- instruments, redis.ParseURL, what ServeMux answers where no pattern matches, and the page of the
-- Prometheus handler. A theorem on the Redis limiter says what those commands are relied on to do.
--
-- Not modelled: listening, signals, timeouts and the shutdown of the HTTP server, which are
-- net/http's; slog records other than those of Logger and Recover, and otel spans, which are
-- output; the write deadline of a stream; the bytes of JSON and of server-sent events.
pub mod Auth
pub mod Cache
pub mod Common
pub mod Config
pub mod Credentials
pub mod Errors
pub mod Examples
pub mod Generating
pub mod Genkit
pub mod Http
pub mod Metrics
pub mod Middleware
pub mod Policy
pub mod RateLimit
pub mod Request
pub mod Retry
pub mod Router
pub mod Server
pub mod Wiring
