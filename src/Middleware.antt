-- ===== src/Middleware.antt =====
-- internal/proxy/middleware.go, and the chain of it that cmd/app/main.go builds around the
-- handlers. The statusWriter is the `Writer` of the response, which keeps the first status; every
-- middleware of the chain gets a response to which nothing was written. The values of the header X-Request-ID and of
-- uuid.New are arguments.
pub mod Laws
pub mod Calls
use genkit_proxy.Generating.{abort_handler, fault}
use genkit_proxy.Common.{
  ℕ, String, Bool, true, false, Option, none, some, ◌==◌, if◌then◌else◌, nat_eq,
}
use genkit_proxy.Errors.Chain.{text}
use genkit_proxy.Errors.Result.{ok, err}
use genkit_proxy.RateLimit.{Clock, Limiter}
use genkit_proxy.Http.{
  HttpRequest, HeaderValue, plain, Writer, set_header, write_header, write_json, error_body, World,
}
use genkit_proxy.Http.Bearer.{bearer_token}
use genkit_proxy.Http.Handler.{Exit, done, unwound, check_limit, respond}

-- http.Handler.
abbrev pub Served : Type 0 → Type 0 → Type 0
Served G L = HttpRequest → World G L → Exit × World G L

-- statusWriter.wroteHeader, by the status that its WriteHeader kept.
unfoldable pub wrote_header : Option ℕ → Bool
wrote_header none = false
wrote_header (some code) = true

-- The four headers of CORS.
unfoldable pub cors_headers : String → Writer → Writer
cors_headers allow_origins w = set_header "Access-Control-Max-Age" (plain "86400") (
    set_header "Access-Control-Allow-Headers" (plain "Authorization, Content-Type") (
      set_header "Access-Control-Allow-Methods" (plain "POST, OPTIONS")
        (set_header "Access-Control-Allow-Origin" (plain allow_origins) w)))

module _ {G L : Type 0} where
  -- The deferred function of Recover, which panics again with http.ErrAbortHandler.
  unfoldable pub recovered : Exit × World G L → Exit × World G L
  recovered (done, w) = (done, w)
  recovered (unwound abort_handler, w) = (unwound abort_handler, w)
  recovered (unwound fault, w) =
      if wrote_header w.writer.status
      then (done, w)
      else (done, respond (write_json 500 (error_body (text "internal server error"))) w)

  unfoldable pub recover : Served G L → Served G L
  recover next req w = recovered (next req w)

  unfoldable pub request_id : String → String → Served G L → Served G L
  request_id inbound generated next req w =
      next req (
        respond (set_header "X-Request-ID" (plain (if inbound == "" then generated else inbound)))
          w)

  -- Logger, up to its record, which `log_status` and the slot make up.
  unfoldable pub logger : Served G L → Served G L
  logger next req w = next req (record w { slot = some (record { name = ""; usage = none }) })

  unfoldable pub log_status : World G L → ℕ
  log_status w = elim w.writer.status [ none ↦ 200 | some code ↦ code ]

  unfoldable pub cors : String → Served G L → Served G L
  cors allow_origins next req w =
      let v = respond (cors_headers allow_origins) w in
      if req.method == "OPTIONS" then (done, respond (write_header 204) v) else next req v

  module _ (digest : String → String) where
    -- RateLimit, for a token.
    unfoldable pub limit_token : Limiter L → Clock → ℕ → String → Served G L → Served G L
    limit_token lim clock limit token next req w =
        let (passed, v) = check_limit lim clock (digest token) limit w in
        if passed then next req v else (done, v)

    unfoldable pub rate_limit : Limiter L → Clock → ℕ → Served G L → Served G L
    unfolding limit_token
    rate_limit lim clock limit next req w =
        if nat_eq limit 0 then next req w else elim (bearer_token req.authorization) [
          | err e ↦ next req w
          | ok token ↦ limit_token lim clock limit token next req w
        ]

    -- The chain of main.go around a handler, without the metrics.
    unfoldable pub chain :
        String → String → String → Limiter L → Clock → ℕ → Served G L → Served G L
    chain allow_origins inbound generated lim clock limit next =
        cors allow_origins
          (recover (request_id inbound generated (rate_limit lim clock limit (logger next))))
