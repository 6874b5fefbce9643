-- ===== src/Http/Serve.antt =====
-- ServeHTTP of internal/proxy/proxy.go, with its rate-limit keys. `digest` stands for the hex form
-- of SHA-256.
pub mod Gate
pub mod Cases
pub mod Replies
pub mod Answers
use genkit_proxy.Common.{
  ℕ, String, Bool, true, false, not, Option, none, some, ◌==◌, if◌then◌else◌, ◌≡◌, nat_eq,
}
use Prim.Native.String
use genkit_proxy.Errors.{status_for}
use genkit_proxy.Errors.Chain.{GoError, text, lit, quoted, error_text}
use genkit_proxy.Errors.Result.{GoResult, ok, err}
use genkit_proxy.Request.{GenerateRequest, GenerateResponse, validate}
use genkit_proxy.Generating.{Generator, Outcome, returned, panicked}
use genkit_proxy.Policy.{ModelAllowlist, allows}
use genkit_proxy.Credentials.{CredentialResolver}
use genkit_proxy.RateLimit.{Clock, Limiter, Verdict}
use genkit_proxy.Http.{
  HttpRequest, Writer, Payload, response, write_json, write_error, write_go_error, write_limited,
  World, ModelSlot,
}
use genkit_proxy.Http.Bearer.{bearer_token}
use genkit_proxy.Common.{List, [], ◌∷◌, ◌++◌}
use genkit_proxy.Http.Handler.{
  Handler, HandlerRlConfig, Clocks, Exit, done, unwound, check_limit, allow_model, respond,
  resolve_and_generate, with_request,
}

module _ (digest : String → String) where
  -- rateLimitKey.
  unfoldable pub rate_limit_key : String → String → String
  rate_limit_key token tag =
      if tag == "" then digest token else digest (String.◌++◌ token (String.◌++◌ ":" tag))

  module _ {G L : Type 0} where
    -- checkModelLimit, once a limiter and LimitForModel are there.
    unfoldable pub check_tagged :
        Limiter L → Clock → String → ℕ × String → World G L → Bool × World G L
    check_tagged lim clock token (limit, tag) w =
        if nat_eq limit 0
        then (true, w)
        else check_limit lim clock (rate_limit_key token tag) limit w

    unfoldable pub check_model_limit :
        Handler G L → Clock → String → String → World G L → Bool × World G L
    unfolding check_tagged
    check_model_limit h clock token model w = elim h.limiter [
      | none ↦ (true, w)
      | some lim ↦ elim h.rl_cfg.limit_for_model [
        | none ↦ (true, w)
        | some limit_for ↦ check_tagged lim clock token (limit_for model) w
      ]
    ]

    -- From the allowlist on: a valid request of an authenticated token.
    unfoldable pub serve_valid :
        Handler G L → Clocks → GenerateRequest → String → World G L → Exit × World G L
    unfolding resolve_and_generate allow_model check_model_limit
    serve_valid h clocks req token w =
        let (permitted, w1) = allow_model h req.model_name w in
        if not permitted
        then (done, w1)
        else (let (passed, w2) = check_model_limit h clocks.model_check token req.model_name w1 in
            if not passed then (done, w2) else resolve_and_generate h req token w2)

    -- ServeHTTP.
    unfoldable pub serve_http : Handler G L → Clocks → HttpRequest → World G L → Exit × World G L
    serve_http h clocks req w =
        if not (req.method == "POST")
        then (done, respond (write_error 405 (text "method not allowed")) w)
        else with_request h req (serve_valid h clocks) w
