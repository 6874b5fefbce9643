-- ===== src/Http/Handler.antt =====
-- Handler of internal/proxy/proxy.go.
use genkit_proxy.Common.{ℕ, String, Bool, true, false, Option, none, some, if◌then◌else◌}
use genkit_proxy.Errors.Chain.{lit, error_text}
use genkit_proxy.Errors.Result.{GoResult, ok, err}
use genkit_proxy.Request.{GenerateRequest, GenerateResponse, validate}
use genkit_proxy.Generating.{Panic, Generator, Outcome, returned, panicked}
use genkit_proxy.Policy.{ModelAllowlist, allows}
use genkit_proxy.Credentials.{CredentialResolver, passthrough_resolver}
use genkit_proxy.RateLimit.{Clock, Limiter}
use genkit_proxy.Http.{
  HttpRequest, Writer, response, write_json, write_error, write_go_error, write_limited, World,
  ModelSlot,
}
use genkit_proxy.Http.Bearer.{bearer_token}
use genkit_proxy.Common.{[], ◌∷◌}

-- HandlerRLConfig: `limit_for_model` answers a limit and a key tag.
pub record HandlerRlConfig : Type 0 where
  pub stream_limit : ℕ
  pub limit_for_model : Option (String → ℕ × String)

pub record Handler (G L : Type 0) : Type 0 where
  pub generator : Generator G
  pub limiter : Option (Limiter L)
  pub rl_cfg : HandlerRlConfig
  pub allowlist : Option ModelAllowlist
  pub resolver : CredentialResolver

-- The clock readings around the two checks of a request.
pub record Clocks : Type 0 where
  pub model_check : Clock
  pub stream_check : Clock

-- How a handler ends: by returning, or by a panic.
pub data Exit : Type 0 where
  done : Exit
  unwound : Panic → Exit

abbrev pub name_slot : String → Option ModelSlot → Option ModelSlot
name_slot model none = none
name_slot model (some s) = some (record s { name = model })

abbrev pub fill_slot : GenerateResponse → Option ModelSlot → Option ModelSlot
fill_slot resp none = none
fill_slot resp (some s) = some (record s { usage = resp.usage })

-- NewHandler and WithCredentialResolver.
unfoldable pub new_handler :
    {G L : Type 0}
    → Generator G
    → Option (Limiter L)
    → HandlerRlConfig
    → Option ModelAllowlist
    → Handler G L
new_handler generator lim cfg allowlist = record {
  generator = generator;
  limiter = lim;
  rl_cfg = cfg;
  allowlist = allowlist;
  resolver = passthrough_resolver;
}

unfoldable pub with_credential_resolver :
    {G L : Type 0} → CredentialResolver → Handler G L → Handler G L
with_credential_resolver resolver h = record h { resolver = resolver }

module _ {G L : Type 0} where
  -- A check of the limiter under a key: true lets the request pass, also when the backend fails.
  unfoldable pub check_limit : Limiter L → Clock → String → ℕ → World G L → Bool × World G L
  check_limit lim clock key limit w =
      let (v, l) = lim.allow clock key limit w.limiter in
      let w' = record w { limiter = l } in
      elim v.failure [
        | some e ↦ (true, w')
        | none ↦
            if v.allowed
            then (true, w')
            else (false, record w' { writer = write_limited v.retry_after w'.writer })
      ]

  abbrev pub respond : (Writer → Writer) → World G L → World G L
  respond f w = record w { writer = f w.writer }

  -- allowModel.
  unfoldable pub allow_model : Handler G L → String → World G L → Bool × World G L
  allow_model h model w =
      if allows h.allowlist model
      then (true, w)
      else (false, respond (write_error 403 (lit "model not permitted: " ∷ lit model ∷ [])) w)

  -- What ServeHTTP writes for the generator's result.
  unfoldable pub answer : Outcome GenerateResponse → World G L → Exit × World G L
  answer (panicked p) w = (unwound p, w)
  answer (returned (err e)) w = (done, respond (write_go_error e) w)
  answer (returned (ok resp)) w = (
    done,
    record w { slot = fill_slot resp w.slot; writer = write_json 200 (response resp) w.writer },
  )

  -- The call of the generator with the provider's key.
  unfoldable pub generate_with :
      Handler G L → GenerateRequest → String → World G L → Exit × World G L
  generate_with h req key w =
      let (o, g) = h.generator.generate req key w.generator in answer o (record w { generator = g })

  -- From the resolution of the credential on.
  unfoldable pub resolve_and_generate :
      Handler G L → GenerateRequest → String → World G L → Exit × World G L
  unfolding generate_with
  resolve_and_generate h req token w =
      let named = record w { slot = name_slot req.model_name w.slot } in
      elim (h.resolver.resolve token req.model_name) [
        | err e ↦ (done, respond (write_go_error e) named)
        | ok key ↦ generate_with h req key named
      ]

  -- What ServeHTTP and ServeStream have in common before the allowlist: the bearer token, the
  -- tenant, the body and its validation, each with its error answer.
  unfoldable pub with_body :
      GoResult GenerateRequest
      → (GenerateRequest → World G L → Exit × World G L)
      → World G L
      → Exit × World G L
  with_body (err e) next w =
      (done, respond (write_error 400 (lit "invalid JSON body: " ∷ error_text e)) w)
  with_body (ok r) next w = elim (validate r) [
    | some e ↦ (done, respond (write_error 400 (error_text e)) w)
    | none ↦ next r w
  ]

  unfoldable pub with_request :
      Handler G L
      → HttpRequest
      → (GenerateRequest → String → World G L → Exit × World G L)
      → World G L
      → Exit × World G L
  with_request h req next w = elim (bearer_token req.authorization) [
    | err e ↦ (done, respond (write_error 401 (error_text e)) w)
    | ok token ↦ elim (h.resolver.authenticate token) [
      | some e ↦ (done, respond (write_go_error e) w)
      | none ↦ with_body req.body (λ r. next r token) w
    ]
  ]
