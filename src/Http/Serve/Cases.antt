-- ===== src/Http/Serve/Cases.antt =====
-- The ways of a request through ServeHTTP.
use genkit_proxy.Common.{
  ◌≡◌, refl, ◌∙◌, ◌⊎◌, inl, inr, String, true, none, arith, Bool-cases, Option-cases, text_cases,
}
use genkit_proxy.Errors.Result.{ok, GoResult-cases}
use genkit_proxy.Request.{GenerateRequest, validate}
use genkit_proxy.Policy.{allows}
use genkit_proxy.Http.{HttpRequest, World}
use genkit_proxy.Http.Bearer.{bearer_token}
use genkit_proxy.Http.Handler.{
  Handler, Clocks, Exit, allow_model, name_slot, generate_with, resolve_and_generate, with_body,
  with_request,
}
use genkit_proxy.Http.Serve.{check_model_limit, serve_valid, serve_http}
use genkit_proxy.Http.Serve.Gate.{
  Refused, refuse, refuse_go, passed, stopped, check_model_limit-Checked,
}

-- What the two handlers ask of a request before the allowlist.
pub record Requested {G L : Type 0} (h : Handler G L) (req : HttpRequest) (token : String)
    (r : GenerateRequest) : Type 0 where
  pub bearer : bearer_token req.authorization ≡ ok token
  pub tenant : h.resolver.authenticate token ≡ none
  pub decoded : req.body ≡ ok r
  pub valid : validate r ≡ none

module _ {G L : Type 0} where
  pub with_request_cases :
      (h : Handler G L) (req : HttpRequest)
      (next : GenerateRequest → String → World G L → Exit × World G L) (w : World G L)
      → ((token : String) × (r : GenerateRequest) × Requested h req token r
          × (with_request h req next w ≡ next r token w))
        ⊎ Refused w (with_request h req next w)
  unfolding with_request with_body
  with_request_cases h req next w = elim (GoResult-cases (bearer_token req.authorization)) [
    | inr (e, a) ↦ inr (rw (a, with_request) (refuse w w 401 _ refl refl (omega arith)))
    | inl (token, a) ↦ elim (Option-cases (h.resolver.authenticate token)) [
      | inr (e, b) ↦ inr (rw (a, with_request) (rw (b, with_request) (refuse_go w w e refl refl)))
      | inl b ↦ elim (GoResult-cases req.body) [
        | inr (e, c) ↦ inr (
            rw (a, with_request)
              (rw (b, with_request) (rw (c, with_body) (refuse w w 400 _ refl refl (omega arith)))))
        | inl (r, c) ↦ elim (Option-cases (validate r)) [
          | inr (e, d) ↦ inr (
              rw (a, with_request)
                (rw (b, with_request)
                  (rw (c, with_body)
                    (rw (d, with_body) (refuse w w 400 _ refl refl (omega arith))))))
          | inl d ↦ inl (
            token,
            r,
            record { bearer = a; tenant = b; decoded = c; valid = d },
            rw (a, with_request)
                (rw (b, with_request) (rw (c, with_body) (rw (d, with_body) refl))),
          )
        ]
      ]
    ]
  ]

module _ (digest : String → String) {G L : Type 0} (h : Handler G L) (clocks : Clocks) where
  -- The state in which the generator is called: the limiter has counted, the slot is named.
  abbrev pub admitted_world : GenerateRequest → String → World G L → World G L
  admitted_world r token w =
      let v = (check_model_limit digest h clocks.model_check token r.model_name w).1 in
      record v { slot = name_slot r.model_name v.slot }

  -- The guards after validation.
  pub record Cleared (r : GenerateRequest) (token key : String) (w : World G L) : Type 0 where
    pub permitted : allows h.allowlist r.model_name ≡ true
    pub within_limit : (check_model_limit digest h clocks.model_check token r.model_name w).0 ≡ true
    pub keyed : h.resolver.resolve token r.model_name ≡ ok key

  serve_valid_cases :
      (r : GenerateRequest) (token : String) (w : World G L)
      → ((key : String) × Cleared r token key w
          × (serve_valid digest h clocks r token w
              ≡ generate_with h r key (admitted_world r token w)))
        ⊎ Refused w (serve_valid digest h clocks r token w)
  unfolding serve_valid allow_model resolve_and_generate
  serve_valid_cases r token w = elim (Bool-cases (allows h.allowlist r.model_name)) [
    | inr a ↦ inr (rw (a, serve_valid) (refuse w w 403 _ refl refl (omega arith)))
    | inl a ↦ elim (check_model_limit-Checked digest h clocks.model_check token r.model_name w) [
      | stopped b no_call ↦ inr (rw (a, serve_valid) (rw (b, serve_valid) no_call))
      | passed b gen writer slot ↦ elim (GoResult-cases (h.resolver.resolve token r.model_name)) [
        | inr (e, c) ↦ inr (
            rw (a, serve_valid)
              (rw (b, serve_valid)
                (rw (c, resolve_and_generate)
                  (refuse_go w (admitted_world r token w) e gen writer))))
        | inl (key, c) ↦ inl (
          key,
          record { permitted = a; within_limit = b; keyed = c },
          rw (a, serve_valid) (rw (b, serve_valid) (rw (c, resolve_and_generate) refl)),
        )
      ]
    ]
  ]

  -- A request that passes every guard.
  pub record Admitted (req : HttpRequest) (w : World G L) : Type 0 where
    pub token : String
    pub request : GenerateRequest
    pub key : String
    pub post : req.method ≡ "POST"
    pub requested : Requested h req token request
    pub cleared : Cleared request token key w

  -- ServeHTTP either calls the generator once, for a request that passed every guard and with the
  -- key that the resolver gave for its token and model, and answers with what it returns; or it
  -- answers with one JSON error of a status between 400 and 504, and the generator is not called.
  pub serve_http_cases :
      (req : HttpRequest) (w : World G L)
      → ((a : Admitted req w) × (serve_http digest h clocks req w
            ≡ generate_with h a.request a.key (admitted_world a.request a.token w)))
        ⊎ Refused w (serve_http digest h clocks req w)
  unfolding serve_http
  serve_http_cases req w = elim (text_cases req.method "POST") [
    | inr a ↦ inr (rw (a.1, serve_http) (refuse w w 405 _ refl refl (omega arith)))
    | inl a ↦ elim (with_request_cases h req (serve_valid digest h clocks) w) [
      | inr refused ↦ inr (rw (a.1, serve_http) refused)
      | inl (token, r, b, same) ↦ elim (serve_valid_cases r token w) [
        | inr refused ↦ inr (rw (a.1, serve_http) (rw same refused))
        | inl (key, c, same') ↦ inl (
          record { token = token; request = r; key = key; post = a.0; requested = b; cleared = c },
          rw (a.1, serve_http) (same ∙ same'),
        )
      ]
    ]
  ]
