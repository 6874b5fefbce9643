-- ===== src/Metrics/Labels.antt =====
-- The model that ServeHTTP leaves in its slot.
use genkit_proxy.Common.{
  ℕ, ◌≡◌, ◌⊎◌, inl, inr, refl, sym, subst, String, true, Bool-cases, Option-cases, Option, none,
  some, nat_eq, arith, ◌==◌,
}
use genkit_proxy.Common.Text.Cut.{cut_before-cut}
use genkit_proxy.Errors.Result.{GoResult, ok, err, GoResult-cases}
use genkit_proxy.Generating.{Outcome, returned, panicked}
use genkit_proxy.RateLimit.{Clock, Limiter}
use genkit_proxy.Request.{GenerateRequest, GenerateResponse, validate}
use genkit_proxy.Request.Valid.Exact.{validate_iff}
use genkit_proxy.Router.{is_known_provider}
use genkit_proxy.Router.Laws.{provider_of-Accepts}
use genkit_proxy.Http.{HttpRequest, ModelSlot, World}
use genkit_proxy.Http.Bearer.{bearer_token}
use genkit_proxy.Http.Handler.{
  Handler, Clocks, Exit, done, unwound, check_limit, allow_model, answer, generate_with,
  resolve_and_generate, with_body, with_request,
}
use genkit_proxy.Http.Serve.{
  rate_limit_key, check_tagged, check_model_limit, serve_valid, serve_http,
}
use genkit_proxy.Metrics.{slot_of, provider_label}

-- The empty label, or one of the four providers.
abbrev pub Label : String → Type 0
Label p = (p ≡ "") ⊎ (is_known_provider p ≡ true)

-- A slot whose model name gives such a label.
abbrev pub Labelled : Option ModelSlot → Type 0
Labelled s = Label (provider_label (slot_of s).name)

valid-Label : (r : GenerateRequest) → validate r ≡ none → Label (provider_label r.model_name)
unfolding provider_label
valid-Label r v =
    let (p, routed) = ((validate_iff r).0 v).routed in
    let (model, a) = provider_of-Accepts r.model_name p routed in
    inr (
      subst (λ q. is_known_provider q ≡ true)
        (sym (cut_before-cut b'/' r.model_name p model a.split)) a.known)

name_slot-Labelled :
    (r : GenerateRequest) (s : Option ModelSlot)
    → validate r ≡ none
    → Labelled s
    → Labelled (genkit_proxy.Http.Handler.name_slot r.model_name s)
name_slot-Labelled r none v h = h
name_slot-Labelled r (some s) v h = valid-Label r v

module _ {G L : Type 0} where
  check_limit-slot :
      (lim : Limiter L) (clock : Clock) (key : String) (limit : ℕ) (w : World G L)
      → (check_limit lim clock key limit w).1.slot ≡ w.slot
  unfolding check_limit
  check_limit-slot lim clock key limit w = ground arith

  allow_model-slot :
      (h : Handler G L) (model : String) (w : World G L) → (allow_model h model w).1.slot ≡ w.slot
  unfolding allow_model
  allow_model-slot h model w = ground arith

  check_model_limit-slot :
      (digest : String → String) (h : Handler G L) (clock : Clock) (token model : String)
      (w : World G L)
      → (check_model_limit digest h clock token model w).1.slot ≡ w.slot
  unfolding check_model_limit check_tagged
  check_model_limit-slot digest h clock token model w = elim (Option-cases h.limiter) [
    | inl e ↦ rw (e, check_model_limit) refl
    | inr (lim, e) ↦ elim (Option-cases h.rl_cfg.limit_for_model) [
      | inl f ↦ rw (e, check_model_limit) (rw (f, check_model_limit) refl)
      | inr (limit_for, f) ↦
          rw (e, check_model_limit) (rw (f, check_model_limit) (tagged lim (limit_for model)))
    ]
  ]
    where
      tagged :
          (lim : Limiter L) (t : ℕ × String)
          → (check_tagged digest lim clock token t w).1.slot ≡ w.slot
      tagged lim (limit, tag) = elim (Bool-cases (nat_eq limit 0)) [
        | inl off ↦ rw off refl
        | inr on ↦ rw on (check_limit-slot lim clock (rate_limit_key digest token tag) limit w)
      ]

  answer-Labelled :
      (o : Outcome GenerateResponse) (w : World G L)
      → Labelled w.slot
      → Labelled (answer o w).1.slot
  unfolding answer
  answer-Labelled (panicked p) w h = h
  answer-Labelled (returned (err e)) w h = h
  answer-Labelled (returned (ok r)) w h = go w.slot h
    where
      go : (s : Option ModelSlot) → Labelled s → Labelled (genkit_proxy.Http.Handler.fill_slot r s)
      go none h = h
      go (some s) h = h

  resolve_and_generate-Labelled :
      (h : Handler G L) (r : GenerateRequest) (token : String) (w : World G L)
      → validate r ≡ none
      → Labelled w.slot
      → Labelled (resolve_and_generate h r token w).1.slot
  unfolding resolve_and_generate
  resolve_and_generate-Labelled h r token w v l =
      let named = name_slot-Labelled r w.slot v l in
      elim (GoResult-cases (h.resolver.resolve token r.model_name)) [
        | inr (e, x) ↦ rw (x, resolve_and_generate) named
        | inl (key, x) ↦ rw (x, resolve_and_generate) (answer-Labelled _ _ named)
      ]

  with_body-Labelled :
      (body : GoResult GenerateRequest) (next : GenerateRequest → World G L → Exit × World G L)
      (w : World G L)
      → Labelled w.slot
      → ((r : GenerateRequest) → validate r ≡ none → Labelled (next r w).1.slot)
      → Labelled (with_body body next w).1.slot
  unfolding with_body
  with_body-Labelled (err e) next w l k = l
  with_body-Labelled (ok r) next w l k = elim (Option-cases (validate r)) [
    | inr (e, v) ↦ rw (v, with_body) l
    | inl v ↦ rw (v, with_body) (k r v)
  ]

  module _ (digest : String → String) (h : Handler G L) (clocks : Clocks) where
    serve_valid-Labelled :
        (r : GenerateRequest) (token : String) (w : World G L)
        → validate r ≡ none
        → Labelled w.slot
        → Labelled (serve_valid digest h clocks r token w).1.slot
    unfolding serve_valid
    serve_valid-Labelled r token w v l =
        let (permitted, w1) = allow_model h r.model_name w in
        let one : Labelled w1.slot = subst Labelled (sym (allow_model-slot h r.model_name w)) l in
        let two =
          subst Labelled
            (sym (check_model_limit-slot digest h clocks.model_check token r.model_name w1)) one in
        elim (Bool-cases permitted) [
          | inr refused ↦ rw (refused, serve_valid) one
          | inl fine ↦
              elim (Bool-cases
                (check_model_limit digest h clocks.model_check token r.model_name w1).0) [
                  | inr over ↦ rw (fine, serve_valid) (rw (over, serve_valid) two)
                  | inl under ↦
                      rw (fine, serve_valid)
                        (rw (under, serve_valid) (resolve_and_generate-Labelled h r token _ v two))
                ]
        ]

    pub serve_http-Labelled :
        (req : HttpRequest) (w : World G L)
        → Labelled w.slot
        → Labelled (serve_http digest h clocks req w).1.slot
    unfolding serve_http with_request
    serve_http-Labelled req w l = elim (Bool-cases (req.method == "POST")) [
      | inr other ↦ rw (other, serve_http) l
      | inl post ↦
          rw (post, serve_http)
            (elim (GoResult-cases (bearer_token req.authorization)) [
              | inr (e, a) ↦ rw (a, with_request) l
              | inl (token, a) ↦
                  rw (a, with_request)
                    (elim (Option-cases (h.resolver.authenticate token)) [
                      | inr (e, b) ↦ rw (b, with_request) l
                      | inl b ↦
                          rw (b, with_request)
                            (with_body-Labelled req.body (λ r. serve_valid digest h clocks r token)
                              w l λ r v. serve_valid-Labelled r token w v l)
                    ])
            ])
    ]
