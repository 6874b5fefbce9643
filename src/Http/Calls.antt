-- ===== src/Http/Calls.antt =====
-- What ServeHTTP and ServeStream call the generator for.
use genkit_proxy.Common.{
  ◌≡◌, refl, ◌∙◌, ap, sym, subst, ◌⊎◌, inl, inr, String, Bool, true, false, Bool-cases,
}
use genkit_proxy.Errors.Result.{ok, err, GoResult-cases}
use genkit_proxy.Request.{GenerateRequest, GenerateResponse}
use genkit_proxy.Generating.{Outcome, returned, panicked, OnChunk, run_stream}
use genkit_proxy.Policy.{allows}
use genkit_proxy.Http.{HttpRequest, World}
use genkit_proxy.Http.Handler.{Handler, Clocks, Exit, answer, generate_with, allow_model, name_slot}
use genkit_proxy.Http.Serve.{check_model_limit, serve_http}
use genkit_proxy.Http.Serve.Gate.{Checked, passed, stopped, check_model_limit-Checked}
use genkit_proxy.Http.Serve.Cases.{Requested, with_request_cases, serve_http_cases, admitted_world}
use genkit_proxy.Http.Streaming.{
  Network, Sse, on_chunk, conclude, stream_with, check_stream_limit, resolve_and_stream,
  stream_valid, serve_stream,
}
use genkit_proxy.Http.Streaming.Replies.{check_stream_limit-Checked}

module _ {G L : Type 0} (h : Handler G L) where
  -- The state of the generator after one call of it, of either kind.
  pub data Reaches (r : GenerateRequest) (key : String) (g after : G) : Type 0 where
    at_once : after ≡ (h.generator.generate r key g).1 → Reaches r key g after
    in_chunks :
        (client : OnChunk Sse) (s : Sse)
        → after ≡ (run_stream client (h.generator.generate_stream r key g) s).1
        → Reaches r key g after

  -- One call, for a request with a bearer token that the resolver accepts, a body that decodes and
  -- validates, a permitted model, and with the key that the resolver gives.
  pub record Used (req : HttpRequest) (g after : G) : Type 0 where
    pub token : String
    pub request : GenerateRequest
    pub key : String
    pub requested : Requested h req token request
    pub permitted : allows h.allowlist request.model_name ≡ true
    pub keyed : h.resolver.resolve token request.model_name ≡ ok key
    pub reached : Reaches request key g after

  -- The generator is left as it was, or used.
  abbrev pub Spent : HttpRequest → World G L → World G L → Type 0
  Spent req w after = (after.generator ≡ w.generator) ⊎ Used req w.generator after.generator

  Checked-generator :
      (w : World G L) (res : Bool × World G L) → Checked w res → res.1.generator ≡ w.generator
  Checked-generator w res (passed b gen writer slot) = gen
  Checked-generator w res (stopped b r) = r.untouched

  answer-generator :
      (o : Outcome GenerateResponse) (w : World G L) → (answer o w).1.generator ≡ w.generator
  unfolding answer
  answer-generator (panicked p) w = refl
  answer-generator (returned (err e)) w = refl
  answer-generator (returned (ok r)) w = refl

  conclude-generator :
      (net : Network) (o : Outcome GenerateResponse) (w : World G L) (s : Sse)
      → (conclude net o w s).1.generator ≡ w.generator
  unfolding conclude
  conclude-generator net (panicked p) w s = refl
  conclude-generator net (returned (ok r)) w s = refl
  conclude-generator net (returned (err e)) w s = elim (Bool-cases s.started) [
    | inl b ↦ rw b refl
    | inr b ↦ rw b refl
  ]

  generate_with-generator :
      (r : GenerateRequest) (key : String) (w : World G L)
      → (generate_with h r key w).1.generator ≡ (h.generator.generate r key w.generator).1
  unfolding generate_with
  generate_with-generator r key w =
      let (o, g) = h.generator.generate r key w.generator in
      answer-generator o (record w { generator = g })

  stream_with-Reaches :
      (net : Network) (r : GenerateRequest) (key : String) (w : World G L)
      → Reaches r key w.generator (stream_with net h r key w).1.generator
  unfolding stream_with
  stream_with-Reaches net r key w =
      let before : Sse = record { started = false; events = 0; writer = w.writer } in
      let (o, g, s) =
        run_stream (on_chunk net) (h.generator.generate_stream r key w.generator) before in
      in_chunks (on_chunk net) before (conclude-generator net o (record w { generator = g }) s)

  module _ (digest : String → String) (clocks : Clocks) where
    pub serve_http-Spent :
        (req : HttpRequest) (w : World G L) → Spent req w (serve_http digest h clocks req w).1
    serve_http-Spent req w = elim (serve_http_cases digest h clocks req w) [
      | inr refused ↦ inl refused.untouched
      | inl (a, same) ↦
          let checked =
            check_model_limit-Checked digest h clocks.model_check a.token a.request.model_name w in
          let before = admitted_world digest h clocks a.request a.token w in
          inr (record {
            token = a.token;
            request = a.request;
            key = a.key;
            requested = a.requested;
            permitted = a.cleared.permitted;
            keyed = a.cleared.keyed;
            reached = at_once (
                ap (λ (res : Exit × World G L). res.1.generator) same
                ∙ generate_with-generator a.request a.key before
                ∙ ap (λ g. (h.generator.generate a.request a.key g).1)
                    (Checked-generator w _ checked));
          })
    ]

    module _ (net : Network) where
      resolve_and_stream-Spent :
          (req : HttpRequest) (r : GenerateRequest) (token : String) (w v : World G L)
          → Requested h req token r
          → allows h.allowlist r.model_name ≡ true
          → v.generator ≡ w.generator
          → Spent req w (resolve_and_stream net digest h r token v).1
      unfolding resolve_and_stream
      resolve_and_stream-Spent req r token w v asked permitted same =
          elim (GoResult-cases (h.resolver.resolve token r.model_name)) [
            | inr (e, c) ↦ rw (c, resolve_and_stream) (inl same)
            | inl (key, c) ↦
                let named = record v { slot = name_slot r.model_name v.slot } in
                rw (c, resolve_and_stream)
                  (inr (record {
                    token = token;
                    request = r;
                    key = key;
                    requested = asked;
                    permitted = permitted;
                    keyed = c;
                    reached =
                        subst (λ g. Reaches r key g (stream_with net h r key named).1.generator)
                          same (stream_with-Reaches net r key named);
                  }))
          ]

      stream_valid-Spent :
          (req : HttpRequest) (r : GenerateRequest) (token : String) (w : World G L)
          → Requested h req token r
          → Spent req w (stream_valid net digest h clocks r token w).1
      unfolding stream_valid allow_model
      stream_valid-Spent req r token w asked = elim (Bool-cases (allows h.allowlist r.model_name)) [
        | inr a ↦ rw (a, stream_valid) (inl refl)
        | inl a ↦
            let (b, w2) = check_model_limit digest h clocks.model_check token r.model_name w in
            let (c, w3) = check_stream_limit net digest h clocks token w2 in
            let two =
              Checked-generator w (b, w2)
                (check_model_limit-Checked digest h clocks.model_check token r.model_name w) in
            let three =
              Checked-generator w2 (c, w3)
                (check_stream_limit-Checked digest net h clocks token w2) in
            elim (Bool-cases b) [
              | inr over ↦ rw (a, stream_valid) (rw (over, stream_valid) (inl two))
              | inl under ↦ elim (Bool-cases c) [
                | inr full ↦
                    rw (a, stream_valid)
                      (rw (under, stream_valid) (rw (full, stream_valid) (inl (three ∙ two))))
                | inl free ↦
                    rw (a, stream_valid)
                      (rw (under, stream_valid)
                        (rw (free, stream_valid)
                          (resolve_and_stream-Spent req r token w w3 asked a (three ∙ two))))
              ]
            ]
      ]

      pub serve_stream-Spent :
          (req : HttpRequest) (w : World G L)
          → Spent req w (serve_stream net digest h clocks req w).1
      unfolding serve_stream
      serve_stream-Spent req w =
          elim (with_request_cases h req (stream_valid net digest h clocks) w) [
            | inr refused ↦ inl refused.untouched
            | inl (token, r, asked, same) ↦
                subst (λ (res : Exit × World G L). Spent req w res.1) (sym same)
                  (stream_valid-Spent req r token w asked)
          ]
