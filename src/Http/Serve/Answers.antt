-- ===== src/Http/Serve/Answers.antt =====
-- What ServeHTTP answers for the outcome of the generator.
use genkit_proxy.Common.{
  ◌≡◌, refl, ◌∙◌, ap, sym, subst, ◌⊎◌, inl, inr, String, Option, none, some, [], ◌∷◌, arith,
  text_cases, true,
}
use genkit_proxy.Errors.{status_for, safe_message}
use genkit_proxy.Errors.Chain.{GoError}
use genkit_proxy.Errors.Result.{ok, err}
use genkit_proxy.Generating.{Outcome, Panic, returned, panicked}
use genkit_proxy.Request.{GenerateRequest, GenerateResponse}
use genkit_proxy.Http.{
  HttpRequest, error_body, response, write_json, write_error, write_go_error, World, ModelSlot,
}
use genkit_proxy.Http.Handler.{
  Handler, Clocks, Exit, done, unwound, answer, generate_with, resolve_and_generate, with_body,
  with_request, name_slot, fill_slot, allow_model,
}
use genkit_proxy.Http.Serve.{check_model_limit, serve_valid, serve_http}
use genkit_proxy.Http.Serve.Gate.{passed, stopped, check_model_limit-Checked}
use genkit_proxy.Http.Serve.Cases.{Admitted, admitted_world, serve_http_cases}
use genkit_proxy.Http.Serve.Replies.{Unwritten, Failed, Refused-Failed, admitted_world-writer}

-- The slot of a request, with the model of the request and the usage of its response.
abbrev pub noted : GenerateRequest → GenerateResponse → Option ModelSlot → Option ModelSlot
noted r resp none = none
noted r resp (some s) = some (record { name = r.model_name; usage = resp.usage })

fill_slot-noted :
    (r : GenerateRequest) (resp : GenerateResponse) (s : Option ModelSlot)
    → fill_slot resp (name_slot r.model_name s) ≡ noted r resp s
fill_slot-noted r resp none = refl
fill_slot-noted r resp (some s) = refl

module _ {G L : Type 0} where
  -- What the client receives for an outcome, and whether the handler returns.
  pub data Answers (r : GenerateRequest) (w : World G L) (res : Exit × World G L)
      : Outcome GenerateResponse → Type 0 where
    response_sent :
        (resp : GenerateResponse)
        → res.0 ≡ done
        → res.1.writer.status ≡ some 200
        → res.1.writer.body ≡ response resp ∷ []
        → res.1.slot ≡ noted r resp w.slot
        → Answers r w res (returned (ok resp))
    error_sent :
        (e : GoError)
        → res.0 ≡ done
        → res.1.writer.status ≡ some (status_for e)
        → res.1.writer.body ≡ error_body (safe_message e) ∷ []
        → Answers r w res (returned (err e))
    nothing_sent :
        (p : Panic) → res.0 ≡ unwound p → res.1.writer ≡ w.writer → Answers r w res (panicked p)

  -- The generator was called once, with this request and key, and its outcome was answered.
  pub record Generated (h : Handler G L) (r : GenerateRequest) (key : String) (w : World G L)
      (res : Exit × World G L) : Type 0 where
    pub once : res.1.generator ≡ (h.generator.generate r key w.generator).1
    pub reply : Answers r w res (h.generator.generate r key w.generator).0

  -- The generator was not called, and one JSON error was sent.
  pub record Rejected (w : World G L) (res : Exit × World G L) : Type 0 where
    pub exit : res.0 ≡ done
    pub untouched : res.1.generator ≡ w.generator
    pub reply : Failed res.1.writer

  -- `v` is the state in which the generator was called.
  answer-Answers :
      (r : GenerateRequest) (o : Outcome GenerateResponse) (w v : World G L)
      → Unwritten w.writer
      → v.writer ≡ w.writer
      → v.slot ≡ name_slot r.model_name w.slot
      → Answers r w (answer o v) o
  unfolding answer write_go_error write_error write_json
  answer-Answers r (returned (ok resp)) w v u same slot =
      response_sent resp refl (ground arith) (ground arith)
        (ap (fill_slot resp) slot ∙ fill_slot-noted r resp w.slot)
  answer-Answers r (returned (err e)) w v u same slot =
      error_sent e refl (ground arith) (ground arith)
  answer-Answers r (panicked p) w v u same slot = nothing_sent p refl same

  answer-once :
      (o : Outcome GenerateResponse) (v : World G L) → (answer o v).1.generator ≡ v.generator
  unfolding answer
  answer-once (returned (ok resp)) v = refl
  answer-once (returned (err e)) v = refl
  answer-once (panicked p) v = refl

module _ (digest : String → String) {G L : Type 0} (h : Handler G L) (clocks : Clocks) where
  serve_http-Admitted :
      (req : HttpRequest) (w : World G L) (a : Admitted digest h clocks req w)
      → serve_http digest h clocks req w
        ≡ generate_with h a.request a.key (admitted_world digest h clocks a.request a.token w)
  unfolding serve_http with_request with_body serve_valid allow_model resolve_and_generate
  serve_http-Admitted req w a = elim (text_cases req.method "POST") [
    | inr t ↦ absurd (t.0 a.post)
    | inl t ↦
        let asked = a.requested in
        let c = a.cleared in
        rw (t.1, serve_http)
          (rw (asked.bearer, with_request)
            (rw (asked.tenant, with_request)
              (rw (asked.decoded, with_body)
                (rw (asked.valid, with_body)
                  (rw (c.permitted, serve_valid)
                    (rw (c.within_limit, serve_valid)
                      (rw (c.keyed, resolve_and_generate) refl)))))))
  ]

  admitted_world-same :
      (r : GenerateRequest) (token : String) (w : World G L)
      → (check_model_limit digest h clocks.model_check token r.model_name w).0 ≡ true
      → ((admitted_world digest h clocks r token w).generator ≡ w.generator)
        × ((admitted_world digest h clocks r token w).slot ≡ name_slot r.model_name w.slot)
  admitted_world-same r token w p =
      elim (check_model_limit-Checked digest h clocks.model_check token r.model_name w) [
        | passed b gen writer slot ↦ (gen, ap (name_slot r.model_name) slot)
        | stopped b no_call ↦ cc
      ]

  generate_with-Generated :
      (r : GenerateRequest) (key : String) (w v : World G L)
      → Unwritten w.writer
      → v.writer ≡ w.writer
      → v.generator ≡ w.generator
      → v.slot ≡ name_slot r.model_name w.slot
      → Generated h r key w (generate_with h r key v)
  unfolding generate_with
  generate_with-Generated r key w v u same gen slot =
      let call = λ (g : G). h.generator.generate r key g in
      record {
        once =
            answer-once (call v.generator).0 (record v { generator = (call v.generator).1 })
            ∙ ap (λ g. (call g).1) gen;
        reply =
            subst (λ (o : Outcome GenerateResponse). Answers r w (generate_with h r key v) o)
              (ap (λ g. (call g).0) gen)
              (answer-Answers r (call v.generator).0 w
                (record v { generator = (call v.generator).1 }) u same slot);
      }

  -- To a client that was sent nothing yet: for every request that passes the guards, ServeHTTP
  -- calls the generator once, with the key that the resolver gave for its token and model, and
  -- answers a result with status 200 and that result, notes its usage and its model in the slot,
  -- answers an error with its status and its safe message, and lets a panic through with nothing
  -- written. Every other request gets one JSON error of a status between 400 and 504, and the
  -- generator is not called.
  pub serve_http_answers :
      (req : HttpRequest) (w : World G L)
      → Unwritten w.writer
      → ((a : Admitted digest h clocks req w)
          → Generated h a.request a.key w (serve_http digest h clocks req w))
        × (Admitted digest h clocks req w ⊎ Rejected w (serve_http digest h clocks req w))
  serve_http_answers req w u = (
    λ a.
        let limit = a.cleared.within_limit in
        let (gen, slot) = admitted_world-same a.request a.token w limit in
        subst (Generated h a.request a.key w) (sym (serve_http-Admitted req w a)) (
          generate_with-Generated a.request a.key w _ u
            (admitted_world-writer digest h clocks a.request a.token w limit) gen slot),
    elim (serve_http_cases digest h clocks req w) [
      | inl (a, same) ↦ inl a
      | inr r ↦
          inr (record { exit = r.exit; untouched = r.untouched; reply = Refused-Failed w _ u r })
    ],
  )
