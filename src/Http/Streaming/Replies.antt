-- ===== src/Http/Streaming/Replies.antt =====
-- What the client of ServeStream receives, whatever happens.
use genkit_proxy.Common.{
  ◌≡◌, refl, ◌∙◌, sym, subst, ◌⊎◌, inl, inr, Bool, true, false, String, Option-cases, Bool-cases,
  ltb,
}
use genkit_proxy.Errors.{status_for, safe_message}
use genkit_proxy.Errors.Laws.{status_for_bounds}
use genkit_proxy.Errors.Result.{GoResult-cases}
use genkit_proxy.Request.{GenerateRequest}
use genkit_proxy.Http.{HttpRequest, write_go_error, World}
use genkit_proxy.Http.Handler.{Handler, Clocks, Exit, done, name_slot, allow_model}
use genkit_proxy.Http.Serve.{check_model_limit}
use genkit_proxy.Http.Serve.Gate.{
  Refused, Checked, passed, stopped, allow_model-Checked, check_limit-Checked,
  check_model_limit-Checked,
}
use genkit_proxy.Http.Serve.Cases.{with_request_cases}
use genkit_proxy.Http.Serve.Replies.{Unwritten, write_error-Failed, Refused-Failed}
use genkit_proxy.Http.Streaming.{
  Network, check_stream_limit, resolve_and_stream, stream_valid, serve_stream,
}
use genkit_proxy.Http.Streaming.Transcript.{Transcript, CutShort, rejected, stream_with-Answered}
use genkit_proxy.Http.Answered.{Answered, Answered-done, complete}

module _ (digest : String → String) (net : Network) {G L : Type 0} (h : Handler G L)
    (clocks : Clocks) where
  pub check_stream_limit-Checked :
      (token : String) (w : World G L) → Checked w (check_stream_limit net digest h clocks token w)
  unfolding check_stream_limit
  check_stream_limit-Checked token w = elim (Option-cases h.limiter) [
    | inl e ↦ rw (e, check_stream_limit) (passed refl refl refl refl)
    | inr (lim, e) ↦ elim (Bool-cases (ltb 0 h.rl_cfg.stream_limit)) [
      | inl f ↦
          rw (e, check_stream_limit)
            (rw f (check_limit-Checked lim clocks.stream_check _ h.rl_cfg.stream_limit w))
      | inr f ↦ rw (e, check_stream_limit) (rw f (passed refl refl refl refl))
    ]
  ]

  Refused-Answered :
      (w : World G L) (res : Exit × World G L)
      → Unwritten w.writer
      → Refused w res
      → Answered Transcript CutShort res
  Refused-Answered w res u r = complete r.exit (rejected (Refused-Failed w res u r))

  resolve_and_stream-Answered :
      (r : GenerateRequest) (token : String) (w v : World G L)
      → Unwritten w.writer
      → v.writer ≡ w.writer
      → Answered Transcript CutShort (resolve_and_stream net digest h r token v)
  unfolding resolve_and_stream write_go_error
  resolve_and_stream-Answered r token w v u same =
      elim (GoResult-cases (h.resolver.resolve token r.model_name)) [
        | inr (bad, c) ↦
            rw (c, resolve_and_stream)
              (complete refl (
                rejected (
                  write_error-Failed v.writer (status_for bad) (safe_message bad)
                    (subst Unwritten (sym same) u) (status_for_bounds bad))))
        | inl (key, c) ↦
            rw (c, resolve_and_stream)
              (stream_with-Answered net w.writer u h r key
                (record v { slot = name_slot r.model_name v.slot }) same)
      ]

  -- What follows a check: the reply of a refusal, or a state with the writer of before.
  after_check :
      (w : World G L) (res : Bool × World G L)
      → Unwritten w.writer
      → Checked w res
      → ((res.0 ≡ true) × (res.1.writer ≡ w.writer))
        ⊎ ((res.0 ≡ false) × Answered Transcript CutShort (done, res.1))
  after_check w res u (passed b gen writer slot) = inl (b, writer)
  after_check w res u (stopped b r) = inr (b, Refused-Answered w _ u r)

  stream_valid-Answered :
      (r : GenerateRequest) (token : String) (w : World G L)
      → Unwritten w.writer
      → Answered Transcript CutShort (stream_valid net digest h clocks r token w)
  unfolding stream_valid
  stream_valid-Answered r token w u =
      elim (after_check w (allow_model h r.model_name w) u (allow_model-Checked h r.model_name w)) [
        | inr (a, t) ↦ rw (a, stream_valid) t
        | inl (a, s1) ↦
            let w1 = (allow_model h r.model_name w).1 in
            elim (after_check w1
              (check_model_limit digest h clocks.model_check token r.model_name w1)
              (subst Unwritten (sym s1) u)
              (check_model_limit-Checked digest h clocks.model_check token r.model_name w1)) [
                | inr (b, t) ↦ rw (a, stream_valid) (rw (b, stream_valid) t)
                | inl (b, s2) ↦
                    let w2 =
                      (check_model_limit digest h clocks.model_check token r.model_name w1).1 in
                    elim (after_check w2 (check_stream_limit net digest h clocks token w2)
                      (subst Unwritten (sym (s2 ∙ s1)) u) (check_stream_limit-Checked token w2)) [
                        | inr (c, t) ↦
                            rw (a, stream_valid) (rw (b, stream_valid) (rw (c, stream_valid) t))
                        | inl (c, s3) ↦
                            rw (a, stream_valid)
                              (rw (b, stream_valid)
                                (rw (c, stream_valid)
                                  (resolve_and_stream-Answered r token w _ u (s3 ∙ (s2 ∙ s1)))))
                      ]
              ]
      ]

  pub serve_stream-Answered :
      (req : HttpRequest) (w : World G L)
      → Unwritten w.writer
      → Answered Transcript CutShort (serve_stream net digest h clocks req w)
  unfolding serve_stream
  serve_stream-Answered req w u =
      elim (with_request_cases h req (stream_valid net digest h clocks) w) [
        | inr refused ↦ Refused-Answered w _ u refused
        | inl (token, r, asked, same) ↦
            subst (Answered Transcript CutShort) (sym same) (stream_valid-Answered r token w u)
      ]

  -- Whatever the generator emits and wherever the network fails: unless the generator panics, a
  -- client of ServeStream that was sent nothing yet receives either one JSON error of a status
  -- between 400 and 504, or a response of status 200 whose body is chunk events followed by at most
  -- one closing event, which is "done" or "error".
  pub serve_stream-Transcript :
      (req : HttpRequest) (w : World G L)
      → Unwritten w.writer
      → (serve_stream net digest h clocks req w).0 ≡ done
      → Transcript (serve_stream net digest h clocks req w).1.writer
  serve_stream-Transcript req w u = Answered-done _ (serve_stream-Answered req w u)
