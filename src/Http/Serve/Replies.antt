-- ===== src/Http/Serve/Replies.antt =====
-- What the client of ServeHTTP receives.
use genkit_proxy.Common.{
  ℕ, true, ◌≤◌, ◌≡◌, ◌∙◌, ap, sym, subst, inl, inr, none, some, [], ◌∷◌, arith, String,
}
use genkit_proxy.Errors.{status_for}
use genkit_proxy.Errors.Laws.{status_for_bounds}
use genkit_proxy.Errors.Chain.{Message}
use genkit_proxy.Errors.Result.{ok, err}
use genkit_proxy.Request.{GenerateRequest, GenerateResponse}
use genkit_proxy.Generating.{Outcome, returned, panicked}
use genkit_proxy.Http.{
  HttpRequest, Writer, error_body, response, write_json, write_error, write_go_error, World,
}
use genkit_proxy.Http.Handler.{Handler, Clocks, Exit, done, answer, generate_with}
use genkit_proxy.Http.Serve.{serve_http, check_model_limit}
use genkit_proxy.Http.Serve.Gate.{Refused, passed, stopped, check_model_limit-Checked}
use genkit_proxy.Http.Serve.Cases.{admitted_world, serve_http_cases}

-- A writer to which nothing was written.
pub record Unwritten (w : Writer) : Type 0 where
  pub status : w.status ≡ none
  pub body : w.body ≡ []

-- One JSON error of a status between 400 and 504.
pub record Failed (w : Writer) : Type 0 where
  pub code : ℕ
  pub message : Message
  pub range : (400 ≤ code) × (code ≤ 504)
  pub status : w.status ≡ some code
  pub body : w.body ≡ error_body message ∷ []

-- One JSON answer: status 200 with a response, or an error.
pub data Complete (w : Writer) : Type 0 where
  success :
      (resp : GenerateResponse) → w.status ≡ some 200 → w.body ≡ response resp ∷ [] → Complete w
  failure : Failed w → Complete w

pub write_error-Failed :
    (w : Writer) (code : ℕ) (m : Message)
    → Unwritten w
    → (400 ≤ code) × (code ≤ 504)
    → Failed (write_error code m w)
unfolding write_error
write_error-Failed w code m u r = record {
  code = code;
  message = m;
  range = r;
  status = ground arith;
  body = ground arith;
}

pub Refused-Failed :
    {G L : Type 0} (w : World G L) (res : Exit × World G L)
    → Unwritten w.writer
    → Refused w res
    → Failed res.1.writer
Refused-Failed w res u r = subst Failed (sym r.answered) (
    write_error-Failed r.before r.code r.message
      (record { status = r.same_status ∙ u.status; body = r.same_body ∙ u.body }) r.range)

pub answer-Complete :
    {G L : Type 0} (o : Outcome GenerateResponse) (w : World G L)
    → Unwritten w.writer
    → (answer o w).0 ≡ done
    → Complete (answer o w).1.writer
unfolding answer write_json write_go_error
answer-Complete (panicked p) w u e = cc
answer-Complete (returned (err er)) w u e =
    failure (write_error-Failed w.writer (status_for er) _ u (status_for_bounds er))
answer-Complete (returned (ok resp)) w u e = success resp (ground arith) (ground arith)

module _ (digest : String → String) {G L : Type 0} (h : Handler G L) (clocks : Clocks) where
  pub admitted_world-writer :
      (r : GenerateRequest) (token : String) (w : World G L)
      → (check_model_limit digest h clocks.model_check token r.model_name w).0 ≡ true
      → (admitted_world digest h clocks r token w).writer ≡ w.writer
  admitted_world-writer r token w p =
      elim (check_model_limit-Checked digest h clocks.model_check token r.model_name w) [
        | passed b gen writer slot ↦ writer
        | stopped b no_call ↦ cc
      ]

  -- Unless the generator panics, a client that was sent nothing yet receives exactly one JSON
  -- answer: a response with status 200, or an error with a status between 400 and 504.
  pub serve_http-Complete :
      (req : HttpRequest) (w : World G L)
      → Unwritten w.writer
      → (serve_http digest h clocks req w).0 ≡ done
      → Complete (serve_http digest h clocks req w).1.writer
  unfolding generate_with
  serve_http-Complete req w u e = elim (serve_http_cases digest h clocks req w) [
    | inr r ↦ failure (Refused-Failed w _ u r)
    | inl (a, same) ↦
        let v = admitted_world digest h clocks a.request a.token w in
        let kept = admitted_world-writer a.request a.token w a.cleared.within_limit in
        subst (λ (res : Exit × World G L). Complete res.1.writer) (sym same)
          (answer-Complete _ _ (subst Unwritten (sym kept) u)
            (ap (λ (res : Exit × World G L). res.0) (sym same) ∙ e))
  ]
