-- ===== src/Middleware/Laws.antt =====
-- What the middlewares make of a handler that answers once.
use genkit_proxy.Common.{
  ℕ, ◌≡◌, ◌≢◌, refl, ap, sym, subst, ◌⊎◌, inl, inr, String, Option, some, [], arith, nat_eq, false,
  Bool-cases, text_cases, if-on, if-off,
}
use genkit_proxy.Errors.Chain.{text}
use genkit_proxy.Errors.Result.{ok, err, GoResult-cases}
use genkit_proxy.RateLimit.{Clock, Limiter}
use genkit_proxy.Generating.{abort_handler, fault, Outcome, returned, panicked}
use genkit_proxy.Request.{GenerateResponse}
use genkit_proxy.Http.{
  HttpRequest, Writer, write_json, write_limited, write_error, first_status, World,
}
use genkit_proxy.Http.Bearer.{bearer_token}
use genkit_proxy.Http.Handler.{
  Handler, Clocks, Exit, done, unwound, answer, generate_with, check_limit,
}
use genkit_proxy.Http.Serve.{serve_http}
use genkit_proxy.Http.Serve.Gate.{passed, stopped, check_limit-Checked}
use genkit_proxy.Http.Serve.Cases.{serve_http_cases}
use genkit_proxy.Http.Serve.Replies.{
  Unwritten, Complete, Failed, failure, write_error-Failed, Refused-Failed, answer-Complete,
  admitted_world-writer,
}
use genkit_proxy.Http.Answered.{Answered, complete, silent, torn}
use genkit_proxy.Middleware.{
  Served, recovered, recover, wrote_header, request_id, logger, cors, cors_headers, limit_token,
  rate_limit, chain,
}

-- A handler whose reply is `Good` when it returns, and when it panics is `Good` or nothing yet.
abbrev pub Answering : {G L : Type 0} → (HttpRequest → Writer → Type 0) → Served G L → Type 0
Answering {G} {L} Good next =
    (req : HttpRequest) (w : World G L)
    → Unwritten w.writer
    → Answered (Good req) (Good req) (next req w)

answer-Answered :
    {G L : Type 0} (o : Outcome GenerateResponse) (w : World G L)
    → Unwritten w.writer
    → Answered Complete Complete (answer o w)
unfolding answer
answer-Answered (panicked p) w u = silent p refl u
answer-Answered (returned (err e)) w u = complete refl (answer-Complete (returned (err e)) w u refl)
answer-Answered (returned (ok r)) w u = complete refl (answer-Complete (returned (ok r)) w u refl)

pub serve_http-Answering :
    (digest : String → String) {G L : Type 0} (h : Handler G L) (clocks : Clocks)
    → Answering (λ req. Complete) (serve_http digest h clocks)
unfolding generate_with
serve_http-Answering digest h clocks req w u = elim (serve_http_cases digest h clocks req w) [
  | inr r ↦ complete r.exit (failure (Refused-Failed w _ u r))
  | inl (a, same) ↦
      let kept = admitted_world-writer digest h clocks a.request a.token w a.cleared.within_limit in
      subst (Answered Complete Complete) (sym same)
        (answer-Answered _ _ (subst Unwritten (sym kept) u))
]

-- How the whole chain ends around a handler `next`: it answers itself, a preflight or with a JSON
-- error of status 429, or it calls the handler, of which it returns the reply, and lets through no panic but one
-- with http.ErrAbortHandler.
pub data Final {G L : Type 0} (Good : HttpRequest → Writer → Type 0) (next : Served G L)
    (req : HttpRequest) (res : Exit × World G L) : Type 0 where
  preflight :
      req.method ≡ "OPTIONS"
      → res.0 ≡ done
      → res.1.writer.status ≡ some 204
      → res.1.writer.body ≡ []
      → Final Good next req res
  turned_away :
      res.0 ≡ done → res.1.writer.status ≡ some 429 → Failed res.1.writer → Final Good next req res
  answered :
      (x : World G L)
      → (next req x).0 ≢ unwound abort_handler
      → res.0 ≡ done
      → Good req res.1.writer
      → Final Good next req res
  aborted :
      (x : World G L)
      → (next req x).0 ≡ unwound abort_handler
      → res ≡ (unwound abort_handler, (next req x).1)
      → Unwritten res.1.writer ⊎ Good req res.1.writer
      → Final Good next req res

-- What stands between Recover and a handler: it refuses with a JSON error of status 429, or calls the handler
-- once, with a response to which nothing was written, and leaves what that does.
pub data Between {G L : Type 0} (next : Served G L) (req : HttpRequest) (res : Exit × World G L)
    : Type 0 where
  kept_out :
      res.0 ≡ done → res.1.writer.status ≡ some 429 → Failed res.1.writer → Between next req res
  called : (x : World G L) → Unwritten x.writer → res ≡ next req x → Between next req res

abbrev pub Around : {G L : Type 0} → Served G L → Served G L → Type 0
Around {G} {L} next inner =
    (req : HttpRequest) (w : World G L) → Unwritten w.writer → Between next req (inner req w)

module _ {G L : Type 0} (next : Served G L) where
  logger-Around : Around next (logger next)
  unfolding logger
  logger-Around req w u = called _ u refl

  request_id-Around :
      (inbound generated : String) (inner : Served G L)
      → Around next inner
      → Around next (request_id inbound generated inner)
  unfolding request_id
  request_id-Around inbound generated inner a req w u =
      a req _ (record { status = u.status; body = u.body })

  module _ (digest : String → String) (lim : Limiter L) (clock : Clock) (limit : ℕ) where
    check_limit-429 :
        (key : String) (w : World G L)
        → Unwritten w.writer
        → (check_limit lim clock key limit w).0 ≡ false
        → (check_limit lim clock key limit w).1.writer.status ≡ some 429
    unfolding check_limit write_limited write_error write_json
    check_limit-429 key w u e = ground arith

    limit_token-Around :
        (token : String) (inner : Served G L)
        → Around next inner
        → Around next (limit_token digest lim clock limit token inner)
    unfolding limit_token
    limit_token-Around token inner a req w u =
        elim (check_limit-Checked lim clock (digest token) limit w) [
          | stopped b r ↦
              rw (b, limit_token) (kept_out refl (check_limit-429 _ w u b) (Refused-Failed w _ u r))
          | passed b gen writer slot ↦
              rw (b, limit_token) (a req _ (subst Unwritten (sym writer) u))
        ]

    rate_limit-Around :
        (inner : Served G L)
        → Around next inner
        → Around next (rate_limit digest lim clock limit inner)
    unfolding rate_limit
    rate_limit-Around inner a req w u = elim (Bool-cases (nat_eq limit 0)) [
      | inl off ↦ rw (off, rate_limit) (a req w u)
      | inr on ↦ elim (GoResult-cases (bearer_token req.authorization)) [
        | inr (e, b) ↦ rw (on, rate_limit) (rw (b, rate_limit) (a req w u))
        | inl (token, b) ↦
            rw (on, rate_limit) (rw (b, rate_limit) (limit_token-Around token inner a req w u))
      ]
    ]

module _ {G L : Type 0} (Good : HttpRequest → Writer → Type 0)
    (failed : (req : HttpRequest) (w : Writer) → Failed w → Good req w) where
  -- Of a panic with another value: the error of Recover, or what was written before.
  recovered-Good :
      (req : HttpRequest) (w : World G L)
      → Answered (Good req) (Good req) (unwound fault, w)
      → ((recovered (unwound fault, w)).0 ≡ done) × Good req (recovered (unwound fault, w)).1.writer
  unfolding recovered wrote_header write_error
  recovered-Good req w (complete e c) = cc
  recovered-Good req w (torn p code e b c) =
      subst (λ (r : Exit × World G L). (r.0 ≡ done) × Good req r.1.writer)
        (sym (if-on (wrote_header w.writer.status) _ _ (ap wrote_header b))) (refl, c)
  recovered-Good req w (silent p e u) =
      subst (λ (r : Exit × World G L). (r.0 ≡ done) × Good req r.1.writer)
        (sym (if-off (wrote_header w.writer.status) _ _ (ap wrote_header u.status)))
        (
          refl,
          failed req _
              (write_error-Failed w.writer 500 (text "internal server error") u (omega arith)),
        )

  Answered-abort :
      (req : HttpRequest) (w : World G L)
      → Answered (Good req) (Good req) (unwound abort_handler, w)
      → Unwritten w.writer ⊎ Good req w.writer
  Answered-abort req w (complete e c) = cc
  Answered-abort req w (silent p e u) = inl u
  Answered-abort req w (torn p code e b c) = inr c

  recovered-Final :
      (next : Served G L) (req : HttpRequest) (x : World G L) (res : Exit × World G L)
      → next req x ≡ res
      → Answered (Good req) (Good req) res
      → Final Good next req (recovered res)
  unfolding recovered
  recovered-Final next req x (done, w) e (complete d c) = answered x (λ a. cc (a, e)) refl c
  recovered-Final next req x (done, w) e (silent p d u) = cc d
  recovered-Final next req x (done, w) e (torn p code d b c) = cc d
  recovered-Final next req x (unwound abort_handler, w) e a =
      aborted x (ap (λ (r : Exit × World G L). r.0) e)
        (ap (λ (r : Exit × World G L). (unwound abort_handler, r.1)) (sym e))
        (Answered-abort req w a)
  recovered-Final next req x (unwound fault, w) e a =
      let (d, c) = recovered-Good req w a in answered x (λ b. cc (b, e)) d c

  recover-Final :
      (next inner : Served G L)
      → Around next inner
      → Answering Good next
      → (req : HttpRequest) (w : World G L) → Unwritten w.writer
      → Final Good next req (recovered (inner req w))
  unfolding recovered
  recover-Final next inner around a req w u = go (inner req w) (around req w u)
    where
      go : (res : Exit × World G L) → Between next req res → Final Good next req (recovered res)
      go (done, v) (kept_out d s f) = turned_away refl s f
      go (unwound p, v) (kept_out d s f) = cc d
      go res (called x fresh same) =
          subst (λ r. Final Good next req (recovered r)) (sym same)
            (recovered-Final next req x (next req x) refl (a req x fresh))

  -- Behind the middlewares, in the order in which they are composed, stands a handler whose reply is
  -- `Good` when it returns, and when it panics is `Good` or nothing yet. For OPTIONS the chain
  -- answers 204 without a body. Any other request it refuses with one JSON error of status 429, or it calls the
  -- handler, and then: it panics with http.ErrAbortHandler if the handler does, with the response
  -- as the handler left it, and otherwise it returns with a reply that is `Good`, where a JSON error
  -- is `Good`.
  pub chain-Final :
      (digest : String → String) (allow_origins inbound generated : String) (lim : Limiter L)
      (clock : Clock) (limit : ℕ) (next : Served G L)
      → Answering Good next
      → (req : HttpRequest) (w : World G L) → Unwritten w.writer
      → Final Good next req
          (chain digest allow_origins inbound generated lim clock limit next req w)
  unfolding chain cors cors_headers recover
  chain-Final digest allow_origins inbound generated lim clock limit next a req w u =
      elim (text_cases req.method "OPTIONS") [
        | inl (same, test) ↦
            rw (test, chain)
              (preflight same refl (ap (λ (s : Option ℕ). first_status s 204) u.status) u.body)
        | inr (other, test) ↦
            let around =
              request_id-Around next inbound generated _
                (rate_limit-Around next digest lim clock limit _ (logger-Around next)) in
            rw (test, chain)
              (recover-Final next _ around a req _ (record { status = u.status; body = u.body }))
      ]
