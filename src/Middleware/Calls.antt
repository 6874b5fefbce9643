-- ===== src/Middleware/Calls.antt =====
-- What the middlewares do with the generator: nothing but to call their handler.
use genkit_proxy.Generating.{abort_handler, fault}
use genkit_proxy.Common.{ℕ, ◌≡◌, refl, subst, sym, inl, inr, String, Bool-cases, text_cases, nat_eq}
use genkit_proxy.Errors.Result.{GoResult-cases}
use genkit_proxy.RateLimit.{Clock, Limiter}
use genkit_proxy.Http.{HttpRequest, World}
use genkit_proxy.Http.Bearer.{bearer_token}
use genkit_proxy.Http.Handler.{Exit, done, unwound, check_limit}
use genkit_proxy.Http.Serve.Gate.{passed, stopped, check_limit-Checked}
use genkit_proxy.Middleware.{
  Served, recovered, recover, wrote_header, request_id, logger, cors, cors_headers, limit_token,
  rate_limit, chain,
}

-- A relation between the generator before a request and after it, which leaving it alone fulfils.
module _ {G L : Type 0} (Change : HttpRequest → G → G → Type 0)
    (unchanged : (req : HttpRequest) (g : G) → Change req g g) where
  abbrev pub Changing : Served G L → Type 0
  Changing next =
      (req : HttpRequest) (w : World G L) → Change req w.generator (next req w).1.generator

  recovered-generator : (res : Exit × World G L) → (recovered res).1.generator ≡ res.1.generator
  unfolding recovered
  recovered-generator (done, w) = refl
  recovered-generator (unwound abort_handler, w) = refl
  recovered-generator (unwound fault, w) = elim (Bool-cases (wrote_header w.writer.status)) [
    | inl b ↦ rw b refl
    | inr b ↦ rw b refl
  ]

  recover-Changing : (next : Served G L) → Changing next → Changing (recover next)
  unfolding recover
  recover-Changing next c req w =
      subst (Change req w.generator) (sym (recovered-generator (next req w))) (c req w)

  rate_limit-Changing :
      (digest : String → String) (lim : Limiter L) (clock : Clock) (limit : ℕ) (next : Served G L)
      → Changing next
      → Changing (rate_limit digest lim clock limit next)
  unfolding rate_limit limit_token
  rate_limit-Changing digest lim clock limit next c req w = elim (Bool-cases (nat_eq limit 0)) [
    | inl off ↦ rw (off, rate_limit) (c req w)
    | inr on ↦ elim (GoResult-cases (bearer_token req.authorization)) [
      | inr (e, b) ↦ rw (on, rate_limit) (rw (b, rate_limit) (c req w))
      | inl (token, b) ↦
          rw (on, rate_limit)
            (rw (b, rate_limit)
              (elim (check_limit-Checked lim clock (digest token) limit w) [
                | stopped d r ↦
                    rw (d, limit_token)
                      (subst (Change req w.generator) (sym r.untouched) (unchanged req w.generator))
                | passed d gen writer slot ↦
                    let x = (check_limit lim clock (digest token) limit w).1 in
                    rw (d, limit_token)
                      (subst (λ g. Change req g (next req x).1.generator) gen (c req x))
              ]))
    ]
  ]

  pub chain-Changing :
      (digest : String → String) (allow_origins inbound generated : String) (lim : Limiter L)
      (clock : Clock) (limit : ℕ) (next : Served G L)
      → Changing next
      → Changing (chain digest allow_origins inbound generated lim clock limit next)
  unfolding chain cors cors_headers request_id logger
  chain-Changing digest allow_origins inbound generated lim clock limit next c req w =
      elim (text_cases req.method "OPTIONS") [
        | inl (same, test) ↦ rw (test, chain) (unchanged req w.generator)
        | inr (other, test) ↦
            let logged : Changing (logger next) = λ r v. c r _ in
            let limited = rate_limit-Changing digest lim clock limit _ logged in
            let named : Changing
                (request_id inbound generated (rate_limit digest lim clock limit (logger next))) =
              λ r v. limited r _ in
            rw (test, chain) (recover-Changing _ named req _)
      ]
