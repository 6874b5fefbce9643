-- ===== src/Server/Observer.antt =====
-- What main's chain and mux answer, without the records and the meters.
use genkit_proxy.Generating.{abort_handler, fault}
use genkit_proxy.Common.{
  ℕ, ◌≡◌, refl, ap, ◌∙◌, inl, inr, String, Option, some, none, nat_eq, Bool, Bool-cases, arith,
  subst, if◌then◌else◌, text_cases,
}
use genkit_proxy.Errors.Result.{GoResult-cases}
use genkit_proxy.RateLimit.{Clock, Limiter}
use genkit_proxy.Http.{HttpRequest, World}
use genkit_proxy.Http.Bearer.{bearer_token}
use genkit_proxy.Http.Handler.{Exit, done, unwound, check_limit}
use genkit_proxy.Http.Serve.Gate.{passed, stopped, check_limit-Checked}
use genkit_proxy.Metrics.{Meters, slot_of, after_handler, metrics}
use genkit_proxy.Middleware.{
  Served, recovered, recover, wrote_header, request_id, logger, cors, cors_headers, limit_token,
  rate_limit, chain,
}
use genkit_proxy.Server.{
  Visit, Backend, Site, Moment, unobserved, within, log_access, access_log, metered, log_panic,
  recover_logged, id_of, mux, metered_mux, serve,
}

module _ {G L : Type 0} where
  abbrev pub erase : Exit × World (Backend G) L → Exit × World G L
  erase (e, w) = (e, unobserved w)

  -- The first handler does and answers what the second does, where the meters show `m`.
  abbrev Observes : Meters → Served (Backend G) L → Served G L → Type 0
  Observes m watching next =
      (req : HttpRequest) (w : World (Backend G) L)
      → w.generator.meters ≡ m
      → erase (watching req w) ≡ next req (unobserved w)

  erase-recovered :
      (context : Option String) (res : Exit × World (Backend G) L)
      → erase (recovered (log_panic context res)) ≡ recovered (erase res)
  unfolding recovered log_panic
  erase-recovered context (done, w) = refl
  erase-recovered context (unwound abort_handler, w) = refl
  erase-recovered context (unwound fault, w) = elim (Bool-cases (wrote_header w.writer.status)) [
    | inl b ↦ rw b refl
    | inr b ↦ rw b refl
  ]

  recover_logged-Observes :
      (m : Meters) (context : Option String) (watching : Served (Backend G) L) (next : Served G L)
      → Observes m watching next
      → Observes m (recover_logged context watching) (recover next)
  unfolding recover_logged recover
  recover_logged-Observes m context watching next o req w k =
      erase-recovered context (watching req w) ∙ ap recovered (o req w k)

  cors-Observes :
      (m : Meters) (allow_origins : String) (watching : Served (Backend G) L) (next : Served G L)
      → Observes m watching next
      → Observes m (cors allow_origins watching) (cors allow_origins next)
  unfolding cors cors_headers
  cors-Observes m allow_origins watching next o req w k = elim (text_cases req.method "OPTIONS") [
    | inl (same, test) ↦ rw test refl
    | inr (other, test) ↦ rw test (o req _ k)
  ]

  request_id-Observes :
      (m : Meters) (inbound generated : String) (watching : Served (Backend G) L)
      (next : Served G L)
      → Observes m watching next
      → Observes m (request_id inbound generated watching) (request_id inbound generated next)
  unfolding request_id
  request_id-Observes m inbound generated watching next o req w k = o req _ k

  erase-log_access :
      (v : Visit) (context : Option String) (req : HttpRequest) (res : Exit × World (Backend G) L)
      → erase (log_access v context req res) ≡ erase res
  unfolding log_access
  erase-log_access v context req (done, w) = refl
  erase-log_access v context req (unwound p, w) = refl

  erase-after_handler :
      (req : HttpRequest) (elapsed : ℕ) (res : Exit × World (Backend G) L) (m : Meters)
      → let (e, w, n) = after_handler req elapsed res m in erase (e, w) ≡ erase res
  unfolding after_handler
  erase-after_handler req elapsed (done, w) m = refl
  erase-after_handler req elapsed (unwound p, w) m = refl

  erase-metered :
      (v : Visit) (next : Served G L) (req : HttpRequest) (w : World (Backend G) L)
      → erase (metered v (within next) req w)
        ≡ next req (record (unobserved w) { slot = some (slot_of w.slot) })
  unfolding metered metrics
  erase-metered v next req w =
      erase-after_handler req v.elapsed
        (within next req (record w { slot = some (slot_of w.slot) })) w.generator.meters

  module _ (digest : String → String) (lim : Limiter L) (clock : Clock) (limit : ℕ) where
    check_limit-unobserved :
        (key : String) (w : World (Backend G) L)
        → let (allowed, v) = check_limit lim clock key limit w in
          (allowed, unobserved v) ≡ check_limit lim clock key limit (unobserved w)
    unfolding check_limit
    check_limit-unobserved key w = ground arith

    limit_token-Observes :
        (m : Meters) (token : String) (watching : Served (Backend G) L) (next : Served G L)
        → Observes m watching next
        → Observes m
            (limit_token digest lim clock limit token watching)
            (limit_token digest lim clock limit token next)
    unfolding limit_token
    limit_token-Observes m token watching next o req w k =
        subst
          (λ (res : Bool × World G L).
            erase (limit_token digest lim clock limit token watching req w)
            ≡ (if res.0 then next req res.1 else (done, res.1)))
          (check_limit-unobserved (digest token) w)
          (elim (check_limit-Checked lim clock (digest token) limit w) [
            | stopped b r ↦ rw (b, limit_token) refl
            | passed b gen writer slot ↦
                rw (b, limit_token) (o req _ (ap (λ (g : Backend G). g.meters) gen ∙ k))
          ])

    rate_limit-Observes :
        (m : Meters) (watching : Served (Backend G) L) (next : Served G L)
        → Observes m watching next
        → Observes m
            (rate_limit digest lim clock limit watching)
            (rate_limit digest lim clock limit next)
    unfolding rate_limit
    rate_limit-Observes m watching next o req w k = elim (Bool-cases (nat_eq limit 0)) [
      | inl off ↦ rw (off, rate_limit) (o req w k)
      | inr on ↦ elim (GoResult-cases (bearer_token req.authorization)) [
        | inr (e, b) ↦ rw (on, rate_limit) (rw (b, rate_limit) (o req w k))
        | inl (token, b) ↦
            rw (on, rate_limit)
              (rw (b, rate_limit) (limit_token-Observes m token watching next o req w k))
      ]
    ]

  module _ (digest : String → String) (site : Site G L) (moment : Moment) (v : Visit) where
    -- Behind Logger and the metrics.
    access_log-Observes :
        (m : Meters) (context : Option String)
        → Observes m
            (access_log v context (metered_mux digest site moment v))
            (logger (mux digest site moment v.path m))
    unfolding access_log logger metered_mux
    access_log-Observes m context req w k =
        let slot = some (record { name = ""; usage = none }) in
        let slotted : World (Backend G) L = record w { slot = slot } in
        erase-log_access v context req (metered_mux digest site moment v req slotted)
        ∙ erase-metered v (mux digest site moment v.path w.generator.meters) req slotted
        ∙ ap (λ n. mux digest site moment v.path n req (unobserved slotted)) k

    -- The server answers what the chain without its records and meters answers, and leaves the same
    -- generator, limiter and slot: Logger, the metrics and the log of Recover change nothing.
    pub erase-serve :
        (req : HttpRequest) (w : World (Backend G) L)
        → erase (serve digest site moment v req w)
          ≡ chain digest site.allow_origins v.inbound_id v.generated_id site.limiter
              moment.global_check site.limit
              (mux digest site moment v.path w.generator.meters)
              req
              (unobserved w)
    unfolding serve chain
    erase-serve req w =
        let m = w.generator.meters in
        cors-Observes m site.allow_origins _ _
          (recover_logged-Observes m none _ _ (
            request_id-Observes m v.inbound_id v.generated_id _ _ (
              rate_limit-Observes digest site.limiter moment.global_check site.limit m _ _
                (access_log-Observes m (some (id_of v))))))
          req w refl
