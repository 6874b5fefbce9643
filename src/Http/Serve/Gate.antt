-- ===== src/Http/Serve/Gate.antt =====
-- What stands between a request and the generator.
use genkit_proxy.Common.{
  ℕ, ◌≤◌, ◌≡◌, refl, ap, inl, inr, String, Bool, true, false, arith, nat_eq, Bool-cases,
  Option-cases,
}
use genkit_proxy.Common.Int.{ℤ}
use genkit_proxy.Errors.{status_for}
use genkit_proxy.Errors.Laws.{status_for_bounds}
use genkit_proxy.Errors.Chain.{GoError, Message, text}
use genkit_proxy.Policy.{allows}
use genkit_proxy.RateLimit.{Clock, Limiter}
use genkit_proxy.Http.{
  Writer, write_error, write_go_error, write_limited, World, set_header, whole_seconds, integer,
}
use genkit_proxy.Http.Handler.{Handler, Exit, done, check_limit, allow_model, respond}
use genkit_proxy.Http.Serve.{check_tagged, check_model_limit, rate_limit_key}

module _ {G L : Type 0} where
  -- The request was answered with an error, and the generator was not called.
  pub record Refused (w : World G L) (res : Exit × World G L) : Type 0 where
    pub exit : res.0 ≡ done
    pub untouched : res.1.generator ≡ w.generator
    pub code : ℕ
    pub message : Message
    pub before : Writer
    pub answered : res.1.writer ≡ write_error code message before
    pub same_status : before.status ≡ w.writer.status
    pub same_body : before.body ≡ w.writer.body
    pub range : (400 ≤ code) × (code ≤ 504)

  pub refuse :
      (w v : World G L) (code : ℕ) (m : Message)
      → v.generator ≡ w.generator
      → v.writer ≡ w.writer
      → (400 ≤ code) × (code ≤ 504)
      → Refused w (done, respond (write_error code m) v)
  refuse w v code m g e r = record {
    exit = refl;
    untouched = g;
    code = code;
    message = m;
    before = v.writer;
    answered = refl;
    same_status = ap (λ (x : Writer). x.status) e;
    same_body = ap (λ (x : Writer). x.body) e;
    range = r;
  }

  pub refuse_go :
      (w v : World G L) (e : GoError)
      → v.generator ≡ w.generator
      → v.writer ≡ w.writer
      → Refused w (done, respond (write_go_error e) v)
  unfolding write_go_error
  refuse_go w v e g k = refuse w v (status_for e) _ g k (status_for_bounds e)

  -- A check let the request pass and changed at most the limiter's state, or refused it.
  pub data Checked (w : World G L) (res : Bool × World G L) : Type 0 where
    passed :
        res.0 ≡ true
        → res.1.generator ≡ w.generator
        → res.1.writer ≡ w.writer
        → res.1.slot ≡ w.slot
        → Checked w res
    stopped : res.0 ≡ false → Refused w (done, res.1) → Checked w res

  pub refuse_limited :
      (w v : World G L) (d : ℤ)
      → v.generator ≡ w.generator
      → v.writer ≡ w.writer
      → Refused w (done, respond (write_limited d) v)
  unfolding write_limited
  refuse_limited w v d g e = record {
    exit = refl;
    untouched = g;
    code = 429;
    message = text "rate limit exceeded";
    before = set_header "Retry-After" (integer (whole_seconds d)) v.writer;
    answered = refl;
    same_status = ap (λ (x : Writer). x.status) e;
    same_body = ap (λ (x : Writer). x.body) e;
    range = omega arith;
  }

  pub check_limit-Checked :
      (lim : Limiter L) (clock : Clock) (key : String) (limit : ℕ) (w : World G L)
      → Checked w (check_limit lim clock key limit w)
  unfolding check_limit
  check_limit-Checked lim clock key limit w =
      let (v, l) = lim.allow clock key limit w.limiter in
      elim (Option-cases v.failure) [
        | inr (e, down) ↦ rw (down, check_limit) (passed refl refl refl refl)
        | inl up ↦ elim (Bool-cases v.allowed) [
          | inl fits ↦ rw (up, check_limit) (rw fits (passed refl refl refl refl))
          | inr over ↦
              rw (up, check_limit)
                (rw over (
                  stopped refl
                    (refuse_limited w (record w { limiter = l }) v.retry_after refl refl)))
        ]
      ]

  pub allow_model-Checked :
      (h : Handler G L) (model : String) (w : World G L) → Checked w (allow_model h model w)
  unfolding allow_model
  allow_model-Checked h model w = elim (Bool-cases (allows h.allowlist model)) [
    | inl e ↦ rw e (passed refl refl refl refl)
    | inr e ↦ rw e (stopped refl (refuse w w 403 _ refl refl (omega arith)))
  ]

  pub check_model_limit-Checked :
      (digest : String → String) (h : Handler G L) (clock : Clock) (token model : String)
      (w : World G L)
      → Checked w (check_model_limit digest h clock token model w)
  unfolding check_model_limit check_tagged
  check_model_limit-Checked digest h clock token model w = elim (Option-cases h.limiter) [
    | inl e ↦ rw (e, check_model_limit) (passed refl refl refl refl)
    | inr (lim, e) ↦ elim (Option-cases h.rl_cfg.limit_for_model) [
      | inl f ↦ rw (e, check_model_limit) (rw (f, check_model_limit) (passed refl refl refl refl))
      | inr (limit_for, f) ↦
          rw (e, check_model_limit) (rw (f, check_model_limit) (tagged lim (limit_for model)))
    ]
  ]
    where
      tagged :
          (lim : Limiter L) (t : ℕ × String) → Checked w (check_tagged digest lim clock token t w)
      tagged lim (limit, tag) = elim (Bool-cases (nat_eq limit 0)) [
        | inl off ↦ rw off (passed refl refl refl refl)
        | inr on ↦ rw on (check_limit-Checked lim clock (rate_limit_key digest token tag) limit w)
      ]
