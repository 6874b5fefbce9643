-- ===== src/Retry/Attempts.antt =====
-- Which attempt of RetryingGenerator.Generate the caller's result comes from.
use genkit_proxy.Common.{
  ℕ, zero, suc, ◌+◌, ◌-◌, ◌≤◌, ◌<◌, ◌≡◌, refl, sym, subst, Bool, true, false, Option, none, some,
  arith, String, Bool-cases, nat_eq, leb, inl, inr, ◌⊎◌,
}
use genkit_proxy.Common.Int.{ℤ}
use genkit_proxy.Errors.{is_retryable}
use genkit_proxy.Errors.Chain.{GoError}
use genkit_proxy.Errors.Result.{ok, err}
use genkit_proxy.Request.{GenerateRequest, GenerateResponse}
use genkit_proxy.Generating.{Outcome, returned, panicked, Generator}
use genkit_proxy.Retry.{
  Env, Wait, stop, proceed, pause, generate_loop, give_up, new_retrying_generator,
}

unfoldable pub fails_retryably : Outcome GenerateResponse → Bool
fails_retryably (returned (err e)) = is_retryable e
fails_retryably _ = false

pub Wait-cases : (w : Wait) → (w ≡ proceed) ⊎ ((o : Outcome GenerateResponse) × (w ≡ stop o))
Wait-cases proceed = inl refl
Wait-cases (stop o) = inr (o, refl)

module _ {G : Type 0} (env : Env) (inner : Generator G) (max_attempts : ℕ) (base : ℤ)
    (req : GenerateRequest) (key : String) where
  -- Attempt `a` meets the state `g` after attempts that all failed retryably and whose waits ended.
  pub data Retried (first : G) : ℕ → G → Type 0 where
    start : Retried first 0 first
    again :
        {a : ℕ} {g g' : G} {e : GoError}
        → Retried first a g
        → inner.generate req key g ≡ (returned (err e), g')
        → is_retryable e ≡ true
        → pause env inner max_attempts base a ≡ proceed
        → Retried first (suc a) g'

  -- Why the loop ends with `o` after attempt `a` gave `o1`.
  pub data Ending (a : ℕ) (o1 o : Outcome GenerateResponse) : Type 0 where
    settled : fails_retryably o1 ≡ false → o ≡ o1 → Ending a o1 o
    exhausted : suc a ≡ max_attempts → o ≡ o1 → Ending a o1 o
    interrupted :
        fails_retryably o1 ≡ true → pause env inner max_attempts base a ≡ stop o → Ending a o1 o

  -- The result `r` comes from the attempt number `attempt`, which is below the maximum and which
  -- only silent retryable failures precede.
  pub record Last (first : G) (r : Outcome GenerateResponse × G) : Type 0 where
    pub attempt : ℕ
    pub state : G
    pub within : attempt < max_attempts
    pub retried : Retried first attempt state
    pub outcome : Outcome GenerateResponse
    pub call : inner.generate req key state ≡ (outcome, r.1)
    pub ending : Ending attempt outcome (r.0)

  call_lem :
      (g : G) {o : Outcome GenerateResponse}
      → (inner.generate req key g).0 ≡ o
      → inner.generate req key g ≡ (o, (inner.generate req key g).1)
  call_lem g e = λ i. (e i, (inner.generate req key g).1)

  Ending-Last :
      (first g : G) (a : ℕ) (o o1 : Outcome GenerateResponse) (res : Outcome GenerateResponse × G)
      → res ≡ (o, (inner.generate req key g).1)
      → a < max_attempts
      → Retried first a g
      → (inner.generate req key g).0 ≡ o1
      → Ending a o1 o
      → Last first res
  Ending-Last first g a o o1 res same lt r e ending = subst (Last first) (sym same) (record {
    attempt = a;
    state = g;
    within = lt;
    retried = r;
    outcome = o1;
    call = call_lem g e;
    ending = ending;
  })

  loop-Last :
      (left a : ℕ) (last : Option GoError) (first g : G)
      → a + suc left ≡ max_attempts
      → Retried first a g
      → (o : Outcome GenerateResponse) → (inner.generate req key g).0 ≡ o
      → Last first (generate_loop env inner max_attempts base (suc left) a last req key g)
  unfolding generate_loop fails_retryably give_up
  loop-Last left a last first g h r (panicked p) e =
      Ending-Last first g a (panicked p) _ _ (rw (e, generate_loop)) (omega arith) r e
        (settled refl refl)
  loop-Last left a last first g h r (returned (ok resp)) e =
      Ending-Last first g a (returned (ok resp)) _ _ (rw (e, generate_loop)) (omega arith) r e
        (settled refl refl)
  loop-Last zero a last first g h r (returned (err er)) e =
      Ending-Last first g a (returned (err er)) _ _ (rw (e, generate_loop) (ground arith))
        (omega arith) r e (exhausted (omega arith) refl)
  loop-Last (suc left) a last first g h r (returned (err er)) e =
      let more : nat_eq a (max_attempts - 1) ≡ false = ground arith in
      elim (Bool-cases (is_retryable er)) [
        | inr hard ↦
            Ending-Last first g a (returned (err er)) _ _ (rw (e, generate_loop) (ground arith))
              (omega arith) r e (settled hard refl)
        | inl soft ↦ elim (Wait-cases (pause env inner max_attempts base a)) [
          | inr (o, halt) ↦
              Ending-Last first g a o _ _ (rw (e, generate_loop) (rw (soft, more, halt) refl))
                (omega arith) r e (interrupted soft halt)
          | inl go ↦
              let g' = (inner.generate req key g).1 in
              subst (Last first) (sym (rw (e, generate_loop) (rw (soft, more, go) refl))) (
                loop-Last left (suc a) (some er) first g' (omega arith)
                  (again r (call_lem g e) soft go) (inner.generate req key g').0 refl)
        ]
      ]

  -- With at least two attempts allowed, the result of Generate comes from one attempt: all those
  -- before it failed retryably, and it is the last one because it settled the call, or exhausted
  -- the attempts, or the wait after it was cut short.
  pub generate-Last :
      (g : G)
      → 2 ≤ max_attempts
      → Last g ((new_retrying_generator env inner max_attempts base).generate req key g)
  unfolding new_retrying_generator
  generate-Last g h =
      let some_left : leb max_attempts 1 ≡ false = ground arith in
      let e : max_attempts ≡ suc (max_attempts - 1) = omega arith in
      rw (some_left, new_retrying_generator)
        (subst (λ n. Last g (generate_loop env inner max_attempts base n 0 none req key g)) (sym e)
          (loop-Last (max_attempts - 1) 0 none g g (omega arith) start (inner.generate req key g).0
            refl))
