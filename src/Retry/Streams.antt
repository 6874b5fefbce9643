-- ===== src/Retry/Streams.antt =====
-- Which attempt of RetryingGenerator.GenerateStream reaches the caller.
use genkit_proxy.Common.{
  ℕ, zero, suc, ◌+◌, ◌-◌, ◌≤◌, ◌<◌, ◌≡◌, refl, sym, subst, Bool, true, false, Option, none, some,
  arith, String, Bool-cases, nat_eq, leb, inl, inr,
}
use genkit_proxy.Common.Int.{ℤ}
use genkit_proxy.Errors.{is_retryable}
use genkit_proxy.Errors.Chain.{GoError}
use genkit_proxy.Errors.Result.{ok, err}
use genkit_proxy.Request.{GenerateRequest, GenerateResponse}
use genkit_proxy.Generating.{
  Outcome, returned, panicked, Stream, finish, emit, Generator, OnChunk, run_stream,
}
use genkit_proxy.Retry.{
  Env, stop, proceed, pause, forward, stream_loop, give_up, new_retrying_generator,
}
use genkit_proxy.Retry.Attempts.{fails_retryably, Wait-cases}

unfoldable pub emits : {G : Type 0} → Stream G → Bool
emits (finish o g) = false
emits (emit delta reply) = true

module _ {G W : Type 0} (env : Env) (inner : Generator G) (max_attempts : ℕ) (base : ℤ)
    (req : GenerateRequest) (key : String) (client : OnChunk W) where
  run-forward :
      (s : Stream G) (next : Bool → Outcome GenerateResponse → G → Stream G) (w : W)
      → ((o : Outcome GenerateResponse) (g : G) → next true o g ≡ finish o g)
      → run_stream client (forward env inner max_attempts base true s next) w
        ≡ run_stream client s w
  unfolding run_stream forward
  run-forward (finish o g) next w h = rw (h o g) refl
  run-forward (emit delta reply) next w h =
      run-forward (reply (client delta w).0) next (client delta w).1 h

  -- Attempt `a` starts in the state `g` after attempts that delivered no chunk, failed retryably,
  -- and whose waits ended.
  pub data Silent (first : G) : ℕ → G → Type 0 where
    start : Silent first 0 first
    again :
        {a : ℕ} {g g' : G} {e : GoError}
        → Silent first a g
        → inner.generate_stream req key g ≡ finish (returned (err e)) g'
        → is_retryable e ≡ true
        → pause env inner max_attempts base a ≡ proceed
        → Silent first (suc a) g'

  pub data StreamEnding (a : ℕ) (s : Stream G) (o1 o : Outcome GenerateResponse) : Type 0 where
    delivered : emits s ≡ true → o ≡ o1 → StreamEnding a s o1 o
    settled : fails_retryably o1 ≡ false → o ≡ o1 → StreamEnding a s o1 o
    exhausted : suc a ≡ max_attempts → o ≡ o1 → StreamEnding a s o1 o
    interrupted :
        fails_retryably o1 ≡ true
        → pause env inner max_attempts base a ≡ stop o
        → StreamEnding a s o1 o

  -- The caller's world after the call is what the stream of one attempt alone makes of it.
  pub record OneStream (first : G) (w : W) (r : Outcome GenerateResponse × G × W) : Type 0 where
    pub attempt : ℕ
    pub state : G
    pub within : attempt < max_attempts
    pub silent : Silent first attempt state
    pub outcome : Outcome GenerateResponse
    pub call : run_stream client (inner.generate_stream req key state) w ≡ (outcome, r.1, r.2)
    pub ending : StreamEnding attempt (inner.generate_stream req key state) outcome (r.0)

  one_of :
      (first g g' : G) (w w' : W) (a : ℕ) (o o1 : Outcome GenerateResponse) (s : Stream G)
      (res : Outcome GenerateResponse × G × W)
      → res ≡ (o, g', w')
      → a < max_attempts
      → Silent first a g
      → inner.generate_stream req key g ≡ s
      → run_stream client s w ≡ (o1, g', w')
      → StreamEnding a s o1 o
      → OneStream first w res
  one_of first g g' w w' a o o1 s res same lt r e ran ending =
      subst (OneStream first w) (sym same) (record {
        attempt = a;
        state = g;
        within = lt;
        silent = r;
        outcome = o1;
        call = rw e ran;
        ending = subst (λ t. StreamEnding a t o1 o) (sym e) ending;
      })

  loop-OneStream :
      (left a : ℕ) (last : Option GoError) (first g : G) (w : W)
      → a + suc left ≡ max_attempts
      → Silent first a g
      → (s : Stream G) → inner.generate_stream req key g ≡ s
      → OneStream first w (
          run_stream client (stream_loop env inner max_attempts base (suc left) a last req key g) w)
  unfolding stream_loop fails_retryably give_up run_stream forward emits
  loop-OneStream left a last first g w h r (emit delta reply) e =
      let w' = (client delta w).1 in
      let t = run_stream client (reply (client delta w).0) w' in
      one_of first g (t.1) w (t.2) a (t.0) (t.0) _ _
        (rw (e, stream_loop) (run-forward (reply (client delta w).0) _ w' (λ o g. ground arith)))
        (omega arith) r e refl (delivered refl refl)
  loop-OneStream left a last first g w h r (finish (panicked p) g') e =
      one_of first g g' w w a (panicked p) (panicked p) _ _ (rw (e, stream_loop)) (omega arith) r e
        refl (settled refl refl)
  loop-OneStream left a last first g w h r (finish (returned (ok resp)) g') e =
      one_of first g g' w w a (returned (ok resp)) _ _ _ (rw (e, stream_loop)) (omega arith) r e
        refl (settled refl refl)
  loop-OneStream zero a last first g w h r (finish (returned (err er)) g') e =
      one_of first g g' w w a (returned (err er)) _ _ _ (rw (e, stream_loop) (ground arith))
        (omega arith) r e refl (exhausted (omega arith) refl)
  loop-OneStream (suc left) a last first g w h r (finish (returned (err er)) g') e =
      let more : nat_eq a (max_attempts - 1) ≡ false = ground arith in
      elim (Bool-cases (is_retryable er)) [
        | inr hard ↦
            one_of first g g' w w a (returned (err er)) _ _ _ (rw (e, stream_loop) (rw hard refl))
              (omega arith) r e refl (settled hard refl)
        | inl soft ↦ elim (Wait-cases (pause env inner max_attempts base a)) [
          | inr (o, halt) ↦
              one_of first g g' w w a o _ _ _ (rw (e, stream_loop) (rw (soft, more, halt) refl))
                (omega arith) r e refl (interrupted soft halt)
          | inl go ↦
              subst (OneStream first w) (sym (rw (e, stream_loop) (rw (soft, more, go) refl))) (
                loop-OneStream left (suc a) (some er) first g' w (omega arith) (again r e soft go)
                  (inner.generate_stream req key g') refl)
        ]
      ]

  -- With at least two attempts allowed, the caller of GenerateStream receives the chunks of one
  -- attempt and of no other: every attempt before it delivered none. It is the last one because a
  -- chunk was delivered, or it settled the call, or exhausted the attempts, or its wait was cut
  -- short.
  pub generate_stream-OneStream :
      (g : G) (w : W)
      → 2 ≤ max_attempts
      → OneStream g w (
          run_stream client
            ((new_retrying_generator env inner max_attempts base).generate_stream req key g)
            w)
  unfolding new_retrying_generator
  generate_stream-OneStream g w h =
      let some_left : leb max_attempts 1 ≡ false = ground arith in
      let e : max_attempts ≡ suc (max_attempts - 1) = omega arith in
      rw (some_left, new_retrying_generator)
        (subst
          (λ n.
            OneStream g w
              (run_stream client (stream_loop env inner max_attempts base n 0 none req key g) w))
          (sym e)
          (loop-OneStream (max_attempts - 1) 0 none g g w (omega arith) start
            (inner.generate_stream req key g) refl))
