-- ===== src/Retry/Calls.antt =====
-- How often RetryingGenerator calls the generator behind it.
use genkit_proxy.Common.{
  ℕ, zero, suc, ◌+◌, ◌-◌, ◌≤◌, ◌≡◌, refl, Bool, true, false, Option, none, some, arith, String,
  Bool-cases, nat_eq, leb, inl, inr, ◌||◌, not, if◌then◌else◌,
}
use genkit_proxy.Common.Int.{ℤ}
use genkit_proxy.Errors.{is_retryable}
use genkit_proxy.Errors.Chain.{GoError}
use genkit_proxy.Errors.Result.{ok, err}
use genkit_proxy.Request.{GenerateRequest, GenerateResponse}
use genkit_proxy.Generating.{
  Outcome, returned, panicked, Stream, finish, emit, Generator, OnChunk, run_stream,
}
use genkit_proxy.Retry.{
  Env, stop, proceed, pause, generate_loop, stream_loop, forward, give_up, new_retrying_generator,
}
use genkit_proxy.Retry.Attempts.{Wait-cases}

-- A generator with the number of its calls in the state.
abbrev pub tally : {G : Type 0} → ℕ → Stream G → Stream (G × ℕ)
tally n (finish o g) = finish o (g, suc n)
tally n (emit delta reply) = emit delta (λ r. tally n (reply r))

abbrev pub counting : {G : Type 0} → Generator G → Generator (G × ℕ)
counting inner = record {
  generate = λ req key (s : _ × ℕ). let (o, g) = inner.generate req key s.0 in (o, (g, suc s.1));
  generate_stream = λ req key s. tally s.1 (inner.generate_stream req key s.0);
}

-- The attempts that a configuration allows: at least one.
abbrev pub attempts : ℕ → ℕ
attempts n = if leb n 1 then 1 else n

module _ {G : Type 0} (env : Env) (inner : Generator G) (max_attempts : ℕ) (base : ℤ)
    (req : GenerateRequest) (key : String) where
  loop_calls :
      (left a : ℕ) (last : Option GoError) (s : G × ℕ) (o : Outcome GenerateResponse)
      → (inner.generate req key s.0).0 ≡ o
      → (generate_loop env (counting inner) max_attempts base left a last req key s).1.1
        ≤ s.1 + left
  unfolding generate_loop
  loop_calls zero a last s o e = omega arith
  loop_calls (suc left) a last s (panicked p) e = rw (e, generate_loop) (omega arith)
  loop_calls (suc left) a last s (returned (ok resp)) e = rw (e, generate_loop) (omega arith)
  loop_calls (suc left) a last s (returned (err er)) e =
      let g = (inner.generate req key s.0).1 in
      let again =
        loop_calls left (suc a) (some er) (g, suc s.1) (inner.generate req key g).0 refl in
      rw (e, generate_loop) (ground (arith, again))

  module _ {W : Type 0} (client : OnChunk W) where
    forward_calls :
        (n m : ℕ) (next : Bool → Outcome GenerateResponse → G × ℕ → Stream (G × ℕ)) (sent : Bool)
        (s : Stream G) (w : W)
        → ((b : Bool) (o : Outcome GenerateResponse) (g : G) (v : W)
            → (run_stream client (next b o (g, suc n)) v).1.1 ≤ m)
        → (run_stream client
            (forward env (counting inner) max_attempts base sent (tally n s) next)
            w).1.1
          ≤ m
    unfolding forward run_stream
    forward_calls n m next sent (finish o g) w k = k sent o g w
    forward_calls n m next sent (emit delta reply) w k =
        let (r, v) = client delta w in forward_calls n m next true (reply r) v k

    -- One round of the loop, if the rounds after it keep to the bound.
    round_calls :
        (left a : ℕ) (s : G × ℕ)
        → ((er : GoError) (g : G) (v : W)
            → (run_stream client
                (stream_loop env
                  (counting inner)
                  max_attempts
                  base
                  left
                  (suc a)
                  (some er)
                  req
                  key
                  (g, suc s.1))
                v).1.1
              ≤ suc s.1 + left)
        → (b : Bool) (o : Outcome GenerateResponse) (g : G) (v : W)
        → (run_stream {G = G × ℕ} client
            (elim o [
              | panicked p ↦ finish (panicked p) (g, suc s.1)
              | returned (ok resp) ↦ finish (returned (ok resp)) (g, suc s.1)
              | returned (err e) ↦
                  if b || not (is_retryable e)
                  then finish (returned (err e)) (g, suc s.1)
                  else if nat_eq a (max_attempts - 1)
                  then finish (give_up (some e)) (g, suc s.1)
                  else elim (pause env (counting inner) max_attempts base a) [
                    | stop r ↦ finish r (g, suc s.1)
                    | proceed ↦
                        stream_loop env
                          (counting inner)
                          max_attempts
                          base
                          left
                          (suc a)
                          (some e)
                          req
                          key
                          (g, suc s.1)
                  ]
            ])
            v).1.1
          ≤ s.1 + suc left
    unfolding run_stream
    round_calls left a s again b (panicked p) g v = omega arith
    round_calls left a s again b (returned (ok resp)) g v = omega arith
    round_calls left a s again b (returned (err e)) g v =
        let stops : suc s.1 ≤ s.1 + suc left = omega arith in
        elim (Bool-cases (b || not (is_retryable e))) [
          | inl hard ↦ rw hard stops
          | inr soft ↦ elim (Bool-cases (nat_eq a (max_attempts - 1))) [
            | inl last ↦ rw (soft, last) stops
            | inr more ↦ elim (Wait-cases (pause env (counting inner) max_attempts base a)) [
              | inr (r, halt) ↦ rw (soft, more, halt) stops
              | inl go ↦ let next = again e g v in rw (soft, more, go) (omega arith)
            ]
          ]
        ]

    stream_loop_calls :
        (left a : ℕ) (last : Option GoError) (s : G × ℕ) (w : W)
        → (run_stream client
            (stream_loop env (counting inner) max_attempts base left a last req key s)
            w).1.1
          ≤ s.1 + left
    unfolding stream_loop run_stream
    stream_loop_calls zero a last s w = omega arith
    stream_loop_calls (suc left) a last s w =
        forward_calls s.1 (s.1 + suc left) _ false (inner.generate_stream req key s.0) w
          (round_calls left a s λ er g v. stream_loop_calls left (suc a) (some er) (g, suc s.1) v)

    tally_calls : (n : ℕ) (s : Stream G) (w : W) → (run_stream client (tally n s) w).1.1 ≡ suc n
    unfolding run_stream
    tally_calls n (finish o g) w = refl
    tally_calls n (emit delta reply) w = let (r, v) = client delta w in tally_calls n (reply r) v

    -- Whatever the generator behind it answers, and whatever the client does with the chunks, one
    -- call of Generate or of GenerateStream comes to an end after at most as many calls of that
    -- generator as RETRY_MAX_ATTEMPTS says, and after at most one if that is zero or one.
    pub retrying_calls :
        (g : G) (w : W)
        → let r = new_retrying_generator env (counting inner) max_attempts base in
          ((r.generate req key (g, 0)).1.1 ≤ attempts max_attempts)
          × ((run_stream client (r.generate_stream req key (g, 0)) w).1.1 ≤ attempts max_attempts)
    unfolding new_retrying_generator
    retrying_calls g w = elim (Bool-cases (leb max_attempts 1)) [
      | inl single ↦
          rw (single, new_retrying_generator)
            (omega arith, omega (arith, tally_calls 0 (inner.generate_stream req key g) w))
      | inr several ↦
          rw (several, new_retrying_generator)
            (
              omega
                  (arith, loop_calls max_attempts 0 none (g, 0) (inner.generate req key g).0 refl),
              omega (arith, stream_loop_calls max_attempts 0 none (g, 0) w),
            )
    ]
