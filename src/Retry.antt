-- ===== src/Retry.antt =====
-- internal/proxy/retry.go. The waits and their random part come from the environment: `done` says
-- for each attempt whether the context ended during the wait (with ctx.Err()), and `random` is the
-- source of rand.N. A time.Duration is an int64 count of nanoseconds.
pub mod Delay
pub mod Attempts
pub mod Streams
pub mod Calls
use genkit_proxy.Common.{
  ℕ, zero, suc, ◌+◌, ◌-◌, ◌*◌, ◌%◌, ◌^◌, Bool, true, false, Option, none, some, leb, ltb, nat_eq,
  ◌||◌, not, if◌then◌else◌, String,
}
use genkit_proxy.Common.Int.{ℤ, pos, ltb_ℤ, pos_part, sub_ℕ}
use genkit_proxy.Errors.{is_retryable}
use genkit_proxy.Errors.Chain.{GoError}
use genkit_proxy.Errors.Result.{GoResult, ok, err}
use genkit_proxy.Request.{GenerateRequest, GenerateResponse, empty_response}
use genkit_proxy.Generating.{fault, Outcome, returned, panicked, Stream, finish, emit, Generator}

pub record Env : Type 0 where
  pub done : ℕ → Option GoError
  pub random : ℕ → ℕ

-- An int64 from its bits.
unfoldable pub to_int64 : ℕ → ℤ
to_int64 n = let bits = n % 2 ^ 64 in if ltb bits (2 ^ 63) then pos bits else sub_ℕ bits (2 ^ 64)

abbrev pub ten_seconds : ℕ
ten_seconds = 10_000_000_000

-- rand.N, which panics when its bound is not positive.
rand_n : ℤ → ℕ → Option ℕ
rand_n n random = if ltb_ℤ (pos 0) n then some (random % pos_part n) else none

-- The draw below `cap`, itself capped at ten seconds.
unfoldable pub jitter : ℤ → ℕ → Option ℕ
unfolding rand_n
jitter cap random = rand_n (if ltb_ℤ (pos ten_seconds) cap then pos ten_seconds else cap) random

-- retryDelay; `none` is the panic of rand.N. The product wraps as an int64 does, `1 << attempt`
-- included: both are taken modulo 2^64.
unfoldable pub retry_delay : ℤ → ℕ → ℕ → Option ℕ
retry_delay base attempt random =
    if not (ltb_ℤ (pos 0) base)
    then some 0
    else jitter (to_int64 (pos_part base * 2 ^ attempt)) random

-- The result after the loop: lastErr, which is nil if the loop made no attempt.
unfoldable pub give_up : Option GoError → Outcome GenerateResponse
give_up none = returned (ok empty_response)
give_up (some e) = returned (err e)

-- What an attempt that failed retryably leads to, before the next round.
pub data Wait : Type 0 where
  proceed : Wait
  stop : Outcome GenerateResponse → Wait

unfoldable pub wait_for : Option ℕ → Option GoError → Wait
wait_for none ended = stop (panicked fault)
wait_for (some d) (some e) = stop (returned (err e))
wait_for (some d) none = proceed

module _ {G : Type 0} (env : Env) (inner : Generator G) (max_attempts : ℕ) (base : ℤ) where
  unfoldable pub pause : ℕ → Wait
  unfolding wait_for
  pause attempt = wait_for (retry_delay base attempt (env.random attempt)) (env.done attempt)

  -- The loop of Generate: `left` rounds remain, the next is number `attempt`.
  unfoldable pub generate_loop :
      ℕ → ℕ → Option GoError → GenerateRequest → String → G → Outcome GenerateResponse × G
  generate_loop zero attempt last req key g = (give_up last, g)
  generate_loop (suc left) attempt last req key g =
      let (o, g') = inner.generate req key g in
      elim o [
        | panicked p ↦ (panicked p, g')
        | returned (ok resp) ↦ (returned (ok resp), g')
        | returned (err e) ↦
            let again = generate_loop left (suc attempt) (some e) req key g' in
            if not (is_retryable e)
            then (returned (err e), g')
            else if nat_eq attempt (max_attempts - 1)
            then (give_up (some e), g')
            else elim (pause attempt) [ stop r ↦ (r, g') | proceed ↦ again ]
      ]

  -- An inner stream with `chunkSent` tracked, and what follows it.
  unfoldable pub forward :
      Bool → Stream G → (Bool → Outcome GenerateResponse → G → Stream G) → Stream G
  forward sent (finish o g) next = next sent o g
  forward sent (emit delta reply) next = emit delta (λ r. forward true (reply r) next)

  unfoldable pub stream_loop : ℕ → ℕ → Option GoError → GenerateRequest → String → G → Stream G
  stream_loop zero attempt last req key g = finish (give_up last) g
  stream_loop (suc left) attempt last req key g =
      forward false (inner.generate_stream req key g) (λ sent o g'. elim o [
        | panicked p ↦ finish (panicked p) g'
        | returned (ok resp) ↦ finish (returned (ok resp)) g'
        | returned (err e) ↦
            if sent || not (is_retryable e)
            then finish (returned (err e)) g'
            else if nat_eq attempt (max_attempts - 1)
            then finish (give_up (some e)) g'
            else elim (pause attempt) [
              | stop r ↦ finish r g'
              | proceed ↦ stream_loop left (suc attempt) (some e) req key g'
            ]
      ])

  -- NewRetryingGenerator with the methods of RetryingGenerator.
  unfoldable pub new_retrying_generator : Generator G
  unfolding generate_loop stream_loop forward
  new_retrying_generator = if leb max_attempts 1 then inner else record {
    generate = generate_loop max_attempts 0 none;
    generate_stream = stream_loop max_attempts 0 none;
  }
