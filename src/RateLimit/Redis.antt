-- ===== src/RateLimit/Redis.antt =====
-- internal/ratelimit/redis.go. The commands that the script calls are those of a Redis server with
-- the state `R`. The script runs on the server as one step; its call may get no answer, before the
-- script has run or after.
pub mod Counts
pub mod Expiry
pub mod Run
use genkit_proxy.Common.{
  ℕ, suc, ◌*◌, ◌/◌, ◌-◌, ◌%◌, ◌^◌, String, Bool, true, false, Option, none, some, nat_eq, ltb,
  if◌then◌else◌,
}
use genkit_proxy.Common.Int.{ℤ, pos, negsuc, sub_ℕ, ltb_ℤ}
use genkit_proxy.Errors.Chain.{GoError}
use genkit_proxy.Errors.Result.{GoResult, ok, err}
use genkit_proxy.Retry.{to_int64}
use genkit_proxy.RateLimit.{Clock, Verdict}
use genkit_proxy.RateLimit.Window.{truncate, add_duration, full_key, unix_epoch}

-- INCR, PEXPIREAT and PTTL.
pub record Redis (R : Type 0) : Type 0 where
  pub incr : String → R → ℕ × R
  pub pexpireat : String → ℤ → R → R
  pub pttl : String → R → ℤ

-- How the call of the script went.
pub data Exchange : Type 0 where
  answered : Exchange
  lost_request lost_reply : GoError → Exchange

-- redisLimiter, with the server behind its client.
pub record RedisLimiter (R : Type 0) : Type 0 where
  pub window : ℤ
  pub server : R

-- Time.UnixMilli.
unfoldable pub unix_milli : ℕ → ℤ
unix_milli t = sub_ℕ (t / 1_000_000) (unix_epoch / 1_000_000)

-- time.Duration(n) * time.Millisecond, an int64 that wraps.
unfoldable pub from_millis : ℤ → ℤ
from_millis (pos n) = to_int64 (n * 1_000_000)
from_millis (negsuc n) = to_int64 (2 ^ 64 - suc n * 1_000_000 % 2 ^ 64)

-- script.Run with Int64Slice.
unfoldable pub run_script : {R : Type 0} → Exchange → (R → (ℕ × ℤ) × R) → R → GoResult (ℕ × ℤ) × R
run_script answered f s = let (result, s') = f s in (ok result, s')
run_script (lost_request e) f s = (err e, s)
run_script (lost_reply e) f s = (err e, (f s).1)

-- The time to live, or the window if that is not positive.
abbrev pub retry_after : ℤ → ℤ → ℤ
retry_after window ttl = if ltb_ℤ (pos 0) ttl then ttl else window

unfoldable pub verdict_of : ℤ → GoResult (ℕ × ℤ) → Verdict
unfolding from_millis
verdict_of window (err e) = record { allowed = true; retry_after = pos 0; failure = some e }
verdict_of window (ok (flag, ttl)) =
    if nat_eq flag 0
    then record {
      allowed = false;
      retry_after = retry_after window (from_millis ttl);
      failure = none;
    }
    else record { allowed = true; retry_after = pos 0; failure = none }

module _ {R : Type 0} (redis : Redis R) where
  -- luaScript.
  unfoldable pub script : String → ℤ → ℕ → R → (ℕ × ℤ) × R
  script key expire_at limit s =
      let (count, s1) = redis.incr key s in
      let s2 = if nat_eq count 1 then redis.pexpireat key expire_at s1 else s1 in
      if ltb limit count then ((0, redis.pttl key s2), s2) else ((1, pos 0), s2)

  -- Allow.
  unfoldable pub allow : Exchange → Clock → String → ℕ → RedisLimiter R → Verdict × RedisLimiter R
  unfolding verdict_of run_script
  allow exchange c key limit l =
      let window_start = truncate l.window c.now in
      let expire_at = unix_milli (add_duration window_start l.window) in
      let (result, s) =
        run_script exchange (script (full_key key window_start) expire_at limit) l.server in
      (verdict_of l.window result, record l { server = s })

unfoldable pub new_redis_limiter : {R : Type 0} → R → ℤ → RedisLimiter R
new_redis_limiter server window = record { window = window; server = server }
