-- ===== src/RateLimit.antt =====
-- internal/ratelimit/ratelimit.go: the Limiter interface. An implementation has a state `L`; the
-- clock is an argument, read once before the decision (`now`) and once after it (`later`), in
-- nanoseconds since the zero time of Go's package time. Limits are the configured ones, never
-- negative.
pub mod Window
pub mod Memory
pub mod Redis
use genkit_proxy.Common.{ℕ, String, Bool, Option}
use genkit_proxy.Common.Int.{ℤ}
use genkit_proxy.Errors.Chain.{GoError}

pub record Clock : Type 0 where
  pub now : ℕ
  pub later : ℕ

pub record Verdict : Type 0 where
  pub allowed : Bool
  pub retry_after : ℤ
  pub failure : Option GoError

pub record Limiter (L : Type 0) : Type 0 where
  pub allow : Clock → String → ℕ → L → Verdict × L
