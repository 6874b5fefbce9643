-- ===== src/RateLimit/Memory.antt =====
-- internal/ratelimit/memory.go. The mutex makes each Allow one step; the order in which
-- evictExpired meets the map does not matter to it.
pub mod Spec
pub mod Eviction
pub mod Counting
pub mod Run
use genkit_proxy.Common.{
  ℕ, suc, ◌+◌, String, Bool, true, false, Option, none, some, List, [], ◌∷◌, length, ltb, leb,
  if◌then◌else◌,
}
use genkit_proxy.Common.Int.{ℤ, pos, sub_ℕ}
use genkit_proxy.Common.Assoc.{lookup, insert}
use genkit_proxy.RateLimit.{Clock, Verdict, Limiter}
use genkit_proxy.RateLimit.Window.{truncate, add_duration, full_key}

abbrev pub max_buckets : ℕ
max_buckets = 10_000

pub record Bucket : Type 0 where
  pub count : ℕ
  pub reset_at : ℕ

pub record MemLimiter : Type 0 where
  pub window : ℤ
  pub buckets : List (String × Bucket)

unfoldable pub new_memory_limiter : ℤ → MemLimiter
new_memory_limiter window = record { window = window; buckets = [] }

unfoldable pub evict_expired : ℕ → List (String × Bucket) → List (String × Bucket)
evict_expired now [] = []
evict_expired now ((k, b) ∷ m) =
    let rest = evict_expired now m in if ltb b.reset_at now then rest else (k, b) ∷ rest

-- The bucket that a call counts in, and the map from which expired buckets may be gone.
unfoldable pub bucket_for :
    ℕ → ℕ → Option Bucket → List (String × Bucket) → Bucket × List (String × Bucket)
bucket_for now reset_at (some b) m = (b, m)
bucket_for now reset_at none m = (
  record { count = 0; reset_at = reset_at },
  if leb max_buckets (length m) then evict_expired now m else m,
)

-- The count after the call against the limit; time.Until reads the clock again.
unfoldable pub verdict : ℕ → Clock → Bucket → Verdict
verdict limit c b =
    if ltb limit b.count
    then record { allowed = false; retry_after = sub_ℕ b.reset_at c.later; failure = none }
    else record { allowed = true; retry_after = pos 0; failure = none }

unfoldable pub allow : Clock → String → ℕ → MemLimiter → Verdict × MemLimiter
unfolding bucket_for verdict
allow c key limit m =
    let window_start = truncate m.window c.now in
    let full = full_key key window_start in
    let reset_at = add_duration window_start m.window in
    let (b, kept) = bucket_for c.now reset_at (lookup full m.buckets) m.buckets in
    let counted = record b { count = suc b.count } in
    (verdict limit c counted, record m { buckets = insert full counted kept })

abbrev pub memory_limiter : Limiter MemLimiter
memory_limiter = record { allow = allow }
