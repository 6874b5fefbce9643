-- ===== src/RateLimit/Memory/Run.antt =====
-- The in-memory limiter over a whole run of calls.
use genkit_proxy.Common.{ℕ, ◌≤◌, ◌≡◌, refl, ap₂, String, Bool, List, [], ◌∷◌}
use genkit_proxy.Common.Int.{pos}
use genkit_proxy.Common.Assoc.{lookup}
use genkit_proxy.RateLimit.{Clock}
use genkit_proxy.RateLimit.Window.{full_key}
use genkit_proxy.RateLimit.Memory.{MemLimiter, new_memory_limiter, allow}
use genkit_proxy.RateLimit.Memory.Spec.{Call, count_in, within_budget}
use genkit_proxy.RateLimit.Memory.Counting.{counted, Tracks, allow-Tracks}

-- A run of the limiter over calls with their limits, from a fresh map.
pub record Request : Type 0 where
  pub clock : Clock
  pub key : String
  pub limit : ℕ

unfoldable pub answers : List Request → MemLimiter → List Bool
answers [] m = []
answers (r ∷ rs) m = let (v, m') = allow r.clock r.key r.limit m in v.allowed ∷ answers rs m'

unfoldable pub budgets : ℕ → List Request → List Call → List Bool
budgets w [] h = []
budgets w (r ∷ rs) h =
    within_budget w h r.clock.now r.key r.limit ∷ budgets w rs ((r.key, r.clock.now) ∷ h)

-- The clock never goes back.
abbrev pub InOrder : ℕ → List Request → Type 0
InOrder last [] = Unit
InOrder last (r ∷ rs) = (last ≤ r.clock.now) × InOrder r.clock.now rs

answers-Tracks :
    (w last : ℕ) (h : List Call) (m : MemLimiter) (rs : List Request)
    → Tracks w last h m
    → InOrder last rs
    → answers rs m ≡ budgets w rs h
unfolding answers budgets
answers-Tracks w last h m [] t o = refl
answers-Tracks w last h m (r ∷ rs) t o =
    let (same, t') = allow-Tracks w last h m r.clock r.key r.limit t o.0 in
    ap₂ ◌∷◌ same (
      answers-Tracks w r.clock.now ((r.key, r.clock.now) ∷ h) (allow r.clock r.key r.limit m).1 rs
        t' o.1)

-- Whatever calls come in, with a clock that never goes back, the in-memory limiter allows exactly
-- those that its fixed-window budget allows; eviction is not visible.
pub answers-eq-budgets :
    (w start : ℕ) (rs : List Request)
    → InOrder start rs
    → answers rs (new_memory_limiter (pos w)) ≡ budgets w rs []
unfolding new_memory_limiter lookup count_in
answers-eq-budgets w start rs o =
    answers-Tracks w start [] _ rs
      (record { window = refl; counts = λ key s h. empty_counts w key s; dated = tt }) o
  where
    empty_counts :
        (w : ℕ) (key : String) (s : ℕ) → counted (lookup (full_key key s) []) ≡ count_in w key s []
    empty_counts w key s = refl
