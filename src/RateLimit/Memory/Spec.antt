-- ===== src/RateLimit/Memory/Spec.antt =====
-- The fixed-window budget that a limiter promises, on the history of its calls: no map, no keys
-- joined with times, no eviction.
use genkit_proxy.Common.{
  ℕ, ◌+◌, String, Bool, ◌&&◌, List, [], ◌∷◌, ◌==◌, nat_eq, leb, if◌then◌else◌,
}
use genkit_proxy.Common.Int.{pos}
use genkit_proxy.RateLimit.Window.{truncate}

-- A call's key and time.
abbrev pub Call : Type 0
Call = String × ℕ

-- How many earlier calls had this key in the window that starts at `start`.
unfoldable pub count_in : ℕ → String → ℕ → List Call → ℕ
count_in w key start [] = 0
count_in w key start ((j, t) ∷ h) =
    (if j == key && nat_eq (truncate (pos w) t) start then 1 else 0) + count_in w key start h

-- A call is within its budget if, with it, the window holds at most `limit` calls.
unfoldable pub within_budget : ℕ → List Call → ℕ → String → ℕ → Bool
within_budget w h now key limit = leb (count_in w key (truncate (pos w) now) h + 1) limit
