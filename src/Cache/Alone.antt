-- ===== src/Cache/Alone.antt =====
-- A call of `get` that no other call overlaps, from its start to its end. `failure` is the error of
-- initApp, and `ended` that of the request's context, should the call have to wait.
pub mod Settled
pub mod Owned
use genkit_proxy.Common.{ℕ, String, Bool, Option, none, some, if◌then◌else◌}
use genkit_proxy.Errors.Chain.{GoError}
use genkit_proxy.RateLimit.{Clock}
use genkit_proxy.Cache.{
  GenkitCache, Query, Stage, fresh, waiting, building, closing, returned, enter, build, close_ready,
}

-- await.
unfoldable pub await : GoError → ℕ → GenkitCache → Stage
await ended m c =
    if (c.heap m).ready
    then returned (c.heap m).app (c.heap m).failure
    else returned none (some ended)

-- The closing of the channel and the return.
unfoldable pub announced : ℕ → GenkitCache × Stage → GenkitCache × Stage
announced n (c, closing app failure) = (close_ready n c, returned app failure)
announced n (c, s) = (c, s)

unfoldable pub resume :
    ℕ → Query → Option GoError → GoError → GenkitCache × Stage → GenkitCache × Stage
unfolding await announced
resume n q failure ended (c, waiting m) = (c, await ended m c)
resume n q failure ended (c, building key) = announced n (build n q key failure c)
resume n q failure ended (c, s) = (c, s)

-- get.
unfoldable pub get_alone :
    (String → String)
    → Clock
    → ℕ
    → Query
    → Option GoError
    → GoError
    → GenkitCache
    → GenkitCache × Stage
unfolding resume
get_alone digest clock n q failure ended c = resume n q failure ended (enter digest clock n q c)
