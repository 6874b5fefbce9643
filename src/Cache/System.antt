-- ===== src/Cache/System.antt =====
-- Calls of `get`, the janitor and Close, interleaved in any order at the sections under the mutex.
-- The number of builds in flight is that of the calls between the two sections; the janitor may
-- sweep at any time until Close has seen it end.
use genkit_proxy.Common.{
  ℕ, ◌≡◌, ◌≢◌, String, Bool, true, false, Option, none, some, nat_eq, if◌then◌else◌,
}
use genkit_proxy.Common.Int.{ℤ}
use genkit_proxy.Errors.Chain.{GoError}
use genkit_proxy.RateLimit.{Clock}
use genkit_proxy.Cache.{
  GenkitCache, Instance, Query, Stage, fresh, waiting, building, closing, returned, enter, build,
  close_ready, sweep, remove_all, new_genkit_cache,
}

-- Close: not called; waiting for the janitor and the builds; finished.
pub data Closer : Type 0 where
  running stopping shut : Closer

pub record System : Type 0 where
  pub cache : GenkitCache
  pub stage : ℕ → Stage
  pub closer : Closer

-- Between builds.Add and builds.Done.
abbrev pub in_flight : Stage → Bool
in_flight (building key) = true
in_flight (closing app failure) = true
in_flight _ = false

abbrev pub at_stage : ℕ → Stage → (ℕ → Stage) → ℕ → Stage
at_stage n p stage m = if nat_eq n m then p else stage m

module _ (digest : String → String) where
  -- One step of call n, which asks for q.
  pub data Move (n : ℕ) (q : Query) (c : GenkitCache) (p : Stage) (r : GenkitCache × Stage)
      : Type 0 where
    look_up : (clock : Clock) → p ≡ fresh → r ≡ enter digest clock n q c → Move n q c p r
    -- await: the entry is ready, or the request's context ends
    wake :
        (m : ℕ)
        → p ≡ waiting m
        → (c.heap m).ready ≡ true
        → r ≡ (c, returned (c.heap m).app (c.heap m).failure)
        → Move n q c p r
    give_up :
        (m : ℕ) (e : GoError) → p ≡ waiting m → r ≡ (c, returned none (some e)) → Move n q c p r
    construct :
        (key : String) (failure : Option GoError)
        → p ≡ building key
        → r ≡ build n q key failure c
        → Move n q c p r
    announce :
        (app : Option Instance) (failure : Option GoError)
        → p ≡ closing app failure
        → r ≡ (close_ready n c, returned app failure)
        → Move n q c p r

  module _ (query : ℕ → Query) where
    pub data Step (s t : System) : Type 0 where
      pick :
          (n : ℕ) (r : GenkitCache × Stage)
          → Move n (query n) s.cache (s.stage n) r
          → t ≡ record s { cache = r.0; stage = at_stage n r.1 s.stage }
          → Step s t
      tick :
          (clock : String → ℕ)
          → s.closer ≢ shut
          → t ≡ record s { cache = sweep clock s.cache.entries s.cache }
          → Step s t
      close_begin :
          s.closer ≡ running
          → t ≡ record s { cache = record s.cache { closed = true }; closer = stopping }
          → Step s t
      close_end :
          s.closer ≡ stopping
          → ((n : ℕ) → in_flight (s.stage n) ≡ false)
          → t ≡ record s { cache = remove_all s.cache.entries s.cache; closer = shut }
          → Step s t

    pub data Reach (s : System) : System → Type 0 where
      here : Reach s s
      later : {t u : System} → Reach s t → Step t u → Reach s u

abbrev pub init : ℤ → ℤ → System
init ttl max_size = record {
  cache = new_genkit_cache ttl max_size;
  stage = λ n. fresh;
  closer = running;
}
