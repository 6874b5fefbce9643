-- ===== src/Examples/Caching.antt =====
-- Concrete inputs for the theorems on the instance cache.
use genkit_proxy.Common.{
  ℕ, zero, suc, ◌≤◌, ◌≡◌, ◌≢◌, refl, ◌⊎◌, String, Bool, true, false, Option, none, some, List, [],
  ◌∷◌, arith, length, nat_eq,
}
use genkit_proxy.Common.Int.{pos}
use genkit_proxy.Common.Assoc.{lookup}
use genkit_proxy.Errors.Result.{ok}
use genkit_proxy.Router.{open_ai, plugin_for}
use genkit_proxy.RateLimit.{Clock}
use genkit_proxy.Cache.{
  GenkitCache, Instance, Query, Stage, live, fresh, waiting, building, closing, returned,
  new_genkit_cache, enter, build, close_ready, evict, allocate, remove_all,
}
use genkit_proxy.Cache.System.{
  System, stopping, shut, look_up, construct, announce, pick, close_begin, close_end, Reach, here,
  later, init, at_stage, in_flight,
}
use genkit_proxy.Cache.Keys.{Injective}
use genkit_proxy.Cache.Isolation.{returned-plugin}
use genkit_proxy.Cache.Progress.{Awakened, waiting-Woken}
use genkit_proxy.Cache.Strays.{Stray}
use genkit_proxy.Cache.Leak.{Reach-Stray}
use genkit_proxy.Cache.Release.{shut-not_live}
use genkit_proxy.Cache.Bounds.{Evicted, evict-Evicted, allocate-length}
use genkit_proxy.Examples.{token_id}

-- What the runs below evaluate.
program : Unit {0}
unfolding enter genkit_proxy.Cache.key_of genkit_proxy.Cache.cache_key
    genkit_proxy.Router.provider_of genkit_proxy.Common.Text.cut
    genkit_proxy.Router.is_known_provider genkit_proxy.Router.is_blank
    genkit_proxy.Common.Text.trim_space genkit_proxy.Cache.find_or_allocate lookup allocate evict
    genkit_proxy.Common.Assoc.insert genkit_proxy.Common.Assoc.erase genkit_proxy.Cache.expired
    genkit_proxy.Cache.remove genkit_proxy.Cache.find_victim genkit_proxy.Cache.consider build
    genkit_proxy.Cache.init_app plugin_for genkit_proxy.Cache.fail close_ready remove_all
    genkit_proxy.Cache.remove_key
program = tt

abbrev query : ℕ → Query
query n = record { model_name = "openai/gpt-4o"; api_key = "sk-1" }

pub token_id-Injective : Injective token_id
token_id-Injective s t e = e

abbrev instant : ℕ → Clock
instant n = record { now = n; later = n }

abbrev step : ℕ → GenkitCache × Stage → System → System
step n r s = record s { cache = r.0; stage = at_stage n r.1 s.stage }

abbrev entering : ℕ → ℕ → System → System
entering now n s = step n (enter token_id (instant now) n (query n) s.cache) s

abbrev the_key : String
the_key = "openai\0sk-1"

abbrev constructing : ℕ → System → System
constructing n s = step n (build n (query n) the_key none s.cache) s

abbrev instance : Instance
instance = record { plugin = open_ai "sk-1"; context = 0 }

abbrev announcing : ℕ → System → System
announcing n s = step n (close_ready n s.cache, returned (some instance) none) s

abbrev start : System
start = init (pos 0) (pos 2)

abbrev one_built : System
one_built = announcing 0 (constructing 0 (entering 3 0 start))

one_built-reached : Reach token_id query start one_built
unfolding program
one_built-reached =
    later
      (later (later here (pick 0 _ (look_up (instant 3) refl refl) refl))
        (pick 0 _ (construct the_key none refl refl) refl))
      (pick 0 _ (announce (some instance) none refl refl) refl)

returned-plugin_example : plugin_for "openai/gpt-4o" "sk-1" ≡ ok (open_ai "sk-1")
unfolding program
returned-plugin_example =
    returned-plugin token_id query token_id-Injective (pos 0) (pos 2) one_built one_built-reached 0
      instance none refl

-- Call 1 waits for the build of call 0.
abbrev two_calls : System
two_calls = entering 4 1 (entering 3 0 start)

two_calls-reached : Reach token_id query start two_calls
unfolding program
two_calls-reached =
    later (later here (pick 0 _ (look_up (instant 3) refl refl) refl))
      (pick 1 _ (look_up (instant 4) refl refl) refl)

call_waits : two_calls.stage 1 ≡ waiting 0
unfolding program
call_waits = refl

waiting-Woken_example : Awakened token_id query 0 1 two_calls
unfolding program
waiting-Woken_example =
    waiting-Woken token_id query 0 (pos 0) (pos 2) two_calls two_calls-reached 1 call_waits

abbrev closing_down : System
closing_down = record one_built {
  cache = record one_built.cache { closed = true };
  closer = stopping;
}

abbrev closed_down : System
closed_down = record closing_down {
  cache = remove_all closing_down.cache.entries closing_down.cache;
  closer = shut;
}

all_quiet : (n : ℕ) → in_flight (closing_down.stage n) ≡ false
unfolding program
all_quiet zero = refl
all_quiet (suc n) = ground arith

closed_down-reached : Reach token_id query start closed_down
unfolding program
closed_down-reached =
    later (later one_built-reached (close_begin refl refl)) (close_end refl all_quiet refl)

shut-not_live_example : (closed_down.cache.heap 0).context ≢ live
unfolding program
shut-not_live_example =
    shut-not_live token_id query (pos 0) (pos 2) refl closed_down closed_down-reached refl 0

-- With a time to live of 5, the entry of call 0 expires while it is being built, and call 1
-- replaces it.
abbrev expired_early : System
expired_early = entering 10 1 (entering 3 0 (init (pos 5) (pos 2)))

expired_early-Stray : Stray 0 expired_early
unfolding program
expired_early-Stray = record { unmapped = λ k e. ground arith; abandoned = tt }

abbrev leaked : System
leaked = constructing 0 expired_early

expired_early-leaked : Reach token_id query expired_early leaked
unfolding program
expired_early-leaked = later here (pick 0 _ (construct the_key none refl refl) refl)

Reach-Stray_example : Stray 0 leaked
unfolding program
Reach-Stray_example =
    Reach-Stray 0 token_id query expired_early leaked expired_early-leaked expired_early-Stray

leaked_test : (leaked.cache.heap 0).context ≡ live
unfolding program
leaked_test = refl

abbrev full : GenkitCache
full = record one_built.cache { max_size = pos 1 }

evict-Evicted_example : Evicted full (evict full)
evict-Evicted_example = evict-Evicted full

allocate-length_example :
    (length (allocate (instant 5) 7 "other" full).entries ≤ 1)
    ⊎ ((length (allocate (instant 5) 7 "other" full).entries ≤ length full.entries)
        ⊎ ((k : String) (m : ℕ)
            → lookup k full.entries ≡ some m
            → 7 ≢ m
            → (full.heap m).ready ≡ false))
unfolding program
allocate-length_example = allocate-length (instant 5) 7 "other" 1 full refl (omega arith) refl
