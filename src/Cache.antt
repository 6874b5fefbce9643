-- ===== src/Cache.antt =====
-- internal/proxy/cache.go: the cache of Genkit instances, up to the parts of its methods that run
-- under the mutex. An entry that the n-th call of `get` allocates is entry number n, and ictx of
-- its build is context number n; an instance is known by the plugin and the context that initApp
-- was called with. A Go map is an association list; a range over it looks each key up when it comes
-- to it, and meets the keys in the order of the list, which Go leaves open. `digest` stands for the
-- hex form of SHA-256. Of the two readings of the clock under one lock, `now` is the first and
-- `later` the second.
pub mod System
pub mod Alone
pub mod Removal
pub mod Eviction
pub mod Keys
pub mod Isolation
pub mod Advance
pub mod Waiters
pub mod Progress
pub mod Strays
pub mod Contexts
pub mod Release
pub mod Victim
pub mod Bounds
pub mod Leak
use Prim.Native.String
use genkit_proxy.Common.{
  ℕ, ◌-◌, String, Bool, true, false, not, ◌&&◌, ◌||◌, leb, Option, none, some, List, [], ◌∷◌,
  length, ltb, nat_eq, if◌then◌else◌,
}
use genkit_proxy.Common.Int.{ℤ, pos, pos_part, ltb_ℤ}
use genkit_proxy.Common.Assoc.{lookup, insert, erase}
use genkit_proxy.Errors.Chain.{GoError, sentinel, cache_closed}
use genkit_proxy.Errors.Result.{GoResult, ok, err, ◌>>=◌}
use genkit_proxy.Router.{Plugin, provider_of, plugin_for}
use genkit_proxy.RateLimit.{Clock}

-- *genkit.Genkit, by the arguments of the call of initApp that gave it.
pub record Instance : Type 0 where
  pub plugin : Plugin
  pub context : ℕ

pub data Context : Type 0 where
  unopened live cancelled : Context

-- cacheEntry: `ready` says whether its channel is closed, `cancel` whether its cancel function is
-- set. `context` is the state of its build's ictx.
pub record Entry : Type 0 where
  pub ready : Bool
  pub app : Option Instance
  pub failure : Option GoError
  pub cancel : Bool
  pub last_used : ℕ
  pub context : Context

pub record GenkitCache : Type 0 where
  pub entries : List (String × ℕ)
  pub heap : ℕ → Entry
  pub closed : Bool
  pub ttl : ℤ
  pub max_size : ℤ

abbrev pub blank_entry : Entry
blank_entry = record {
  ready = false;
  app = none;
  failure = none;
  cancel = false;
  last_used = 0;
  context = unopened;
}

-- NewGenkitCache.
abbrev pub new_genkit_cache : ℤ → ℤ → GenkitCache
new_genkit_cache ttl max_size = record {
  entries = [];
  heap = λ n. blank_entry;
  closed = false;
  ttl = ttl;
  max_size = max_size;
}

-- The heap with one entry changed.
abbrev pub at_entry : ℕ → (Entry → Entry) → (ℕ → Entry) → ℕ → Entry
at_entry n change heap m = if nat_eq n m then change (heap m) else heap m

-- cacheKey.
unfoldable pub cache_key : (String → String) → String → String → String
cache_key digest provider api_key = digest (String.◌++◌ provider (String.◌∷◌ "\0" api_key))

-- What a call of `get` asks for, and the key of its entry.
pub record Query : Type 0 where
  pub model_name : String
  pub api_key : String

unfoldable pub key_of : (String → String) → Query → GoResult String
key_of digest q = do provider ← provider_of q.model_name; ok (cache_key digest provider q.api_key)

-- expiredLocked.
unfoldable pub expired : GenkitCache → ℕ → Entry → Bool
expired c now e = ltb_ℤ (pos 0) c.ttl && ltb (pos_part c.ttl) (now - e.last_used)

abbrev pub cancelled_if_set : Entry → Entry
cancelled_if_set e = if e.cancel then record e { context = cancelled } else e

-- removeLocked.
unfoldable pub remove : String → ℕ → GenkitCache → GenkitCache
remove key n c = record c {
  entries = erase key c.entries;
  heap = at_entry n cancelled_if_set c.heap;
}

-- One round of the loop of evictLocked.
unfoldable pub consider : GenkitCache → String → ℕ → Option (String × ℕ) → Option (String × ℕ)
consider c key n none = if (c.heap n).ready then some (key, n) else none
consider c key n (some victim) =
    if (c.heap n).ready && ltb (c.heap n).last_used (c.heap victim.1).last_used
    then some (key, n)
    else some victim

unfoldable pub find_victim :
    GenkitCache → List (String × ℕ) → Option (String × ℕ) → Option (String × ℕ)
find_victim c [] victim = victim
find_victim c ((key, m) ∷ range) victim =
    find_victim c range
      (elim (lookup key c.entries) [ none ↦ victim | some n ↦ consider c key n victim ])

-- evictLocked.
unfoldable pub evict : GenkitCache → GenkitCache
evict c =
    if not (ltb_ℤ (pos 0) c.max_size) || leb (length c.entries) (pos_part c.max_size)
    then c
    else elim (find_victim c c.entries none) [ none ↦ c | some victim ↦ remove victim.0 victim.1 c ]

-- sweep, with the clock's reading at each key.
unfoldable pub sweep_key : (String → ℕ) → String → GenkitCache → GenkitCache
sweep_key clock key c = elim (lookup key c.entries) [
  | none ↦ c
  | some n ↦ if (c.heap n).ready && expired c (clock key) (c.heap n) then remove key n c else c
]

unfoldable pub sweep : (String → ℕ) → List (String × ℕ) → GenkitCache → GenkitCache
sweep clock [] c = c
sweep clock ((key, m) ∷ range) c = sweep clock range (sweep_key clock key c)

-- The last loop of Close.
unfoldable pub remove_key : String → GenkitCache → GenkitCache
remove_key key c = elim (lookup key c.entries) [ none ↦ c | some n ↦ remove key n c ]

unfoldable pub remove_all : List (String × ℕ) → GenkitCache → GenkitCache
remove_all [] c = c
remove_all ((key, m) ∷ range) c = remove_all range (remove_key key c)

-- Where a call of `get` is: before its first section under the mutex; in `await` for entry n;
-- building its own entry under a key; about to close that entry's channel and to return; returned.
pub data Stage : Type 0 where
  fresh : Stage
  waiting : ℕ → Stage
  building : String → Stage
  closing : Option Instance → Option GoError → Stage
  returned : Option Instance → Option GoError → Stage

-- The first section of `get` in call number n, once the key is known: a hit, or a miss that
-- allocates an entry and evicts.
unfoldable pub allocate : Clock → ℕ → String → GenkitCache → GenkitCache
allocate clock n key c = evict (record c {
  entries = insert key n c.entries;
  heap = at_entry n (λ e. record blank_entry { last_used = clock.later }) c.heap;
})

unfoldable pub find_or_allocate : Clock → ℕ → String → GenkitCache → GenkitCache × Stage
find_or_allocate clock n key c = elim (lookup key c.entries) [
  | none ↦ (allocate clock n key c, building key)
  | some m ↦
      if expired c clock.now (c.heap m)
      then (allocate clock n key (remove key m c), building key)
      else (
        record c { heap = at_entry m (λ e. record e { last_used = clock.later }) c.heap },
        waiting m,
      )
]

unfoldable pub enter : (String → String) → Clock → ℕ → Query → GenkitCache → GenkitCache × Stage
enter digest clock n q c = elim (key_of digest q) [
  | err e ↦ (c, returned none (some e))
  | ok key ↦
      if c.closed
      then (c, returned none (some (sentinel cache_closed)))
      else find_or_allocate clock n key c
]

-- fail, up to the closing of the channel.
unfoldable pub fail : ℕ → String → GoError → GenkitCache → GenkitCache
fail n key e c = record c {
  entries = (elim (lookup key c.entries) [
    | none ↦ c.entries
    | some m ↦ if nat_eq m n then erase key c.entries else c.entries
  ]);
  heap = at_entry n (λ x. record x { failure = some e }) c.heap;
}

-- The build of call n, from pluginFor to the second section; `failure` is the error of initApp.
unfoldable pub init_app : ℕ → String → Plugin → Option GoError → GenkitCache → GenkitCache × Stage
init_app n key plugin (some e) c = (
  fail n key e (record c { heap = at_entry n (λ x. record x { context = cancelled }) c.heap }),
  closing none (some e),
)
init_app n key plugin none c =
    let app : Instance = record { plugin = plugin; context = n } in
    (
      record c {
        heap = at_entry n (λ x. record x { app = some app; cancel = true; context = live }) c.heap;
      },
      closing (some app) none,
    )

unfoldable pub build : ℕ → Query → String → Option GoError → GenkitCache → GenkitCache × Stage
build n q key failure c = elim (plugin_for q.model_name q.api_key) [
  | err e ↦ (fail n key e c, closing none (some e))
  | ok plugin ↦ init_app n key plugin failure c
]

-- close(e.ready).
unfoldable pub close_ready : ℕ → GenkitCache → GenkitCache
close_ready n c = record c { heap = at_entry n (λ e. record e { ready = true }) c.heap }
