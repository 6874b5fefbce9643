-- ===== src/Cache/Isolation.antt =====
-- Whose plugin the instance holds that a call of `get` returns.
use genkit_proxy.Common.{
  ℕ, ◌≡◌, refl, sym, subst, ◌∙◌, inl, inr, String, Option, none, some, ◌==◌, nat_eq, nat_eq_iff,
  arith, Bool-cases, Option-cases, eq_iff, if-on, if-off,
}
use genkit_proxy.Common.Int.{ℤ}
use genkit_proxy.Common.Assoc.{lookup, lookup-insert, lookup-erase}
use genkit_proxy.Errors.Chain.{GoError}
use genkit_proxy.Errors.Result.{GoResult, ok, GoResult-cases}
use genkit_proxy.Router.{Plugin, plugin_for}
use genkit_proxy.RateLimit.{Clock}
use genkit_proxy.Cache.{
  GenkitCache, Instance, Query, Stage, fresh, waiting, building, closing, returned, key_of, expired,
  allocate, find_or_allocate, enter, fail, init_app, build, close_ready,
}
use genkit_proxy.Cache.System.{
  System, Move, look_up, wake, give_up, construct, announce, Step, pick, tick, close_begin,
  close_end, Reach, here, later, init, at_stage,
}
use genkit_proxy.Cache.Removal.{Shrinks, remove-Shrinks}
use genkit_proxy.Cache.Eviction.{evict-Evicts, sweep-Evicts, remove_all-Shrinks}
use genkit_proxy.Cache.Keys.{Injective, key_of-plugin_for}

abbrev plugin_of_query : Query → GoResult Plugin
plugin_of_query q = plugin_for q.model_name q.api_key

module _ (digest : String → String) (query : ℕ → Query) where
  record SameKey (n m : ℕ) : Type 0 where
    key : String
    mine : key_of digest (query n) ≡ ok key
    other : key_of digest (query m) ≡ ok key

  -- An entry is under the key of the call that allocated it, and holds that call's plugin.
  record Own (c : GenkitCache) : Type 0 where
    keyed : (k : String) (n : ℕ) → lookup k c.entries ≡ some n → key_of digest (query n) ≡ ok k
    held :
        (n : ℕ) (a : Instance) → (c.heap n).app ≡ some a → plugin_of_query (query n) ≡ ok a.plugin

  abbrev Fits : ℕ → Stage → Type 0
  Fits n fresh = Unit
  Fits n (waiting m) = SameKey n m
  Fits n (building k) = key_of digest (query n) ≡ ok k
  Fits n (closing none f) = Unit
  Fits n (closing (some a) f) = plugin_of_query (query n) ≡ ok a.plugin
  Fits n (returned none f) = Unit
  Fits n (returned (some a) f) = plugin_of_query (query n) ≡ ok a.plugin

  Shrinks-Own : (c d : GenkitCache) → Shrinks c d → Own c → Own d
  Shrinks-Own c d s o = record {
    keyed = λ k n h. o.keyed k n (s.kept k n h);
    held = λ n a h. o.held n a (sym (s.same_app n) ∙ h);
  }

  allocate-Own :
      (clock : Clock) (n : ℕ) (key : String) (c : GenkitCache)
      → key_of digest (query n) ≡ ok key
      → Own c
      → Own (allocate clock n key c)
  unfolding allocate
  allocate-Own clock n key c e o = Shrinks-Own _ _ (evict-Evicts _).shrinks (record {
    keyed = λ k m h. elim (Bool-cases (key == k)) [
      | inl same ↦
          let a : m ≡ n = ground (arith, lookup-insert key k n c.entries) in
          let b : key ≡ k = (eq_iff key k).0 same in ground (arith, a, b, e)
      | inr other ↦ o.keyed k m (ground (arith, lookup-insert key k n c.entries))
    ];
    held = λ m a h. o.held m a (ground arith);
  })

  find_or_allocate-Own :
      (clock : Clock) (n : ℕ) (key : String) (c : GenkitCache)
      → key_of digest (query n) ≡ ok key
      → Own c
      → Own (find_or_allocate clock n key c).0 × Fits n (find_or_allocate clock n key c).1
  unfolding find_or_allocate
  find_or_allocate-Own clock n key c e o = elim (Option-cases (lookup key c.entries)) [
    | inl absent ↦ rw (absent, find_or_allocate) (allocate-Own clock n key c e o, e)
    | inr (m, there) ↦ elim (Bool-cases (expired c clock.now (c.heap m))) [
      | inl old ↦
          rw (there, find_or_allocate)
            (rw old
              (allocate-Own clock n key _ e (Shrinks-Own _ _ (remove-Shrinks key m c there) o), e))
      | inr young ↦
          rw (there, find_or_allocate)
            (rw young (
              record { keyed = o.keyed; held = λ j a h. o.held j a (ground arith) },
              record { key = key; mine = e; other = o.keyed key m there },
            ))
    ]
  ]

  enter-Own :
      (clock : Clock) (n : ℕ) (c : GenkitCache)
      → Own c
      → Own (enter digest clock n (query n) c).0 × Fits n (enter digest clock n (query n) c).1
  unfolding enter
  enter-Own clock n c o = elim (GoResult-cases (key_of digest (query n))) [
    | inr (bad, e) ↦ rw (e, enter) (o, tt)
    | inl (key, e) ↦ elim (Bool-cases c.closed) [
      | inl shut ↦
          rw (e, enter)
            (subst (λ (p : GenkitCache × Stage). Own p.0 × Fits n p.1)
              (sym (if-on c.closed _ _ shut)) (o, tt))
      | inr free ↦
          rw (e, enter)
            (subst (λ (p : GenkitCache × Stage). Own p.0 × Fits n p.1)
              (sym (if-off c.closed _ _ free)) (find_or_allocate-Own clock n key c e o))
    ]
  ]

  fail-Own : (n : ℕ) (key : String) (e : GoError) (c : GenkitCache) → Own c → Own (fail n key e c)
  unfolding fail
  fail-Own n key e c o = record {
    keyed = λ k m h. o.keyed k m (ground (arith, lookup-erase key k c.entries));
    held = λ m a h. o.held m a (ground arith);
  }

  build-Own :
      (n : ℕ) (key : String) (failure : Option GoError) (c : GenkitCache)
      → Own c
      → Own (build n (query n) key failure c).0 × Fits n (build n (query n) key failure c).1
  unfolding build init_app
  build-Own n key failure c o = elim (GoResult-cases (plugin_of_query (query n))) [
    | inr (bad, e) ↦ rw (e, build) (fail-Own n key bad c o, tt)
    | inl (plugin, e) ↦ rw (e, build) (go plugin e failure)
  ]
    where
      go :
          (plugin : Plugin)
          → plugin_of_query (query n) ≡ ok plugin
          → (failure : Option GoError)
          → Own (init_app n key plugin failure c).0 × Fits n (init_app n key plugin failure c).1
      go plugin e (some x) = (
        fail-Own n key x _ (record { keyed = o.keyed; held = λ m a h. o.held m a (ground arith) }),
        tt,
      )
      go plugin e none = (
        record {
          keyed = o.keyed;
          held = λ m a h. elim (Bool-cases (nat_eq n m)) [
            | inl same ↦ ground (arith, nat_eq_iff n m)
            | inr other ↦ o.held m a (ground arith)
          ];
        },
        e,
      )

  record Isolated (s : System) : Type 0 where
    own : Own s.cache
    fits : (n : ℕ) → Fits n (s.stage n)

  module _ (inj : Injective digest) where
    woken-Fits :
        (n m : ℕ) (c : GenkitCache) (o : Option Instance) (f : Option GoError)
        → Own c
        → SameKey n m
        → (c.heap m).app ≡ o
        → Fits n (returned o f)
    woken-Fits n m c none f o k e = tt
    woken-Fits n m c (some a) f o k e =
        key_of-plugin_for digest inj (query n) (query m) k.key k.mine k.other ∙ o.held m a e

    Move-Own :
        (n : ℕ) (c : GenkitCache) (p : Stage) (r : GenkitCache × Stage)
        → Move digest n (query n) c p r
        → Own c
        → Fits n p
        → Own r.0 × Fits n r.1
    unfolding close_ready
    Move-Own n c p r (look_up clock e f) o k =
        subst (λ (x : GenkitCache × Stage). Own x.0 × Fits n x.1) (sym f) (enter-Own clock n c o)
    Move-Own n c p r (wake m e ready f) o k =
        subst (λ (x : GenkitCache × Stage). Own x.0 × Fits n x.1) (sym f)
          (o, woken-Fits n m c (c.heap m).app (c.heap m).failure o (subst (Fits n) e k) refl)
    Move-Own n c p r (give_up m x e f) o k =
        subst (λ (x : GenkitCache × Stage). Own x.0 × Fits n x.1) (sym f) (o, tt)
    Move-Own n c p r (construct key failure e f) o k =
        subst (λ (x : GenkitCache × Stage). Own x.0 × Fits n x.1) (sym f)
          (build-Own n key failure c o)
    Move-Own n c p r (announce none failure e f) o k =
        subst (λ (x : GenkitCache × Stage). Own x.0 × Fits n x.1) (sym f)
          (record { keyed = o.keyed; held = λ m a h. o.held m a (ground arith) }, tt)
    Move-Own n c p r (announce (some app) failure e f) o k =
        subst (λ (x : GenkitCache × Stage). Own x.0 × Fits n x.1) (sym f)
          (
            record { keyed = o.keyed; held = λ m a h. o.held m a (ground arith) },
            subst (Fits n) e k,
          )

    at_stage-Fits :
        (n : ℕ) (p : Stage) (stage : ℕ → Stage)
        → Fits n p
        → ((m : ℕ) → Fits m (stage m))
        → (m : ℕ) → Fits m (at_stage n p stage m)
    at_stage-Fits n p stage k h m = elim (Bool-cases (nat_eq n m)) [
      | inl e ↦ rw e (subst (λ (j : ℕ). Fits j p) ((nat_eq_iff n m).0 e) k)
      | inr e ↦ rw e (h m)
    ]

    Step-Isolated : (s t : System) → Step digest query s t → Isolated s → Isolated t
    Step-Isolated s t (pick n r mv e) i =
        let (o, k) = Move-Own n s.cache (s.stage n) r mv i.own (i.fits n) in
        subst Isolated (sym e) (record { own = o; fits = at_stage-Fits n r.1 s.stage k i.fits })
    Step-Isolated s t (tick clock h e) i = subst Isolated (sym e) (record {
      own = Shrinks-Own _ _ (sweep-Evicts clock s.cache.entries s.cache).shrinks i.own;
      fits = i.fits;
    })
    Step-Isolated s t (close_begin h e) i =
        subst Isolated (sym e)
          (record { own = record { keyed = i.own.keyed; held = i.own.held }; fits = i.fits })
    Step-Isolated s t (close_end h quiet e) i = subst Isolated (sym e) (record {
      own = Shrinks-Own _ _ (remove_all-Shrinks s.cache.entries s.cache) i.own;
      fits = i.fits;
    })

    Reach-Isolated : (s t : System) → Reach digest query s t → Isolated s → Isolated t
    Reach-Isolated s t here i = i
    Reach-Isolated s v (later {t} r st) i = Step-Isolated t v st (Reach-Isolated s t r i)

    -- If the digest has no collisions: whatever calls, sweeps and closing interleave, the instance
    -- that a call of `get` returns holds the plugin that pluginFor builds for that very call's
    -- model and API key.
    pub returned-plugin :
        (ttl max_size : ℤ) (s : System)
        → Reach digest query (init ttl max_size) s
        → (n : ℕ) (a : Instance) (f : Option GoError) → s.stage n ≡ returned (some a) f
        → plugin_for (query n).model_name (query n).api_key ≡ ok a.plugin
    unfolding lookup
    returned-plugin ttl max_size s r n a f e =
        let i =
          Reach-Isolated _ s r
            (record { own = record { keyed = λ k m h. cc; held = λ m b h. cc }; fits = λ m. tt }) in
        subst (Fits n) e (i.fits n)
