-- ===== src/Cache/Progress.antt =====
-- A call that waits for another's build can always be woken.
use genkit_proxy.Common.{
  ℕ, ◌≡◌, refl, ap, ◌∙◌, inl, inr, String, true, false, Option, none, some, nat_eq, nat_eq_iff,
  arith, Bool-cases,
}
use genkit_proxy.Common.Int.{ℤ}
use genkit_proxy.Errors.Chain.{GoError}
use genkit_proxy.Errors.Result.{ok, GoResult-cases}
use genkit_proxy.Router.{plugin_for, Plugin}
use genkit_proxy.Cache.{
  GenkitCache, Instance, Query, Stage, fresh, waiting, building, closing, returned, init_app, build,
  close_ready,
}
use genkit_proxy.Cache.System.{System, Move, construct, announce, Reach, init, at_stage, in_flight}
use genkit_proxy.Cache.Waiters.{Reach-Served, init-Served}

module _ (digest : String → String) (query : ℕ → Query) (m : ℕ) where
  -- Steps of call m only.
  pub data Alone (s : System) : System → Type 0 where
    rest : Alone s s
    move :
        {t : System} (r : GenkitCache × Stage)
        → Alone s t
        → Move digest m (query m) t.cache (t.stage m) r
        → Alone s (record t { cache = r.0; stage = at_stage m r.1 t.stage })

  build-closing :
      (key : String) (failure : Option GoError) (c : GenkitCache)
      → (a : Option Instance) × (f : Option GoError) × ((build m (query m) key failure c).1
          ≡ closing a f)
  unfolding build init_app
  build-closing key failure c =
      elim (GoResult-cases (plugin_for (query m).model_name (query m).api_key)) [
        | inr (bad, e) ↦ (none, some bad, rw (e, build) refl)
        | inl (plugin, e) ↦ let (a, f, same) = go plugin failure in (a, f, rw (e, build) same)
      ]
    where
      go :
          (plugin : Plugin) (failure : Option GoError)
          → (a : Option Instance) × (f : Option GoError) × ((init_app m key plugin failure c).1
              ≡ closing a f)
      go plugin (some x) = (none, some x, refl)
      go plugin none = (_, none, refl)

  at_self : (p : Stage) (stage : ℕ → Stage) → at_stage m p stage m ≡ p
  at_self p stage = let e : nat_eq m m ≡ true = (nat_eq_iff m m).1 refl in rw e refl

  at_other :
      (n : ℕ) (p : Stage) (stage : ℕ → Stage) → nat_eq m n ≡ false → at_stage m p stage n ≡ stage n
  at_other n p stage e = rw e refl

  -- The entry of call m is ready, and call n still waits for it.
  abbrev pub Woken : ℕ → System → Type 0
  Woken n t = (t.stage n ≡ waiting m) × ((t.cache.heap m).ready ≡ true)

  -- The steps of call m: its build, in which initApp ends with `failure`, and the closing of its
  -- channel.
  abbrev pub constructed : String → Option GoError → System → System
  constructed key failure s =
      let r = build m (query m) key failure s.cache in
      record s { cache = r.0; stage = at_stage m r.1 s.stage }

  abbrev pub announced : Option Instance → Option GoError → System → System
  announced app error s = record s {
    cache = close_ready m s.cache;
    stage = at_stage m (returned app error) s.stage;
  }

  -- With initApp ending with `failure`, the build ends, with that error or none if there is a
  -- plugin for the call, and the call then wakes call n.
  pub record Ending (n : ℕ) (s : System) (key : String) (failure : Option GoError) : Type 0 where
    pub app : Option Instance
    pub error : Option GoError
    pub ended : (constructed key failure s).stage m ≡ closing app error
    pub reason :
        (plugin : Plugin)
        → plugin_for (query m).model_name (query m).api_key ≡ ok plugin
        → error ≡ failure
    pub steps : Alone s (announced app error (constructed key failure s))
    pub woken : Woken n (announced app error (constructed key failure s))

  -- How call n, which waits for the entry of call m, is woken.
  pub data Awakened (n : ℕ) (s : System) : Type 0 where
    ready_already : Woken n s → Awakened n s
    by_announcement :
        (app : Option Instance) (error : Option GoError)
        → s.stage m ≡ closing app error
        → Alone s (announced app error s)
        → Woken n (announced app error s)
        → Awakened n s
    by_build :
        (key : String)
        → s.stage m ≡ building key
        → ((failure : Option GoError) → Ending n s key failure)
        → Awakened n s

  build-reason :
      (key : String) (failure : Option GoError) (c : GenkitCache) (a : Option Instance)
      (f : Option GoError)
      → (build m (query m) key failure c).1 ≡ closing a f
      → (plugin : Plugin) → plugin_for (query m).model_name (query m).api_key ≡ ok plugin
      → f ≡ failure
  unfolding build init_app
  build-reason key none c a f e plugin p =
      let built : (build m (query m) key none c).1
          ≡ closing (some (record { plugin = plugin; context = m })) none =
        rw (p, build) refl in
      cc (built, e)
  build-reason key (some x) c a f e plugin p =
      let built : (build m (query m) key (some x) c).1 ≡ closing none (some x) =
        rw (p, build) refl in
      cc (built, e)

  announced-Woken :
      (n : ℕ) (t : System) (a : Option Instance) (f : Option GoError)
      → t.stage n ≡ waiting m
      → nat_eq m n ≡ false
      → Woken n (announced a f t)
  unfolding close_ready
  announced-Woken n t a f w other =
      let self : nat_eq m m ≡ true = (nat_eq_iff m m).1 refl in
      (at_other n (returned a f) t.stage other ∙ w, rw self refl)

  constructed-Ending :
      (n : ℕ) (s : System) (key : String) (failure : Option GoError)
      → s.stage m ≡ building key
      → s.stage n ≡ waiting m
      → nat_eq m n ≡ false
      → Ending n s key failure
  constructed-Ending n s key failure e w other =
      let r = build m (query m) key failure s.cache in
      let (a, f, same) = build-closing key failure s.cache in
      let closes : (constructed key failure s).stage m ≡ closing a f = at_self r.1 s.stage ∙ same in
      record {
        app = a;
        error = f;
        ended = closes;
        reason = build-reason key failure s.cache a f same;
        steps =
            move (close_ready m r.0, returned a f) (move r rest (construct key failure e refl))
              (announce a f closes refl);
        woken =
            announced-Woken n (constructed key failure s) a f (at_other n r.1 s.stage other ∙ w)
              other;
      }

  -- No waiter is stranded: in every reachable state in which a call waits for the entry of another,
  -- that entry is ready, or the other call is about to close its channel and that wakes the waiter,
  -- or it is building, and then for every way in which initApp may end, with an error or without,
  -- its next two steps are to end the build, with that error if there was a plugin to build with,
  -- and to close the channel, which wakes the waiter.
  pub waiting-Woken :
      (ttl max_size : ℤ) (s : System)
      → Reach digest query (init ttl max_size) s
      → (n : ℕ) → s.stage n ≡ waiting m
      → Awakened n s
  waiting-Woken ttl max_size s r n e =
      let i = Reach-Served digest query _ s r (init-Served digest query ttl max_size) in
      elim (i.awaited n m e) [
        | inr ready ↦ ready_already (e, ready)
        | inl busy ↦ go (s.stage m) refl busy
      ]
    where
      other : in_flight (s.stage m) ≡ true → nat_eq m n ≡ false
      other busy = elim (Bool-cases (nat_eq m n)) [
        | inr f ↦ f
        | inl f ↦
            let same : s.stage m ≡ s.stage n = ap s.stage ((nat_eq_iff m n).0 f) in
            ground (arith, same, e)
      ]

      go : (p : Stage) → s.stage m ≡ p → in_flight p ≡ true → Awakened n s
      go (building key) f busy =
          by_build key f (λ failure. constructed-Ending n s key failure f e (other (rw f refl)))
      go (closing a x) f busy =
          by_announcement a x f
            (move (close_ready m s.cache, returned a x) rest (announce a x f refl))
            (announced-Woken n s a x e (other (rw f refl)))
      go fresh f busy = cc
      go (waiting j) f busy = cc
      go (returned a x) f busy = cc
