-- ===== src/Cache/Leak.antt =====
-- What becomes of an entry that left the map while it was being built.
use genkit_proxy.Common.{
  ℕ, ◌≡◌, sym, subst, inl, inr, String, Option, none, some, nat_eq, nat_eq_iff, arith, Bool-cases,
}
use genkit_proxy.Common.Assoc.{lookup-erase}
use genkit_proxy.Errors.Chain.{GoError}
use genkit_proxy.Errors.Result.{GoResult-cases}
use genkit_proxy.Router.{plugin_for, Plugin}
use genkit_proxy.Cache.{
  Context, GenkitCache, Instance, Query, Stage, closing, returned, fail, init_app, build,
  close_ready,
}
use genkit_proxy.Cache.System.{
  System, Closer, Move, look_up, wake, give_up, construct, announce, Step, pick, tick, close_begin,
  close_end, Reach, here, later, at_stage,
}
use genkit_proxy.Cache.Eviction.{sweep-Evicts, remove_all-Shrinks}
use genkit_proxy.Cache.Strays.{Unmapped, Abandoned, Stray, Ignores, Shrinks-Ignores, Move-Ignores}

module _ (n : ℕ) where
  abbrev Kept : GenkitCache × Stage → Type 0
  Kept r = Unmapped n r.0 × Abandoned r.1 (r.0.heap n).context

  fail-Unmapped :
      (key : String) (e : GoError) (c : GenkitCache) → Unmapped n c → Unmapped n (fail n key e c)
  unfolding fail
  fail-Unmapped key e c u k h = let old = u k in ground (arith, lookup-erase key k c.entries)

  build-Kept :
      (q : Query) (key : String) (failure : Option GoError) (c : GenkitCache)
      → Unmapped n c
      → Kept (build n q key failure c)
  unfolding build init_app
  build-Kept q key failure c u = elim (GoResult-cases (plugin_for q.model_name q.api_key)) [
    | inr (bad, e) ↦ rw (e, build) (fail-Unmapped key bad c u, tt)
    | inl (plugin, e) ↦ rw (e, build) (go plugin failure)
  ]
    where
      go : (plugin : Plugin) (failure : Option GoError) → Kept (init_app n key plugin failure c)
      go plugin none = (u, ground arith)
      go plugin (some x) = (fail-Unmapped key x _ u, tt)

  announce-Kept :
      (a : Option Instance) (x : Option GoError) (c : GenkitCache)
      → Unmapped n c
      → Abandoned (closing a x) (c.heap n).context
      → Kept (close_ready n c, returned a x)
  unfolding close_ready
  announce-Kept none x c u h = (u, tt)
  announce-Kept (some a) x c u h = (u, ground arith)

  Move-Kept :
      (digest : String → String) (q : Query) (c : GenkitCache) (p : Stage) (r : GenkitCache × Stage)
      → Move digest n q c p r
      → Unmapped n c
      → Abandoned p (c.heap n).context
      → Kept r
  Move-Kept digest q c p r (look_up clock e f) u h =
      absurd (subst (λ (p : Stage). Abandoned p (c.heap n).context) e h)
  Move-Kept digest q c p r (wake m e ready f) u h =
      absurd (subst (λ (p : Stage). Abandoned p (c.heap n).context) e h)
  Move-Kept digest q c p r (give_up m x e f) u h =
      absurd (subst (λ (p : Stage). Abandoned p (c.heap n).context) e h)
  Move-Kept digest q c p r (construct key failure e f) u h =
      subst Kept (sym f) (build-Kept q key failure c u)
  Move-Kept digest q c p r (announce a x e f) u h =
      subst Kept (sym f)
        (announce-Kept a x c u (subst (λ (p : Stage). Abandoned p (c.heap n).context) e h))

  Abandoned-same : (p : Stage) (x y : Context) → y ≡ x → Abandoned p x → Abandoned p y
  Abandoned-same p x y e = subst (Abandoned p) (sym e)

  Ignores-Stray :
      (s : System) (d : GenkitCache) (x : Closer)
      → Ignores n s.cache d
      → Stray n s
      → Stray n (record s { cache = d; closer = x })
  Ignores-Stray s d x i st = record {
    unmapped = i.unmapped;
    abandoned = Abandoned-same (s.stage n) _ _ i.same st.abandoned;
  }

  module _ (digest : String → String) (query : ℕ → Query) where
    pick-Stray :
        (s : System) (j : ℕ) (r : GenkitCache × Stage)
        → Move digest j (query j) s.cache (s.stage j) r
        → Stray n s
        → Stray n (record s { cache = r.0; stage = at_stage j r.1 s.stage })
    pick-Stray s j r mv st = elim (Bool-cases (nat_eq j n)) [
      | inr other ↦
          let i = Move-Ignores n j other digest (query j) s.cache (s.stage j) r mv st.unmapped in
          record {
            unmapped = i.unmapped;
            abandoned = rw other (Abandoned-same (s.stage n) _ _ i.same st.abandoned);
          }
      | inl e ↦
          let same : j ≡ n = (nat_eq_iff j n).0 e in
          let own = subst (λ (k : ℕ). Move digest k (query k) s.cache (s.stage k) r) same mv in
          let kept =
            Move-Kept digest (query n) s.cache (s.stage n) r own st.unmapped st.abandoned in
          record { unmapped = kept.0; abandoned = rw e (kept.1) }
    ]

    Step-Stray : (s t : System) → Step digest query s t → Stray n s → Stray n t
    Step-Stray s t (pick j r mv e) st = subst (Stray n) (sym e) (pick-Stray s j r mv st)
    Step-Stray s t (tick clock h e) st = subst (Stray n) (sym e) (
        Ignores-Stray s _ s.closer
          (Shrinks-Ignores n _ _ (sweep-Evicts clock s.cache.entries s.cache).shrinks st.unmapped)
          st)
    Step-Stray s t (close_begin h e) st =
        subst (Stray n) (sym e) (record { unmapped = st.unmapped; abandoned = st.abandoned })
    Step-Stray s t (close_end h quiet e) st = subst (Stray n) (sym e) (
        Ignores-Stray s _ Closer.shut
          (Shrinks-Ignores n _ _ (remove_all-Shrinks s.cache.entries s.cache) st.unmapped) st)

    -- An entry that is out of the map while its call builds it never comes back, and if the build
    -- succeeds its context stays live for good: no eviction, sweep or Close ever cancels it.
    pub Reach-Stray : (s t : System) → Reach digest query s t → Stray n s → Stray n t
    Reach-Stray s t here st = st
    Reach-Stray s v (later {t} r step) st = Step-Stray t v step (Reach-Stray s t r st)
