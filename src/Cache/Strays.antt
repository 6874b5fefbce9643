-- ===== src/Cache/Strays.antt =====
-- Entries that left the map while they were being built.
use genkit_proxy.Common.{
  ℕ, ◌≡◌, ◌≢◌, refl, sym, subst, ◌∙◌, inl, inr, String, false, Option, none, some, nat_eq,
  nat_eq_iff, arith, Bool-cases, Option-cases, if-on, if-off,
}
use genkit_proxy.Common.Assoc.{lookup, insert, lookup-insert, lookup-erase}
use genkit_proxy.Errors.Chain.{GoError}
use genkit_proxy.Errors.Result.{GoResult-cases}
use genkit_proxy.Router.{plugin_for, Plugin}
use genkit_proxy.RateLimit.{Clock}
use genkit_proxy.Cache.{
  Context, live, GenkitCache, Query, Stage, fresh, waiting, building, closing, returned, key_of,
  expired, allocate, find_or_allocate, enter, fail, init_app, build, close_ready, blank_entry,
  at_entry,
}
use genkit_proxy.Cache.System.{System, Move, look_up, wake, give_up, construct, announce}
use genkit_proxy.Cache.Removal.{Shrinks, remove-Shrinks}
use genkit_proxy.Cache.Eviction.{evict-Evicts}

abbrev pub Unmapped : ℕ → GenkitCache → Type 0
Unmapped n c = (k : String) → lookup k c.entries ≢ some n

-- The call is past the allocation of its entry, and if its build succeeded the context is live.
abbrev pub Abandoned : Stage → Context → Type 0
Abandoned fresh x = ⊥
Abandoned (waiting m) x = ⊥
Abandoned (building k) x = Unit
Abandoned (closing none f) x = Unit
Abandoned (closing (some a) f) x = x ≡ live
Abandoned (returned none f) x = Unit
Abandoned (returned (some a) f) x = x ≡ live

pub record Stray (n : ℕ) (s : System) : Type 0 where
  pub unmapped : Unmapped n s.cache
  pub abandoned : Abandoned (s.stage n) (s.cache.heap n).context

-- What leaves a stray entry as it is.
pub record Ignores (n : ℕ) (c d : GenkitCache) : Type 0 where
  pub unmapped : Unmapped n d
  pub same : (d.heap n).context ≡ (c.heap n).context

pub Shrinks-Ignores : (n : ℕ) (c d : GenkitCache) → Shrinks c d → Unmapped n c → Ignores n c d
Shrinks-Ignores n c d s u = record { unmapped = λ k h. u k (s.kept k n h); same = s.spared n u }

Ignores-trans : (n : ℕ) (b c d : GenkitCache) → Ignores n b c → Ignores n c d → Ignores n b d
Ignores-trans n b c d x y = record { unmapped = y.unmapped; same = y.same ∙ x.same }

Ignores-refl : (n : ℕ) (c : GenkitCache) → Unmapped n c → Ignores n c c
Ignores-refl n c u = record { unmapped = u; same = refl }

-- Steps of another call j.
module _ (n j : ℕ) (other : nat_eq j n ≡ false) where
  allocate-Ignores :
      (clock : Clock) (key : String) (c : GenkitCache)
      → Unmapped n c
      → Ignores n c (allocate clock j key c)
  unfolding allocate
  allocate-Ignores clock key c u =
      let inserted : GenkitCache = record c {
        entries = insert key j c.entries;
        heap = at_entry j (λ e. record blank_entry { last_used = clock.later }) c.heap;
      } in
      let i : Ignores n c inserted = record {
        unmapped =
            λ k h. let old = u k in ground (arith, lookup-insert key k j c.entries, nat_eq_iff j n);
        same = ground arith;
      } in
      Ignores-trans n c inserted _ i
        (Shrinks-Ignores n inserted _ (evict-Evicts inserted).shrinks i.unmapped)

  find_or_allocate-Ignores :
      (clock : Clock) (key : String) (c : GenkitCache)
      → Unmapped n c
      → Ignores n c (find_or_allocate clock j key c).0
  unfolding find_or_allocate
  find_or_allocate-Ignores clock key c u = elim (Option-cases (lookup key c.entries)) [
    | inl absent ↦ rw (absent, find_or_allocate) (allocate-Ignores clock key c u)
    | inr (m, there) ↦ elim (Bool-cases (expired c clock.now (c.heap m))) [
      | inl old ↦
          let i = Shrinks-Ignores n c _ (remove-Shrinks key m c there) u in
          rw (there, find_or_allocate)
            (rw old (Ignores-trans n c _ _ i (allocate-Ignores clock key _ i.unmapped)))
      | inr young ↦
          rw (there, find_or_allocate) (rw young (record { unmapped = u; same = ground arith }))
    ]
  ]

  enter-Ignores :
      (digest : String → String) (clock : Clock) (q : Query) (c : GenkitCache)
      → Unmapped n c
      → Ignores n c (enter digest clock j q c).0
  unfolding enter
  enter-Ignores digest clock q c u = elim (GoResult-cases (key_of digest q)) [
    | inr (bad, e) ↦ rw (e, enter) (Ignores-refl n c u)
    | inl (key, e) ↦ elim (Bool-cases c.closed) [
      | inl shut ↦
          rw (e, enter)
            (subst (λ (r : GenkitCache × Stage). Ignores n c r.0) (sym (if-on c.closed _ _ shut))
              (Ignores-refl n c u))
      | inr free ↦
          rw (e, enter)
            (subst (λ (r : GenkitCache × Stage). Ignores n c r.0) (sym (if-off c.closed _ _ free))
              (find_or_allocate-Ignores clock key c u))
    ]
  ]

  fail-Ignores :
      (key : String) (e : GoError) (c : GenkitCache) → Unmapped n c → Ignores n c (fail j key e c)
  unfolding fail
  fail-Ignores key e c u = record {
    unmapped = λ k h. let old = u k in ground (arith, lookup-erase key k c.entries);
    same = ground arith;
  }

  build-Ignores :
      (q : Query) (key : String) (failure : Option GoError) (c : GenkitCache)
      → Unmapped n c
      → Ignores n c (build j q key failure c).0
  unfolding build init_app
  build-Ignores q key failure c u = elim (GoResult-cases (plugin_for q.model_name q.api_key)) [
    | inr (bad, e) ↦ rw (e, build) (fail-Ignores key bad c u)
    | inl (plugin, e) ↦ rw (e, build) (go plugin failure)
  ]
    where
      go :
          (plugin : Plugin) (failure : Option GoError)
          → Ignores n c (init_app j key plugin failure c).0
      go plugin none = record { unmapped = u; same = ground arith }
      go plugin (some x) =
          Ignores-trans n c _ _ (record { unmapped = u; same = ground arith })
            (fail-Ignores key x _ u)

  pub Move-Ignores :
      (digest : String → String) (q : Query) (c : GenkitCache) (p : Stage) (r : GenkitCache × Stage)
      → Move digest j q c p r
      → Unmapped n c
      → Ignores n c r.0
  unfolding close_ready
  Move-Ignores digest q c p r (look_up clock e f) u =
      subst (λ (x : GenkitCache × Stage). Ignores n c x.0) (sym f)
        (enter-Ignores digest clock q c u)
  Move-Ignores digest q c p r (wake m e ready f) u =
      subst (λ (x : GenkitCache × Stage). Ignores n c x.0) (sym f) (Ignores-refl n c u)
  Move-Ignores digest q c p r (give_up m x e f) u =
      subst (λ (x : GenkitCache × Stage). Ignores n c x.0) (sym f) (Ignores-refl n c u)
  Move-Ignores digest q c p r (construct key failure e f) u =
      subst (λ (x : GenkitCache × Stage). Ignores n c x.0) (sym f) (build-Ignores q key failure c u)
  Move-Ignores digest q c p r (announce a x e f) u =
      subst (λ (x : GenkitCache × Stage). Ignores n c x.0) (sym f)
        (record { unmapped = u; same = ground arith })
