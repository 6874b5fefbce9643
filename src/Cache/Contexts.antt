-- ===== src/Cache/Contexts.antt =====
-- Which contexts are live, in a cache whose entries do not expire.
use genkit_proxy.Common.{
  ℕ, ◌≡◌, ◌≢◌, refl, sym, ap, subst, ◌∙◌, inl, inr, String, true, false, Option, none, some, nat_eq,
  nat_eq_iff, arith, Bool-cases, Option-cases, eq_iff, if-on, if-off,
}
use genkit_proxy.Common.Int.{pos, ltb_ℤ}
use genkit_proxy.Common.Assoc.{lookup, insert, lookup-insert, lookup-erase}
use genkit_proxy.Errors.Chain.{GoError}
use genkit_proxy.Errors.Result.{GoResult-cases}
use genkit_proxy.Router.{plugin_for, Plugin}
use genkit_proxy.RateLimit.{Clock}
use genkit_proxy.Cache.{
  live, GenkitCache, Instance, Query, Stage, building, closing, returned, key_of, expired, allocate,
  find_or_allocate, enter, fail, init_app, build, close_ready, blank_entry, at_entry,
}
use genkit_proxy.Cache.System.{Move, look_up, wake, give_up, construct, announce}
use genkit_proxy.Cache.Removal.{Shrinks}
use genkit_proxy.Cache.Eviction.{Evicts, evict-Evicts}

-- The entry of a live context can be cancelled and is in the map.
pub record Reachable (c : GenkitCache) (m : ℕ) : Type 0 where
  pub cancel : (c.heap m).cancel ≡ true
  pub key : String
  pub there : lookup key c.entries ≡ some m

abbrev pub Owned : GenkitCache → Type 0
Owned c = (m : ℕ) → (c.heap m).context ≡ live → Reachable c m

abbrev pub Timeless : GenkitCache → Type 0
Timeless c = ltb_ℤ (pos 0) c.ttl ≡ false

-- The entry that is being built is in the map, under its key.
abbrev pub InMap : ℕ → String → GenkitCache → Type 0
InMap n k c = (lookup k c.entries ≡ some n) × ((c.heap n).cancel ≡ false)

-- What a step of call n does to the map, the contexts and the entry that it builds.
pub record Tends (n : ℕ) (c : GenkitCache) (r : GenkitCache × Stage) : Type 0 where
  pub same_ttl : r.0.ttl ≡ c.ttl
  pub same_closed : r.0.closed ≡ c.closed
  pub owned : Owned r.0
  pub others :
      (m : ℕ) (k : String)
      → nat_eq n m ≡ false
      → (c.heap m).ready ≡ false
      → InMap m k c
      → InMap m k r.0
  pub own : (k : String) → r.1 ≡ building k → InMap n k r.0

pub Shrinks-Owned : (c d : GenkitCache) → Shrinks c d → Owned c → Owned d
Shrinks-Owned c d s o m h =
    let r = o m (s.alive m h) in
    record {
      cancel = s.same_cancel m ∙ r.cancel;
      key = r.key;
      there = elim (s.dropped r.key m r.there) [
        | inl e ↦ e
        | inr (inl e) ↦ let c = r.cancel in ground arith
        | inr (inr e) ↦ ground arith
      ];
    }

pub Evicts-InMap :
    (c d : GenkitCache) (m : ℕ) (k : String)
    → Evicts c d
    → (c.heap m).ready ≡ false
    → InMap m k c
    → InMap m k d
Evicts-InMap c d m k e r i = (e.keeps k m i.0 r, e.shrinks.same_cancel m ∙ i.1)

module _ (n : ℕ) (c : GenkitCache) (o : Owned c) where
  still-Tends : (q : Stage) → ((k : String) → q ≢ building k) → Tends n c (c, q)
  still-Tends q w = record {
    same_ttl = refl;
    same_closed = refl;
    owned = o;
    others = λ m k e r i. i;
    own = λ k e. absurd (w k e);
  }

  allocate-Tends :
      (clock : Clock) (key : String)
      → lookup key c.entries ≡ none
      → Tends n c (allocate clock n key c, building key)
  unfolding allocate
  allocate-Tends clock key absent =
      let d : GenkitCache = record c {
        entries = insert key n c.entries;
        heap = at_entry n (λ e. record blank_entry { last_used = clock.later }) c.heap;
      } in
      let s = evict-Evicts d in
      let self : nat_eq n n ≡ true = (nat_eq_iff n n).1 refl in
      record {
        same_ttl = s.shrinks.same_ttl;
        same_closed = s.shrinks.same_closed;
        owned = Shrinks-Owned d _ s.shrinks (λ m h. elim (Bool-cases (nat_eq n m)) [
          | inl e ↦ absurd (ground arith)
          | inr e ↦
              let r = o m (ground arith) in
              let a = r.cancel in
              let b = r.there in
              record {
                cancel = ground arith;
                key = r.key;
                there = ground (arith, lookup-insert key r.key n c.entries, eq_iff key r.key);
              }
        ]);
        others = λ m k e r i.
            Evicts-InMap d _ m k s (ground arith)
              (ground (arith, lookup-insert key k n c.entries, eq_iff key k), ground arith);
        own = λ k e.
            let same : key ≡ k = ground arith in
            Evicts-InMap d _ n k s (ground arith)
              (ground (arith, lookup-insert key k n c.entries, eq_iff key k), ground arith);
      }

  find_or_allocate-Tends :
      (clock : Clock) (key : String) → Timeless c → Tends n c (find_or_allocate clock n key c)
  unfolding find_or_allocate expired
  find_or_allocate-Tends clock key t = elim (Option-cases (lookup key c.entries)) [
    | inl absent ↦ rw (absent, find_or_allocate) (allocate-Tends clock key absent)
    | inr (m, there) ↦
        let young : expired c clock.now (c.heap m) ≡ false = ground arith in
        rw (there, find_or_allocate)
          (rw young (record {
            same_ttl = refl;
            same_closed = refl;
            owned = λ j h.
                let r = o j (ground arith) in
                let a = r.cancel in record { cancel = ground arith; key = r.key; there = r.there };
            others = λ j k e r i. (i.0, ground arith);
            own = λ k e. cc;
          }))
  ]

  enter-Tends :
      (digest : String → String) (clock : Clock) (q : Query)
      → Timeless c
      → Tends n c (enter digest clock n q c)
  unfolding enter
  enter-Tends digest clock q t = elim (GoResult-cases (key_of digest q)) [
    | inr (bad, e) ↦ rw (e, enter) (still-Tends _ (λ k h. cc))
    | inl (key, e) ↦ elim (Bool-cases c.closed) [
      | inl shut ↦
          rw (e, enter)
            (subst (Tends n c) (sym (if-on c.closed _ _ shut)) (still-Tends _ (λ k h. cc)))
      | inr free ↦
          rw (e, enter)
            (subst (Tends n c) (sym (if-off c.closed _ _ free))
              (find_or_allocate-Tends clock key t))
    ]
  ]

  -- `fail` after steps that changed at most the context of entry n.
  fail-Tends :
      (key : String) (e : GoError) (d : GenkitCache)
      → d.entries ≡ c.entries
      → d.ttl ≡ c.ttl
      → d.closed ≡ c.closed
      → ((m : ℕ) → (d.heap m).cancel ≡ (c.heap m).cancel)
      → ((m : ℕ) → (d.heap m).context ≡ live → (c.heap m).context ≡ live)
      → InMap n key c
      → Tends n c (fail n key e d, closing none (some e))
  unfolding fail
  fail-Tends key e d same ttl closed cancels alive i = record {
    same_ttl = ttl;
    same_closed = closed;
    owned = λ m h.
        let r = o m (alive m (ground arith)) in
        let a = r.cancel in
        let b = r.there in
        let x = cancels m in
        record {
          cancel = ground arith;
          key = r.key;
          there = ground (
            arith,
            lookup-erase key r.key d.entries,
            eq_iff key r.key,
            nat_eq_iff m n,
            nat_eq_iff n m,
          );
        };
    others = λ m k f r j.
        let x = cancels m in
        (ground (arith, lookup-erase key k d.entries, eq_iff key k), ground arith);
    own = λ k f. cc;
  }

  build-Tends :
      (q : Query) (key : String) (failure : Option GoError)
      → InMap n key c
      → Tends n c (build n q key failure c)
  unfolding build init_app
  build-Tends q key failure i = elim (GoResult-cases (plugin_for q.model_name q.api_key)) [
    | inr (bad, e) ↦ rw (e, build) (fail-Tends key bad c refl refl refl (λ m. refl) (λ m h. h) i)
    | inl (plugin, e) ↦ rw (e, build) (go plugin failure)
  ]
    where
      go :
          (plugin : Plugin) (failure : Option GoError) → Tends n c (init_app n key plugin failure c)
      go plugin (some x) =
          fail-Tends key x _ refl refl refl (λ m. ground arith) (λ m h. ground arith) i
      go plugin none = record {
        same_ttl = refl;
        same_closed = refl;
        owned = λ m h. elim (Bool-cases (nat_eq n m)) [
          | inl e ↦
              let same : n ≡ m = (nat_eq_iff n m).0 e in
              record { cancel = ground arith; key = key; there = i.0 ∙ ap some same }
          | inr e ↦
              let r = o m (ground arith) in
              let a = r.cancel in record { cancel = ground arith; key = r.key; there = r.there }
        ];
        others = λ m k f r j. (j.0, ground arith);
        own = λ k f. cc;
      }

  announce-Tends :
      (a : Option Instance) (x : Option GoError) → Tends n c (close_ready n c, returned a x)
  unfolding close_ready
  announce-Tends a x = record {
    same_ttl = refl;
    same_closed = refl;
    owned = λ m h.
        let r = o m (ground arith) in
        let b = r.cancel in record { cancel = ground arith; key = r.key; there = r.there };
    others = λ m k f r j. (j.0, ground arith);
    own = λ k f. cc;
  }

  pub Move-Tends :
      (digest : String → String) (q : Query) (p : Stage) (r : GenkitCache × Stage)
      → Move digest n q c p r
      → Timeless c
      → ((k : String) → p ≡ building k → InMap n k c)
      → Tends n c r
  Move-Tends digest q p r (look_up clock e f) t i =
      subst (Tends n c) (sym f) (enter-Tends digest clock q t)
  Move-Tends digest q p r (wake m e ready f) t i =
      subst (Tends n c) (sym f) (still-Tends _ (λ k h. cc))
  Move-Tends digest q p r (give_up m x e f) t i =
      subst (Tends n c) (sym f) (still-Tends _ (λ k h. cc))
  Move-Tends digest q p r (construct key failure e f) t i =
      subst (Tends n c) (sym f) (build-Tends q key failure (i key e))
  Move-Tends digest q p r (announce a x e f) t i = subst (Tends n c) (sym f) (announce-Tends a x)
