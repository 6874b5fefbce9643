-- ===== src/Cache/Advance.antt =====
-- What one step of a call does to the entries, to the map and to the stage of the call.
use genkit_proxy.Common.{
  ℕ, ◌≡◌, ◌≢◌, refl, sym, subst, ◌∙◌, ◌⊎◌, inl, inr, String, Bool, true, false, Option, none, some,
  nat_eq, arith, Bool-cases, Option-cases, if-on, if-off,
}
use genkit_proxy.Common.Assoc.{lookup, insert, lookup-insert, lookup-erase}
use genkit_proxy.Errors.Chain.{GoError}
use genkit_proxy.Errors.Result.{GoResult-cases}
use genkit_proxy.Router.{Plugin, plugin_for}
use genkit_proxy.RateLimit.{Clock}
use genkit_proxy.Cache.{
  Entry, GenkitCache, Instance, Query, Stage, fresh, waiting, building, closing, returned, key_of,
  expired, allocate, find_or_allocate, enter, fail, init_app, build, close_ready, blank_entry,
  at_entry,
}
use genkit_proxy.Cache.System.{Move, look_up, wake, give_up, construct, announce, in_flight}
use genkit_proxy.Cache.Removal.{Shrinks, Shrinks-refl, remove-Shrinks}
use genkit_proxy.Cache.Eviction.{evict-Evicts}

-- A Go result with exactly one of its two values.
abbrev pub sane : Option Instance → Option GoError → Bool
sane (some a) none = true
sane none (some e) = true
sane _ _ = false

-- The entry of a call, by the stage that the call is in.
abbrev pub Status : Stage → Entry → Type 0
Status fresh e = e.ready ≡ false
Status (waiting m) e = Unit
Status (building k) e = (e.ready ≡ false) × (e.app ≡ none) × (e.failure ≡ none)
Status (closing a f) e = (e.ready ≡ false) × (e.app ≡ a) × (e.failure ≡ f) × (sane a f ≡ true)
Status (returned a f) e = sane a f ≡ true

abbrev pub Sound : Entry → Type 0
Sound e = e.ready ≡ true → sane e.app e.failure ≡ true

-- Someone is building the entry, or it is ready.
abbrev pub Backed : Stage → Entry → Type 0
Backed p e = (in_flight p ≡ true) ⊎ (e.ready ≡ true)

pub record SameAt (m : ℕ) (c d : GenkitCache) : Type 0 where
  pub app : (d.heap m).app ≡ (c.heap m).app
  pub failure : (d.heap m).failure ≡ (c.heap m).failure
  pub ready : (d.heap m).ready ≡ (c.heap m).ready

-- What a step of call n does to the entries, the map and its own stage.
pub record Advance (n : ℕ) (c : GenkitCache) (p : Stage) (r : GenkitCache × Stage) : Type 0 where
  pub others : (m : ℕ) → nat_eq n m ≡ false → SameAt m c r.0
  pub status : Status r.1 (r.0.heap n)
  pub sound : Sound (r.0.heap n)
  pub backed : Backed p (c.heap n) → Backed r.1 (r.0.heap n)
  pub mapped :
      (k : String) (m : ℕ)
      → lookup k r.0.entries ≡ some m
      → (lookup k c.entries ≡ some m) ⊎ ((m ≡ n) × (in_flight r.1 ≡ true))
  pub joined : (m : ℕ) → r.1 ≡ waiting m → (k : String) × (lookup k c.entries ≡ some m)

pub Shrinks-SameAt : (m : ℕ) (c d : GenkitCache) → Shrinks c d → SameAt m c d
Shrinks-SameAt m c d s = record {
  app = s.same_app m;
  failure = s.same_failure m;
  ready = s.same_ready m;
}

module _ (n : ℕ) (c : GenkitCache) where
  -- A step that leaves the cache alone.
  still :
      (p q : Stage)
      → Status q (c.heap n)
      → Sound (c.heap n)
      → (Backed p (c.heap n) → Backed q (c.heap n))
      → ((m : ℕ) → q ≢ waiting m)
      → Advance n c p (c, q)
  still p q st so b w = record {
    others = λ m h. record { app = refl; failure = refl; ready = refl };
    status = st;
    sound = so;
    backed = b;
    mapped = λ k m h. inl h;
    joined = λ m h. absurd (w m h);
  }

  allocate-Advance :
      (clock : Clock) (key : String) (d : GenkitCache)
      → Shrinks c d
      → Advance n c fresh (allocate clock n key d, building key)
  unfolding allocate
  allocate-Advance clock key d s =
      let inserted : GenkitCache = record d {
        entries = insert key n d.entries;
        heap = at_entry n (λ e. record blank_entry { last_used = clock.later }) d.heap;
      } in
      let t = (evict-Evicts inserted).shrinks in
      record {
        others = λ m h. record {
          app = t.same_app m ∙ ground (arith, s.same_app m);
          failure = t.same_failure m ∙ ground (arith, s.same_failure m);
          ready = t.same_ready m ∙ ground (arith, s.same_ready m);
        };
        status = (
          t.same_ready n ∙ ground arith,
          t.same_app n ∙ ground arith,
          t.same_failure n ∙ ground arith,
        );
        sound = λ r. let a = t.same_ready n in absurd (ground arith);
        backed = λ b. inl refl;
        mapped = λ k m h.
            let a = t.kept k m h in
            let b = s.kept k m in ground (arith, lookup-insert key k n d.entries);
        joined = λ m h. cc;
      }

  find_or_allocate-Advance :
      (clock : Clock) (key : String)
      → Sound (c.heap n)
      → Status fresh (c.heap n)
      → Advance n c fresh (find_or_allocate clock n key c)
  unfolding find_or_allocate
  find_or_allocate-Advance clock key so st = elim (Option-cases (lookup key c.entries)) [
    | inl absent ↦ rw (absent, find_or_allocate) (allocate-Advance clock key c (Shrinks-refl c))
    | inr (m, there) ↦ elim (Bool-cases (expired c clock.now (c.heap m))) [
      | inl old ↦
          rw (there, find_or_allocate)
            (rw old (allocate-Advance clock key _ (remove-Shrinks key m c there)))
      | inr young ↦
          rw (there, find_or_allocate)
            (rw young (record {
              others = λ j h. record {
                app = ground arith;
                failure = ground arith;
                ready = ground arith;
              };
              status = tt;
              sound = λ r. ground (arith, so);
              backed = λ b. ground arith;
              mapped = λ k j h. inl h;
              joined = λ j h. (key, ground arith);
            }))
    ]
  ]

  enter-Advance :
      (digest : String → String) (clock : Clock) (q : Query)
      → Sound (c.heap n)
      → Status fresh (c.heap n)
      → Advance n c fresh (enter digest clock n q c)
  unfolding enter
  enter-Advance digest clock q so st = elim (GoResult-cases (key_of digest q)) [
    | inr (bad, e) ↦ rw (e, enter) (still fresh _ refl so (λ b. ground arith) (λ m h. cc))
    | inl (key, e) ↦ elim (Bool-cases c.closed) [
      | inl shut ↦
          rw (e, enter)
            (subst (Advance n c fresh) (sym (if-on c.closed _ _ shut))
              (still fresh _ refl so (λ b. ground arith) (λ m h. cc)))
      | inr free ↦
          rw (e, enter)
            (subst (Advance n c fresh) (sym (if-off c.closed _ _ free))
              (find_or_allocate-Advance clock key so st))
    ]
  ]

  -- A step from building to closing.
  built-Advance :
      (key : String) (d : GenkitCache) (a : Option Instance) (f : Option GoError)
      → ((m : ℕ) → nat_eq n m ≡ false → SameAt m c d)
      → ((k : String) (m : ℕ) → lookup k d.entries ≡ some m → lookup k c.entries ≡ some m)
      → Status (closing a f) (d.heap n)
      → Advance n c (building key) (d, closing a f)
  built-Advance key d a f o m st = record {
    others = o;
    status = st;
    sound = λ r. ground arith;
    backed = λ b. inl refl;
    mapped = λ k j h. inl (m k j h);
    joined = λ j h. cc;
  }

  fail-Advance :
      (key k : String) (e : GoError) (d : GenkitCache)
      → d.entries ≡ c.entries
      → ((m : ℕ) → SameAt m c d)
      → Status (building key) (c.heap n)
      → Advance n c (building key) (fail n key e d, closing none (some e))
  unfolding fail
  fail-Advance key k e d same o st =
      let own = o n in
      built-Advance key _ none (some e)
        (λ m h.
          let s = o m in
          record { app = ground arith; failure = ground arith; ready = ground arith })
        (λ j m h. ground (arith, lookup-erase key j d.entries)) (ground arith)

  build-Advance :
      (q : Query) (key : String) (failure : Option GoError)
      → Status (building key) (c.heap n)
      → Advance n c (building key) (build n q key failure c)
  unfolding build init_app
  build-Advance q key failure st = elim (GoResult-cases (plugin_for q.model_name q.api_key)) [
    | inr (bad, e) ↦
        rw (e, build)
          (fail-Advance key key bad c refl
            (λ m. record { app = refl; failure = refl; ready = refl }) st)
    | inl (plugin, e) ↦ rw (e, build) (go plugin failure)
  ]
    where
      go :
          (plugin : Plugin) (failure : Option GoError)
          → Advance n c (building key) (init_app n key plugin failure c)
      go plugin (some x) =
          fail-Advance key key x _ refl
            (λ m. record { app = ground arith; failure = ground arith; ready = ground arith }) st
      go plugin none =
          built-Advance key _ _ none
            (λ m h. record { app = ground arith; failure = ground arith; ready = ground arith })
            (λ j m h. h) (ground arith)

  announce-Advance :
      (a : Option Instance) (f : Option GoError)
      → Status (closing a f) (c.heap n)
      → Advance n c (closing a f) (close_ready n c, returned a f)
  unfolding close_ready
  announce-Advance a f st = record {
    others = λ m h. record { app = ground arith; failure = ground arith; ready = ground arith };
    status = st.3;
    sound = λ r. ground arith;
    backed = λ b. inr (ground arith);
    mapped = λ k m h. inl h;
    joined = λ m h. cc;
  }

  pub Move-Advance :
      (digest : String → String) (q : Query) (p : Stage) (r : GenkitCache × Stage)
      → Move digest n q c p r
      → ((m : ℕ) → Sound (c.heap m))
      → Status p (c.heap n)
      → Advance n c p r
  Move-Advance digest q p r (look_up clock e f) so st =
      subst (λ (p : Stage). Status p (c.heap n) → Advance n c p r) (sym e)
        (λ (st' : Status fresh (c.heap n)).
          subst (Advance n c fresh) (sym f) (enter-Advance digest clock q (so n) st'))
        st
  Move-Advance digest q p r (wake m e ready f) so st =
      subst (Advance n c p) (sym f) (still p _ (so m ready) (so n) (λ b. ground arith) (λ j h. cc))
  Move-Advance digest q p r (give_up m x e f) so st =
      subst (Advance n c p) (sym f) (still p _ refl (so n) (λ b. ground arith) (λ j h. cc))
  Move-Advance digest q p r (construct key failure e f) so st =
      subst (λ (p : Stage). Status p (c.heap n) → Advance n c p r) (sym e)
        (λ (st' : Status (building key) (c.heap n)).
          subst (Advance n c (building key)) (sym f) (build-Advance q key failure st'))
        st
  Move-Advance digest q p r (announce a x e f) so st =
      subst (λ (p : Stage). Status p (c.heap n) → Advance n c p r) (sym e)
        (λ (st' : Status (closing a x) (c.heap n)).
          subst (Advance n c (closing a x)) (sym f) (announce-Advance a x st'))
        st
