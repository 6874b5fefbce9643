-- ===== src/Cache/Alone/Owned.antt =====
-- What the calls of `get` obtain that come one after the other.
use genkit_proxy.Common.{
  ℕ, suc, ◌≡◌, refl, sym, subst, ◌∙◌, inl, inr, String, true, false, Bool-cases, Option,
  Option-cases, none, some, nat_eq, nat_eq_iff, arith, if-on, if-off,
}
use genkit_proxy.Common.Assoc.{lookup}
use genkit_proxy.Errors.Chain.{GoError, sentinel, cache_closed}
use genkit_proxy.Errors.Result.{ok, err, GoResult-cases}
use genkit_proxy.RateLimit.{Clock}
use genkit_proxy.Router.{Plugin, plugin_for}
use genkit_proxy.Cache.{
  GenkitCache, Instance, Query, Stage, cancelled, closing, returned, key_of, expired,
  find_or_allocate, enter, fail, init_app, build, close_ready, remove, at_entry,
}
use genkit_proxy.Cache.Alone.{await, announced, resume, get_alone}
use genkit_proxy.Cache.Removal.{remove-Shrinks}
use genkit_proxy.Cache.Keys.{Injective, key_of-plugin_for}
use genkit_proxy.Cache.Alone.Settled.{
  Holds, Settled, Pending, Holds-move, Shrinks-Settled, allocate-Pending, fail-lookup, fail-own,
  own-Pending,
}

module _ (digest : String → String) where
  -- What call n obtains.
  pub data Obtained (c : GenkitCache) (q : Query) (failure : Option GoError) (s : Stage)
      : Type 0 where
    owned :
        (a : Instance)
        → s ≡ returned (some a) none
        → plugin_for q.model_name q.api_key ≡ ok a.plugin
        → Obtained c q failure s
    unrouted :
        (e : GoError)
        → s ≡ returned none (some e)
        → key_of digest q ≡ err e
        → Obtained c q failure s
    shut :
        s ≡ returned none (some (sentinel cache_closed)) → c.closed ≡ true → Obtained c q failure s
    unplugged :
        (e : GoError)
        → s ≡ returned none (some e)
        → plugin_for q.model_name q.api_key ≡ err e
        → Obtained c q failure s
    not_built :
        (e : GoError) → s ≡ returned none (some e) → failure ≡ some e → Obtained c q failure s

  -- A state that the call leaves, with what it obtained.
  abbrev Ends : GenkitCache → ℕ → Query → Option GoError → GenkitCache × Stage → Type 0
  Ends c n q failure r = Settled digest (r.0) (suc n) × Obtained c q failure (r.1)

  announced-failed :
      (c d : GenkitCache) (n : ℕ) (q : Query) (key : String) (failure : Option GoError)
      (e : GoError)
      → Pending digest d n key
      → Obtained c q failure (returned none (some e))
      → Ends c n q failure (announced n (fail n key e d, closing none (some e)))
  unfolding announced fail close_ready
  announced-failed c d n q key failure e p o = (
    λ k m at. elim (p.others k m (fail-lookup digest n key e d k m at)) [
      | inl (same, mine) ↦ absurd (
          fail-own digest n key e d (
            subst (λ j. lookup key (fail n key e d).entries ≡ some j) mine
              (subst (λ x. lookup x (fail n key e d).entries ≡ some m) same at)))
      | inr h ↦
          let old : nat_eq n m ≡ false = ground (arith, h.older) in
          Holds-move digest d (close_ready n (fail n key e d)) n (suc n) k m (omega arith)
            (rw old refl) (rw old refl) (rw old refl) h
    ],
    o,
  )

  announced-built :
      (c d : GenkitCache) (n : ℕ) (q : Query) (key : String) (failure : Option GoError)
      (plugin : Plugin)
      → Pending digest d n key
      → key_of digest q ≡ ok key
      → plugin_for q.model_name q.api_key ≡ ok plugin
      → Ends c n q failure (announced n (init_app n key plugin none d))
  unfolding announced init_app close_ready
  announced-built c d n q key failure plugin p keyed plugged = (
    λ k m at. elim (p.others k m at) [
      | inr h ↦
          let old : nat_eq n m ≡ false = ground (arith, h.older) in
          Holds-move digest d _ n (suc n) k m (omega arith) (rw old refl) (rw old refl)
            (rw old refl) h
      | inl (same, mine) ↦
          let final = (announced n (init_app n key plugin none d)).0 in
          let yes : nat_eq n n ≡ true = (nat_eq_iff n n).1 refl in
          let held : Holds digest final (suc n) key n = record {
            older = omega arith;
            ready = rw yes refl;
            instance_ = record { plugin = plugin; context = n };
            app = rw yes refl;
            sound = rw yes p.sound;
            maker = q;
            keyed = keyed;
            plugged = plugged;
          } in
          subst (λ x. Holds digest final (suc n) x m) (sym same)
            (subst (Holds digest final (suc n) key) (sym mine) held)
    ],
    owned (record { plugin = plugin; context = n }) refl plugged,
  )

  build-Ends :
      (c d : GenkitCache) (n : ℕ) (q : Query) (key : String) (failure : Option GoError)
      → Pending digest d n key
      → key_of digest q ≡ ok key
      → Ends c n q failure (announced n (build n q key failure d))
  unfolding build init_app
  build-Ends c d n q key failure p keyed =
      elim (GoResult-cases (plugin_for q.model_name q.api_key)) [
        | inr (e, bad) ↦
            rw (bad, build) (announced-failed c d n q key failure e p (unplugged e refl bad))
        | inl (plugin, plugged) ↦ rw (plugged, build) (by_failure failure plugin plugged)
      ]
    where
      by_failure :
          (f : Option GoError) (plugin : Plugin)
          → plugin_for q.model_name q.api_key ≡ ok plugin
          → Ends c n q f (announced n (init_app n key plugin f d))
      by_failure none plugin plugged = announced-built c d n q key none plugin p keyed plugged
      by_failure (some e) plugin plugged =
          announced-failed c _ n q key (some e) e
            (own-Pending digest d n key (λ x. record x { context = cancelled }) p.sound p)
            (not_built e refl refl)

  module _ (inj : Injective digest) where
    hit-Ends :
        (c d : GenkitCache) (n : ℕ) (q : Query) (failure : Option GoError) (ended : GoError)
        (key : String) (m : ℕ)
        → Settled digest d n
        → lookup key d.entries ≡ some m
        → key_of digest q ≡ ok key
        → Ends c n q failure (d, await ended m d)
    unfolding await
    hit-Ends c d n q failure ended key m h there keyed =
        let held = h key m there in
        (
          λ k j at. Holds-move digest d d n (suc n) k j (omega arith) refl refl refl (h k j at),
          rw held.ready (
              owned held.instance_ (λ i. returned (held.app i) (held.sound i))
                (key_of-plugin_for digest inj q held.maker key keyed held.keyed ∙ held.plugged)),
        )

    found-Ends :
        (clock : Clock) (c : GenkitCache) (n : ℕ) (q : Query) (failure : Option GoError)
        (ended : GoError) (key : String)
        → Settled digest c n
        → key_of digest q ≡ ok key
        → Ends c n q failure (resume n q failure ended (find_or_allocate clock n key c))
    unfolding find_or_allocate resume
    found-Ends clock c n q failure ended key h keyed = elim (Option-cases (lookup key c.entries)) [
      | inl absent ↦
          rw (absent, find_or_allocate)
            (build-Ends c _ n q key failure (allocate-Pending digest clock n key c h) keyed)
      | inr (m, there) ↦ elim (Bool-cases (expired c clock.now (c.heap m))) [
        | inl old ↦
            let removed =
              Shrinks-Settled digest c (remove key m c) n (remove-Shrinks key m c there) h in
            rw (there, find_or_allocate)
              (rw old (
                build-Ends c _ n q key failure
                  (allocate-Pending digest clock n key (remove key m c) removed) keyed))
        | inr young ↦
            let used : GenkitCache = record c {
              heap = at_entry m (λ e. record e { last_used = clock.later }) c.heap;
            } in
            rw (there, find_or_allocate)
              (rw young (
                hit-Ends c used n q failure ended key m
                  (λ k j at.
                    Holds-move digest c used n n k j (omega arith) (ground arith) (ground arith)
                      (ground arith) (h k j at))
                  there keyed))
      ]
    ]

    -- If the digest has no collisions, a call of get that no other call overlaps never waits: it
    -- obtains an instance with the plugin that pluginFor builds for its own model and API key, or
    -- an error: the model is not routed, the cache is closed, or its own build failed. And every
    -- entry that is then in the map is built, so the same holds for the next call.
    pub get_alone-Ends :
        (clock : Clock) (c : GenkitCache) (n : ℕ) (q : Query) (failure : Option GoError)
        (ended : GoError)
        → Settled digest c n
        → let r = get_alone digest clock n q failure ended c in
          Settled digest (r.0) (suc n) × Obtained c q failure (r.1)
    unfolding get_alone enter resume
    get_alone-Ends clock c n q failure ended h =
        let kept : Settled digest c (suc n) =
          λ k m at. Holds-move digest c c n (suc n) k m (omega arith) refl refl refl (h k m at) in
        elim (GoResult-cases (key_of digest q)) [
          | inr (e, bad) ↦ rw (bad, enter) (kept, unrouted e refl bad)
          | inl (key, keyed) ↦ elim (Bool-cases c.closed) [
            | inl closed ↦
                rw (keyed, enter)
                  (subst
                    (λ (p : GenkitCache × Stage). Ends c n q failure (resume n q failure ended p))
                    (sym (if-on c.closed _ _ closed)) (kept, shut refl closed))
            | inr free ↦
                rw (keyed, enter)
                  (subst
                    (λ (p : GenkitCache × Stage). Ends c n q failure (resume n q failure ended p))
                    (sym (if-off c.closed _ _ free))
                    (found-Ends clock c n q failure ended key h keyed))
          ]
        ]
