-- ===== src/Cache/Alone/Settled.antt =====
-- A map whose entries are all built, but for that of the call that is running.
use genkit_proxy.Common.{
  ℕ, suc, ◌<◌, ◌≡◌, refl, sym, ◌∙◌, ◌⊎◌, inl, inr, String, true, false, Bool-cases, none, some,
  ◌==◌, nat_eq, nat_eq_iff, eq_iff, arith,
}
use genkit_proxy.Common.Assoc.{lookup, insert, lookup-insert, lookup-erase}
use genkit_proxy.Errors.Chain.{GoError}
use genkit_proxy.Errors.Result.{ok}
use genkit_proxy.RateLimit.{Clock}
use genkit_proxy.Router.{plugin_for}
use genkit_proxy.Cache.{
  GenkitCache, Entry, Instance, Query, key_of, allocate, fail, at_entry, blank_entry,
}
use genkit_proxy.Cache.Removal.{Shrinks}
use genkit_proxy.Cache.Eviction.{evict-Evicts}

module _ (digest : String → String) where
  -- An entry that is built, with the plugin of a query that has its key.
  pub record Holds (c : GenkitCache) (n : ℕ) (k : String) (m : ℕ) : Type 0 where
    pub older : m < n
    pub ready : (c.heap m).ready ≡ true
    pub instance_ : Instance
    pub app : (c.heap m).app ≡ some instance_
    pub sound : (c.heap m).failure ≡ none
    pub maker : Query
    pub keyed : key_of digest maker ≡ ok k
    pub plugged : plugin_for maker.model_name maker.api_key ≡ ok instance_.plugin

  -- Every entry of the map is built, by a call before number n.
  abbrev pub Settled : GenkitCache → ℕ → Type 0
  Settled c n = (k : String) (m : ℕ) → lookup k c.entries ≡ some m → Holds c n k m

  -- Every entry is built but that of call n.
  pub record Pending (c : GenkitCache) (n : ℕ) (key : String) : Type 0 where
    pub others :
        (k : String) (m : ℕ) → lookup k c.entries ≡ some m → (k ≡ key) × (m ≡ n) ⊎ Holds c n k m
    pub sound : (c.heap n).failure ≡ none

  pub Holds-move :
      (c d : GenkitCache) (n n' : ℕ) (k : String) (m : ℕ)
      → n < suc n'
      → (d.heap m).ready ≡ (c.heap m).ready
      → (d.heap m).app ≡ (c.heap m).app
      → (d.heap m).failure ≡ (c.heap m).failure
      → Holds c n k m
      → Holds d n' k m
  Holds-move c d n n' k m le r a f h = record {
    older = omega (arith, h.older);
    ready = r ∙ h.ready;
    instance_ = h.instance_;
    app = a ∙ h.app;
    sound = f ∙ h.sound;
    maker = h.maker;
    keyed = h.keyed;
    plugged = h.plugged;
  }

  pub Shrinks-Settled : (c d : GenkitCache) (n : ℕ) → Shrinks c d → Settled c n → Settled d n
  Shrinks-Settled c d n s h k m e =
      Holds-move c d n n k m (omega arith) (s.same_ready m) (s.same_app m) (s.same_failure m)
        (h k m (s.kept k m e))

  Shrinks-Pending :
      (c d : GenkitCache) (n : ℕ) (key : String) → Shrinks c d → Pending c n key → Pending d n key
  Shrinks-Pending c d n key s p = record {
    others = λ k m e. elim (p.others k m (s.kept k m e)) [
      | inl mine ↦ inl mine
      | inr h ↦ inr (
          Holds-move c d n n k m (omega arith) (s.same_ready m) (s.same_app m) (s.same_failure m) h)
    ];
    sound = s.same_failure n ∙ p.sound;
  }

  abbrev inserted : Clock → ℕ → String → GenkitCache → GenkitCache
  inserted clock n key c = record c {
    entries = insert key n c.entries;
    heap = at_entry n (λ e. record blank_entry { last_used = clock.later }) c.heap;
  }

  inserted-Pending :
      (clock : Clock) (n : ℕ) (key : String) (c : GenkitCache)
      → Settled c n
      → Pending (inserted clock n key c) n key
  inserted-Pending clock n key c h = record {
    others = λ k m e. elim (Bool-cases (key == k)) [
      | inl same ↦
          inl (sym ((eq_iff key k).0 same), ground (arith, lookup-insert key k n c.entries))
      | inr other ↦
          let held = h k m (ground (arith, lookup-insert key k n c.entries)) in
          let old : nat_eq n m ≡ false = ground (arith, held.older) in
          inr (
            Holds-move c (inserted clock n key c) n n k m (omega arith) (rw old refl) (rw old refl)
              (rw old refl) held)
    ];
    sound = ground (arith, nat_eq_iff n n);
  }

  pub allocate-Pending :
      (clock : Clock) (n : ℕ) (key : String) (c : GenkitCache)
      → Settled c n
      → Pending (allocate clock n key c) n key
  unfolding allocate
  allocate-Pending clock n key c h =
      Shrinks-Pending _ _ n key (evict-Evicts (inserted clock n key c)).shrinks
        (inserted-Pending clock n key c h)

  pub fail-lookup :
      (n : ℕ) (key : String) (e : GoError) (d : GenkitCache) (k : String) (m : ℕ)
      → lookup k (fail n key e d).entries ≡ some m
      → lookup k d.entries ≡ some m
  unfolding fail
  fail-lookup n key e d k m at = ground (arith, lookup-erase key k d.entries)

  pub fail-own :
      (n : ℕ) (key : String) (e : GoError) (d : GenkitCache)
      → lookup key (fail n key e d).entries ≡ some n
      → ⊥
  unfolding fail
  fail-own n key e d at = ground (arith, lookup-erase key key d.entries, eq_iff key key)

  -- A change of the call's own entry that keeps it without an error.
  pub own-Pending :
      (c : GenkitCache) (n : ℕ) (key : String) (f : Entry → Entry)
      → (f (c.heap n)).failure ≡ none
      → Pending c n key
      → Pending (record c { heap = at_entry n f c.heap }) n key
  own-Pending c n key f s p = record {
    others = λ k m e. elim (p.others k m e) [
      | inl mine ↦ inl mine
      | inr h ↦
          let old : nat_eq n m ≡ false = ground (arith, h.older) in
          inr (
            Holds-move c (record c { heap = at_entry n f c.heap }) n n k m (omega arith)
              (rw old refl) (rw old refl) (rw old refl) h)
    ];
    sound = let same : nat_eq n n ≡ true = (nat_eq_iff n n).1 refl in rw same s;
  }
