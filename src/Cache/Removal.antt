-- ===== src/Cache/Removal.antt =====
-- What removeLocked, evictLocked, sweep and the end of Close leave of the map and of the entries.
use genkit_proxy.Common.{
  ℕ, ◌≡◌, ◌≢◌, refl, sym, ◌∙◌, ◌⊎◌, inl, inr, String, true, false, some, arith, eq_iff,
}
use genkit_proxy.Common.Assoc.{lookup, lookup-erase}
use genkit_proxy.Cache.{live, cancelled, GenkitCache, remove}

-- The map lost entries, and contexts of entries that were in it were cancelled; nothing else.
pub record Shrinks (c d : GenkitCache) : Type 0 where
  pub kept : (k : String) (n : ℕ) → lookup k d.entries ≡ some n → lookup k c.entries ≡ some n
  pub dropped :
      (k : String) (n : ℕ)
      → lookup k c.entries ≡ some n
      → (lookup k d.entries ≡ some n)
        ⊎ (((c.heap n).cancel ≡ false) ⊎ ((d.heap n).context ≡ cancelled))
  pub same_app : (n : ℕ) → (d.heap n).app ≡ (c.heap n).app
  pub same_failure : (n : ℕ) → (d.heap n).failure ≡ (c.heap n).failure
  pub same_ready : (n : ℕ) → (d.heap n).ready ≡ (c.heap n).ready
  pub same_cancel : (n : ℕ) → (d.heap n).cancel ≡ (c.heap n).cancel
  pub spared :
      (n : ℕ)
      → ((k : String) → lookup k c.entries ≢ some n)
      → (d.heap n).context ≡ (c.heap n).context
  pub alive : (n : ℕ) → (d.heap n).context ≡ live → (c.heap n).context ≡ live
  pub gone : (n : ℕ) → (c.heap n).context ≡ cancelled → (d.heap n).context ≡ cancelled
  pub same_closed : d.closed ≡ c.closed
  pub same_ttl : d.ttl ≡ c.ttl

-- Entries that are not ready stay in the map.
abbrev pub KeepsUnready : GenkitCache → GenkitCache → Type 0
KeepsUnready c d =
    (k : String) (n : ℕ)
    → lookup k c.entries ≡ some n
    → (c.heap n).ready ≡ false
    → lookup k d.entries ≡ some n

pub Shrinks-refl : (c : GenkitCache) → Shrinks c c
Shrinks-refl c = record {
  kept = λ k n h. h;
  dropped = λ k n h. inl h;
  same_app = λ n. refl;
  same_failure = λ n. refl;
  same_ready = λ n. refl;
  same_cancel = λ n. refl;
  spared = λ n h. refl;
  alive = λ n h. h;
  gone = λ n h. h;
  same_closed = refl;
  same_ttl = refl;
}

module _ (b c d : GenkitCache) where
  trans-dropped :
      Shrinks b c
      → Shrinks c d
      → (k : String) (n : ℕ) → lookup k b.entries ≡ some n
      → (lookup k d.entries ≡ some n)
        ⊎ (((b.heap n).cancel ≡ false) ⊎ ((d.heap n).context ≡ cancelled))
  trans-dropped s t k n h = elim (s.dropped k n h) [
    | inr (inl e) ↦ inr (inl e)
    | inr (inr e) ↦ inr (inr (t.gone n e))
    | inl e ↦ elim (t.dropped k n e) [
      | inl f ↦ inl f
      | inr (inl f) ↦ inr (inl (sym (s.same_cancel n) ∙ f))
      | inr (inr f) ↦ inr (inr f)
    ]
  ]

  pub Shrinks-trans : Shrinks b c → Shrinks c d → Shrinks b d
  Shrinks-trans s t = record {
    kept = λ k n h. s.kept k n (t.kept k n h);
    dropped = trans-dropped s t;
    same_app = λ n. t.same_app n ∙ s.same_app n;
    same_failure = λ n. t.same_failure n ∙ s.same_failure n;
    same_ready = λ n. t.same_ready n ∙ s.same_ready n;
    same_cancel = λ n. t.same_cancel n ∙ s.same_cancel n;
    spared = λ n h. t.spared n (λ k e. h k (s.kept k n e)) ∙ s.spared n h;
    alive = λ n h. s.alive n (t.alive n h);
    gone = λ n h. t.gone n (s.gone n h);
    same_closed = t.same_closed ∙ s.same_closed;
    same_ttl = t.same_ttl ∙ s.same_ttl;
  }

  pub KeepsUnready-trans : Shrinks b c → KeepsUnready b c → KeepsUnready c d → KeepsUnready b d
  KeepsUnready-trans s g h k n e r = h k n (g k n e r) (s.same_ready n ∙ r)

module _ (key : String) (m : ℕ) (c : GenkitCache) (there : lookup key c.entries ≡ some m) where
  pub remove-Shrinks : Shrinks c (remove key m c)
  unfolding remove
  remove-Shrinks = record {
    kept = λ k n h. ground (arith, lookup-erase key k c.entries);
    dropped = λ k n h. ground (arith, lookup-erase key k c.entries, eq_iff key k);
    same_app = λ n. ground arith;
    same_failure = λ n. ground arith;
    same_ready = λ n. ground arith;
    same_cancel = λ n. ground arith;
    spared = λ n h. let other = h key in ground arith;
    alive = λ n h. ground arith;
    gone = λ n h. ground arith;
    same_closed = refl;
    same_ttl = refl;
  }

  pub remove-KeepsUnready : (c.heap m).ready ≡ true → KeepsUnready c (remove key m c)
  unfolding remove
  remove-KeepsUnready r k n h u = ground (arith, lookup-erase key k c.entries, eq_iff key k)
