-- ===== src/Cache/Eviction.antt =====
-- The victim of evictLocked, and evictLocked, sweep and the end of Close as removals.
use genkit_proxy.Common.{
  ℕ, ◌≡◌, inl, inr, String, true, Option, none, some, List, [], ◌∷◌, arith, Bool-cases,
  Option-cases, length, leb, ltb, not, ◌||◌, ◌&&◌,
}
use genkit_proxy.Common.Int.{pos, pos_part, ltb_ℤ}
use genkit_proxy.Common.Assoc.{lookup}
use genkit_proxy.Cache.{
  GenkitCache, remove, expired, consider, find_victim, evict, sweep_key, sweep, remove_key,
  remove_all,
}
use genkit_proxy.Cache.Removal.{
  Shrinks, KeepsUnready, Shrinks-refl, Shrinks-trans, KeepsUnready-trans, remove-Shrinks,
  remove-KeepsUnready,
}

-- A candidate: in the map and ready.
pub record Candidate (c : GenkitCache) (v : String × ℕ) : Type 0 where
  pub there : lookup v.0 c.entries ≡ some v.1
  pub built : (c.heap v.1).ready ≡ true

abbrev pub Chosen : GenkitCache → Option (String × ℕ) → Type 0
Chosen c none = Unit
Chosen c (some v) = Candidate c v

consider-Chosen :
    (c : GenkitCache) (key : String) (n : ℕ) (best : Option (String × ℕ))
    → lookup key c.entries ≡ some n
    → Chosen c best
    → Chosen c (consider c key n best)
unfolding consider
consider-Chosen c key n none e h = elim (Bool-cases (c.heap n).ready) [
  | inl r ↦ rw (r, consider) (record { there = e; built = r })
  | inr r ↦ rw (r, consider) tt
]
consider-Chosen c key n (some v) e h =
    elim (Bool-cases ((c.heap n).ready && ltb (c.heap n).last_used (c.heap v.1).last_used)) [
      | inl r ↦ rw r (record { there = e; built = ground arith })
      | inr r ↦ rw r h
    ]

step-Chosen :
    (c : GenkitCache) (key : String) (best : Option (String × ℕ))
    → Chosen c best
    → Chosen c (elim (lookup key c.entries) [ none ↦ best | some n ↦ consider c key n best ])
step-Chosen c key best h = elim (Option-cases (lookup key c.entries)) [
  | inl e ↦ rw e h
  | inr (n, e) ↦ rw e (consider-Chosen c key n best e h)
]

pub find_victim-Chosen :
    (c : GenkitCache) (range : List (String × ℕ)) (best : Option (String × ℕ))
    → Chosen c best
    → Chosen c (find_victim c range best)
unfolding find_victim
find_victim-Chosen c [] best h = h
find_victim-Chosen c ((key, m) ∷ range) best h =
    find_victim-Chosen c range _ (step-Chosen c key best h)

-- A removal that keeps what is being built.
pub record Evicts (c d : GenkitCache) : Type 0 where
  pub shrinks : Shrinks c d
  pub keeps : KeepsUnready c d

pub Evicts-refl : (c : GenkitCache) → Evicts c c
Evicts-refl c = record { shrinks = Shrinks-refl c; keeps = λ k n h r. h }

Evicts-trans : (b c d : GenkitCache) → Evicts b c → Evicts c d → Evicts b d
Evicts-trans b c d s t = record {
  shrinks = Shrinks-trans b c d s.shrinks t.shrinks;
  keeps = KeepsUnready-trans b c d s.shrinks s.keeps t.keeps;
}

remove-Evicts : (c : GenkitCache) (v : String × ℕ) → Candidate c v → Evicts c (remove v.0 v.1 c)
remove-Evicts c v h = record {
  shrinks = remove-Shrinks v.0 v.1 c h.there;
  keeps = remove-KeepsUnready v.0 v.1 c h.there h.built;
}

pub evict-Evicts : (c : GenkitCache) → Evicts c (evict c)
unfolding evict
evict-Evicts c =
    elim (Bool-cases
      (not (ltb_ℤ (pos 0) c.max_size) || leb (length c.entries) (pos_part c.max_size))) [
        | inl e ↦ rw e (Evicts-refl c)
        | inr e ↦ rw e (go (find_victim c c.entries none) (find_victim-Chosen c c.entries none tt))
      ]
  where
    go :
        (o : Option (String × ℕ))
        → Chosen c o
        → Evicts c (elim o [ none ↦ c | some victim ↦ remove victim.0 victim.1 c ])
    go none h = Evicts-refl c
    go (some v) h = remove-Evicts c v h

sweep_key-Evicts :
    (clock : String → ℕ) (key : String) (c : GenkitCache) → Evicts c (sweep_key clock key c)
unfolding sweep_key
sweep_key-Evicts clock key c = elim (Option-cases (lookup key c.entries)) [
  | inl e ↦ rw (e, sweep_key) (Evicts-refl c)
  | inr (n, e) ↦ elim (Bool-cases ((c.heap n).ready && expired c (clock key) (c.heap n))) [
    | inr f ↦ rw (e, sweep_key) (rw f (Evicts-refl c))
    | inl f ↦
        rw (e, sweep_key)
          (rw f (remove-Evicts c (key, n) (record { there = e; built = ground arith })))
  ]
]

pub sweep-Evicts :
    (clock : String → ℕ) (range : List (String × ℕ)) (c : GenkitCache)
    → Evicts c (sweep clock range c)
unfolding sweep
sweep-Evicts clock [] c = Evicts-refl c
sweep-Evicts clock ((key, m) ∷ range) c =
    Evicts-trans c _ _ (sweep_key-Evicts clock key c)
      (sweep-Evicts clock range (sweep_key clock key c))

pub remove_key-Shrinks : (key : String) (c : GenkitCache) → Shrinks c (remove_key key c)
unfolding remove_key
remove_key-Shrinks key c = elim (Option-cases (lookup key c.entries)) [
  | inl e ↦ rw (e, remove_key) (Shrinks-refl c)
  | inr (n, e) ↦ rw (e, remove_key) (remove-Shrinks key n c e)
]

pub remove_all-Shrinks :
    (range : List (String × ℕ)) (c : GenkitCache) → Shrinks c (remove_all range c)
unfolding remove_all
remove_all-Shrinks [] c = Shrinks-refl c
remove_all-Shrinks ((key, m) ∷ range) c =
    Shrinks-trans c _ _ (remove_key-Shrinks key c) (remove_all-Shrinks range (remove_key key c))
