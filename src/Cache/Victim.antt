-- ===== src/Cache/Victim.antt =====
-- The loop of evictLocked over every entry of the map.
use genkit_proxy.Common.{
  ℕ, ◌≤◌, ◌≡◌, refl, sym, subst, inl, inr, String, true, false, Option, none, some, List, [], ◌∷◌,
  ◌==◌, arith, Bool-cases, Option-cases, eq_iff, ltb, ◌&&◌, All,
}
use mathlib.Core.Option.{some-injective}
use genkit_proxy.Common.Assoc.{lookup}
use genkit_proxy.Cache.{GenkitCache, consider, find_victim}

-- No entry that is ready was used before the victim.
abbrev pub Oldest : GenkitCache → ℕ → String → Type 0
Oldest c v k =
    (n : ℕ)
    → lookup k c.entries ≡ some n
    → (c.heap n).ready ≡ true
    → (c.heap v).last_used ≤ (c.heap n).last_used

All-lookup :
    (P : String → Type 0) (k : String) (n : ℕ) (m : List (String × ℕ))
    → All (λ e. P e.0) m
    → lookup k m ≡ some n
    → P k
unfolding lookup
All-lookup P k n [] h e = cc
All-lookup P k n (x ∷ m) h e = elim (Bool-cases (x.0 == k)) [
  | inl f ↦ subst P ((eq_iff x.0 k).0 f) h.0
  | inr f ↦ All-lookup P k n m h.1 (ground arith)
]

module _ (c : GenkitCache) where
  -- What a round of the loop makes of the best candidate so far.
  abbrev round : String → Option (String × ℕ) → Option (String × ℕ)
  round key best = elim (lookup key c.entries) [ none ↦ best | some n ↦ consider c key n best ]

  -- With a victim, nothing seen is older; without one, nothing seen is ready.
  abbrev pub Best : Option (String × ℕ) → String → Type 0
  Best none k = (n : ℕ) → lookup k c.entries ≡ some n → (c.heap n).ready ≡ false
  Best (some v) k = Oldest c v.1 k

  -- The candidates get no younger.
  abbrev Older : Option (String × ℕ) → Option (String × ℕ) → Type 0
  Older best none = best ≡ none
  Older none (some v) = Unit
  Older (some w) (some v) = (c.heap v.1).last_used ≤ (c.heap w.1).last_used

  Older-refl : (b : Option (String × ℕ)) → Older b b
  Older-refl none = refl
  Older-refl (some v) = omega arith

  Older-trans : (a b d : Option (String × ℕ)) → Older a b → Older b d → Older a d
  Older-trans a b none p q = subst (λ (x : Option (String × ℕ)). Older a x) q p
  Older-trans none b (some v) p q = tt
  Older-trans (some u) none (some v) p q = cc
  Older-trans (some u) (some w) (some v) p q = omega (arith, p, q)

  Best-Older : (a b : Option (String × ℕ)) (e : String) → Older a b → Best a e → Best b e
  Best-Older a none e o h = subst (λ (x : Option (String × ℕ)). Best x e) o h
  Best-Older none (some v) e o h = λ n l r. let x = h n l in absurd (ground arith)
  Best-Older (some w) (some v) e o h = λ n l r. omega (arith, h n l r, o)

  consider-Best :
      (key : String) (n : ℕ) (best : Option (String × ℕ))
      → Older best (consider c key n best)
        × ((c.heap n).ready ≡ true
            → (v : String × ℕ) × (consider c key n best ≡ some v)
              × ((c.heap v.1).last_used ≤ (c.heap n).last_used))
  unfolding consider
  consider-Best key n none = elim (Bool-cases (c.heap n).ready) [
    | inl e ↦ rw (e, consider) (tt, λ r. ((key, n), refl, omega arith))
    | inr e ↦ rw (e, consider) (refl, λ r. absurd (ground arith))
  ]
  consider-Best key n (some w) =
      elim (Bool-cases ((c.heap n).ready && ltb (c.heap n).last_used (c.heap w.1).last_used)) [
        | inl e ↦ rw e (ground arith, λ r. ((key, n), refl, omega arith))
        | inr e ↦ rw e (omega arith, λ r. (w, refl, ground arith))
      ]

  round-Best :
      (k : String) (best : Option (String × ℕ)) → Older best (round k best) × Best (round k best) k
  round-Best k best = elim (Option-cases (lookup k c.entries)) [
    | inl f ↦
        subst (λ (b : Option (String × ℕ)). Older best b × Best b k) (sym (rw (f, round) refl))
          (Older-refl best, none_there best f)
    | inr (n, f) ↦
        let (o, w) = consider-Best k n best in
        subst (λ (b : Option (String × ℕ)). Older best b × Best b k) (sym (rw (f, round) refl))
          (o, seen n f (consider c k n best) w)
  ]
    where
      none_there : (b : Option (String × ℕ)) → lookup k c.entries ≡ none → Best b k
      none_there none f = λ n l. absurd (ground arith)
      none_there (some v) f = λ n l r. absurd (ground arith)

      seen :
          (n : ℕ)
          → lookup k c.entries ≡ some n
          → (b : Option (String × ℕ))
          → ((c.heap n).ready ≡ true
              → (v : String × ℕ) × (b ≡ some v) × ((c.heap v.1).last_used ≤ (c.heap n).last_used))
          → Best b k
      seen n f none w = λ j l. elim (Bool-cases (c.heap j).ready) [
        | inr x ↦ x
        | inl x ↦
            let same : n ≡ j = ground arith in
            let y = w (subst (λ (i : ℕ). (c.heap i).ready ≡ true) (sym same) x) in
            absurd (let z = y.1 in ground arith)
      ]
      seen n f (some v) w = λ j l r.
          let same : n ≡ j = ground arith in
          let y = w (subst (λ (i : ℕ). (c.heap i).ready ≡ true) (sym same) r) in
          subst (λ (i : ℕ). (c.heap v.1).last_used ≤ (c.heap i).last_used) same
            (subst (λ (u : String × ℕ). (c.heap u.1).last_used ≤ (c.heap n).last_used)
              (sym (some-injective _ _ y.1)) y.2)

  find_victim-Best :
      (range : List (String × ℕ)) (best : Option (String × ℕ))
      → Older best (find_victim c range best) × All (λ e. Best (find_victim c range best) e.0) range
  unfolding find_victim
  find_victim-Best [] best = (Older-refl best, tt)
  find_victim-Best (e ∷ range) best =
      let (o, b) = round-Best e.0 best in
      let (p, h) = find_victim-Best range (round e.0 best) in
      let found = find_victim c range (round e.0 best) in
      (Older-trans best (round e.0 best) found o p, (Best-Older (round e.0 best) found e.0 p b, h))

  -- The victim, or that there is none, against every entry of the map.
  pub victim-Best :
      (k : String) (n : ℕ) → lookup k c.entries ≡ some n → Best (find_victim c c.entries none) k
  victim-Best k n e =
      All-lookup (λ j. Best (find_victim c c.entries none) j) k n c.entries
        (find_victim-Best c.entries none).1 e
