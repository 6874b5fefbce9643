-- ===== src/Cache/Bounds.antt =====
-- The size of the map after a miss, and what evictLocked removes.
use genkit_proxy.Common.{
  ℕ, ◌≤◌, ◌<◌, ◌≡◌, ◌≢◌, refl, ap, ◌⊎◌, inl, inr, String, true, false, Option, none, some,
  nat_eq_iff, arith, Bool-cases, eq_iff, length, leb,
}
use genkit_proxy.Common.Int.{pos, pos_part, ltb_ℤ}
use genkit_proxy.Common.Assoc.{lookup, insert, lookup-insert, length-insert, length-erase-lt}
use genkit_proxy.RateLimit.{Clock}
use genkit_proxy.Cache.{GenkitCache, find_victim, evict, remove, allocate, at_entry, blank_entry}
use genkit_proxy.Cache.Eviction.{Chosen, find_victim-Chosen}
use genkit_proxy.Cache.Victim.{Best, victim-Best}

-- evictLocked does nothing, or removes a candidate that no ready entry is older than.
pub data Evicted (c : GenkitCache) (d : GenkitCache) : Type 0 where
  unbounded : ltb_ℤ (pos 0) c.max_size ≡ false → d ≡ c → Evicted c d
  fitting : length c.entries ≤ pos_part c.max_size → d ≡ c → Evicted c d
  all_in_flight :
      ((k : String) (n : ℕ) → lookup k c.entries ≡ some n → (c.heap n).ready ≡ false)
      → d ≡ c
      → Evicted c d
  oldest :
      (key : String) (n : ℕ)
      → pos_part c.max_size < length c.entries
      → lookup key c.entries ≡ some n
      → (c.heap n).ready ≡ true
      → ((k : String) (m : ℕ)
          → lookup k c.entries ≡ some m
          → (c.heap m).ready ≡ true
          → (c.heap n).last_used ≤ (c.heap m).last_used)
      → d ≡ remove key n c
      → Evicted c d

module _ (c : GenkitCache) where
  victim-Evicted :
      (over : pos_part c.max_size < length c.entries) (o : Option (String × ℕ))
      → Chosen c o
      → ((k : String) (n : ℕ) → lookup k c.entries ≡ some n → Best c o k)
      → Evicted c (elim o [ none ↦ c | some v ↦ remove v.0 v.1 c ])
  victim-Evicted over none h b = all_in_flight (λ k n e. b k n e n e) refl
  victim-Evicted over (some v) h b =
      oldest v.0 v.1 over h.there h.built (λ k m e r. b k m e m e r) refl

  -- evictLocked removes at most one entry, only from a map over its bound, never one that is being
  -- built, and of those that are ready one that was used least recently; it removes none only if
  -- there is no bound, the map fits it, or every entry is being built.
  pub evict-Evicted : Evicted c (evict c)
  unfolding evict
  evict-Evicted = elim (Bool-cases (ltb_ℤ (pos 0) c.max_size)) [
    | inr off ↦ unbounded off (rw (off, evict) refl)
    | inl on ↦ elim (Bool-cases (leb (length c.entries) (pos_part c.max_size))) [
      | inl fits ↦ fitting (ground arith) (rw (on, evict) (rw fits refl))
      | inr over ↦
          rw (on, evict)
            (rw over (
              victim-Evicted (ground arith) (find_victim c c.entries none)
                (find_victim-Chosen c c.entries none tt) (victim-Best c)))
    ]
  ]

-- After a miss the map holds at most the maximum, or no more entries than before, or every other
-- entry that it held is still being built.
pub allocate-length :
    (clock : Clock) (n : ℕ) (key : String) (max : ℕ) (c : GenkitCache)
    → c.max_size ≡ pos max
    → 0 < max
    → lookup key c.entries ≡ none
    → (length (allocate clock n key c).entries ≤ max)
      ⊎ ((length (allocate clock n key c).entries ≤ length c.entries)
          ⊎ ((k : String) (m : ℕ) → lookup k c.entries ≡ some m → n ≢ m → (c.heap m).ready ≡ false))
unfolding allocate remove
allocate-length clock n key max c bound some_room absent =
    let d : GenkitCache = record c {
      entries = insert key n c.entries;
      heap = at_entry n (λ e. record blank_entry { last_used = clock.later }) c.heap;
    } in
    let longer = length-insert key n c.entries absent in
    elim (evict-Evicted d) [
      | unbounded off e ↦ absurd (ground arith)
      | fitting fits e ↦ inl (ground (arith, ap (λ (x : GenkitCache). length x.entries) e))
      | all_in_flight h e ↦ inr (
          inr (λ k m l other.
            let x = h k m in
            ground (arith, lookup-insert key k n c.entries, eq_iff key k, nat_eq_iff n m)))
      | oldest k m over there built least e ↦ inr (
          inl (
            omega (
              arith,
              longer,
              length-erase-lt k m d.entries there,
              ap (λ (x : GenkitCache). length x.entries) e,
            )))
    ]
