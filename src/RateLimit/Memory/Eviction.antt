-- ===== src/RateLimit/Memory/Eviction.antt =====
-- Which buckets evictExpired keeps.
use genkit_proxy.Common.{
  ℕ, ◌+◌, ◌≤◌, ◌≡◌, refl, String, some, List, [], ◌∷◌, All, text_cases, Bool-cases, inl, inr, arith,
  eq_iff, ltb,
}
use genkit_proxy.Common.Assoc.{lookup, insert}
use genkit_proxy.RateLimit.Window.{full_key}
use genkit_proxy.RateLimit.Memory.{Bucket, evict_expired}

pub lookup-evict_expired :
    (k : String) (now : ℕ) (m : List (String × Bucket))
    → All (λ e. e.0 ≡ k → now ≤ e.1.reset_at) m
    → lookup k (evict_expired now m) ≡ lookup k m
unfolding lookup evict_expired
lookup-evict_expired k now [] h = refl
lookup-evict_expired k now ((j, b) ∷ m) h =
    ground (arith, eq_iff j k, h.0, lookup-evict_expired k now m h.1)

-- A bucket's reset time is the end of the window in its key.
abbrev pub Dated : ℕ → String × Bucket → Type 0
Dated w e = (key : String) (start : ℕ) → e.0 ≡ full_key key start → e.1.reset_at ≡ start + w

pub Dated-evict_expired :
    (w now : ℕ) (m : List (String × Bucket)) → All (Dated w) m → All (Dated w) (evict_expired now m)
unfolding evict_expired
Dated-evict_expired w now [] h = tt
Dated-evict_expired w now ((j, b) ∷ m) h = elim (Bool-cases (ltb b.reset_at now)) [
  | inl e ↦ rw e (Dated-evict_expired w now m h.1)
  | inr e ↦ rw e (h.0, Dated-evict_expired w now m h.1)
]

pub Dated-insert :
    (w : ℕ) (k : String) (b : Bucket) (m : List (String × Bucket))
    → All (Dated w) m
    → Dated w (k, b)
    → All (Dated w) (insert k b m)
unfolding insert
Dated-insert w k b [] h d = (d, tt)
Dated-insert w k b ((j, c) ∷ m) h d = elim (text_cases j k) [
  | inl e ↦ rw e.1 (d, h.1)
  | inr e ↦ rw e.1 (h.0, Dated-insert w k b m h.1 d)
]

pub Dated-lookup :
    (w : ℕ) (key : String) (start : ℕ) (b : Bucket) (m : List (String × Bucket))
    → All (Dated w) m
    → lookup (full_key key start) m ≡ some b
    → b.reset_at ≡ start + w
unfolding lookup
Dated-lookup w key start b [] h e = cc
Dated-lookup w key start b ((j, c) ∷ m) h e = elim (text_cases j (full_key key start)) [
  | inl s ↦ ground (arith, s.1, h.0 key start s.0)
  | inr s ↦ ground (arith, s.1, Dated-lookup w key start b m h.1)
]

-- Buckets of windows that have not ended stay.
pub Dated-kept :
    (w now : ℕ) (key : String) (start : ℕ) (m : List (String × Bucket))
    → now ≤ start + w
    → All (Dated w) m
    → All (λ e. e.0 ≡ full_key key start → now ≤ e.1.reset_at) m
Dated-kept w now key start [] le h = tt
Dated-kept w now key start (e ∷ m) le h =
    (λ same. let r = h.0 key start same in omega arith, Dated-kept w now key start m le h.1)
