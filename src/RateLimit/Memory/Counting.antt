-- ===== src/RateLimit/Memory/Counting.antt =====
-- One call of the in-memory limiter against its specification.
use genkit_proxy.Common.{
  ℕ, suc, ◌+◌, ◌≤◌, ◌≡◌, refl, sym, subst, ap, ap₂, ◌≢◌, ◌∙◌, String, ◌&&◌, Option, none, some,
  List, ◌∷◌, ◌==◌, All, nat_eq, nat_eq_iff, text_cases, Bool-cases, Option-cases, inl, inr, arith,
  eq_iff, leb, length,
}
use genkit_proxy.Common.Int.{pos}
use genkit_proxy.Common.Assoc.{lookup, lookup-insert}
use native.Mathlib.Nat.{le_trans}
use native.Mathlib.Decide.{dec_lt}
use genkit_proxy.RateLimit.{Clock}
use genkit_proxy.RateLimit.Window.{
  truncate, truncate_bounds, truncate_mono, add_duration, full_key, full_key_inj,
}
use genkit_proxy.RateLimit.Memory.{Bucket, MemLimiter, bucket_for, verdict, allow, max_buckets}
use genkit_proxy.RateLimit.Memory.Spec.{Call, count_in, within_budget}
use genkit_proxy.RateLimit.Memory.Eviction.{
  lookup-evict_expired, Dated, Dated-evict_expired, Dated-insert, Dated-lookup, Dated-kept,
}

abbrev pub counted : Option Bucket → ℕ
counted none = 0
counted (some b) = b.count

-- The map agrees with the history on the windows that have not ended at `now`.
pub record Tracks (w now : ℕ) (h : List Call) (m : MemLimiter) : Type 0 where
  pub window : m.window ≡ pos w
  pub counts :
      (key : String) (start : ℕ)
      → truncate (pos w) now ≤ start
      → counted (lookup (full_key key start) m.buckets) ≡ count_in w key start h
  pub dated : All (Dated w) m.buckets

truncate_zero : (w now : ℕ) → w ≡ 0 → truncate (pos w) now ≡ now
unfolding truncate
truncate_zero w now h = ground arith

now-le-end : (w now start : ℕ) → truncate (pos w) now ≤ start → now ≤ start + w
now-le-end w now start h = elim (dec_lt 0 w) [
  | yes p ↦ omega (arith, (truncate_bounds w now p).1)
  | no q ↦ omega (arith, truncate_zero w now (omega arith))
]

-- Both ways to find the bucket agree with the map at every window that has not ended.
kept-lookup :
    (w now reset : ℕ) (o : Option Bucket) (m : List (String × Bucket)) (key : String) (start : ℕ)
    → truncate (pos w) now ≤ start
    → All (Dated w) m
    → lookup (full_key key start) (bucket_for now reset o m).1 ≡ lookup (full_key key start) m
unfolding bucket_for
kept-lookup w now reset (some b) m key start h d = refl
kept-lookup w now reset none m key start h d = ground (
  arith,
  lookup-evict_expired (full_key key start) now m
      (Dated-kept w now key start m (now-le-end w now start h) d),
)

kept-Dated :
    (w now reset : ℕ) (o : Option Bucket) (m : List (String × Bucket))
    → All (Dated w) m
    → All (Dated w) (bucket_for now reset o m).1
unfolding bucket_for
kept-Dated w now reset (some b) m d = d
kept-Dated w now reset none m d = elim (Bool-cases (leb max_buckets (length m))) [
  | inl e ↦ rw e (Dated-evict_expired w now m d)
  | inr e ↦ rw e d
]

bucket_for-count :
    (now reset : ℕ) (o : Option Bucket) (m : List (String × Bucket))
    → (bucket_for now reset o m).0.count ≡ counted o
unfolding bucket_for
bucket_for-count now reset none m = refl
bucket_for-count now reset (some b) m = refl

pub count_in_hit :
    (w : ℕ) (j k : String) (t start : ℕ) (h : List Call)
    → j ≡ k
    → truncate (pos w) t ≡ start
    → count_in w k start ((j, t) ∷ h) ≡ suc (count_in w k start h)
unfolding count_in
count_in_hit w j k t start h e d = ground (arith, eq_iff j k)

pub count_in_miss :
    (w : ℕ) (j k : String) (t start : ℕ) (h : List Call)
    → full_key j (truncate (pos w) t) ≢ full_key k start
    → count_in w k start ((j, t) ∷ h) ≡ count_in w k start h
unfolding count_in
count_in_miss w j k t start h ne = elim (Bool-cases (j == k && nat_eq (truncate (pos w) t) start)) [
  | inr e ↦ rw e (omega arith)
  | inl e ↦ absurd (
      ne (
        ap₂ full_key (ground (arith, eq_iff j k))
          (ground (arith, nat_eq_iff (truncate (pos w) t) start))))
]

verdict-allowed :
    (limit : ℕ) (c : Clock) (b : Bucket) → (verdict limit c b).allowed ≡ leb b.count limit
unfolding verdict
verdict-allowed limit c b = ground arith

add_duration_pos : (s w : ℕ) → add_duration s (pos w) ≡ s + w
unfolding add_duration
add_duration_pos s w = omega arith

window-allow :
    (c : Clock) (key : String) (limit : ℕ) (m : MemLimiter)
    → (allow c key limit m).1.window ≡ m.window
unfolding allow
window-allow c key limit m = refl

module _ (w last : ℕ) (h : List Call) (bs : List (String × Bucket)) (c : Clock) (key : String)
    (limit : ℕ) (t : Tracks w last h (record { window = pos w; buckets = bs }))
    (le : last ≤ c.now) where
  abbrev start : ℕ
  start = truncate (pos w) c.now

  abbrev limiter : MemLimiter
  limiter = record { window = pos w; buckets = bs }

  abbrev found : Bucket × List (String × Bucket)
  found = bucket_for c.now (add_duration start (pos w)) (lookup (full_key key start) bs) bs

  found-count : found.0.count ≡ count_in w key start h
  found-count =
      bucket_for-count c.now _ (lookup (full_key key start) bs) bs
      ∙ t.counts key start (truncate_mono w last c.now le)

  step-counts :
      (k : String) (s : ℕ)
      → start ≤ s
      → counted (lookup (full_key k s) (allow c key limit limiter).1.buckets)
        ≡ count_in w k s ((key, c.now) ∷ h)
  unfolding allow
  step-counts k s running =
      rw
        (lookup-insert (full_key key start) (full_key k s)
          (record found.0 { count = suc found.0.count }) found.1)
        (elim (text_cases (full_key key start) (full_key k s)) [
          | inl e ↦
              let same = full_key_inj key k start s e.0 in
              rw e.1 (
                ap suc (found-count ∙ ap₂ (λ (a : String) (b : ℕ). count_in w a b h) same.0 same.1)
                ∙ sym (count_in_hit w key k c.now s h same.0 same.1))
          | inr e ↦ rw e.1 (
              ap counted (
                kept-lookup w c.now (add_duration start (pos w)) (lookup (full_key key start) bs) bs
                  k s running t.dated)
              ∙ t.counts k s (le_trans (truncate_mono w last c.now le) running)
              ∙ sym (count_in_miss w key k c.now s h e.0))
        ])

  -- The bucket that the call counts in ends with its window.
  found-reset : found.0.reset_at ≡ start + w
  unfolding bucket_for
  found-reset = elim (Option-cases (lookup (full_key key start) bs)) [
    | inl e ↦ rw (e, bucket_for) (add_duration_pos start w)
    | inr (b, e) ↦ rw (e, bucket_for) (Dated-lookup w key start b bs t.dated e)
  ]

  step-Dated : All (Dated w) (allow c key limit limiter).1.buckets
  unfolding allow
  step-Dated =
      Dated-insert w (full_key key start) _ found.1
        (kept-Dated w c.now (add_duration start (pos w)) (lookup (full_key key start) bs) bs
          t.dated)
        (λ k s e.
          let same = full_key_inj key k start s e in found-reset ∙ ap (λ (a : ℕ). a + w) same.1)

  step-allowed : (allow c key limit limiter).0.allowed ≡ within_budget w h c.now key limit
  unfolding allow within_budget
  step-allowed =
      verdict-allowed limit c _ ∙ ap (λ (n : ℕ). leb n limit) (omega (arith, found-count))

-- One call, no earlier than the last: the verdict is the specification's, and the map keeps track.
pub allow-Tracks :
    (w last : ℕ) (h : List Call) (m : MemLimiter) (c : Clock) (key : String) (limit : ℕ)
    → Tracks w last h m
    → last ≤ c.now
    → ((allow c key limit m).0.allowed ≡ within_budget w h c.now key limit)
      × Tracks w c.now ((key, c.now) ∷ h) (allow c key limit m).1
allow-Tracks w last h m c key limit t le =
    subst
      (λ n.
        ((allow c key limit n).0.allowed ≡ within_budget w h c.now key limit)
        × Tracks w c.now ((key, c.now) ∷ h) (allow c key limit n).1)
      (sym same)
      (
        step-allowed w last h m.buckets c key limit t' le,
        record {
          window = window-allow c key limit _;
          counts = step-counts w last h m.buckets c key limit t' le;
          dated = step-Dated w last h m.buckets c key limit t' le;
        },
      )
  where
    same : m ≡ record { window = pos w; buckets = m.buckets }
    same = λ i. record { window = t.window i; buckets = m.buckets }

    t' : Tracks w last h (record { window = pos w; buckets = m.buckets })
    t' = subst (Tracks w last h) same t
