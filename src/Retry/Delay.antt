-- ===== src/Retry/Delay.antt =====
-- The backoff of retryDelay, inside and outside the range of int64.
use genkit_proxy.Common.{
  ℕ, zero, suc, ap, ◌+◌, ◌*◌, ◌%◌, ◌^◌, ◌≤◌, ◌<◌, ◌≡◌, ◌↔◌, ◌⊎◌, none, some, arith, Bool-cases, ltb,
  inl, inr,
}
use native.Mathlib.Nat.{one-le-pow, add-zero, add-suc, pow-suc}
use genkit_proxy.Common.Int.{ℤ, pos, ◌≤ℤ◌}
use genkit_proxy.Retry.{retry_delay, ten_seconds, jitter, to_int64}

jitter_pos :
    (n random : ℕ)
    → 0 < n
    → (d : ℕ) × (jitter (pos n) random ≡ some d) × (d < n) × (d < ten_seconds)
unfolding jitter
jitter_pos n random h = elim (Bool-cases (ltb ten_seconds n)) [
  | inl big ↦ (random % ten_seconds, ground arith, ground arith, ground arith)
  | inr small ↦ (random % n, ground arith, ground arith, ground arith)
]

jitter-eq-none_iff : (cap : ℤ) (random : ℕ) → (jitter cap random ≡ none) ↔ (cap ≤ℤ pos 0)
unfolding jitter
jitter-eq-none_iff cap random = ground arith

to_int64-small : (n : ℕ) → n < 2 ^ 63 → to_int64 n ≡ pos n
unfolding to_int64
to_int64-small n h = ground arith

to_int64-nonpos_iff : (n : ℕ) → (to_int64 n ≤ℤ pos 0) ↔ ((n % 2 ^ 64 ≡ 0) ⊎ (2 ^ 63 ≤ n % 2 ^ 64))
unfolding to_int64
to_int64-nonpos_iff n = ground arith

-- As long as base * 2^attempt fits an int64, the delay is below it and below ten seconds.
pub retry_delay_bounds :
    (base attempt random : ℕ)
    → 0 < base
    → base * 2 ^ attempt < 2 ^ 63
    → (d : ℕ) × (retry_delay (pos base) attempt random ≡ some d)
      × (d < base * 2 ^ attempt)
      × (d < ten_seconds)
unfolding retry_delay
retry_delay_bounds base attempt random h k =
    let two : 0 < 2 ^ attempt = one-le-pow attempt 2 (omega arith) in
    let p : 0 < base * 2 ^ attempt = grind arith in
    let (d, e, lt, cap) = jitter_pos (base * 2 ^ attempt) random p in
    (d, ground (arith, to_int64-small (base * 2 ^ attempt)), lt, cap)

-- The wait panics exactly when base * 2^attempt, read as an int64, is not positive.
pub retry_delay-eq-none_iff :
    (base attempt random : ℕ)
    → 0 < base
    → (retry_delay (pos base) attempt random ≡ none)
      ↔ ((base * 2 ^ attempt % 2 ^ 64 ≡ 0) ⊎ (2 ^ 63 ≤ base * 2 ^ attempt % 2 ^ 64))
unfolding retry_delay
retry_delay-eq-none_iff base attempt random h =
    let n = base * 2 ^ attempt in
    let a = jitter-eq-none_iff (to_int64 n) random in
    let b = to_int64-nonpos_iff n in
    (λ e. b.0 (a.0 (ground arith)), λ e. let x = a.1 (b.1 e) in ground arith)

pow-add : (m k : ℕ) → 2 ^ (m + k) ≡ 2 ^ m * 2 ^ k
pow-add m zero = omega (arith, ap (λ (t : ℕ). 2 ^ t) (add-zero m))
pow-add m (suc k) = rw (add-suc m k, pow-suc 2 (m + k), pow-suc 2 k, pow-add m k) (omega arith)

-- From the 64th retry on, every positive base panics.
retry_delay-from_64 : (base k random : ℕ) → 0 < base → retry_delay (pos base) (64 + k) random ≡ none
retry_delay-from_64 base k random h =
    let e : base * 2 ^ (64 + k) ≡ 2 ^ 64 * (base * 2 ^ k) = rw (pow-add 64 k) (omega arith) in
    (retry_delay-eq-none_iff base (64 + k) random h).1 (inl (rw e (omega arith)))
