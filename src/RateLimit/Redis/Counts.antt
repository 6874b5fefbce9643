-- ===== src/RateLimit/Redis/Counts.antt =====
-- How the Redis limiter counts, from what the commands are documented to do.
use genkit_proxy.Common.{
  ℕ, suc, ◌≤◌, ◌<◌, ◌≡◌, ◌≢◌, ◌↔◌, ◌∙◌, ap, inl, inr, String, true, false, Bool-cases, none, nat_eq,
  ltb, if◌then◌else◌, if-on, if-off, arith, ◌⊎◌,
}
use native.Mathlib.Decide.{dec_lt}
use genkit_proxy.Common.Int.{ℤ, pos, ◌<ℤ◌}
use genkit_proxy.Errors.Result.{GoResult, ok, err}
use genkit_proxy.RateLimit.{Clock}
use genkit_proxy.RateLimit.Window.{truncate, add_duration, full_key}
use genkit_proxy.RateLimit.Redis.{
  Redis, Exchange, answered, RedisLimiter, script, verdict_of, allow, unix_milli, run_script,
}

-- The counter of a key (0 without one), and that a time is still ahead on the server's clock.
-- INCR adds one to the counter of its key and to no other; PEXPIREAT at a time that is ahead
-- keeps every counter; and no time passes on the server while a command runs.
pub record Counting {R : Type 0} (redis : Redis R) : Type 1 where
  pub count : String → R → ℕ
  pub Ahead : ℤ → R → Type 0
  pub incr_answer : (k : String) (s : R) → (redis.incr k s).0 ≡ suc (count k s)
  pub incr_own : (k : String) (s : R) → count k (redis.incr k s).1 ≡ suc (count k s)
  pub incr_other : (j k : String) (s : R) → j ≢ k → count j (redis.incr k s).1 ≡ count j s
  pub incr_ahead : (t : ℤ) (k : String) (s : R) → Ahead t s → Ahead t (redis.incr k s).1
  pub expire_count :
      (j k : String) (t : ℤ) (s : R) → Ahead t s → count j (redis.pexpireat k t s) ≡ count j s
  pub expire_ahead : (t u : ℤ) (k : String) (s : R) → Ahead t s → Ahead t (redis.pexpireat k u s)

verdict_of_fair :
    (window : ℤ) (r : GoResult (ℕ × ℤ))
    → pos 0 <ℤ window
    → ((verdict_of window r).allowed ≡ false
        → (pos 0 <ℤ (verdict_of window r).retry_after) × ((verdict_of window r).failure ≡ none))
      × ((verdict_of window r).failure ≢ none → (verdict_of window r).allowed ≡ true)
unfolding verdict_of
verdict_of_fair window (err e) h = ground arith
verdict_of_fair window (ok (flag, ttl)) h = ground arith

verdict_of-answer :
    (window : ℤ) (r : ℕ × ℤ)
    → (((nat_eq (r.0) 0 ≡ true) × ((verdict_of window (ok r)).allowed ≡ false))
        ⊎ ((nat_eq (r.0) 0 ≡ false) × ((verdict_of window (ok r)).allowed ≡ true)))
      × ((verdict_of window (ok r)).failure ≡ none)
unfolding verdict_of
verdict_of-answer window (flag, ttl) = ground arith

-- With a positive window, a refusal names a positive time to wait, whatever the server answers,
-- and carries no error; a call that ends with an error is let through.
pub allow-retry_after :
    {R : Type 0} (redis : Redis R) (exchange : Exchange) (c : Clock) (key : String) (limit : ℕ)
    (l : RedisLimiter R)
    → pos 0 <ℤ l.window
    → let v = (allow redis exchange c key limit l).0 in
      (v.allowed ≡ false → (pos 0 <ℤ v.retry_after) × (v.failure ≡ none))
      × (v.failure ≢ none → v.allowed ≡ true)
unfolding allow
allow-retry_after redis exchange c key limit l h =
    verdict_of_fair l.window
      (run_script exchange
        (script redis (full_key key (truncate l.window c.now))
          (unix_milli (add_duration (truncate l.window c.now) l.window)) limit)
        l.server).0
      h

module _ {R : Type 0} (redis : Redis R) (counting : Counting redis) where
  pub record Counted (k : String) (t : ℤ) (s s' : R) : Type 0 where
    pub own : counting.count k s' ≡ suc (counting.count k s)
    pub others : (j : String) → j ≢ k → counting.count j s' ≡ counting.count j s
    pub ahead : counting.Ahead t s'

  unfoldable pub stored : String → ℤ → R → R
  stored k t s =
      let s1 = (redis.incr k s).1 in
      if nat_eq (redis.incr k s).0 1 then redis.pexpireat k t s1 else s1

  pub stored-Counted :
      (k : String) (t : ℤ) (s : R) → counting.Ahead t s → Counted k t s (stored k t s)
  unfolding stored
  stored-Counted k t s a =
      let s1 = (redis.incr k s).1 in
      let a1 = counting.incr_ahead t k s a in
      elim (Bool-cases (nat_eq (redis.incr k s).0 1)) [
        | inl first ↦ rw first (record {
          own = counting.expire_count k k t s1 a1 ∙ counting.incr_own k s;
          others = λ j d. counting.expire_count j k t s1 a1 ∙ counting.incr_other j k s d;
          ahead = counting.expire_ahead t t k s1 a1;
        })
        | inr later ↦ rw later (record {
          own = counting.incr_own k s;
          others = λ j d. counting.incr_other j k s d;
          ahead = a1;
        })
      ]

  pub script-stored :
      (k : String) (t : ℤ) (limit : ℕ) (s : R) → (script redis k t limit s).1 ≡ stored k t s
  unfolding script stored
  script-stored k t limit s = elim (Bool-cases (ltb limit (redis.incr k s).0)) [
    | inl over ↦ ap (λ (p : (ℕ × ℤ) × R). p.1) (if-on (ltb limit (redis.incr k s).0) _ _ over)
    | inr under ↦ ap (λ (p : (ℕ × ℤ) × R). p.1) (if-off (ltb limit (redis.incr k s).0) _ _ under)
  ]

  script-refuses :
      (k : String) (t : ℤ) (limit : ℕ) (s : R)
      → (nat_eq (script redis k t limit s).0.0 0 ≡ true) ↔ (limit ≤ counting.count k s)
  unfolding script
  script-refuses k t limit s =
      let e = counting.incr_answer k s in
      elim (Bool-cases (ltb limit (redis.incr k s).0)) [
        | inl over ↦ rw (over, script) (ground arith)
        | inr under ↦ rw (under, script) (ground arith)
      ]

  -- If the commands count as documented and the end of the window is ahead on the server, a call
  -- that is answered is allowed exactly if fewer than `limit` calls were counted in the window for
  -- the key; it is counted in either case, and no other key or window is touched.
  pub allow-count :
      (c : Clock) (key : String) (limit : ℕ) (l : RedisLimiter R)
      → let start = truncate l.window c.now in
        counting.Ahead (unix_milli (add_duration start l.window)) l.server
        → let full = full_key key start in
          let (v, l') = allow redis answered c key limit l in
          ((v.allowed ≡ true) ↔ (counting.count full l.server < limit))
          × (counting.count full l'.server ≡ suc (counting.count full l.server))
          × ((j : String) → j ≢ full → counting.count j l'.server ≡ counting.count j l.server)
          × (v.failure ≡ none)
  unfolding allow run_script verdict_of
  allow-count c key limit l a =
      let start = truncate l.window c.now in
      let full = full_key key start in
      let t = unix_milli (add_duration start l.window) in
      let counted = stored-Counted full t l.server a in
      let same = script-stored full t limit l.server in
      let (to, from) = script-refuses full t limit l.server in
      let (answer, no_failure) =
        verdict_of-answer l.window (script redis full t limit l.server).0 in
      (
        elim answer [
          | inl (refused, b) ↦ (λ e. cc (b, e), λ lt. absurd (omega (arith, to refused)))
          | inr (passed, b) ↦ (
            λ _. (elim (dec_lt (counting.count full l.server) limit) [
              | yes lt ↦ lt
              | no ge ↦ cc (passed, from (omega arith))
            ]),
            λ _. b,
          )
        ],
        ap (counting.count full) same ∙ counted.own,
        λ j d. ap (counting.count j) same ∙ counted.others j d,
        no_failure,
      )
