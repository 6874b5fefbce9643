-- ===== src/RateLimit/Redis/Run.antt =====
-- The Redis limiter over a whole run of calls, against the budget that the in-memory limiter keeps.
use genkit_proxy.Common.{
  ℕ, ◌≡◌, refl, sym, subst, ap₂, ◌∙◌, inl, String, Bool, List, [], ◌∷◌, map, arith,
}
use genkit_proxy.Common.Int.{pos}
use genkit_proxy.RateLimit.Window.{truncate, truncate_mono, full_key}
use genkit_proxy.RateLimit.Memory.{new_memory_limiter}
use genkit_proxy.RateLimit.Memory.Spec.{Call, count_in, within_budget}
use genkit_proxy.RateLimit.Memory.Run.{Request, answers, budgets, InOrder, answers-eq-budgets}
use genkit_proxy.RateLimit.Redis.{
  Redis, answered, RedisLimiter, allow, new_redis_limiter, run_script,
}
use genkit_proxy.RateLimit.Redis.Counts.{script-stored, allow-count}
use genkit_proxy.RateLimit.Redis.Expiry.{Expiring, end_of, Tracks, Tracks-later, stored-Tracks}

-- A run: calls that are answered, each with what happens on the server before it.
unfoldable pub redis_answers :
    {R : Type 0} → Redis R → List (Request × (R → R)) → RedisLimiter R → List Bool
redis_answers redis [] l = []
redis_answers redis ((r, meanwhile) ∷ rs) l =
    let (v, l') =
      allow redis answered r.clock r.key r.limit (record l { server = meanwhile l.server }) in
    v.allowed ∷ redis_answers redis rs l'

module _ {R : Type 0} (redis : Redis R) (ex : Expiring redis) (w : ℕ) where
  -- Between the calls time only passes, and a call comes before its window ends on the server.
  abbrev pub Timely : List (Request × (R → R)) → RedisLimiter R → Type 0
  Timely [] l = Unit
  Timely ((r, meanwhile) ∷ rs) l =
      let before : RedisLimiter R = record l { server = meanwhile l.server } in
      ex.Later l.server (meanwhile l.server)
      × ex.counting.Ahead (end_of w (truncate (pos w) r.clock.now)) (meanwhile l.server)
      × Timely rs (allow redis answered r.clock r.key r.limit before).1

  abbrev at_server : R → RedisLimiter R
  at_server s = record { window = pos w; server = s }

  step-allowed :
      (h : List Call) (r : Request) (s : R)
      → ex.counting.Ahead (end_of w (truncate (pos w) r.clock.now)) s
      → Tracks redis ex w (truncate (pos w) r.clock.now) h s
      → (allow redis answered r.clock r.key r.limit (at_server s)).0.allowed
        ≡ within_budget w h r.clock.now r.key r.limit
  unfolding within_budget
  step-allowed h r s a t =
      let (fits, c, d, e) = allow-count redis ex.counting r.clock r.key r.limit (at_server s) a in
      ground (arith, fits.0, fits.1, (t.current r.key).0)

  step-Tracks :
      (h : List Call) (r : Request) (s : R)
      → ex.counting.Ahead (end_of w (truncate (pos w) r.clock.now)) s
      → Tracks redis ex w (truncate (pos w) r.clock.now) h s
      → Tracks redis ex w
          (truncate (pos w) r.clock.now)
          ((r.key, r.clock.now) ∷ h)
          (allow redis answered r.clock r.key r.limit (at_server s)).1.server
  unfolding allow run_script
  step-Tracks h r s a t =
      let start = truncate (pos w) r.clock.now in
      subst (Tracks redis ex w start ((r.key, r.clock.now) ∷ h))
        (sym (script-stored redis ex.counting (full_key r.key start) (end_of w start) r.limit s))
        (stored-Tracks redis ex w start h s r.clock.now r.key refl a t)

  redis_answers-Tracks :
      (last : ℕ) (h : List Call) (rs : List (Request × (R → R))) (s : R)
      → Tracks redis ex w (truncate (pos w) last) h s
      → InOrder last (map (λ c. c.0) rs)
      → Timely rs (at_server s)
      → redis_answers redis rs (at_server s) ≡ budgets w (map (λ c. c.0) rs) h
  unfolding redis_answers budgets allow
  redis_answers-Tracks last h [] s t o p = refl
  redis_answers-Tracks last h ((r, meanwhile) ∷ rs) s t o p =
      let start = truncate (pos w) r.clock.now in
      let t' : Tracks redis ex w start h (meanwhile s) =
        Tracks-later redis ex w (truncate (pos w) last) start h s (meanwhile s)
          (truncate_mono w last r.clock.now o.0) p.0 p.1 t in
      ap₂ ◌∷◌ (step-allowed h r (meanwhile s) p.1 t') (
        redis_answers-Tracks r.clock.now ((r.key, r.clock.now) ∷ h) rs _
          (step-Tracks h r (meanwhile s) p.1 t') o.1 p.2)

  -- If the Redis commands count and expire as documented, and no counter of this limiter is there
  -- at first: over any answered calls with a clock that never goes back, each before its window ends
  -- on the server, the Redis limiter allows exactly those that the fixed-window budget on the
  -- history of calls allows, and so exactly those that the in-memory limiter allows.
  pub redis_answers-eq-budgets :
      (start : ℕ) (rs : List (Request × (R → R))) (s : R)
      → ((k : String) → ex.counting.count k s ≡ 0)
      → InOrder start (map (λ c. c.0) rs)
      → Timely rs (new_redis_limiter s (pos w))
      → (redis_answers redis rs (new_redis_limiter s (pos w)) ≡ budgets w (map (λ c. c.0) rs) [])
        × (redis_answers redis rs (new_redis_limiter s (pos w))
            ≡ answers (map (λ c. c.0) rs) (new_memory_limiter (pos w)))
  unfolding new_redis_limiter count_in
  redis_answers-eq-budgets start rs s empty o p =
      let fresh : Tracks redis ex w (truncate (pos w) start) [] s = record {
        current = λ key. (
          empty (full_key key (truncate (pos w) start)),
          inl (empty (full_key key (truncate (pos w) start))),
        );
        future = λ key later lt. (empty (full_key key later), refl);
      } in
      let same = redis_answers-Tracks start [] rs s fresh o p in
      (same, same ∙ sym (answers-eq-budgets w start (map (λ c. c.0) rs) o))
