-- ===== src/Examples/Counting.antt =====
-- Concrete inputs for the theorems on the Redis limiter.
use genkit_proxy.Common.{
  ℕ, suc, ◌<◌, ◌≡◌, ◌≢◌, ◌↔◌, refl, ap, sym, subst, map, ◌+◌, String, true, false, none, some, List,
  [], ◌∷◌, ◌==◌, if◌then◌else◌, if-on, eq_iff, arith,
}
use genkit_proxy.Common.Assoc.{lookup, insert, lookup-insert}
use genkit_proxy.Common.Int.{ℤ, pos, ltb_ℤ, ◌<ℤ◌}
use genkit_proxy.Errors.Chain.{text, opaque}
use genkit_proxy.RateLimit.{Clock}
use genkit_proxy.RateLimit.Window.{truncate, add_duration, full_key, unix_epoch}
use genkit_proxy.RateLimit.Memory.{new_memory_limiter}
use genkit_proxy.RateLimit.Memory.Run.{Request, answers, budgets}
use genkit_proxy.RateLimit.Redis.{
  Redis, answered, lost_reply, RedisLimiter, allow, unix_milli, new_redis_limiter,
}
use genkit_proxy.RateLimit.Redis.Expiry.{Expiring}
use genkit_proxy.RateLimit.Redis.Run.{redis_answers, redis_answers-eq-budgets}
use genkit_proxy.RateLimit.Redis.Counts.{Counting, allow-count, allow-retry_after}

-- A server that has stood at one millisecond: counters, and what was expired at once.
abbrev Server : Type 0
Server = List (String × ℕ)

abbrev at_millis : ℤ
at_millis = pos 1_000

counter : String → Server → ℕ
counter k s = elim (lookup k s) [ none ↦ 0 | some n ↦ n ]

server : Redis Server
unfolding counter
server = record {
  incr = λ k s. (suc (counter k s), insert k (suc (counter k s)) s);
  pexpireat = λ k t s. if ltb_ℤ at_millis t then s else insert k 0 s;
  pttl = λ k s. pos 500;
}

counter-insert :
    (j k : String) (n : ℕ) (s : Server)
    → counter j (insert k n s) ≡ (if k == j then n else counter j s)
unfolding counter
counter-insert j k n s = ground (arith, lookup-insert k j n s)

counting : Counting server
unfolding server
counting = record {
  count = counter;
  Ahead = λ t s. ltb_ℤ at_millis t ≡ true;
  incr_answer = λ k s. refl;
  incr_own = λ k s. ground (arith, counter-insert k k (suc (counter k s)) s, eq_iff k k);
  incr_other = λ j k s d. ground (arith, counter-insert j k (suc (counter k s)) s, eq_iff k j, d);
  incr_ahead = λ t k s a. a;
  expire_count = λ j k t s a. ap (counter j) (if-on (ltb_ℤ at_millis t) _ _ a);
  expire_ahead = λ t u k s a. a;
}

abbrev noon : Clock
noon = record {
  now = 62_135_596_800_000_000_000 + 5_250_000_000;
  later = 62_135_596_801_000_000_000;
}

abbrev busy : RedisLimiter Server
busy = record { window = pos 1_000_000_000; server = ("key:5000000000", 2) ∷ [] }

ahead :
    ltb_ℤ at_millis (unix_milli (add_duration (truncate busy.window noon.now) busy.window)) ≡ true
unfolding unix_milli add_duration truncate unix_epoch
ahead = refl

allow-count_example :
    let start = truncate busy.window noon.now in
    let full = full_key "key" start in
    let (v, l') = allow server answered noon "key" 2 busy in
    ((v.allowed ≡ true) ↔ (counter full busy.server < 2))
    × (counter full l'.server ≡ suc (counter full busy.server))
    × ((j : String) → j ≢ full → counter j l'.server ≡ counter j busy.server)
    × (v.failure ≡ none)
unfolding counting
allow-count_example = allow-count server counting noon "key" 2 busy ahead

allow-retry_after_example :
    let v = (allow server (lost_reply (opaque (text "i/o timeout"))) noon "key" 2 busy).0 in
    (v.allowed ≡ false → (pos 0 <ℤ v.retry_after) × (v.failure ≡ none))
    × (v.failure ≢ none → v.allowed ≡ true)
allow-retry_after_example =
    allow-retry_after server (lost_reply (opaque (text "i/o timeout"))) noon "key" 2 busy
      (omega arith)

expiring : Expiring server
unfolding counting
expiring = record {
  counting = counting;
  Until = λ k t s. Unit;
  Later = λ s s'. s ≡ s';
  expire_own = λ k t s a. tt;
  expire_other = λ j k t u s d e. tt;
  incr_keeps = λ j k u s e. tt;
  later_none = λ k s s' p e. subst (λ x. counter k x ≡ 0) p e;
  later_kept = λ k t s s' p u a. (ap (counter k) (sym p), tt);
}

abbrev twice : List (Request × (Server → Server))
twice =
    (record { clock = noon; key = "key"; limit = 1 }, λ s. s)
    ∷ (record { clock = noon; key = "key"; limit = 1 }, λ s. s)
    ∷ []

redis_answers-eq-budgets_example :
    (redis_answers server twice (new_redis_limiter [] (pos 1_000_000_000))
      ≡ budgets 1_000_000_000 (map (λ c. c.0) twice) [])
    × (redis_answers server twice (new_redis_limiter [] (pos 1_000_000_000))
        ≡ answers (map (λ c. c.0) twice) (new_memory_limiter (pos 1_000_000_000)))
unfolding expiring counting counter lookup new_redis_limiter unix_milli add_duration truncate
    unix_epoch
redis_answers-eq-budgets_example =
    redis_answers-eq-budgets server expiring 1_000_000_000 0 twice [] (λ k. refl)
      (omega arith, (omega arith, tt)) (refl, refl, (refl, refl, tt))
