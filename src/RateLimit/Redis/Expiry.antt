-- ===== src/RateLimit/Redis/Expiry.antt =====
-- What the counters of the Redis server hold while their windows last, from what the commands and the
-- passing of time are documented to do.
use genkit_proxy.Common.{
  ℕ, suc, ◌≤◌, ◌<◌, ◌≡◌, ◌≢◌, refl, sym, subst, ap, ◌∙◌, ◌⊎◌, inl, inr, String, List, ◌∷◌, nat_eq,
  Bool-cases, text_cases, arith,
}
use native.Mathlib.Decide.{dec_lt}
use genkit_proxy.Common.Int.{ℤ, pos}
use genkit_proxy.RateLimit.Window.{truncate, add_duration, full_key, full_key_inj}
use genkit_proxy.RateLimit.Memory.Spec.{Call, count_in}
use genkit_proxy.RateLimit.Memory.Counting.{count_in_hit, count_in_miss}
use genkit_proxy.RateLimit.Redis.{Redis, unix_milli}
use genkit_proxy.RateLimit.Redis.Counts.{Counting, Counted, stored, stored-Counted}

-- `Until k t s`: the key expires at t. PEXPIREAT sets that time for its key alone and INCR keeps it.
-- `Later s s'`: time has passed on the server, or other keys were used: a counter that is not there
-- does not appear, and one with a time to expire that is still ahead stays.
pub record Expiring {R : Type 0} (redis : Redis R) : Type 1 where
  pub counting : Counting redis
  pub Until : String → ℤ → R → Type 0
  pub Later : R → R → Type 0
  pub expire_own :
      (k : String) (t : ℤ) (s : R) → counting.Ahead t s → Until k t (redis.pexpireat k t s)
  pub expire_other :
      (j k : String) (t u : ℤ) (s : R) → j ≢ k → Until j u s → Until j u (redis.pexpireat k t s)
  pub incr_keeps : (j k : String) (u : ℤ) (s : R) → Until j u s → Until j u (redis.incr k s).1
  pub later_none :
      (k : String) (s s' : R) → Later s s' → counting.count k s ≡ 0 → counting.count k s' ≡ 0
  pub later_kept :
      (k : String) (t : ℤ) (s s' : R)
      → Later s s'
      → Until k t s
      → counting.Ahead t s'
      → (counting.count k s' ≡ counting.count k s) × Until k t s'

abbrev pub end_of : ℕ → ℕ → ℤ
end_of w start = unix_milli (add_duration start (pos w))

module _ {R : Type 0} (redis : Redis R) (ex : Expiring redis) (w : ℕ) where
  -- The counter of a key in a window agrees with the history, and expires with the window.
  abbrev pub Held : List Call → R → String → ℕ → Type 0
  Held h s key start =
      (ex.counting.count (full_key key start) s ≡ count_in w key start h)
      × ((ex.counting.count (full_key key start) s ≡ 0)
          ⊎ ex.Until (full_key key start) (end_of w start) s)

  abbrev pub Empty : List Call → R → String → ℕ → Type 0
  Empty h s key start =
      (ex.counting.count (full_key key start) s ≡ 0) × (count_in w key start h ≡ 0)

  -- The server agrees with the history in the window from `start` on.
  pub record Tracks (start : ℕ) (h : List Call) (s : R) : Type 0 where
    pub current : (key : String) → Held h s key start
    pub future : (key : String) (later : ℕ) → start < later → Empty h s key later

  Empty-later :
      (h : List Call) (s s' : R) (key : String) (start : ℕ)
      → ex.Later s s'
      → Empty h s key start
      → Empty h s' key start
  Empty-later h s s' key start p (e, f) = (ex.later_none (full_key key start) s s' p e, f)

  Held-later :
      (h : List Call) (s s' : R) (key : String) (start : ℕ)
      → ex.Later s s'
      → ex.counting.Ahead (end_of w start) s'
      → Held h s key start
      → Held h s' key start
  Held-later h s s' key start p a (same, inl none) =
      let still = ex.later_none (full_key key start) s s' p none in
      (still ∙ sym none ∙ same, inl still)
  Held-later h s s' key start p a (same, inr u) =
      let (kept, u') = ex.later_kept (full_key key start) (end_of w start) s s' p u a in
      (kept ∙ same, inr u')

  -- A window that is still the current one, or a new one.
  pub Tracks-later :
      (old start : ℕ) (h : List Call) (s s' : R)
      → old ≤ start
      → ex.Later s s'
      → ex.counting.Ahead (end_of w start) s'
      → Tracks old h s
      → Tracks start h s'
  Tracks-later old start h s s' le p a t = record {
    current = λ key. elim (dec_lt old start) [
      | yes lt ↦
          let (e, f) = Empty-later h s s' key start p (t.future key start lt) in (e ∙ sym f, inl e)
      | no ge ↦ Held-later h s s' key start p a (subst (Held h s key) (omega arith) (t.current key))
    ];
    future = λ key later lt. Empty-later h s s' key later p (t.future key later (omega arith));
  }

  stored-other :
      (j k : String) (t u : ℤ) (s : R)
      → j ≢ k
      → ex.Until j u s
      → ex.Until j u (stored redis ex.counting k t s)
  unfolding stored
  stored-other j k t u s d e = elim (Bool-cases (nat_eq (redis.incr k s).0 1)) [
    | inl first ↦ rw first (ex.expire_other j k t u _ d (ex.incr_keeps j k u s e))
    | inr later ↦ rw later (ex.incr_keeps j k u s e)
  ]

  stored-own :
      (k : String) (t : ℤ) (s : R)
      → ex.counting.Ahead t s
      → (ex.counting.count k s ≡ 0) ⊎ ex.Until k t s
      → ex.Until k t (stored redis ex.counting k t s)
  unfolding stored
  stored-own k t s a o =
      let n = ex.counting.incr_answer k s in
      elim (Bool-cases (nat_eq (redis.incr k s).0 1)) [
        | inl first ↦ rw first (ex.expire_own k t _ (ex.counting.incr_ahead t k s a))
        | inr later ↦ elim o [
          | inr u ↦ rw later (ex.incr_keeps k k t s u)
          | inl none ↦ absurd (ground (arith, n))
        ]
      ]

  pub stored-Tracks :
      (start : ℕ) (h : List Call) (s : R) (now : ℕ) (key : String)
      → truncate (pos w) now ≡ start
      → ex.counting.Ahead (end_of w start) s
      → Tracks start h s
      → Tracks start
          ((key, now) ∷ h)
          (stored redis ex.counting (full_key key start) (end_of w start) s)
  stored-Tracks start h s now key at a t = record {
    current = λ k. elim (text_cases (full_key key start) (full_key k start)) [
      | inl e ↦
          subst
            (λ j. Held ((key, now) ∷ h) (stored redis ex.counting full (end_of w start) s) j start)
            (full_key_inj key k start start e.0).0 own
      | inr e ↦
          let other = c.others (full_key k start) (λ q. e.0 (sym q)) in
          let (same, o) = t.current k in
          let miss =
            sym (count_in_miss w key k now start h (λ q. e.0 (ap (full_key key) (sym at) ∙ q))) in
          (
            other ∙ same ∙ miss,
            elim o [
              | inl none ↦ inl (other ∙ none)
              | inr u ↦ inr (
                  stored-other (full_key k start) full (end_of w start) (end_of w start) s
                    (λ q. e.0 (sym q)) u)
            ],
          )
    ];
    future = λ k later lt.
        let apart : full ≢ full_key k later =
          λ q. absurd (omega (arith, (full_key_inj key k start later q).1)) in
        let (e, f) = t.future k later lt in
        (
          c.others (full_key k later) (λ q. apart (sym q)) ∙ e,
          count_in_miss w key k now later h (λ q. apart (ap (full_key key) (sym at) ∙ q)) ∙ f,
        );
  }
    where
      full : String
      full = full_key key start

      c :
          Counted redis ex.counting full
            (end_of w start)
            s
            (stored redis ex.counting full (end_of w start) s)
      c = stored-Counted redis ex.counting full (end_of w start) s a

      own : Held ((key, now) ∷ h) (stored redis ex.counting full (end_of w start) s) key start
      own = (
        c.own ∙ ap suc (t.current key).0 ∙ sym (count_in_hit w key key now start h refl at),
        inr (stored-own full (end_of w start) s a (t.current key).1),
      )
