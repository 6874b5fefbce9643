-- ===== src/Cache/Waiters.antt =====
-- What calls of `get` wait for and return.
use genkit_proxy.Common.{
  ℕ, ◌≡◌, refl, sym, subst, ◌∙◌, inl, inr, String, true, Option, some, nat_eq, nat_eq_iff, arith,
  Bool-cases,
}
use genkit_proxy.Common.Int.{ℤ}
use genkit_proxy.Common.Assoc.{lookup}
use genkit_proxy.Errors.Chain.{GoError}
use genkit_proxy.Cache.{
  GenkitCache, Instance, Query, Stage, fresh, waiting, building, closing, returned,
}
use genkit_proxy.Cache.System.{
  System, Closer, shut, Step, pick, tick, close_begin, close_end, Reach, here, later, init,
  at_stage,
}
use genkit_proxy.Cache.Removal.{Shrinks}
use genkit_proxy.Cache.Eviction.{sweep-Evicts, remove_all-Shrinks}
use genkit_proxy.Cache.Advance.{
  sane, Status, Sound, Backed, SameAt, Advance, Shrinks-SameAt, Move-Advance,
}

pub record Served (s : System) : Type 0 where
  pub status : (n : ℕ) → Status (s.stage n) (s.cache.heap n)
  pub sound : (n : ℕ) → Sound (s.cache.heap n)
  pub mapped :
      (k : String) (m : ℕ) → lookup k s.cache.entries ≡ some m → Backed (s.stage m) (s.cache.heap m)
  pub awaited : (n m : ℕ) → s.stage n ≡ waiting m → Backed (s.stage m) (s.cache.heap m)

Status-same :
    (p : Stage) (m : ℕ) (c d : GenkitCache)
    → SameAt m c d
    → Status p (c.heap m)
    → Status p (d.heap m)
Status-same fresh m c d s st = s.ready ∙ st
Status-same (waiting j) m c d s st = tt
Status-same (building k) m c d s st = (s.ready ∙ st.0, s.app ∙ st.1, s.failure ∙ st.2)
Status-same (closing a f) m c d s st = (s.ready ∙ st.0, s.app ∙ st.1, s.failure ∙ st.2, st.3)
Status-same (returned a f) m c d s st = st

Sound-same : (m : ℕ) (c d : GenkitCache) → SameAt m c d → Sound (c.heap m) → Sound (d.heap m)
Sound-same m c d s so r = let own = so (sym s.ready ∙ r) in ground (arith, s.app, s.failure)

Backed-same :
    (p : Stage) (m : ℕ) (c d : GenkitCache)
    → SameAt m c d
    → Backed p (c.heap m)
    → Backed p (d.heap m)
Backed-same p m c d s (inl e) = inl e
Backed-same p m c d s (inr e) = inr (s.ready ∙ e)

-- A removal of entries outside any call.
removal-Served :
    (s : System) (d : GenkitCache) (x : Closer)
    → Shrinks s.cache d
    → Served s
    → Served (record s { cache = d; closer = x })
removal-Served s d x h i = record {
  status = λ n. Status-same (s.stage n) n s.cache d (Shrinks-SameAt n s.cache d h) (i.status n);
  sound = λ n. Sound-same n s.cache d (Shrinks-SameAt n s.cache d h) (i.sound n);
  mapped = λ k m e.
      Backed-same (s.stage m) m s.cache d (Shrinks-SameAt m s.cache d h)
        (i.mapped k m (h.kept k m e));
  awaited =
      λ n m e. Backed-same (s.stage m) m s.cache d (Shrinks-SameAt m s.cache d h) (i.awaited n m e);
}

module _ (s : System) (n : ℕ) (r : GenkitCache × Stage) (a : Advance n s.cache (s.stage n) r)
    (i : Served s) where
  abbrev after : System
  after = record s { cache = r.0; stage = at_stage n r.1 s.stage }

  after-Backed : (m : ℕ) → Backed (s.stage m) (s.cache.heap m) → Backed (after.stage m) (r.0.heap m)
  after-Backed m b = elim (Bool-cases (nat_eq n m)) [
    | inr e ↦ rw e (Backed-same (s.stage m) m s.cache r.0 (a.others m e) b)
    | inl e ↦ rw e (
        subst (λ (j : ℕ). Backed (s.stage j) (s.cache.heap j) → Backed r.1 (r.0.heap j))
          ((nat_eq_iff n m).0 e) a.backed b)
  ]

  after-Status : (m : ℕ) → Status (after.stage m) (r.0.heap m)
  after-Status m = elim (Bool-cases (nat_eq n m)) [
    | inr e ↦ rw e (Status-same (s.stage m) m s.cache r.0 (a.others m e) (i.status m))
    | inl e ↦ rw e (subst (λ (j : ℕ). Status r.1 (r.0.heap j)) ((nat_eq_iff n m).0 e) a.status)
  ]

  after-Sound : (m : ℕ) → Sound (r.0.heap m)
  after-Sound m = elim (Bool-cases (nat_eq n m)) [
    | inr e ↦ Sound-same m s.cache r.0 (a.others m e) (i.sound m)
    | inl e ↦ subst (λ (j : ℕ). Sound (r.0.heap j)) ((nat_eq_iff n m).0 e) a.sound
  ]

  after-mapped :
      (k : String) (m : ℕ) → lookup k r.0.entries ≡ some m → Backed (after.stage m) (r.0.heap m)
  after-mapped k m e = elim (a.mapped k m e) [
    | inl old ↦ after-Backed m (i.mapped k m old)
    | inr (same, started) ↦
        inl (let t : nat_eq n m ≡ true = (nat_eq_iff n m).1 (sym same) in rw t started)
  ]

  after-awaited : (j m : ℕ) → after.stage j ≡ waiting m → Backed (after.stage m) (r.0.heap m)
  after-awaited j m e = elim (Bool-cases (nat_eq n j)) [
    | inr f ↦ after-Backed m (i.awaited j m (ground arith))
    | inl f ↦ let (k, there) = a.joined m (ground arith) in after-Backed m (i.mapped k m there)
  ]

  after-Served : Served after
  after-Served = record {
    status = after-Status;
    sound = after-Sound;
    mapped = after-mapped;
    awaited = after-awaited;
  }

module _ (digest : String → String) (query : ℕ → Query) where
  pub Step-Served : (s t : System) → Step digest query s t → Served s → Served t
  Step-Served s t (pick n r mv e) i = subst Served (sym e) (
      after-Served s n r
        (Move-Advance n s.cache digest (query n) (s.stage n) r mv i.sound (i.status n)) i)
  Step-Served s t (tick clock h e) i =
      subst Served (sym e)
        (removal-Served s _ s.closer (sweep-Evicts clock s.cache.entries s.cache).shrinks i)
  Step-Served s t (close_begin h e) i =
      subst Served (sym e)
        (record { status = i.status; sound = i.sound; mapped = i.mapped; awaited = i.awaited })
  Step-Served s t (close_end h quiet e) i =
      subst Served (sym e) (removal-Served s _ shut (remove_all-Shrinks s.cache.entries s.cache) i)

  pub Reach-Served : (s t : System) → Reach digest query s t → Served s → Served t
  Reach-Served s t here i = i
  Reach-Served s v (later {t} r st) i = Step-Served t v st (Reach-Served s t r i)

  pub init-Served : (ttl max_size : ℤ) → Served (init ttl max_size)
  unfolding lookup
  init-Served ttl max_size = record {
    status = λ n. refl;
    sound = λ n h. cc;
    mapped = λ k m h. cc;
    awaited = λ n m h. cc;
  }

  -- A call of `get` returns either an instance and no error, or an error and no instance.
  pub returned-sane :
      (ttl max_size : ℤ) (s : System)
      → Reach digest query (init ttl max_size) s
      → (n : ℕ) (a : Option Instance) (f : Option GoError) → s.stage n ≡ returned a f
      → sane a f ≡ true
  returned-sane ttl max_size s r n a f e =
      let i = Reach-Served _ s r (init-Served ttl max_size) in
      subst (λ (p : Stage). Status p (s.cache.heap n)) e (i.status n)
