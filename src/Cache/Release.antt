-- ===== src/Cache/Release.antt =====
-- What Close leaves behind, in a cache whose entries do not expire.
use genkit_proxy.Common.{
  ℕ, ◌≡◌, ◌≢◌, refl, sym, ap, subst, ◌∙◌, ◌⊎◌, inl, inr, String, true, false, none, List, [], ◌∷◌,
  ◌==◌, nat_eq, nat_eq_iff, arith, Bool-cases, eq_iff, if-on,
}
use genkit_proxy.Common.Int.{ℤ, pos, ltb_ℤ}
use genkit_proxy.Common.Assoc.{lookup, lookup-erase}
use genkit_proxy.Errors.Result.{GoResult-cases}
use genkit_proxy.Cache.{
  live, GenkitCache, Query, Stage, building, key_of, enter, remove, remove_key, remove_all,
}
use genkit_proxy.Cache.System.{
  System, running, shut, Move, look_up, wake, give_up, construct, announce, Step, pick, tick,
  close_begin, close_end, Reach, here, later, init, at_stage, in_flight,
}
use genkit_proxy.Cache.Eviction.{sweep-Evicts, remove_all-Shrinks}
use genkit_proxy.Cache.Waiters.{Served, Step-Served, init-Served}
use genkit_proxy.RateLimit.{Clock}
use genkit_proxy.Cache.Advance.{Status}
use genkit_proxy.Cache.Contexts.{
  Owned, Timeless, InMap, Tends, Move-Tends, Shrinks-Owned, Evicts-InMap,
}

abbrev IsEmpty : GenkitCache → Type 0
IsEmpty c = (k : String) → lookup k c.entries ≡ none

remove_key-none :
    (key k : String) (c : GenkitCache)
    → (key ≡ k) ⊎ (lookup k c.entries ≡ none)
    → lookup k (remove_key key c).entries ≡ none
unfolding remove_key remove
remove_key-none key k c (inl e) = ground (arith, lookup-erase key k c.entries, eq_iff key k)
remove_key-none key k c (inr e) = ground (arith, lookup-erase key k c.entries, eq_iff key k)

remove_all-none :
    (k : String) (range : List (String × ℕ)) (c : GenkitCache)
    → (lookup k range ≡ none → lookup k c.entries ≡ none)
    → lookup k (remove_all range c).entries ≡ none
unfolding remove_all lookup
remove_all-none k [] c h = h refl
remove_all-none k ((key, m) ∷ range) c h = remove_all-none k range (remove_key key c) (λ e.
    elim (Bool-cases (key == k)) [
      | inl same ↦ remove_key-none key k c (inl ((eq_iff key k).0 same))
      | inr other ↦ remove_key-none key k c (inr (h (ground arith)))
    ])

remove_all-IsEmpty : (c : GenkitCache) → IsEmpty (remove_all c.entries c)
remove_all-IsEmpty c k = remove_all-none k c.entries c (λ e. e)

record Tended (s : System) : Type 0 where
  served : Served s
  timeless : Timeless s.cache
  owned : Owned s.cache
  in_map : (n : ℕ) (k : String) → s.stage n ≡ building k → InMap n k s.cache
  refuses : s.closer ≢ running → s.cache.closed ≡ true
  idle : s.closer ≡ shut → (n : ℕ) → in_flight (s.stage n) ≡ false
  empty : s.closer ≡ shut → IsEmpty s.cache

-- A step of a call that is not in flight leaves a closed cache alone and starts no build.
record Rests (c : GenkitCache) (r : GenkitCache × Stage) : Type 0 where
  same : r.0 ≡ c
  quiet : in_flight r.1 ≡ false

enter-Rests :
    (digest : String → String) (clock : Clock) (n : ℕ) (q : Query) (c : GenkitCache)
    → c.closed ≡ true
    → Rests c (enter digest clock n q c)
unfolding enter
enter-Rests digest clock n q c off = elim (GoResult-cases (key_of digest q)) [
  | inr (bad, e) ↦ rw (e, enter) (record { same = refl; quiet = refl })
  | inl (key, e) ↦
      rw (e, enter)
        (subst (Rests c) (sym (if-on c.closed _ _ off)) (record { same = refl; quiet = refl }))
]

Move-Rests :
    (digest : String → String) (n : ℕ) (q : Query) (c : GenkitCache) (p : Stage)
    (r : GenkitCache × Stage)
    → Move digest n q c p r
    → c.closed ≡ true
    → in_flight p ≡ false
    → Rests c r
Move-Rests digest n q c p r (look_up clock e f) h b =
    subst (Rests c) (sym f) (enter-Rests digest clock n q c h)
Move-Rests digest n q c p r (wake m e ready f) h b =
    subst (Rests c) (sym f) (record { same = refl; quiet = refl })
Move-Rests digest n q c p r (give_up m x e f) h b =
    subst (Rests c) (sym f) (record { same = refl; quiet = refl })
Move-Rests digest n q c p r (construct key failure e f) h b = absurd (ground arith)
Move-Rests digest n q c p r (announce a x e f) h b = absurd (ground arith)

module _ (digest : String → String) (query : ℕ → Query) where
  pick-InMap :
      (s : System) (n : ℕ) (r : GenkitCache × Stage)
      → Tends n s.cache r
      → Tended s
      → (m : ℕ) (k : String) → at_stage n r.1 s.stage m ≡ building k
      → InMap m k r.0
  pick-InMap s n r t i m k e = elim (Bool-cases (nat_eq n m)) [
    | inl f ↦
        let same : n ≡ m = (nat_eq_iff n m).0 f in
        subst (λ (j : ℕ). InMap j k r.0) same (t.own k (ground arith))
    | inr f ↦
        let at : s.stage m ≡ building k = ground arith in
        let unready = subst (λ (p : Stage). Status p (s.cache.heap m)) at (i.served.status m) in
        t.others m k f unready.0 (i.in_map m k at)
  ]

  pick-Tended :
      (s : System) (n : ℕ) (r : GenkitCache × Stage)
      → Move digest n (query n) s.cache (s.stage n) r
      → Tended s
      → Tended (record s { cache = r.0; stage = at_stage n r.1 s.stage })
  pick-Tended s n r mv i =
      let t =
        Move-Tends n s.cache i.owned digest (query n) (s.stage n) r mv i.timeless (i.in_map n) in
      let ttl = t.same_ttl in
      record {
        served = Step-Served digest query s _ (pick n r mv refl) i.served;
        timeless = ap (λ (x : ℤ). ltb_ℤ (pos 0) x) t.same_ttl ∙ i.timeless;
        owned = t.owned;
        in_map = pick-InMap s n r t i;
        refuses = λ h. t.same_closed ∙ i.refuses h;
        idle = λ h m.
            let x =
              Move-Rests digest n (query n) s.cache (s.stage n) r mv (i.refuses (λ e. cc))
                (i.idle h n) in
            let y = x.quiet in let z = i.idle h m in ground arith;
        empty = λ h k.
            let x =
              Move-Rests digest n (query n) s.cache (s.stage n) r mv (i.refuses (λ e. cc))
                (i.idle h n) in
            ap (λ (c : GenkitCache). lookup k c.entries) x.same ∙ i.empty h k;
      }

  Step-Tended : (s t : System) → Step digest query s t → Tended s → Tended t
  Step-Tended s t (pick n r mv e) i = subst Tended (sym e) (pick-Tended s n r mv i)
  Step-Tended s t (tick clock h e) i =
      let x = sweep-Evicts clock s.cache.entries s.cache in
      subst Tended (sym e) (record {
        served = Step-Served digest query s _ (tick clock h refl) i.served;
        timeless = ap (λ (x : ℤ). ltb_ℤ (pos 0) x) x.shrinks.same_ttl ∙ i.timeless;
        owned = Shrinks-Owned _ _ x.shrinks i.owned;
        in_map = λ n k at.
            let unready = subst (λ (p : Stage). Status p (s.cache.heap n)) at (i.served.status n) in
            Evicts-InMap _ _ n k x unready.0 (i.in_map n k at);
        refuses = λ f. x.shrinks.same_closed ∙ i.refuses f;
        idle = i.idle;
        empty = λ f. absurd (h f);
      })
  Step-Tended s t (close_begin h e) i = subst Tended (sym e) (record {
    served = Step-Served digest query s _ (close_begin h refl) i.served;
    timeless = i.timeless;
    owned =
        λ m f. let r = i.owned m f in record { cancel = r.cancel; key = r.key; there = r.there };
    in_map = i.in_map;
    refuses = λ f. refl;
    idle = λ f. cc;
    empty = λ f. cc;
  })
  Step-Tended s t (close_end h quiet e) i =
      let x = remove_all-Shrinks s.cache.entries s.cache in
      subst Tended (sym e) (record {
        served = Step-Served digest query s _ (close_end h quiet refl) i.served;
        timeless = ap (λ (x : ℤ). ltb_ℤ (pos 0) x) x.same_ttl ∙ i.timeless;
        owned = Shrinks-Owned _ _ x i.owned;
        in_map = λ n k at. let busy = quiet n in absurd (ground arith);
        refuses = λ f. x.same_closed ∙ i.refuses (λ g. cc);
        idle = λ f. quiet;
        empty = λ f. remove_all-IsEmpty s.cache;
      })

  Reach-Tended : (s t : System) → Reach digest query s t → Tended s → Tended t
  Reach-Tended s t here i = i
  Reach-Tended s v (later {t} r st) i = Step-Tended t v st (Reach-Tended s t r i)

  -- With time-based eviction off, every context that a build opened is cancelled once Close has
  -- returned, in whatever order calls, evictions and Close interleave.
  pub shut-not_live :
      (ttl max_size : ℤ)
      → ltb_ℤ (pos 0) ttl ≡ false
      → (s : System) → Reach digest query (init ttl max_size) s
      → s.closer ≡ shut
      → (n : ℕ) → (s.cache.heap n).context ≢ live
  unfolding lookup
  shut-not_live ttl max_size off s r h n e =
      let i = Reach-Tended _ s r (record {
        served = init-Served digest query ttl max_size;
        timeless = off;
        owned = λ m f. cc;
        in_map = λ m k f. cc;
        refuses = λ f. absurd (f refl);
        idle = λ f. cc;
        empty = λ f. cc;
      }) in
      let x = i.owned n e in let a = x.there in let b = i.empty h x.key in ground arith
