-- ===== src/Config/Loading/Steps.antt =====
-- When each step of loadConfig succeeds.
use genkit_proxy.Common.{
  ◌≡◌, ◌↔◌, ◌⊎◌, inl, inr, refl, String, Bool, Bool-cases, Option-cases, Option, none, some, List,
  [], ◌∷◌, map, ◌==◌, eq_iff, All, ℕ, ◌<◌,
}
use genkit_proxy.Common.Assoc.{insert}
use genkit_proxy.Common.Int.{ℤ, pos}
use genkit_proxy.Common.Text.{cut_last, trim_space}
use genkit_proxy.Errors.Chain.{Message}
use genkit_proxy.Errors.Result.{GoResult, ok, err, ◌>>=◌, GoResult-cases}
use genkit_proxy.Config.Loading.{
  Config, Table, setting, settings, duration, integer, boolean, or_error, parse_entry,
  parse_entries,
}
use genkit_proxy.Config.Loading.Numbers.{
  atoi, non_negative, non_negative_iff, positive, positive_iff, parse_bool,
}

abbrev pub Loads {ℓ} : {A : Type ℓ} → GoResult A → Type ℓ
Loads {A = A} r = (a : A) × (r ≡ ok a)

pub bind_loads {ℓ κ ι υ} :
    {A : Type ℓ} {B : Type κ} {P : Type ι} {Q : Type υ} (m : GoResult A) (f : A → GoResult B)
    → Loads m ↔ P
    → ((a : A) → Loads (f a) ↔ Q)
    → Loads (m >>= f) ↔ (P × Q)
bind_loads (ok a) f p q = (λ l. (p.0 (a, refl), (q a).0 l), λ h. (q a).1 h.1)
bind_loads (err e) f p q = (λ l. cc (l.1), λ h. cc ((p.1 h.0).1))

then_ok_loads {ℓ κ} :
    {A : Type ℓ} {B : Type κ} (m : GoResult A) (g : A → B) → Loads (m >>= λ a. ok (g a)) ↔ Loads m
then_ok_loads (ok a) g = (λ _. (a, refl), λ _. (g a, refl))
then_ok_loads (err e) g = (λ l. cc (l.1), λ l. cc (l.1))

-- A variable that is not set, or whose text is read.
abbrev pub Accepted {ℓ} : (String → String) → {A : Type ℓ} → (String → GoResult A) → String → Type ℓ
Accepted getenv parse env = (getenv env ≡ "") ⊎ Loads (parse (getenv env))

module _ (getenv : String → String) (parse_duration : String → GoResult ℤ) where
  pub setting_loads :
      {A : Type 0} (parse : String → String → GoResult A) (env : String) (put : A → Config → Config)
      (c : Config)
      → Loads (setting getenv parse_duration parse env put c) ↔ Accepted getenv (parse env) env
  unfolding setting
  setting_loads parse env put c = elim (Bool-cases (getenv env == "")) [
    | inl unset ↦ rw unset (λ _. inl ((eq_iff (getenv env) "").0 unset), λ _. (c, refl))
    | inr set ↦ rw set (
        let (to, from) = then_ok_loads (parse env (getenv env)) (λ v. put v c) in
        (
          λ l. inr (to l),
          λ h. elim h [ inl e ↦ cc (set, (eq_iff (getenv env) "").1 e) | inr l ↦ from l ],
        ))
  ]

  pub settings_loads :
      {A : Type 0} (parse : String → String → GoResult A) (rows : Table A) (c : Config)
      → Loads (settings getenv parse_duration parse rows c)
        ↔ All (λ env. Accepted getenv (parse env) env) (map (λ row. row.0) rows)
  unfolding settings
  settings_loads parse [] c = (λ _. tt, λ _. (c, refl))
  settings_loads parse (row ∷ rows) c =
      bind_loads (setting getenv parse_duration parse (row.0) (row.1) c)
        (settings getenv parse_duration parse rows) (setting_loads parse (row.0) (row.1) c)
        (settings_loads parse rows)

pub iff_trans {ℓ κ ι} : {A : Type ℓ} {B : Type κ} {C : Type ι} → A ↔ B → B ↔ C → A ↔ C
iff_trans f g = (λ a. g.0 (f.0 a), λ c. f.1 (g.1 c))

pub right_iff {ℓ κ ι} : {A : Type ℓ} {B : Type κ} {C : Type ι} → B ↔ C → (A ⊎ B) ↔ (A ⊎ C)
right_iff f = (
  λ h. elim h [ inl a ↦ inl a | inr b ↦ inr (f.0 b) ],
  λ h. elim h [ inl a ↦ inl a | inr c ↦ inr (f.1 c) ],
)

pub All_iff {ℓ κ ι} :
    {A : Type ℓ} (P : A → Type κ) (Q : A → Type ι)
    → ((a : A) → P a ↔ Q a)
    → (xs : List A) → All P xs ↔ All Q xs
All_iff P Q h [] = (λ _. tt, λ _. tt)
All_iff P Q h (x ∷ xs) =
    let rest = All_iff P Q h xs in
    (λ p. ((h x).0 (p.0), rest.0 (p.1)), λ q. ((h x).1 (q.0), rest.1 (q.1)))

-- An entry of RATE_LIMIT_MODELS: blank, or a name, the last colon and a positive number.
abbrev pub ModelEntry : String → Type 0
ModelEntry e =
    (e ≡ "")
    ⊎ ((p : String × String) × (cut_last b':' e ≡ some p)
        × ((n : ℕ) × (atoi (p.1) ≡ some (pos n)) × (0 < n)))

or_error_loads :
    {A : Type 0} (m : Message) (o : Option A) → Loads (or_error m o) ↔ ((a : A) × (o ≡ some a))
or_error_loads m none = (λ l. cc (l.1), λ l. cc (l.1))
or_error_loads m (some a) = (λ _. (a, refl), λ _. (a, refl))

some_iff {κ} :
    {A : Type 0} (o : Option A) (P : A → Type κ)
    → ((a : A) → (o ≡ some a) ↔ P a)
    → ((a : A) × (o ≡ some a)) ↔ ((a : A) × P a)
some_iff o P h = (λ x. (x.0, (h x.0).0 (x.1)), λ x. (x.0, (h x.0).1 (x.1)))

pub integer_loads : (env v : String) → Loads (integer env v) ↔ ((n : ℕ) × (atoi v ≡ some (pos n)))
unfolding integer
integer_loads env v =
    iff_trans (or_error_loads _ (non_negative v)) (some_iff _ _ (non_negative_iff v))

pub boolean_loads :
    (env v : String) → Loads (boolean env v) ↔ ((b : Bool) × (parse_bool v ≡ some b))
unfolding boolean
boolean_loads env v = elim (Option-cases (parse_bool v)) [
  | inl e ↦ rw (e, boolean) (λ l. cc (l.1), λ l. cc (l.1))
  | inr (b, e) ↦ rw (e, boolean) (λ _. (b, refl), λ _. (b, refl))
]

parse_entry_loads : (e : String) (m : List (String × ℕ)) → Loads (parse_entry e m) ↔ ModelEntry e
unfolding parse_entry
parse_entry_loads e m = elim (Bool-cases (e == "")) [
  | inl blank ↦ rw blank (λ _. inl ((eq_iff e "").0 blank), λ _. (m, refl))
  | inr full ↦ rw full (
      let not_blank : (e ≡ "") → ⊥ = λ h. cc (full, (eq_iff e "").1 h) in
      elim (Option-cases (cut_last b':' e)) [
        | inl none_left ↦
            rw none_left
              (λ l. cc (l.1), λ h. elim h [ inl b ↦ absurd (not_blank b) | inr (p, c, _) ↦ cc c ])
        | inr (p, c) ↦ rw c (elim (Option-cases (positive (p.1))) [
          | inl none_left ↦ rw none_left (
            λ l. cc (l.1),
            λ h. elim h [
              | inl b ↦ absurd (not_blank b)
              | inr (q, same, (n, a, big)) ↦ cc (none_left, same, (positive_iff (q.1) n).1 (a, big))
            ],
          )
          | inr (n, k) ↦ rw k (
              let (a, big) = (positive_iff (p.1) n).0 k in
              (λ _. inr (p, refl, (n, a, big)), λ _. (insert (p.0) n m, refl)))
        ])
      ])
]

pub parse_entries_loads :
    (es : List String) (m : List (String × ℕ))
    → Loads (parse_entries es m) ↔ All (λ e. ModelEntry (trim_space e)) es
unfolding parse_entries
parse_entries_loads [] m = (λ _. tt, λ _. (m, refl))
parse_entries_loads (e ∷ es) m =
    bind_loads (parse_entry (trim_space e) m) (parse_entries es)
      (parse_entry_loads (trim_space e) m) (parse_entries_loads es)

pub duration_loads :
    (parse_duration : String → GoResult ℤ) (env v : String)
    → Loads (duration parse_duration env v) ↔ Loads (parse_duration v)
unfolding duration
duration_loads parse_duration env v = elim (GoResult-cases (parse_duration v)) [
  | inl (d, e) ↦ rw (e, duration) (λ _. (d, refl), λ _. (d, refl))
  | inr (x, e) ↦ rw (e, duration) (λ l. cc (l.1), λ l. cc (l.1))
]
