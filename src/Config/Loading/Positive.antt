-- ===== src/Config/Loading/Positive.antt =====
-- The limits of a configuration that loadConfig gives.
use genkit_proxy.Common.{
  ℕ, ◌<◌, ◌≡◌, ◌⊎◌, inl, inr, refl, sym, subst, String, Bool-cases, Option-cases, some, List, [],
  ◌∷◌, ◌==◌, if-on, if-off, ◌∙◌, All, arith, ltb,
}
use genkit_proxy.Common.Assoc.{lookup, lookup-insert}
use genkit_proxy.Common.Int.{ℤ}
use genkit_proxy.Common.Text.{cut_last, split, trim_space, cut_before}
use genkit_proxy.Errors.Result.{GoResult, chain-Succeeds, ok_inj, ok, ◌>>=◌}
use genkit_proxy.Config.{RateLimits, limit_for_model, provider_limit, limit_for}
use genkit_proxy.Config.Loading.{
  Config, Table, setting, settings, duration, integer, boolean, load_config, durations, integers,
  parse_entry, parse_entries, parse_model_limits, texts, default_config, set_port, set_by_model,
  set_cache_enabled, set_model_allowlist, set_gateway_auth_enabled,
}
use genkit_proxy.Config.Loading.Numbers.{positive, positive_iff}

abbrev AllPositive : List (String × ℕ) → Type 0
AllPositive m = (model : String) (n : ℕ) → lookup model m ≡ some n → 0 < n

parse_entry_keeps :
    (e : String) (m m' : List (String × ℕ))
    → AllPositive m
    → parse_entry e m ≡ ok m'
    → AllPositive m'
unfolding parse_entry
parse_entry_keeps e m m' h eq model n at = elim (Option-cases (cut_last b':' e)) [
  | inl none_left ↦ ground (arith, h model n)
  | inr (p, c) ↦ elim (Option-cases (positive (p.1))) [
    | inl none_left ↦ ground (arith, h model n)
    | inr (k, found) ↦
        ground (arith, h model n, (positive_iff (p.1) k).0 found, lookup-insert (p.0) model k m)
  ]
]

parse_entries_keeps :
    (es : List String) (m m' : List (String × ℕ))
    → AllPositive m
    → parse_entries es m ≡ ok m'
    → AllPositive m'
unfolding parse_entries
parse_entries_keeps [] m m' h eq = subst AllPositive (ok_inj eq) h
parse_entries_keeps (e ∷ es) m m' h eq =
    let s = chain-Succeeds (parse_entry (trim_space e) m) (parse_entries es) eq in
    parse_entries_keeps es s.value m' (parse_entry_keeps (trim_space e) m s.value h s.step)
      s.remaining

parse_model_limits-AllPositive :
    (v : String) (m : List (String × ℕ)) → parse_model_limits v ≡ ok m → AllPositive m
unfolding parse_model_limits lookup
parse_model_limits-AllPositive v m eq = elim (Bool-cases (v == "")) [
  | inl blank ↦ λ model n at. ground arith
  | inr full ↦
      parse_entries_keeps (split b',' v) [] m (λ model n at. cc at)
        (sym (if-off (v == "") _ _ full) ∙ eq)
]

module _ (getenv : String → String) (parse_duration : String → GoResult ℤ)
    (P : Config → Type 0) where
  setting_keeps :
      {A : Type 0} (parse : String → String → GoResult A) (env : String) (put : A → Config → Config)
      (c c' : Config)
      → ((v : A) → parse env (getenv env) ≡ ok v → P c → P (put v c))
      → P c
      → setting getenv parse_duration parse env put c ≡ ok c'
      → P c'
  unfolding setting
  setting_keeps parse env put c c' keep h eq = elim (Bool-cases (getenv env == "")) [
    | inl unset ↦ subst P (ok_inj (sym (if-on (getenv env == "") _ _ unset) ∙ eq)) h
    | inr set ↦
        let s =
          chain-Succeeds (parse env (getenv env)) (λ v. ok (put v c))
            (sym (if-off (getenv env == "") _ _ set) ∙ eq) in
        subst P (ok_inj s.remaining) (keep s.value s.step h)
  ]

  settings_keeps :
      {A : Type 0} (parse : String → String → GoResult A) (rows : Table A) (c c' : Config)
      → All (λ row. (v : A) (c : Config) → P c → P (row.1 v c)) rows
      → P c
      → settings getenv parse_duration parse rows c ≡ ok c'
      → P c'
  unfolding settings
  settings_keeps parse [] c c' keep h eq = subst P (ok_inj eq) h
  settings_keeps parse (row ∷ rows) c c' keep h eq =
      let s =
        chain-Succeeds (setting getenv parse_duration parse (row.0) (row.1) c)
          (settings getenv parse_duration parse rows) eq in
      settings_keeps parse rows s.value c' (keep.1)
        (setting_keeps parse (row.0) (row.1) c s.value (λ v _ k. keep.0 v c k) h s.step) s.remaining

abbrev PositiveLimits : Config → Type 0
PositiveLimits c = AllPositive c.limits.by_model

-- One step of loadConfig, and what follows it.
after {κ} :
    {A : Type 0} {P : A → Type κ} (m : GoResult A) {f : A → GoResult Config} {c : Config}
    {Q : Type κ}
    → ((a : A) → m ≡ ok a → P a)
    → ((a : A) → P a → f a ≡ ok c → Q)
    → (m >>= f) ≡ ok c
    → Q
after m {f} one rest eq =
    let s = chain-Succeeds m f eq in rest s.value (one s.value s.step) s.remaining

pub load_config-PositiveLimits :
    (getenv : String → String) (pd : String → GoResult ℤ) (c : Config)
    → load_config getenv pd ≡ ok c
    → PositiveLimits c
unfolding load_config durations integers texts default_config lookup
load_config-PositiveLimits getenv pd c =
    after (setting getenv pd (λ env v. ok v) "PORT" set_port default_config)
      (λ c1.
        setting_keeps getenv pd PositiveLimits (λ env v. ok v) "PORT" set_port default_config c1
          (λ v _ h. h) (λ model n at. cc at))
      λ c1 h1.
        after (settings getenv pd (duration pd) durations c1)
          (λ c2.
            settings_keeps getenv pd PositiveLimits (duration pd) durations c1 c2
              (
                λ v c h. h,
                (
                  λ v c h. h,
                  (
                    λ v c h. h,
                    (λ v c h. h, (λ v c h. h, (λ v c h. h, (λ v c h. h, (λ v c h. h, tt))))),
                  ),
                ),
              )
              h1)
          λ c2 h2.
            after (settings getenv pd integer integers c2)
              (λ c3.
                settings_keeps getenv pd PositiveLimits integer integers c2 c3
                  (
                    λ v c h. h,
                    (
                      λ v c h. h,
                      (
                        λ v c h. h,
                        (λ v c h. h, (λ v c h. h, (λ v c h. h, (λ v c h. h, (λ v c h. h, tt))))),
                      ),
                    ),
                  )
                  h2)
              λ c3 h3.
                after (settings getenv pd (λ env v. ok v) texts c3)
                  (λ c4.
                    settings_keeps getenv pd PositiveLimits (λ env v. ok v) texts c3 c4
                      (
                        λ v c h. h,
                        (
                          λ v c h. h,
                          (λ v c h. h, (λ v c h. h, (λ v c h. h, (λ v c h. h, (λ v c h. h, tt))))),
                        ),
                      )
                      h3)
                  λ c4 h4.
                    after
                      (setting getenv pd (λ env v. parse_model_limits v) "RATE_LIMIT_MODELS"
                        set_by_model c4)
                      (λ c5.
                        setting_keeps getenv pd PositiveLimits (λ env v. parse_model_limits v)
                          "RATE_LIMIT_MODELS" set_by_model c4 c5
                          (λ m e _. parse_model_limits-AllPositive (getenv "RATE_LIMIT_MODELS") m e)
                          h4)
                      λ c5 h5.
                        after
                          (setting getenv pd boolean "GENKIT_CACHE_ENABLED" set_cache_enabled c5)
                          (λ c6.
                            setting_keeps getenv pd PositiveLimits boolean "GENKIT_CACHE_ENABLED"
                              set_cache_enabled c5 c6 (λ v _ h. h) h5)
                          λ c6 h6.
                            after
                              (setting getenv pd (λ env v. ok (split b',' v)) "MODEL_ALLOWLIST"
                                set_model_allowlist c6)
                              (λ c7.
                                setting_keeps getenv pd PositiveLimits (λ env v. ok (split b',' v))
                                  "MODEL_ALLOWLIST" set_model_allowlist c6 c7 (λ v _ h. h) h6)
                              λ c7 h7.
                                setting_keeps getenv pd PositiveLimits boolean
                                  "GATEWAY_AUTH_ENABLED" set_gateway_auth_enabled c7 c (λ v _ h. h)
                                  h7

provider_limit_cases :
    (to_lower : String → String) (l : RateLimits) (p : String)
    → (0 < (provider_limit to_lower l p).0) ⊎ (provider_limit to_lower l p ≡ (0, ""))
unfolding provider_limit
provider_limit_cases to_lower l p = elim (Bool-cases (ltb 0 (limit_for to_lower l p))) [
  | inl some_limit ↦ rw some_limit (inl (ground arith))
  | inr no_limit ↦ rw no_limit (inr refl)
]

-- In a loaded configuration a model is checked against a positive limit, or it has none: then the
-- limit is 0 and there is no key tag.
pub load_config-limit_for_model :
    (getenv : String → String) (pd : String → GoResult ℤ) (to_lower : String → String) (c : Config)
    → load_config getenv pd ≡ ok c
    → (model : String)
    → (0 < (limit_for_model to_lower c.limits model).0)
      ⊎ (limit_for_model to_lower c.limits model ≡ (0, ""))
unfolding limit_for_model
load_config-limit_for_model getenv pd to_lower c eq model =
    let positive_limit = load_config-PositiveLimits getenv pd c eq in
    elim (Option-cases (lookup model c.limits.by_model)) [
      | inl none_left ↦
          rw (none_left, limit_for_model)
            (provider_limit_cases to_lower c.limits (cut_before b'/' model))
      | inr (n, found) ↦ rw (found, limit_for_model) (inl (positive_limit model n found))
    ]
