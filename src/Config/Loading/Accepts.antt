-- ===== src/Config/Loading/Accepts.antt =====
-- The environments with which loadConfig succeeds.
use genkit_proxy.Common.{
  ◌≡◌, ◌↔◌, ◌⊎◌, inl, inr, refl, String, Bool, Bool-cases, some, List, [], ◌∷◌, map, ◌==◌, eq_iff,
  All, ℕ,
}
use genkit_proxy.Common.Int.{ℤ, pos}
use genkit_proxy.Common.Text.{split, trim_space}
use genkit_proxy.Errors.Result.{GoResult, ok}
use genkit_proxy.Config.Loading.{
  duration, integer, boolean, load_config, durations, integers, parse_model_limits, texts,
  default_config, set_port, set_by_model, set_cache_enabled, set_model_allowlist,
  set_gateway_auth_enabled,
}
use genkit_proxy.Config.Loading.Numbers.{atoi, parse_bool}
use genkit_proxy.Config.Loading.Steps.{
  Loads, Accepted, ModelEntry, iff_trans, right_iff, All_iff, setting_loads, settings_loads,
  bind_loads, parse_entries_loads, integer_loads, boolean_loads, duration_loads,
}

abbrev pub Natural : String → Type 0
Natural v = (n : ℕ) × (atoi v ≡ some (pos n))

abbrev pub Boolean : String → Type 0
Boolean v = (b : Bool) × (parse_bool v ≡ some b)

abbrev pub ModelEntries : String → Type 0
ModelEntries v = All (λ e. ModelEntry (trim_space e)) (split b',' v)

parse_model_limits_loads : (v : String) → Loads (parse_model_limits v) ↔ ((v ≡ "") ⊎ ModelEntries v)
unfolding parse_model_limits
parse_model_limits_loads v = elim (Bool-cases (v == "")) [
  | inl blank ↦ rw blank (λ _. inl ((eq_iff v "").0 blank), λ _. ([], refl))
  | inr full ↦ rw full (
      let (to, from) = parse_entries_loads (split b',' v) [] in
      (λ l. inr (to l), λ h. elim h [ inl e ↦ cc (full, (eq_iff v "").1 e) | inr es ↦ from es ]))
]

abbrev pub duration_names : List String
duration_names =
    "READ_HEADER_TIMEOUT" ∷ "READ_TIMEOUT" ∷ "WRITE_TIMEOUT" ∷ "IDLE_TIMEOUT" ∷ "GENERATE_TIMEOUT"
    ∷ "RATE_LIMIT_WINDOW" ∷ "RETRY_BASE_BACKOFF" ∷ "GENKIT_CACHE_TTL" ∷ []

abbrev pub integer_names : List String
integer_names =
    "RATE_LIMIT_RPS" ∷ "RATE_LIMIT_STREAM_RPS" ∷ "RATE_LIMIT_GOOGLEAI_RPS" ∷ "RATE_LIMIT_OPENAI_RPS"
    ∷ "RATE_LIMIT_ANTHROPIC_RPS" ∷ "RATE_LIMIT_VERTEXAI_RPS" ∷ "RETRY_MAX_ATTEMPTS"
    ∷ "GENKIT_CACHE_MAX_SIZE" ∷ []

module _ (getenv : String → String) where
  -- A variable that is not set, or whose text is a `P`.
  abbrev pub Reads : (String → Type 0) → String → Type 0
  Reads P env = (getenv env ≡ "") ⊎ P (getenv env)

  -- Every variable that is set holds a text of its kind. Any text is one for the other variables.
  pub record ValidEnv (parse_duration : String → GoResult ℤ) : Type 0 where
    pub durations : All (Reads (λ v. Loads (parse_duration v))) duration_names
    pub integers : All (Reads Natural) integer_names
    pub models : Reads ModelEntries "RATE_LIMIT_MODELS"
    pub cache_enabled : Reads Boolean "GENKIT_CACHE_ENABLED"
    pub gateway_auth_enabled : Reads Boolean "GATEWAY_AUTH_ENABLED"

  any_texts : (rows : List String) → All (λ env. Accepted getenv (λ v. ok v) env) rows
  any_texts [] = tt
  any_texts (r ∷ rows) = (inr (getenv r, refl), any_texts rows)

  models_iff :
      Accepted getenv (λ v. parse_model_limits v) "RATE_LIMIT_MODELS"
      ↔ Reads ModelEntries "RATE_LIMIT_MODELS"
  models_iff =
      let (to, from) = parse_model_limits_loads (getenv "RATE_LIMIT_MODELS") in
      (λ h. elim h [ inl e ↦ inl e | inr l ↦ to l ], λ h. inr (from h))

  -- loadConfig succeeds exactly if every variable that is set holds a text of its kind: the eight
  -- durations, the eight integers that are not negative, the two Booleans, and the entries of
  -- RATE_LIMIT_MODELS, each blank or a name, a colon and a positive number.
  pub load_config_iff :
      (parse_duration : String → GoResult ℤ)
      → Loads (load_config getenv parse_duration) ↔ ValidEnv parse_duration
  unfolding load_config durations integers texts
  load_config_iff pd =
      iff_trans
        (bind_loads _ _ (setting_loads getenv pd (λ env v. ok v) "PORT" set_port default_config)
          λ c1. bind_loads _ _ (settings_loads getenv pd (duration pd) durations c1) λ c2.
            bind_loads _ _ (settings_loads getenv pd integer integers c2) λ c3.
              bind_loads _ _ (settings_loads getenv pd (λ env v. ok v) texts c3) λ c4.
                bind_loads _ _
                  (setting_loads getenv pd (λ env v. parse_model_limits v) "RATE_LIMIT_MODELS"
                    set_by_model c4)
                  λ c5.
                    bind_loads _ _
                      (setting_loads getenv pd boolean "GENKIT_CACHE_ENABLED" set_cache_enabled c5)
                      λ c6.
                        bind_loads _ _
                          (setting_loads getenv pd (λ env v. ok (split b',' v)) "MODEL_ALLOWLIST"
                            set_model_allowlist c6)
                          λ c7.
                            setting_loads getenv pd boolean "GATEWAY_AUTH_ENABLED"
                              set_gateway_auth_enabled c7)
        (let durations_iff =
            All_iff (λ env. Accepted getenv (duration pd env) env) (Reads (λ v. Loads (pd v)))
              (λ env. right_iff (duration_loads pd env (getenv env))) duration_names in
          let integers_iff =
            All_iff (λ env. Accepted getenv (integer env) env) (Reads Natural)
              (λ env. right_iff (integer_loads env (getenv env))) integer_names in
          let boolean_iff : (env : String) → Accepted getenv (boolean env) env ↔ Reads Boolean env =
            λ env. right_iff (boolean_loads env (getenv env)) in
          (
            λ l. record {
              durations = durations_iff.0 l.1.0;
              integers = integers_iff.0 l.1.1.0;
              models = models_iff.0 l.1.1.1.1.0;
              cache_enabled = (boolean_iff _).0 l.1.1.1.1.1.0;
              gateway_auth_enabled = (boolean_iff _).0 l.1.1.1.1.1.1.1;
            },
            λ v. (
              inr (getenv "PORT", refl),
              (
                durations_iff.1 v.durations,
                (
                  integers_iff.1 v.integers,
                  (
                    any_texts (map (λ row. row.0) texts),
                    (
                      models_iff.1 v.models,
                      (
                        (boolean_iff _).1 v.cache_enabled,
                        (
                          inr (split b',' (getenv "MODEL_ALLOWLIST"), refl),
                          (boolean_iff _).1 v.gateway_auth_enabled,
                        ),
                      ),
                    ),
                  ),
                ),
              ),
            ),
          ))
