-- ===== src/Config/Loading/Gateway.antt =====
-- What loadConfig makes of GATEWAY_AUTH_ENABLED.
use genkit_proxy.Common.{
  ◌≡◌, refl, sym, ap, String, Bool, inl, inr, some, Bool-cases, ◌==◌, eq_iff, subst, false,
}
use genkit_proxy.Common.Int.{ℤ}
use genkit_proxy.Errors.Result.{GoResult, ok, err, chain-Succeeds}
use genkit_proxy.Config.Loading.{
  Config, setting, settings, boolean, duration, integer, load_config, parse_model_limits, durations,
  integers, texts, default_config, set_port, set_by_model, set_cache_enabled, set_model_allowlist,
  set_gateway_auth_enabled,
}
use genkit_proxy.Common.Text.{split}
use genkit_proxy.Config.Loading.Numbers.{parse_bool}

-- ParseBool does not read the empty text.
parse_bool_set : (v : String) (b : Bool) → parse_bool v ≡ some b → (v == "") ≡ false
unfolding parse_bool
parse_bool_set v b e = elim (Bool-cases (v == "")) [
  | inr set ↦ set
  | inl blank ↦ absurd (nothing (subst (λ t. parse_bool t ≡ some b) ((eq_iff v "").0 blank) e))
]
  where
    nothing : parse_bool "" ≡ some b → ⊥
    nothing h = cc h

gateway_setting :
    (getenv : String → String) (pd : String → GoResult ℤ) (c c' : Config) (b : Bool)
    → parse_bool (getenv "GATEWAY_AUTH_ENABLED") ≡ some b
    → setting getenv pd boolean "GATEWAY_AUTH_ENABLED" set_gateway_auth_enabled c ≡ ok c'
    → c'.gateway_auth_enabled ≡ b
unfolding setting boolean
gateway_setting getenv pd c c' b read eq =
    let set = parse_bool_set (getenv "GATEWAY_AUTH_ENABLED") b read in
    let same : ok (set_gateway_auth_enabled b c) ≡ ok c' =
      subst (λ (r : GoResult Config). r ≡ ok c') (rw (set, setting) (rw (read, boolean) refl)) eq in
    ap (λ (r : GoResult Config). elim r [ ok x ↦ x.gateway_auth_enabled | err e ↦ b ]) (sym same)

-- If the variable holds a text that ParseBool reads, the configuration has its value.
pub load_config-gateway_auth_enabled :
    (getenv : String → String) (parse_duration : String → GoResult ℤ) (c : Config) (b : Bool)
    → parse_bool (getenv "GATEWAY_AUTH_ENABLED") ≡ some b
    → load_config getenv parse_duration ≡ ok c
    → c.gateway_auth_enabled ≡ b
unfolding load_config
load_config-gateway_auth_enabled getenv pd c b read eq =
    let s1 =
      chain-Succeeds (setting getenv pd (λ env v. ok v) "PORT" set_port default_config) _ eq in
    let s2 = chain-Succeeds (settings getenv pd (duration pd) durations s1.value) _ s1.remaining in
    let s3 = chain-Succeeds (settings getenv pd integer integers s2.value) _ s2.remaining in
    let s4 = chain-Succeeds (settings getenv pd (λ env v. ok v) texts s3.value) _ s3.remaining in
    let s5 =
      chain-Succeeds
        (setting getenv pd (λ env v. parse_model_limits v) "RATE_LIMIT_MODELS" set_by_model
          s4.value)
        _ s4.remaining in
    let s6 =
      chain-Succeeds (setting getenv pd boolean "GENKIT_CACHE_ENABLED" set_cache_enabled s5.value) _
        s5.remaining in
    let s7 =
      chain-Succeeds
        (setting getenv pd (λ env v. ok (split b',' v)) "MODEL_ALLOWLIST" set_model_allowlist
          s6.value)
        _ s6.remaining in
    gateway_setting getenv pd s7.value c b read s7.remaining
