-- ===== src/Examples/Deciding.antt =====
-- Concrete inputs for the theorems on errors, routes, requests, delays, limits and credentials.
use genkit_proxy.Common.{
  ℕ, zero, suc, ◌≤◌, ◌<◌, ◌+◌, ◌*◌, ◌^◌, ◌%◌, ◌≡◌, ◌≢◌, refl, String, Bool, true, false, Option,
  none, some, List, [], ◌∷◌, ◌||◌, ◌⊎◌, ◌↔◌, ◌==◌, arith, if◌then◌else◌, all, any,
}
use genkit_proxy.Common.Int.{pos}
use genkit_proxy.Common.Text.{trim_space}
use genkit_proxy.Errors.{status_for, safe_message, classify, is_retryable, is_logged, Category}
use genkit_proxy.Errors.Laws.{is_retryable_iff}
use genkit_proxy.Errors.Secrecy.{safe_message-relabel}
use genkit_proxy.Errors.Chain.{
  GoError, Message, text, opaque, openai, sentinel, no_provider_secret, errorf, relabel, wrapped,
}
use genkit_proxy.Errors.Result.{ok, err}
use genkit_proxy.Router.{provider_of, plugin_for, Plugin, provider_vertex_ai}
use genkit_proxy.Router.Laws.{Routes, provider_of_iff}
use genkit_proxy.Policy.{allows, new_model_allowlist}
use genkit_proxy.Policy.Laws.{grants, allows-new_model_allowlist}
use genkit_proxy.Request.{validate}
use genkit_proxy.Request.Valid.{IsValid}
use genkit_proxy.Request.Valid.Exact.{validate_iff}
use genkit_proxy.Retry.{retry_delay, ten_seconds}
use genkit_proxy.Retry.Delay.{retry_delay_bounds, retry_delay-eq-none_iff}
use genkit_proxy.RateLimit.Window.{full_key, full_key_inj}
use genkit_proxy.RateLimit.Memory.{new_memory_limiter}
use genkit_proxy.RateLimit.Memory.Run.{Request, answers, budgets, InOrder, answers-eq-budgets}
use genkit_proxy.Auth.{Resolver, Tenant, new_static_secret_source}
use genkit_proxy.Credentials.{resolve}
use genkit_proxy.Credentials.Laws.{Granted, Refused, Honest, resolve_iff, resolve-Refused}
use genkit_proxy.Examples.{token_id, hello}

abbrev leaky : GoError
leaky = wrapped (text "openai: bad key sk-123") (openai 401 (text "bad key sk-123"))

leaky-not_validation : classify leaky ≢ Category.validation
unfolding classify genkit_proxy.Errors.Chain.as_validation genkit_proxy.Errors.Chain.is
    genkit_proxy.Errors.Chain.as_genkit genkit_proxy.Errors.Chain.as_genai
    genkit_proxy.Errors.Chain.as_openai genkit_proxy.Errors.category_for_http
leaky-not_validation e = ground arith

leaky-not_unsupported : classify leaky ≢ Category.unsupported
unfolding classify genkit_proxy.Errors.Chain.as_validation genkit_proxy.Errors.Chain.is
    genkit_proxy.Errors.Chain.as_genkit genkit_proxy.Errors.Chain.as_genai
    genkit_proxy.Errors.Chain.as_openai genkit_proxy.Errors.category_for_http
leaky-not_unsupported e = ground arith

safe_message-relabel_example : safe_message (relabel (λ m. text "other") leaky) ≡ safe_message leaky
safe_message-relabel_example =
    safe_message-relabel (λ m. text "other") leaky leaky-not_validation leaky-not_unsupported

abbrev busy : GoError
busy = openai 429 (text "busy")

is_retryable_iff_example :
    (is_retryable busy ≡ true) ↔ ((status_for busy ≡ 429) ⊎ (status_for busy ≡ 502))
is_retryable_iff_example = is_retryable_iff busy

provider_of_iff_example :
    (provider_of "googleai/gemini-2.5-flash" ≡ ok "googleai")
    ↔ Routes "googleai/gemini-2.5-flash" "googleai"
provider_of_iff_example = provider_of_iff "googleai/gemini-2.5-flash" "googleai"

abbrev entries : List String
entries = "openai" ∷ " googleai/gemini-2.5-flash " ∷ "" ∷ []

allows-new_model_allowlist_example :
    allows (new_model_allowlist entries) "openai/gpt-4o"
    ≡ (all (λ e. trim_space e == "") entries || any (grants "openai/gpt-4o") entries)
allows-new_model_allowlist_example = allows-new_model_allowlist entries "openai/gpt-4o"

allows_test : allows (new_model_allowlist entries) "googleai/gemini-2.5-pro" ≡ false
unfolding allows new_model_allowlist trim_space genkit_proxy.Common.Text.contains
    genkit_proxy.Common.Text.cut_before
allows_test = refl

validate_iff_example : (validate hello ≡ none) ↔ IsValid hello
validate_iff_example = validate_iff hello

hello-valid : validate hello ≡ none
unfolding validate genkit_proxy.Router.is_blank trim_space provider_of genkit_proxy.Common.Text.cut
    genkit_proxy.Router.is_known_provider genkit_proxy.Request.below_one
    genkit_proxy.Request.is_tool_choice
hello-valid = refl

retry_delay_bounds_example :
    (d : ℕ) × (retry_delay (pos 100_000_000) 3 12_345 ≡ some d)
    × (d < 100_000_000 * 2 ^ 3)
    × (d < ten_seconds)
retry_delay_bounds_example = retry_delay_bounds 100_000_000 3 12_345 (omega arith) (omega arith)

retry_delay-eq-none_iff_example :
    (retry_delay (pos 100_000_000) 37 5 ≡ none)
    ↔ ((100_000_000 * 2 ^ 37 % 2 ^ 64 ≡ 0) ⊎ (2 ^ 63 ≤ 100_000_000 * 2 ^ 37 % 2 ^ 64))
retry_delay-eq-none_iff_example = retry_delay-eq-none_iff 100_000_000 37 5 (omega arith)

-- With the default base of 100 milliseconds the wait after the 38th attempt panics.
retry_delay_test : retry_delay (pos 100_000_000) 37 5 ≡ none
unfolding retry_delay genkit_proxy.Retry.jitter genkit_proxy.Retry.to_int64
retry_delay_test = refl

abbrev at : ℕ → String → Request
at t key = record { clock = record { now = t; later = t }; key = key; limit = 1 }

abbrev calls : List Request
calls = at 120 "a" ∷ at 130 "b" ∷ at 130 "a" ∷ at 200 "a" ∷ []

calls-InOrder : InOrder 100 calls
calls-InOrder = (omega arith, (omega arith, (omega arith, (omega arith, tt))))

answers-eq-budgets_example : answers calls (new_memory_limiter (pos 100)) ≡ budgets 100 calls []
answers-eq-budgets_example = answers-eq-budgets 100 100 calls calls-InOrder

budgets_test : budgets 100 calls [] ≡ true ∷ true ∷ false ∷ true ∷ []
unfolding budgets genkit_proxy.RateLimit.Memory.Spec.within_budget
    genkit_proxy.RateLimit.Memory.Spec.count_in genkit_proxy.RateLimit.Window.truncate
budgets_test = refl

abbrev pub tenants : Resolver
tenants = record {
  tenants = ("key-1", record { id = "acme"; secrets = ("openai", "acme-openai") ∷ [] }) ∷ [];
  source = new_static_secret_source (("acme-openai", "sk-acme") ∷ []);
}

tenants-Honest : Honest tenants.source
unfolding new_static_secret_source genkit_proxy.Auth.static_resolve genkit_proxy.Errors.Chain.errorf
    genkit_proxy.Errors.Chain.is genkit_proxy.Errors.Chain.as_validation
tenants-Honest ref e h = ground arith

resolve_iff_example :
    (resolve token_id tenants "key-1" "openai/gpt-4o" ≡ ok "sk-acme")
    ↔ Granted token_id tenants "key-1" "openai/gpt-4o" "sk-acme"
resolve_iff_example = resolve_iff token_id tenants "key-1" "openai/gpt-4o" "sk-acme"

resolve_test : resolve token_id tenants "key-1" "openai/gpt-4o" ≡ ok "sk-acme"
unfolding resolve provider_of genkit_proxy.Common.Text.cut genkit_proxy.Router.is_known_provider
    genkit_proxy.Router.is_blank trim_space genkit_proxy.Auth.resolve
    genkit_proxy.Common.Assoc.lookup new_static_secret_source genkit_proxy.Auth.static_resolve
resolve_test = refl

refused_test :
    resolve token_id tenants "key-2" "openai/gpt-4o"
    ≡ err (sentinel genkit_proxy.Errors.Chain.unknown_tenant)
unfolding resolve provider_of genkit_proxy.Common.Text.cut genkit_proxy.Router.is_known_provider
    genkit_proxy.Router.is_blank trim_space genkit_proxy.Auth.resolve
    genkit_proxy.Common.Assoc.lookup
refused_test = refl

resolve-Refused_example :
    Refused token_id tenants "key-2" "openai/gpt-4o"
      (sentinel genkit_proxy.Errors.Chain.unknown_tenant)
resolve-Refused_example =
    resolve-Refused token_id tenants tenants-Honest "key-2" "openai/gpt-4o" _ refused_test
