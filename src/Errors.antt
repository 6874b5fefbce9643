-- ===== src/Errors.antt =====
-- internal/proxy/errors.go, with statusFor (internal/proxy/proxy.go), isRetryable
-- (internal/proxy/retry.go) and the sentinel errors of internal/auth/resolver.go.
-- An `error` value is its chain: leaves are sentinels and typed errors, and `wrapped` is what
-- fmt.Errorf with %w builds. `GenkitError.http_code` is what core.HTTPStatusCode of the genkit
-- library gives for the status; codes outside ℕ fall in the default case like every other one.
pub mod Chain
pub mod Result
pub mod Laws
pub mod Secrecy
use genkit_proxy.Common.{
  Bool, true, false, ◌||◌, ℕ, Option, none, some, ltb, nat_eq, not, if◌then◌else◌,
}
use Chain.{
  GoError, GenkitStatus, Message, unsupported_provider, unknown_tenant, no_provider_secret,
  secret_unavailable, deadline_exceeded, canceled, is, as_validation, as_genkit, as_genai,
  as_openai, error_text, text,
}

pub data Category : Type 0 where
  validation unsupported unauthenticated permission_denied rate_limit timeout not_found : Category
  upstream internal : Category

-- categoryForHTTP.
unfoldable pub category_for_http : ℕ → Category
category_for_http code =
    if nat_eq code 401
    then Category.unauthenticated
    else if nat_eq code 403
    then Category.permission_denied
    else if nat_eq code 429
    then Category.rate_limit
    else if nat_eq code 504 || nat_eq code 408
    then Category.timeout
    else if nat_eq code 404
    then Category.not_found
    else Category.upstream

category_for_genkit : GenkitStatus → ℕ → Category
unfolding category_for_http
category_for_genkit GenkitStatus.unauthenticated code = Category.unauthenticated
category_for_genkit GenkitStatus.permission_denied code = Category.permission_denied
category_for_genkit GenkitStatus.resource_exhausted code = Category.rate_limit
category_for_genkit GenkitStatus.deadline_exceeded_status code = Category.timeout
category_for_genkit GenkitStatus.not_found code = Category.not_found
category_for_genkit (GenkitStatus.other_status s) code = category_for_http code

-- The part of classify behind the sentinels: the typed errors of the provider SDKs.
category_for_sdk : GoError → Category
unfolding category_for_genkit
category_for_sdk err = elim (as_genkit err) [
  | some g ↦ category_for_genkit (g.0) (g.1)
  | none ↦ elim (as_genai err) [
    | some code ↦ category_for_http code
    | none ↦ elim (as_openai err) [ some code ↦ category_for_http code | none ↦ Category.upstream ]
  ]
]

unfoldable pub classify : GoError → Category
unfolding category_for_sdk
classify err = elim (as_validation err) [
  | some v ↦ Category.validation
  | none ↦
      if is unsupported_provider err
      then Category.unsupported
      else if is unknown_tenant err
      then Category.unauthenticated
      else if is no_provider_secret err
      then Category.permission_denied
      else if is secret_unavailable err
      then Category.internal
      else if is deadline_exceeded err || is canceled err
      then Category.timeout
      else category_for_sdk err
]

-- safeMessage, behind its three sentinel cases.
safe_category_message : Category → GoError → Message
safe_category_message Category.validation err = error_text err
safe_category_message Category.unsupported err = error_text err
safe_category_message Category.unauthenticated err =
    text "upstream provider rejected the supplied credentials"
safe_category_message Category.permission_denied err = text "upstream provider denied access"
safe_category_message Category.rate_limit err = text "upstream provider rate limit exceeded"
safe_category_message Category.timeout err = text "upstream provider request timed out"
safe_category_message Category.not_found err = text "requested model was not found"
safe_category_message Category.upstream err = text "upstream provider error"
safe_category_message Category.internal err = text "upstream provider error"

unfoldable pub safe_message : GoError → Message
unfolding safe_category_message
safe_message err =
    if is unknown_tenant err
    then text "gateway authentication failed"
    else if is no_provider_secret err
    then text "no provider credential configured for tenant"
    else if is secret_unavailable err
    then text "internal credential resolution error"
    else safe_category_message (classify err) err

-- statusFor.
unfoldable pub status_of : Category → ℕ
status_of Category.validation = 400
status_of Category.unsupported = 400
status_of Category.unauthenticated = 401
status_of Category.permission_denied = 403
status_of Category.rate_limit = 429
status_of Category.timeout = 504
status_of Category.not_found = 404
status_of Category.internal = 500
status_of Category.upstream = 502

unfoldable pub status_for : GoError → ℕ
unfolding status_of
status_for err = status_of (classify err)

-- isRetryable.
unfoldable pub retryable_category : Category → Bool
retryable_category Category.rate_limit = true
retryable_category Category.upstream = true
retryable_category _ = false

unfoldable pub is_retryable : GoError → Bool
unfolding retryable_category
is_retryable err = retryable_category (classify err)

-- The order of the categories, and `classify(err) >= categoryUnauthenticated`, the test by which
-- the handlers log an error.
unfoldable pub rank : Category → ℕ
rank Category.validation = 0
rank Category.unsupported = 1
rank Category.unauthenticated = 2
rank Category.permission_denied = 3
rank Category.rate_limit = 4
rank Category.timeout = 5
rank Category.not_found = 6
rank Category.upstream = 7
rank Category.internal = 8

unfoldable pub is_logged : GoError → Bool
unfolding rank
is_logged err = not (ltb (rank (classify err)) 2)
