-- ===== src/Errors/Laws.antt =====
-- What classify, statusFor and isRetryable answer.
use genkit_proxy.Common.{◌≤◌, ◌≡◌, ◌↔◌, ◌⊎◌, refl, true, arith}
use genkit_proxy.Errors.{
  Category, category_for_http, classify, status_for, status_of, is_retryable, is_logged, rank,
  safe_message,
}
use genkit_proxy.Errors.Chain.{
  GoError, Message, errorf, is, as_validation, as_genkit, as_genai, as_openai,
}

-- Wrapping by fmt.Errorf with %w changes no decision: the category, the status, the retry test
-- and the log test are those of the cause.
pub classify-errorf :
    (before after : Message) (cause : GoError)
    → (classify (errorf before cause after) ≡ classify cause)
      × (status_for (errorf before cause after) ≡ status_for cause)
      × (is_retryable (errorf before cause after) ≡ is_retryable cause)
      × (is_logged (errorf before cause after) ≡ is_logged cause)
unfolding classify status_for is_retryable is_logged errorf is as_validation as_genkit as_genai
    as_openai
classify-errorf before after cause = (refl, refl, refl, refl)

-- An error is retried exactly when its status is 429 or 502.
pub is_retryable_iff :
    (err : GoError) → (is_retryable err ≡ true) ↔ ((status_for err ≡ 429) ⊎ (status_for err ≡ 502))
unfolding is_retryable status_for
is_retryable_iff err = go (classify err)
  where
    go :
        (c : Category)
        → (genkit_proxy.Errors.retryable_category c ≡ true)
          ↔ ((status_of c ≡ 429) ⊎ (status_of c ≡ 502))
    go c = ground arith

-- Every status for an error is one of 400 to 504.
pub status_for_bounds : (err : GoError) → (400 ≤ status_for err) × (status_for err ≤ 504)
unfolding status_for
status_for_bounds err = go (classify err)
  where
    go : (c : Category) → (400 ≤ status_of c) × (status_of c ≤ 504)
    go c = ground arith
