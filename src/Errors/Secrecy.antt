-- ===== src/Errors/Secrecy.antt =====
-- What safeMessage lets out.
use genkit_proxy.Common.{◌≡◌, ◌≢◌, refl, arith}
use mathlib.Core.Option
use genkit_proxy.Errors.{Category, classify, safe_message}
use genkit_proxy.Errors.Chain.{
  unsupported_provider, unknown_tenant, no_provider_secret, secret_unavailable, deadline_exceeded,
  canceled, GoError, Message, Sentinel, is, as_validation, as_genkit, as_genai, as_openai, relabel,
  validation, genkit_caused, wrapped,
}

is-relabel : (f : Message → Message) (s : Sentinel) (e : GoError) → is s (relabel f e) ≡ is s e
unfolding is relabel
is-relabel f s (genkit_caused t c m e) = is-relabel f s e
is-relabel f s (wrapped m e) = is-relabel f s e
is-relabel f s _ = refl

as_genkit-relabel : (f : Message → Message) (e : GoError) → as_genkit (relabel f e) ≡ as_genkit e
unfolding as_genkit relabel
as_genkit-relabel f (wrapped m e) = as_genkit-relabel f e
as_genkit-relabel f _ = refl

as_genai-relabel : (f : Message → Message) (e : GoError) → as_genai (relabel f e) ≡ as_genai e
unfolding as_genai relabel
as_genai-relabel f (wrapped m e) = as_genai-relabel f e
as_genai-relabel f (genkit_caused t c m e) = as_genai-relabel f e
as_genai-relabel f _ = refl

as_openai-relabel : (f : Message → Message) (e : GoError) → as_openai (relabel f e) ≡ as_openai e
unfolding as_openai relabel
as_openai-relabel f (wrapped m e) = as_openai-relabel f e
as_openai-relabel f (genkit_caused t c m e) = as_openai-relabel f e
as_openai-relabel f _ = refl

relabel_pair : (Message → Message) → Message × Message → Message × Message
relabel_pair f (a, b) = (f a, f b)

as_validation-relabel :
    (f : Message → Message) (e : GoError)
    → as_validation (relabel f e) ≡ Option.map (relabel_pair f) (as_validation e)
unfolding as_validation relabel relabel_pair
as_validation-relabel f (wrapped m e) = as_validation-relabel f e
as_validation-relabel f (genkit_caused t c m e) = as_validation-relabel f e
as_validation-relabel f (validation a b) = refl
as_validation-relabel f _ = refl

-- The texts of an error never decide its category, and so not its status.
pub classify-relabel : (f : Message → Message) (e : GoError) → classify (relabel f e) ≡ classify e
unfolding classify
classify-relabel f e = ground (
  arith,
  is-relabel f unsupported_provider e,
  is-relabel f unknown_tenant e,
  is-relabel f no_provider_secret e,
  is-relabel f secret_unavailable e,
  is-relabel f deadline_exceeded e,
  is-relabel f canceled e,
  as_validation-relabel f e,
  as_genkit-relabel f e,
  as_genai-relabel f e,
  as_openai-relabel f e,
)

-- Unless the category is caller-caused, the message to the client does not depend on any text of
-- the error: what a provider, a secret store or a resolver wrote into it cannot leak.
pub safe_message-relabel :
    (f : Message → Message) (e : GoError)
    → classify e ≢ Category.validation
    → classify e ≢ Category.unsupported
    → safe_message (relabel f e) ≡ safe_message e
unfolding safe_message
safe_message-relabel f e h k = ground (
  arith,
  is-relabel f unknown_tenant e,
  is-relabel f no_provider_secret e,
  is-relabel f secret_unavailable e,
  classify-relabel f e,
)
