-- ===== src/Errors/Chain.antt =====
-- The values of Go's `error` that the program makes or meets, and errors.Is and errors.As over
-- them. A text is kept as its pieces: a `quoted` piece is one that %q prints.
use genkit_proxy.Common.{ℕ, String, Bool, false, Option, none, some, List, [], ◌∷◌, ◌++◌, nat_eq}

pub data Piece : Type 0 where
  lit quoted : String → Piece
  number : ℕ → Piece

abbrev pub Message : Type 0
Message = List Piece

abbrev pub text : String → Message
text s = lit s ∷ []

-- The package-level errors that the program compares with errors.Is.
pub data Sentinel : Type 0 where
  missing_credentials unsupported_provider unknown_tenant no_provider_secret : Sentinel
  secret_unavailable cache_closed deadline_exceeded canceled : Sentinel

abbrev sentinel_code : Sentinel → ℕ
sentinel_code missing_credentials = 0
sentinel_code unsupported_provider = 1
sentinel_code unknown_tenant = 2
sentinel_code no_provider_secret = 3
sentinel_code secret_unavailable = 4
sentinel_code cache_closed = 5
sentinel_code deadline_exceeded = 6
sentinel_code canceled = 7

abbrev pub sentinel_eq : Sentinel → Sentinel → Bool
sentinel_eq a b = nat_eq (sentinel_code a) (sentinel_code b)

unfoldable pub sentinel_text : Sentinel → Message
sentinel_text missing_credentials = text "missing or malformed Authorization bearer token"
sentinel_text unsupported_provider = text "unsupported model provider"
sentinel_text unknown_tenant = text "unknown gateway tenant"
sentinel_text no_provider_secret = text "no provider secret for tenant"
sentinel_text secret_unavailable = text "secret unavailable"
sentinel_text cache_closed = text "genkit cache closed"
sentinel_text deadline_exceeded = text "context deadline exceeded"
sentinel_text canceled = text "context canceled"

-- core.StatusName: the five statuses that classify names, and the rest.
pub data GenkitStatus : Type 0 where
  unauthenticated permission_denied resource_exhausted : GenkitStatus
  deadline_exceeded_status not_found : GenkitStatus
  other_status : String → GenkitStatus

pub data GoError : Type 0 where
  sentinel : Sentinel → GoError
  -- *ValidationError with its Field and Reason
  validation : Message → Message → GoError
  -- *core.GenkitError, without and with an error that it unwraps to
  genkit : GenkitStatus → ℕ → Message → GoError
  genkit_caused : GenkitStatus → ℕ → Message → GoError → GoError
  -- genai.APIError and *openai.Error
  genai : ℕ → Message → GoError
  openai : ℕ → Message → GoError
  -- any other error value
  opaque : Message → GoError
  wrapped : Message → GoError → GoError

-- err.Error(); ValidationError.Error for a *ValidationError.
unfoldable pub error_text : GoError → Message
unfolding sentinel_text
error_text (sentinel s) = sentinel_text s
error_text (validation field reason) = lit "invalid " ∷ (field ++ lit ": " ∷ reason)
error_text (genkit s c m) = m
error_text (genkit_caused s c m e) = m
error_text (genai c m) = m
error_text (openai c m) = m
error_text (opaque m) = m
error_text (wrapped m e) = m

-- fmt.Errorf("…%w…", …, cause, …).
unfoldable pub errorf : Message → GoError → Message → GoError
unfolding error_text
errorf before cause after = wrapped (before ++ (error_text cause ++ after)) cause

-- errors.Is with a sentinel.
unfoldable pub is : Sentinel → GoError → Bool
is t (sentinel s) = sentinel_eq t s
is t (genkit_caused s c m e) = is t e
is t (wrapped m e) = is t e
is t (validation field reason) = false
is t (genkit s c m) = false
is t (genai c m) = false
is t (openai c m) = false
is t (opaque m) = false

-- errors.As with each type that the program asks for.
unfoldable pub as_validation : GoError → Option (Message × Message)
as_validation (validation field reason) = some (field, reason)
as_validation (genkit_caused s c m e) = as_validation e
as_validation (wrapped m e) = as_validation e
as_validation _ = none

unfoldable pub as_genkit : GoError → Option (GenkitStatus × ℕ)
as_genkit (genkit s c m) = some (s, c)
as_genkit (genkit_caused s c m e) = some (s, c)
as_genkit (wrapped m e) = as_genkit e
as_genkit _ = none

unfoldable pub as_genai : GoError → Option ℕ
as_genai (genai c m) = some c
as_genai (genkit_caused s c m e) = as_genai e
as_genai (wrapped m e) = as_genai e
as_genai _ = none

unfoldable pub as_openai : GoError → Option ℕ
as_openai (openai c m) = some c
as_openai (genkit_caused s c m e) = as_openai e
as_openai (wrapped m e) = as_openai e
as_openai _ = none

-- Every text of the chain rewritten: what an error says changed, and what it is kept.
unfoldable pub relabel : (Message → Message) → GoError → GoError
relabel f (sentinel s) = sentinel s
relabel f (validation field reason) = validation (f field) (f reason)
relabel f (genkit s c m) = genkit s c (f m)
relabel f (genkit_caused s c m e) = genkit_caused s c (f m) (relabel f e)
relabel f (genai c m) = genai c (f m)
relabel f (openai c m) = openai c (f m)
relabel f (opaque m) = opaque (f m)
relabel f (wrapped m e) = wrapped (f m) (relabel f e)
