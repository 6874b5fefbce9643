-- ===== src/Http.antt =====
-- Requests, response writers and the shared state of the handlers, with the writers of
-- internal/proxy/proxy.go and the events of internal/proxy/stream.go. A response body is the list
-- of what was encoded into it.
pub mod Bearer
pub mod Handler
pub mod Serve
pub mod Answered
pub mod Calls
pub mod Streaming
use genkit_proxy.Common.{
  ℕ, suc, ◌-◌, ◌/◌, ◌+◌, String, Bool, true, false, not, Option, none, some, List, [], ◌∷◌, ◌++◌,
  ◌==◌, if◌then◌else◌,
}
use genkit_proxy.Common.Int.{ℤ, pos, negsuc, sub_ℕ}
use genkit_proxy.Common.Text.{cut, trim_space}
use genkit_proxy.Errors.{status_for, safe_message}
use genkit_proxy.Errors.Chain.{GoError, Message, sentinel, missing_credentials}
use genkit_proxy.Errors.Result.{GoResult, ok, err}
use genkit_proxy.Request.{GenerateRequest, GenerateResponse, ToolCall, Usage}

-- A request: the body is what the JSON decoder makes of at most 1 MiB of it.
pub record HttpRequest : Type 0 where
  pub method : String
  pub authorization : String
  pub body : GoResult GenerateRequest

pub data HeaderValue : Type 0 where
  plain : String → HeaderValue
  integer : ℤ → HeaderValue

pub data Payload : Type 0 where
  -- errorBody
  error_body : Message → Payload
  response : GenerateResponse → Payload
  -- the server-sent events: chunkEvent, doneEvent and an errorBody under the name "error"
  chunk_event : String → Payload
  done_event : String → String → List ToolCall → Option Usage → Payload
  error_event : Message → Payload
  -- the answer of GET /version: version and buildTime
  version_body : String → String → Payload

-- http.ResponseWriter: the headers set so far, the status once it is written, and the body.
pub record Writer : Type 0 where
  pub headers : List (String × HeaderValue)
  pub status : Option ℕ
  pub body : List Payload

abbrev pub fresh_writer : Writer
fresh_writer = record { headers = []; status = none; body = [] }

abbrev pub set_header : String → HeaderValue → Writer → Writer
set_header name v w = record w { headers = (name, v) ∷ w.headers }

-- A second WriteHeader is superfluous and ignored.
abbrev pub first_status : Option ℕ → ℕ → Option ℕ
first_status none code = some code
first_status (some s) code = some s

abbrev pub write_header : ℕ → Writer → Writer
write_header code w = record w { status = first_status w.status code }

-- The first byte of a body sends the status 200 if none was written.
abbrev pub write : Payload → Writer → Writer
write p w = record w { status = first_status w.status 200; body = w.body ++ p ∷ [] }

-- writeJSON.
unfoldable pub write_json : ℕ → Payload → Writer → Writer
write_json code payload w =
    write payload (write_header code (set_header "Content-Type" (plain "application/json") w))

-- writeError.
unfoldable pub write_error : ℕ → Message → Writer → Writer
unfolding write_json
write_error code message w = write_json code (error_body message) w

-- writeAuthError, and what the handlers answer to an error of the resolver or the generator.
unfoldable pub write_go_error : GoError → Writer → Writer
unfolding write_error
write_go_error e w = write_error (status_for e) (safe_message e) w

-- int(d.Seconds()): whole seconds, towards zero.
unfoldable pub whole_seconds : ℤ → ℤ
whole_seconds (pos n) = pos (n / 1_000_000_000)
whole_seconds (negsuc n) = sub_ℕ 0 (suc n / 1_000_000_000)

-- The 429 answer of the rate limiter.
unfoldable pub write_limited : ℤ → Writer → Writer
unfolding write_error whole_seconds
write_limited retry_after w =
    write_error 429 (genkit_proxy.Errors.Chain.text "rate limit exceeded")
      (set_header "Retry-After" (integer (whole_seconds retry_after)) w)

-- modelSlot.
pub record ModelSlot : Type 0 where
  pub name : String
  pub usage : Option Usage

-- What a handler changes: the generator's state, the limiter's, the response and the slot that
-- Logger put into the context.
pub record World (G L : Type 0) : Type 0 where
  pub generator : G
  pub limiter : L
  pub writer : Writer
  pub slot : Option ModelSlot
