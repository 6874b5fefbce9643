-- ===== src/Request.antt =====
-- internal/proxy/request.go: the payloads and their validation.
-- A float64 of a JSON body is finite, so it is a whole multiple of 2^-1074: `Float64` is that
-- multiple. A json.RawMessage is its text, and a map[string]any the list of its members with the
-- text of each value; an absent pointer is `none`.
pub mod Valid
use genkit_proxy.Common.{
  ℕ, ◌+◌, ◌*◌, ◌^◌, String, Bool, not, ◌&&◌, ◌||◌, Option, none, some, List, [], ◌∷◌, ◌==◌, any,
  is_empty, nat_eq, if◌then◌else◌,
}
use genkit_proxy.Common.Int.{ℤ, pos, ltb_ℤ}
use genkit_proxy.Errors.Chain.{GoError, Message, validation, lit, number, text}
use genkit_proxy.Errors.Result.{◌>>◌, reject_if, error_of}
use genkit_proxy.Router.{provider_of, is_blank}

abbrev pub Float64 : Type 0
Float64 = ℤ

-- 1.0 in multiples of 2^-1074.
unfoldable pub float_one : ℕ
float_one = 2 ^ 1074

abbrev pub JsonObject : Type 0
JsonObject = List (String × String)

pub record ToolCall : Type 0 where
  pub name : String
  pub ref : String
  pub input : Option String

pub record ToolResult : Type 0 where
  pub name : String
  pub ref : String
  pub output : Option String

pub record Media : Type 0 where
  pub content_type : String
  pub url : String

pub record Part : Type 0 where
  pub text : String
  pub media : Option Media
  pub tool_request : Option ToolCall
  pub tool_response : Option ToolResult

pub record ChatMessage : Type 0 where
  pub role : String
  pub content : String
  pub parts : List Part

pub record ToolDefinition : Type 0 where
  pub name : String
  pub description : String
  pub input_schema : JsonObject

pub record GenerateRequest : Type 0 where
  pub model_name : String
  pub system_prompt : String
  pub user_message : String
  pub temperature : Option Float64
  pub max_output_tokens : Option ℤ
  pub top_p : Option Float64
  pub top_k : Option ℤ
  pub stop_sequences : List String
  pub response_format : String
  pub output_schema : JsonObject
  pub messages : List ChatMessage
  pub tools : List ToolDefinition
  pub tool_choice : String

pub record Usage : Type 0 where
  pub input : ℤ
  pub output : ℤ
  pub total : ℤ

pub record GenerateResponse : Type 0 where
  pub model : String
  pub output : String
  pub finish_reason : String
  pub payload : Option String
  pub tool_calls : List ToolCall
  pub usage : Option Usage

-- The zero value GenerateResponse{}.
abbrev pub empty_response : GenerateResponse
empty_response = record {
  model = "";
  output = "";
  finish_reason = "";
  payload = none;
  tool_calls = [];
  usage = none;
}

-- A pointer field that is set and fails its test.
abbrev pub fails {ℓ} : {A : Type ℓ} → (A → Bool) → Option A → Bool
fails bad none = Bool.false
fails bad (some a) = bad a

unfoldable pub outside : ℕ → Float64 → Bool
outside hi x = ltb_ℤ x (pos 0) || ltb_ℤ (pos (hi * float_one)) x

unfoldable pub below_one : ℤ → Bool
below_one n = ltb_ℤ n (pos 1)

abbrev pub must_not_be_empty : Message
must_not_be_empty = text "must not be empty"

-- messages[i].parts[j], with a suffix.
unfoldable pub part_field : ℕ → ℕ → Message → Message
part_field i j suffix = lit "messages[" ∷ number i ∷ lit "].parts[" ∷ number j ∷ lit "]" ∷ suffix

unfoldable pub message_field : ℕ → Message → Message
message_field i suffix = lit "messages[" ∷ number i ∷ lit "]" ∷ suffix

unfoldable pub tool_field : ℕ → Message
tool_field i = lit "tools[" ∷ number i ∷ lit "].name" ∷ []

abbrev pub one_if : Bool → ℕ
one_if b = if b then 1 else 0

abbrev pub is_set {ℓ} : {A : Type ℓ} → Option A → Bool
is_set none = Bool.false
is_set (some a) = Bool.true

-- How many of the four kinds of content a part sets.
unfoldable pub part_kinds : Part → ℕ
part_kinds p =
    one_if (not (is_blank p.text))
    + one_if (is_set p.media)
    + one_if (is_set p.tool_request)
    + one_if (is_set p.tool_response)

-- The switch of Part.validate, on the three pointers.
validate_kind : ℕ → ℕ → Option Media → Option ToolCall → Option ToolResult → Option GoError
validate_kind i j (some m) _ _ = do
  reject_if (is_blank m.content_type)
      (validation (part_field i j (text ".media.contentType")) must_not_be_empty)
  reject_if (is_blank m.url) (validation (part_field i j (text ".media.url")) must_not_be_empty)
validate_kind i j none (some c) _ =
    reject_if (is_blank c.name)
      (validation (part_field i j (text ".toolRequest.name")) must_not_be_empty)
validate_kind i j none none (some r) =
    reject_if (is_blank r.name)
      (validation (part_field i j (text ".toolResponse.name")) must_not_be_empty)
validate_kind i j none none none = none

validate_part : ℕ → ℕ → Part → Option GoError
unfolding validate_kind
validate_part i j p = do
  reject_if (not (nat_eq (part_kinds p) 1)) (
      validation (part_field i j [])
        (text "must set exactly one of text, media, toolRequest, or toolResponse"))
  validate_kind i j p.media p.tool_request p.tool_response

validate_parts : ℕ → ℕ → List Part → Option GoError
unfolding validate_part
validate_parts i j [] = none
validate_parts i j (p ∷ ps) = do validate_part i j p; validate_parts i (j + 1) ps

unfoldable pub is_role : String → Bool
is_role role = role == "user" || role == "model" || role == "tool"

abbrev pub bool_eq : Bool → Bool → Bool
bool_eq a b = if a then b else not b

validate_message : ℕ → ChatMessage → Option GoError
unfolding validate_parts
validate_message i m = do
  reject_if (not (is_role m.role)) (
      validation (message_field i (text ".role")) (text "must be \"user\", \"model\", or \"tool\""))
  reject_if (bool_eq (not (is_blank m.content)) (not (is_empty m.parts)))
      (validation (message_field i []) (text "must set exactly one of content or parts"))
  validate_parts i 0 m.parts

unfoldable pub validate_messages : ℕ → List ChatMessage → Option GoError
unfolding validate_message
validate_messages i [] = none
validate_messages i (m ∷ ms) = do validate_message i m; validate_messages (i + 1) ms

-- The loop over the tools, with the names seen so far.
unfoldable pub validate_tools : ℕ → List String → List ToolDefinition → Option GoError
validate_tools i seen [] = none
validate_tools i seen (t ∷ ts) = do
  reject_if (is_blank t.name) (validation (tool_field i) must_not_be_empty)
  reject_if (any (λ s. s == t.name) seen) (validation (tool_field i) (text "must be unique"))
  validate_tools (i + 1) (t.name ∷ seen) ts

unfoldable pub is_tool_choice : String → Bool
is_tool_choice choice = choice == "" || choice == "auto" || choice == "required" || choice == "none"

abbrev pub wants_json : GenerateRequest → Bool
wants_json r = r.response_format == "json"

-- GenerateRequest.Validate; `none` is a nil error.
unfoldable pub validate : GenerateRequest → Option GoError
unfolding validate_messages validate_tools
validate r = do
  reject_if (is_blank r.model_name) (validation (text "modelName") must_not_be_empty)
  error_of (provider_of r.model_name)
  reject_if (is_blank r.user_message && is_empty r.messages)
      (validation (text "userMessage") (text "must not be empty when messages is omitted"))
  reject_if (fails (outside 2) r.temperature)
      (validation (text "temperature") (text "must be between 0 and 2"))
  reject_if (fails below_one r.max_output_tokens)
      (validation (text "maxOutputTokens") (text "must be at least 1"))
  reject_if (fails (outside 1) r.top_p) (validation (text "topP") (text "must be between 0 and 1"))
  reject_if (fails below_one r.top_k) (validation (text "topK") (text "must be at least 1"))
  reject_if (not (r.response_format == "") && not (wants_json r))
      (validation (text "responseFormat") (text "must be \"json\" when set"))
  reject_if (not (is_empty r.output_schema) && not (wants_json r))
      (validation (text "outputSchema") (text "requires responseFormat \"json\""))
  reject_if (not (is_tool_choice r.tool_choice))
      (validation (text "toolChoice") (text "must be \"auto\", \"required\", or \"none\" when set"))
  validate_tools 0 [] r.tools
  validate_messages 0 r.messages
