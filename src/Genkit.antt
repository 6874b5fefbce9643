-- ===== src/Genkit.antt =====
-- internal/proxy/generator.go: what the Genkit-backed generator hands to Genkit and makes of its
-- answers. A value of a Genkit type is known by the call that built it. `V` is the type of decoded
-- JSON values other than nil; `unmarshal` and `marshal` are encoding/json on them, with none for an
-- error, and for the text of null.
pub mod Options
pub mod Runs
pub mod Deltas
pub mod Answers
pub mod Content
pub mod Cached
use genkit_proxy.Common.{
  ℕ, String, Bool, true, false, not, ◌&&◌, ◌++◌, Option, none, some, List, [], ◌∷◌, map, is_empty,
  ◌==◌, if◌then◌else◌,
}
use genkit_proxy.Common.Int.{ℤ, pos}
use genkit_proxy.Request.{
  Float64, JsonObject, ToolCall, ToolResult, Media, Part, ChatMessage, ToolDefinition,
  GenerateRequest, Usage, wants_json,
}

-- ai.ToolRequest and ai.ToolResponse.
pub record AiToolRequest (V : Type 0) : Type 0 where
  pub name : String
  pub ref : String
  pub input : Option V

pub record AiToolResponse (V : Type 0) : Type 0 where
  pub name : String
  pub ref : String
  pub output : Option V

-- *ai.Part, by the constructor that made it.
pub data AiPart (V : Type 0) : Type 0 where
  text_part : String → AiPart V
  media_part : String → String → AiPart V
  tool_request_part : AiToolRequest V → AiPart V
  tool_response_part : AiToolResponse V → AiPart V

-- *ai.Message: ai.NewTextMessage or ai.NewMessage, with the role.
pub data AiMessage (V : Type 0) : Type 0 where
  text_message : String → String → AiMessage V
  message : String → List (AiPart V) → AiMessage V

pub record GenerationConfig : Type 0 where
  pub temperature : Float64
  pub max_output_tokens : ℤ
  pub top_p : Float64
  pub top_k : ℤ
  pub stop_sequences : List String

-- ai.NewTool: name, description and input schema; its function is never run.
pub record AiTool : Type 0 where
  pub name : String
  pub description : String
  pub input_schema : JsonObject

pub data GenerateOption (V : Type 0) : Type 0 where
  with_model_name with_prompt with_system with_tool_choice : String → GenerateOption V
  with_messages : List (AiMessage V) → GenerateOption V
  with_config : GenerationConfig → GenerateOption V
  with_output_format_json : GenerateOption V
  with_output_schema : JsonObject → GenerateOption V
  with_tools : List AiTool → GenerateOption V
  with_return_tool_requests : Bool → GenerateOption V

-- *ai.ModelResponse, by what its methods answer.
pub record ModelResponse (V : Type 0) : Type 0 where
  pub finish_reason : String
  pub text : String
  pub tool_requests : List (AiToolRequest V)
  pub usage : Option Usage

abbrev pub or_zero : Option ℤ → ℤ
or_zero none = pos 0
or_zero (some x) = x

abbrev pub unset {ℓ} : {A : Type ℓ} → Option A → Bool
unset none = true
unset (some a) = false

-- configFor; the zero values stand for what is not set.
unfoldable pub config_for : GenerateRequest → Option GenerationConfig
config_for r =
    if unset r.temperature
      && unset r.max_output_tokens
      && unset r.top_p
      && unset r.top_k
      && is_empty r.stop_sequences
    then none
    else some (record {
      temperature = or_zero r.temperature;
      max_output_tokens = or_zero r.max_output_tokens;
      top_p = or_zero r.top_p;
      top_k = or_zero r.top_k;
      stop_sequences = r.stop_sequences;
    })

-- usageFrom copies the three counts.
abbrev pub usage_from : Option Usage → Option Usage
usage_from none = none
usage_from (some u) = some (record { input = u.input; output = u.output; total = u.total })

-- outputAndData; `json_valid` is json.Valid.
unfoldable pub output_and_data : (String → Bool) → GenerateRequest → String → String × Option String
output_and_data json_valid r text =
    if wants_json r && json_valid text then ("", some text) else (text, none)

abbrev pub object_schema : JsonObject
object_schema = ("type", "\"object\"") ∷ []

-- The schema of a tool without one is that of an object.
unfoldable pub tool_from : ToolDefinition → AiTool
tool_from t = record {
  name = t.name;
  description = t.description;
  input_schema = if is_empty t.input_schema then object_schema else t.input_schema;
}

module _ {V : Type 0} where
  -- append(opts, x) if a test holds, and if a pointer is not nil.
  abbrev pub option_if : Bool → GenerateOption V → List (GenerateOption V)
  option_if true x = x ∷ []
  option_if false x = []

  abbrev pub option_of {ℓ} :
      {A : Type ℓ} → (A → GenerateOption V) → Option A → List (GenerateOption V)
  option_of f none = []
  option_of f (some a) = f a ∷ []

module _ {V : Type 0} (unmarshal : String → Option V) where
  -- rawToAny; a json.RawMessage that is not there is empty.
  unfoldable pub raw_to_any : Option String → Option V
  raw_to_any none = none
  raw_to_any (some raw) = if raw == "" then none else unmarshal raw

  -- partFrom, on the three pointers and the text.
  pub part_of : Option Media → Option ToolCall → Option ToolResult → String → AiPart V
  part_of (some m) _ _ _ = media_part m.content_type m.url
  part_of none (some c) _ _ =
      tool_request_part (record { name = c.name; ref = c.ref; input = raw_to_any c.input })
  part_of none none (some r) _ =
      tool_response_part (record { name = r.name; ref = r.ref; output = raw_to_any r.output })
  part_of none none none text = text_part text

  unfoldable pub part_from : Part → AiPart V
  unfolding part_of
  part_from p = part_of p.media p.tool_request p.tool_response p.text

  unfoldable pub message_from : ChatMessage → AiMessage V
  message_from m =
      if is_empty m.parts
      then text_message m.role m.content
      else message m.role (map part_from m.parts)

  -- messagesFrom; none is a nil slice.
  unfoldable pub messages_from : List ChatMessage → Option (List (AiMessage V))
  messages_from [] = none
  messages_from (m ∷ ms) = some (message_from m ∷ map message_from ms)

  -- generateOptions.
  unfoldable pub generate_options : GenerateRequest → List (GenerateOption V)
  generate_options r =
      with_model_name r.model_name
      ∷ (option_if (not (r.user_message == "")) (with_prompt r.user_message)
          ++ (option_if (not (r.system_prompt == "")) (with_system r.system_prompt)
              ++ (option_of with_messages (messages_from r.messages)
                  ++ (option_of with_config (config_for r)
                      ++ (if wants_json r
                          then with_output_format_json
                            ∷ option_if (not (is_empty r.output_schema))
                                (with_output_schema r.output_schema)
                          else [])))))

  -- toolOptions.
  unfoldable pub tool_options : GenerateRequest → List (GenerateOption V)
  tool_options r =
      if is_empty r.tools
      then []
      else (with_tools (map tool_from r.tools)
          ∷ with_return_tool_requests true
          ∷ option_if (not (r.tool_choice == "")) (with_tool_choice r.tool_choice))

  -- The options of genkitRun and genkitRunStream.
  unfoldable pub all_options : GenerateRequest → List (GenerateOption V)
  unfolding generate_options tool_options
  all_options r = generate_options r ++ tool_options r

module _ {V : Type 0} (marshal : V → Option String) where
  unfoldable pub marshalled : Option V → Option String
  marshalled none = none
  marshalled (some v) = marshal v

  abbrev pub tool_call_from : AiToolRequest V → ToolCall
  tool_call_from r = record { name = r.name; ref = r.ref; input = marshalled r.input }

  -- toolCallsFrom.
  unfoldable pub tool_calls_from : List (AiToolRequest V) → List ToolCall
  tool_calls_from = map tool_call_from
