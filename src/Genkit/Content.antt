-- ===== src/Genkit/Content.antt =====
-- The content of a valid conversation, and of the tool calls that go to the client and come back.
use genkit_proxy.Common.{
  String, ◌≡◌, refl, false, Option, none, some, List, [], ◌∷◌, map, ◌==◌, ap₂,
}
use genkit_proxy.Request.{ToolCall, Part}
use genkit_proxy.Genkit.{
  AiToolRequest, tool_request_part, tool_calls_from, part_from, raw_to_any, marshalled,
}

-- The part in which a client gives a tool call back in the conversation.
abbrev pub part_of_call : ToolCall → Part
part_of_call c = record { text = ""; media = none; tool_request = some c; tool_response = none }

module _ {V : Type 0} (marshal : V → Option String) (unmarshal : String → Option V)
    (decodes : (v : V)
      → (s : String) × (marshal v ≡ some s) × ((s == "") ≡ false) × (unmarshal s ≡ some v)) where
  raw_to_any-marshalled : (v : Option V) → raw_to_any unmarshal (marshalled marshal v) ≡ v
  unfolding raw_to_any marshalled
  raw_to_any-marshalled none = refl
  raw_to_any-marshalled (some v) = let (s, e, full, back) = decodes v in rw e (rw full back)

  -- If every value is encoded as a text that is not empty and is decoded to the value again, the
  -- tool calls of a model, given to the client and put back by it into the conversation, reach
  -- Genkit as the requests that the model made: the same names, references and inputs, in the same
  -- order.
  pub part_from-tool_calls_from :
      (calls : List (AiToolRequest V))
      → map (λ c. part_from unmarshal (part_of_call c)) (tool_calls_from marshal calls)
        ≡ map tool_request_part calls
  unfolding tool_calls_from part_from
  part_from-tool_calls_from [] = refl
  part_from-tool_calls_from (c ∷ cs) =
      ap₂ (λ x xs. tool_request_part (record c { input = x }) ∷ xs) (raw_to_any-marshalled c.input)
        (part_from-tool_calls_from cs)
