-- ===== src/Request/Valid.antt =====
-- The requests that Validate accepts, said without its checks.
pub mod Parts
pub mod Exact
use genkit_proxy.Common.{
  ◌≡◌, ◌≢◌, ◌⊎◌, ℕ, ◌*◌, String, Bool, true, false, Option, none, some, List, [], ◌∷◌, All, any,
  map, ◌==◌,
}
use genkit_proxy.Common.Int.{ℤ, pos, ◌≤ℤ◌}
use genkit_proxy.Errors.Result.{ok}
use genkit_proxy.Router.{provider_of, is_blank}
use genkit_proxy.Request.{
  Float64, float_one, ToolCall, ToolResult, Media, Part, ChatMessage, ToolDefinition,
  GenerateRequest, is_role,
}

-- An optional number that is absent or between 0 and `hi`, or absent or at least 1.
abbrev pub Within : ℕ → Option Float64 → Type 0
Within hi none = Unit
Within hi (some x) = (pos 0 ≤ℤ x) × (x ≤ℤ pos (hi * float_one))

abbrev pub AtLeastOne : Option ℤ → Type 0
AtLeastOne none = Unit
AtLeastOne (some n) = pos 1 ≤ℤ n

-- Exactly one kind of content, and that one complete.
pub data ValidPart (p : Part) : Type 0 where
  a_text :
      is_blank p.text ≡ false
      → p.media ≡ none
      → p.tool_request ≡ none
      → p.tool_response ≡ none
      → ValidPart p
  a_media :
      (m : Media)
      → is_blank p.text ≡ true
      → p.media ≡ some m
      → p.tool_request ≡ none
      → p.tool_response ≡ none
      → is_blank m.content_type ≡ false
      → is_blank m.url ≡ false
      → ValidPart p
  a_tool_request :
      (c : ToolCall)
      → is_blank p.text ≡ true
      → p.media ≡ none
      → p.tool_request ≡ some c
      → p.tool_response ≡ none
      → is_blank c.name ≡ false
      → ValidPart p
  a_tool_response :
      (r : ToolResult)
      → is_blank p.text ≡ true
      → p.media ≡ none
      → p.tool_request ≡ none
      → p.tool_response ≡ some r
      → is_blank r.name ≡ false
      → ValidPart p

-- Text or parts and not both, in one of the three roles.
pub record ValidMessage (m : ChatMessage) : Type 0 where
  pub role : (m.role ≡ "user") ⊎ ((m.role ≡ "model") ⊎ (m.role ≡ "tool"))
  pub content :
      ((is_blank m.content ≡ false) × (m.parts ≡ []))
      ⊎ ((is_blank m.content ≡ true) × (m.parts ≢ []))
  pub parts : All ValidPart m.parts

-- Names that are not blank and differ from those before them.
abbrev pub ValidTools : List String → List ToolDefinition → Type 0
ValidTools seen [] = Unit
ValidTools seen (t ∷ ts) =
    (is_blank t.name ≡ false)
    × (any (λ s. s == t.name) seen ≡ false)
    × ValidTools (t.name ∷ seen) ts

pub record IsValid (r : GenerateRequest) : Type 0 where
  pub routed : (p : String) × (provider_of r.model_name ≡ ok p)
  pub prompted : (is_blank r.user_message ≡ false) ⊎ (r.messages ≢ [])
  pub temperature : Within 2 r.temperature
  pub max_output_tokens : AtLeastOne r.max_output_tokens
  pub top_p : Within 1 r.top_p
  pub top_k : AtLeastOne r.top_k
  pub format : (r.response_format ≡ "") ⊎ (r.response_format ≡ "json")
  pub schema : (r.output_schema ≡ []) ⊎ (r.response_format ≡ "json")
  pub choice :
      (r.tool_choice ≡ "")
      ⊎ ((r.tool_choice ≡ "auto") ⊎ ((r.tool_choice ≡ "required") ⊎ (r.tool_choice ≡ "none")))
  pub tools : ValidTools [] r.tools
  pub messages : All ValidMessage r.messages
