-- ===== src/Request/Valid/Exact.antt =====
-- Validate against the description of a valid request.

use genkit_proxy.Common.{
  ◌≡◌, ◌∙◌, ◌≢◌, ◌↔◌, ◌⊎◌, inl, inr, refl, ℕ, String, Bool, true, false, not, ◌&&◌, Option, none,
  some, List, [], ◌∷◌, is_empty, arith, eq_iff, ◌==◌,
}
use genkit_proxy.Common.Int.{ℤ}
use genkit_proxy.Common.Text.{trim_space, is_space}
use genkit_proxy.Common.Text.Blank.{
  trim_space-empty, text_is_empty-eq, all_space, all_space-append_left,
}
use genkit_proxy.Errors.Result.{ok, error_of-eq-none}
use genkit_proxy.Router.{provider_of, is_blank, is_known_provider}
use genkit_proxy.Router.Known.{known_elim}
use genkit_proxy.Router.Laws.{provider_of_iff}
use genkit_proxy.Request.{
  Float64, fails, outside, below_one, is_tool_choice, GenerateRequest, validate,
}
use genkit_proxy.Request.Valid.{Within, AtLeastOne, IsValid}
use genkit_proxy.Request.Valid.Parts.{messages_iff, tools_iff}

pub outside-Within : (hi : ℕ) (x : Option Float64) → (fails (outside hi) x ≡ false) ↔ Within hi x
unfolding outside
outside-Within hi none = (λ _. tt, λ _. refl)
outside-Within hi (some x) = ground arith

below_one-AtLeastOne : (n : Option ℤ) → (fails below_one n ≡ false) ↔ AtLeastOne n
unfolding below_one
below_one-AtLeastOne none = (λ _. tt, λ _. refl)
below_one-AtLeastOne (some n) = ground arith

choice_iff :
    (s : String)
    → (not (is_tool_choice s) ≡ false)
      ↔ ((s ≡ "") ⊎ ((s ≡ "auto") ⊎ ((s ≡ "required") ⊎ (s ≡ "none"))))
unfolding is_tool_choice
choice_iff s = ground (arith, eq_iff s "", eq_iff s "auto", eq_iff s "required", eq_iff s "none")

format_iff :
    (s : String) → ((not (s == "") && not (s == "json")) ≡ false) ↔ ((s ≡ "") ⊎ (s ≡ "json"))
format_iff s = ground (arith, eq_iff s "", eq_iff s "json")

schema_iff {ℓ} :
    {A : Type ℓ} (xs : List A) (s : String)
    → ((not (is_empty xs) && not (s == "json")) ≡ false) ↔ ((xs ≡ []) ⊎ (s ≡ "json"))
schema_iff [] s = (λ _. inl refl, λ _. refl)
schema_iff (x ∷ xs) s = ground (arith, eq_iff s "json")

prompted_iff {ℓ} :
    {A : Type ℓ} (b : Bool) (ms : List A) → ((b && is_empty ms) ≡ false) ↔ ((b ≡ false) ⊎ (ms ≢ []))
prompted_iff true [] = (λ h. cc, λ v. ground arith)
prompted_iff false [] = (λ h. inl refl, λ v. refl)
prompted_iff true (p ∷ ps) = (λ h. inr (λ e. cc), λ v. refl)
prompted_iff false (p ∷ ps) = (λ h. inl refl, λ v. refl)

is_blank-all_space : (s : String) → is_blank s ≡ all_space s
unfolding is_blank
is_blank-all_space s = text_is_empty-eq (trim_space s) ∙ trim_space-empty s

known-all_space : (p : String) → is_known_provider p ≡ true → all_space p ≡ false
unfolding all_space is_space
known-all_space = known_elim (λ p. all_space p ≡ false) refl refl refl refl

-- A routed model name is not blank: the first check of Validate only chooses the message.
routed-is_blank : (m p : String) → provider_of m ≡ ok p → is_blank m ≡ false
routed-is_blank m p h =
    let r = (provider_of_iff m p).0 h in
    is_blank-all_space m ∙ rw r.spelled (all_space-append_left p _ (known-all_space p r.known))

validate_sound : (r : GenerateRequest) → validate r ≡ none → IsValid r
unfolding validate
validate_sound r h = record {
  routed = (error_of-eq-none (provider_of r.model_name)).0 (ground arith);
  prompted = (prompted_iff (is_blank r.user_message) r.messages).0 (ground arith);
  temperature = (outside-Within 2 r.temperature).0 (ground arith);
  max_output_tokens = (below_one-AtLeastOne r.max_output_tokens).0 (ground arith);
  top_p = (outside-Within 1 r.top_p).0 (ground arith);
  top_k = (below_one-AtLeastOne r.top_k).0 (ground arith);
  format = (format_iff r.response_format).0 (ground arith);
  schema = (schema_iff r.output_schema r.response_format).0 (ground arith);
  choice = (choice_iff r.tool_choice).0 (ground arith);
  tools = (tools_iff 0 [] r.tools).0 (ground arith);
  messages = (messages_iff 0 r.messages).0 (ground arith);
}

validate_complete : (r : GenerateRequest) → IsValid r → validate r ≡ none
unfolding validate
validate_complete r v = ground (
  arith,
  routed-is_blank r.model_name (v.routed.0) (v.routed.1),
  (error_of-eq-none (provider_of r.model_name)).1 v.routed,
  (prompted_iff (is_blank r.user_message) r.messages).1 v.prompted,
  (outside-Within 2 r.temperature).1 v.temperature,
  (below_one-AtLeastOne r.max_output_tokens).1 v.max_output_tokens,
  (outside-Within 1 r.top_p).1 v.top_p,
  (below_one-AtLeastOne r.top_k).1 v.top_k,
  (format_iff r.response_format).1 v.format,
  (schema_iff r.output_schema r.response_format).1 v.schema,
  (choice_iff r.tool_choice).1 v.choice,
  (tools_iff 0 [] r.tools).1 v.tools,
  (messages_iff 0 r.messages).1 v.messages,
)

-- Validate accepts exactly the valid requests.
pub validate_iff : (r : GenerateRequest) → (validate r ≡ none) ↔ IsValid r
validate_iff r = (validate_sound r, validate_complete r)
