-- ===== src/Request/Valid/Parts.antt =====
-- Parts and messages: the checks against the description.
use genkit_proxy.Common.{
  ◌≡◌, ◌≢◌, ◌↔◌, is_empty, not, ◌⊎◌, inl, inr, refl, ℕ, ◌+◌, String, Bool, true, false, Option,
  none, some, List, [], ◌∷◌, All, arith, eq_iff,
}
use genkit_proxy.Errors.Result.{>>-eq-none}
use genkit_proxy.Router.{is_blank}
use genkit_proxy.Request.{
  Part, ChatMessage, ToolCall, ToolResult, Media, validate_part, validate_parts, validate_message,
  validate_messages, part_kinds, bool_eq, is_role, ToolDefinition, validate_tools,
}
use genkit_proxy.Request.Valid.{
  ValidPart, a_text, a_media, a_tool_request, a_tool_response, ValidMessage, ValidTools,
}

validate_part-ValidPart : (i j : ℕ) (p : Part) → validate_part i j p ≡ none → ValidPart p
unfolding validate_part part_kinds
validate_part-ValidPart i j p h = go p.media p.tool_request p.tool_response refl refl refl
  where
    go :
        (m : Option Media) (c : Option ToolCall) (r : Option ToolResult)
        → p.media ≡ m
        → p.tool_request ≡ c
        → p.tool_response ≡ r
        → ValidPart p
    go none none none a b d = a_text (ground arith) a b d
    go (some m) none none a b d = a_media m (ground arith) a b d (ground arith) (ground arith)
    go none (some c) none a b d = a_tool_request c (ground arith) a b d (ground arith)
    go none none (some r) a b d = a_tool_response r (ground arith) a b d (ground arith)
    go (some m) (some c) r a b d = ground arith
    go (some m) none (some r) a b d = ground arith
    go none (some c) (some r) a b d = ground arith

ValidPart-validate_part : (i j : ℕ) (p : Part) → ValidPart p → validate_part i j p ≡ none
unfolding validate_part part_kinds
ValidPart-validate_part i j p (a_text t a b d) = ground arith
ValidPart-validate_part i j p (a_media m t a b d x y) = ground arith
ValidPart-validate_part i j p (a_tool_request c t a b d x) = ground arith
ValidPart-validate_part i j p (a_tool_response r t a b d x) = ground arith

parts_sound : (i j : ℕ) (ps : List Part) → validate_parts i j ps ≡ none → All ValidPart ps
unfolding validate_parts
parts_sound i j [] h = tt
parts_sound i j (p ∷ ps) h =
    let k = (>>-eq-none (validate_part i j p) _).0 h in
    (validate_part-ValidPart i j p k.0, parts_sound i (j + 1) ps k.1)

parts_complete : (i j : ℕ) (ps : List Part) → All ValidPart ps → validate_parts i j ps ≡ none
unfolding validate_parts
parts_complete i j [] h = refl
parts_complete i j (p ∷ ps) h =
    (>>-eq-none (validate_part i j p) _).1
      (ValidPart-validate_part i j p h.0, parts_complete i (j + 1) ps h.1)

is_role_iff : (s : String) → (is_role s ≡ true) ↔ ((s ≡ "user") ⊎ ((s ≡ "model") ⊎ (s ≡ "tool")))
unfolding is_role
is_role_iff s = ground (arith, eq_iff s "user", eq_iff s "model", eq_iff s "tool")

one_content :
    (b : Bool) (ps : List Part)
    → (bool_eq (not b) (not (is_empty ps)) ≡ false)
      ↔ (((b ≡ false) × (ps ≡ [])) ⊎ ((b ≡ true) × (ps ≢ [])))
one_content true [] = (λ h. cc, λ v. ground arith)
one_content false [] = (λ h. inl (refl, refl), λ v. refl)
one_content true (p ∷ ps) = (λ h. inr (refl, λ e. cc), λ v. refl)
one_content false (p ∷ ps) = (λ h. cc, λ v. ground arith)

message_sound : (i : ℕ) (m : ChatMessage) → validate_message i m ≡ none → ValidMessage m
unfolding validate_message
message_sound i m h = record {
  role = (is_role_iff m.role).0 (ground arith);
  content = (one_content (is_blank m.content) m.parts).0 (ground arith);
  parts = parts_sound i 0 m.parts (ground arith);
}

message_complete : (i : ℕ) (m : ChatMessage) → ValidMessage m → validate_message i m ≡ none
unfolding validate_message
message_complete i m v = ground (
  arith,
  (is_role_iff m.role).1 v.role,
  (one_content (is_blank m.content) m.parts).1 v.content,
  parts_complete i 0 m.parts v.parts,
)

pub messages_iff :
    (i : ℕ) (ms : List ChatMessage) → (validate_messages i ms ≡ none) ↔ All ValidMessage ms
unfolding validate_messages
messages_iff i [] = (λ _. tt, λ _. refl)
messages_iff i (m ∷ ms) =
    let ih = messages_iff (i + 1) ms in
    let both = >>-eq-none (validate_message i m) (validate_messages (i + 1) ms) in
    (
      λ h. (message_sound i m (both.0 h).0, ih.0 (both.0 h).1),
      λ v. both.1 (message_complete i m v.0, ih.1 v.1),
    )

pub tools_iff :
    (i : ℕ) (seen : List String) (ts : List ToolDefinition)
    → (validate_tools i seen ts ≡ none) ↔ ValidTools seen ts
unfolding validate_tools
tools_iff i seen [] = (λ _. tt, λ _. refl)
tools_iff i seen (t ∷ ts) = ground (arith, tools_iff (i + 1) (t.name ∷ seen) ts)
