-- ===== src/Genkit/Options/Asks.antt =====
-- What Genkit is asked for, said without the functions that translate a request.
use genkit_proxy.Common.{
  String, ◌≡◌, ◌≢◌, ◌↔◌, if◌then◌else◌, refl, sym, subst, ◌⊎◌, inl, inr, true, false, not,
  Bool-cases, Option, none, some, List, [], ◌∷◌, map, is_empty, ◌==◌, eq_iff, arith,
}
use genkit_proxy.Request.{
  JsonObject, GenerateRequest, ToolDefinition, ToolCall, ToolResult, Media, Part, ChatMessage,
}
use genkit_proxy.Genkit.{
  AiPart, AiMessage, AiTool, text_part, media_part, tool_request_part, tool_response_part,
  text_message, message, raw_to_any, part_of, part_from, message_from, messages_from, tool_from,
  all_options,
}
use genkit_proxy.Genkit.Options.{Asked, asked, nothing_asked, wanted, asked-all_options}
use genkit_proxy.Genkit.Options.Configured.{Each, each-map, Configured, config_for-Configured}

-- The tools: name, description, and the schema, which is that of an object where none is given.
pub record ToolAsked (t : ToolDefinition) (a : AiTool) : Type 0 where
  pub name : a.name ≡ t.name
  pub description : a.description ≡ t.description
  pub input_schema :
      ((t.input_schema ≢ []) × (a.input_schema ≡ t.input_schema))
      ⊎ ((t.input_schema ≡ []) × (a.input_schema ≡ ("type", "\"object\"") ∷ []))

tool_from-ToolAsked : (t : ToolDefinition) → ToolAsked t (tool_from t)
unfolding tool_from
tool_from-ToolAsked t = record {
  name = refl;
  description = refl;
  input_schema = go t.input_schema refl;
}
  where
    go :
        (o : JsonObject)
        → t.input_schema ≡ o
        → ((t.input_schema ≢ []) × ((tool_from t).input_schema ≡ t.input_schema))
          ⊎ ((t.input_schema ≡ []) × ((tool_from t).input_schema ≡ ("type", "\"object\"") ∷ []))
    go [] e = inr (e, rw e refl)
    go (m ∷ o) e = inl (λ h. cc (h, e), rw e refl)

module _ {V : Type 0} (unmarshal : String → Option V) where
  -- A JSON text that is given and not empty is decoded.
  pub data Decoded : Option String → Option V → Type 0 where
    absent : Decoded none none
    blank : Decoded (some "") none
    decoded : (raw : String) → raw ≢ "" → Decoded (some raw) (unmarshal raw)

  raw_to_any-Decoded : (o : Option String) → Decoded o (raw_to_any unmarshal o)
  unfolding raw_to_any
  raw_to_any-Decoded none = absent
  raw_to_any-Decoded (some raw) = elim (Bool-cases (raw == "")) [
    | inl e ↦ rw e (subst (λ s. Decoded (some s) none) (sym ((eq_iff raw "").0 e)) blank)
    | inr e ↦ rw e (decoded raw (λ h. ground (arith, eq_iff raw "")))
  ]

  -- A part is a medium, a tool call, the result of one, or else a text.
  pub data PartAsked (p : Part) : AiPart V → Type 0 where
    medium : (m : Media) → p.media ≡ some m → PartAsked p (media_part m.content_type m.url)
    call :
        (c : ToolCall) (v : Option V)
        → p.media ≡ none
        → p.tool_request ≡ some c
        → Decoded c.input v
        → PartAsked p (tool_request_part (record { name = c.name; ref = c.ref; input = v }))
    result :
        (r : ToolResult) (v : Option V)
        → p.media ≡ none
        → p.tool_request ≡ none
        → p.tool_response ≡ some r
        → Decoded r.output v
        → PartAsked p (tool_response_part (record { name = r.name; ref = r.ref; output = v }))
    plain :
        p.media ≡ none
        → p.tool_request ≡ none
        → p.tool_response ≡ none
        → PartAsked p (text_part p.text)

  part_from-PartAsked : (p : Part) → PartAsked p (part_from unmarshal p)
  unfolding part_from part_of
  part_from-PartAsked p = go p.media p.tool_request p.tool_response refl refl refl
    where
      go :
          (m : Option Media) (c : Option ToolCall) (t : Option ToolResult)
          → p.media ≡ m
          → p.tool_request ≡ c
          → p.tool_response ≡ t
          → PartAsked p (part_from unmarshal p)
      go (some m) c t a b d =
          let same : part_from unmarshal p ≡ media_part m.content_type m.url =
            rw (a, part_from) refl in
          subst (PartAsked p) (sym same) (medium m a)
      go none (some c) t a b d =
          let v = raw_to_any unmarshal c.input in
          let same : part_from unmarshal p
              ≡ tool_request_part (record { name = c.name; ref = c.ref; input = v }) =
            rw (a, part_from) (rw (b, part_from) refl) in
          subst (PartAsked p) (sym same) (call c v a b (raw_to_any-Decoded c.input))
      go none none (some t) a b d =
          let v = raw_to_any unmarshal t.output in
          let same : part_from unmarshal p
              ≡ tool_response_part (record { name = t.name; ref = t.ref; output = v }) =
            rw (a, part_from) (rw (b, part_from) (rw (d, part_from) refl)) in
          subst (PartAsked p) (sym same) (result t v a b d (raw_to_any-Decoded t.output))
      go none none none a b d =
          let same : part_from unmarshal p ≡ text_part p.text =
            rw (a, part_from) (rw (b, part_from) (rw (d, part_from) refl)) in
          subst (PartAsked p) (sym same) (plain a b d)

  -- A message is its text, or its parts if it has any.
  pub data MessageAsked (m : ChatMessage) : AiMessage V → Type 0 where
    text_only : m.parts ≡ [] → MessageAsked m (text_message m.role m.content)
    in_parts :
        (ps : List (AiPart V))
        → m.parts ≢ []
        → Each PartAsked m.parts ps
        → MessageAsked m (message m.role ps)

  message_from-MessageAsked : (m : ChatMessage) → MessageAsked m (message_from unmarshal m)
  unfolding message_from
  message_from-MessageAsked m = go m.parts refl
    where
      go : (ps : List Part) → m.parts ≡ ps → MessageAsked m (message_from unmarshal m)
      go [] e =
          let same : message_from unmarshal m ≡ text_message m.role m.content =
            rw (e, message_from) refl in
          subst (MessageAsked m) (sym same) (text_only e)
      go (p ∷ ps) e =
          let parts = map (part_from unmarshal) m.parts in
          let same : message_from unmarshal m ≡ message m.role parts = rw (e, message_from) refl in
          subst (MessageAsked m) (sym same) (
            in_parts parts (λ h. cc (h, e))
              (each-map PartAsked (part_from unmarshal) part_from-PartAsked m.parts))

  -- The messages, in order; without any the option is left out.
  pub data MessagesAsked : List ChatMessage → Option (List (AiMessage V)) → Type 0 where
    no_messages : MessagesAsked [] none
    some_messages :
        {ms : List ChatMessage} {xs : List (AiMessage V)}
        → ms ≢ []
        → Each MessageAsked ms xs
        → MessagesAsked ms (some xs)

  messages_from-MessagesAsked :
      (ms : List ChatMessage) → MessagesAsked ms (messages_from unmarshal ms)
  unfolding messages_from
  messages_from-MessagesAsked [] = no_messages
  messages_from-MessagesAsked (m ∷ ms) =
      some_messages (λ h. cc h)
        (each-map MessageAsked (message_from unmarshal) message_from-MessageAsked (m ∷ ms))

  -- What Genkit is asked for on behalf of a request.
  pub record Asks (r : GenerateRequest) (a : Asked V) : Type 0 where
    pub model_name : a.model_name ≡ r.model_name
    pub prompt : a.prompt ≡ r.user_message
    pub system : a.system ≡ r.system_prompt
    pub messages : MessagesAsked r.messages a.messages
    pub config : Configured r a.config
    pub json : a.json ≡ (r.response_format == "json")
    pub schema : a.json ≡ true → a.schema ≡ r.output_schema
    pub no_schema : a.json ≡ false → a.schema ≡ []
    pub tools : Each ToolAsked r.tools a.tools
    pub returned : (a.returns_requests ≡ true) ↔ (r.tools ≢ [])
    pub choice : r.tools ≢ [] → a.tool_choice ≡ r.tool_choice
    pub no_choice : r.tools ≡ [] → a.tool_choice ≡ ""

  wanted-Asks : (r : GenerateRequest) → Asks r (wanted unmarshal r)
  unfolding wanted
  wanted-Asks r = record {
    model_name = refl;
    prompt = refl;
    system = refl;
    messages = messages_from-MessagesAsked r.messages;
    config = config_for-Configured r;
    json = refl;
    schema = λ h. rw h refl;
    no_schema = λ h. rw h refl;
    tools = each-map ToolAsked tool_from tool_from-ToolAsked r.tools;
    returned = not_empty r.tools;
    choice = λ h. some_choice r.tools h;
    no_choice = λ h. rw h refl;
  }
    where
      not_empty : (ts : List ToolDefinition) → (not (is_empty ts) ≡ true) ↔ (ts ≢ [])
      not_empty [] = (λ h. cc h, λ h. absurd (h refl))
      not_empty (t ∷ ts) = (λ h e. cc e, λ h. refl)

      some_choice :
          (ts : List ToolDefinition)
          → ts ≢ []
          → (if is_empty ts then "" else r.tool_choice) ≡ r.tool_choice
      some_choice [] h = absurd (h refl)
      some_choice (t ∷ ts) h = refl

  -- The options of a call, read back, ask for the request, without reference to the functions that
  -- translate it: its model, prompt and system text; its messages in order, each as its text or as
  -- its parts, a part being a medium, a tool call, a tool result or else a text; the configuration
  -- with each parameter at its place, left out if none is given; the JSON format exactly if the
  -- request asks for it, and then its schema; its tools in order, with the schema of an object where
  -- a tool has none; the tool choice if there are tools, and tool calls are returned exactly then.
  pub all_options-Asks :
      (r : GenerateRequest) → Asks r (asked (all_options unmarshal r) nothing_asked)
  all_options-Asks r = subst (Asks r) (sym (asked-all_options unmarshal r)) (wanted-Asks r)
