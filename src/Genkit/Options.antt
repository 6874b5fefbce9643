-- ===== src/Genkit/Options.antt =====
-- The options of a call of Genkit, read back.
pub mod Configured
pub mod Asks
use genkit_proxy.Common.{
  String, ◌≡◌, refl, sym, ◌∙◌, ap, Bool, true, false, not, Bool-cases, inl, inr, Option, none, some,
  List, [], ◌∷◌, ◌++◌, map, is_empty, ◌==◌, if◌then◌else◌, eq_iff,
}
use genkit_proxy.Request.{JsonObject, GenerateRequest, ToolDefinition, wants_json}
use genkit_proxy.Genkit.{
  AiMessage, AiTool, GenerationConfig, GenerateOption, with_model_name, with_prompt, with_system,
  with_tool_choice, with_messages, with_config, with_output_format_json, with_output_schema,
  with_tools, with_return_tool_requests, config_for, messages_from, tool_from, option_if, option_of,
  generate_options, tool_options, all_options,
}

-- What a list of options asks for: each option sets one field, and the rest is unset.
pub record Asked (V : Type 0) : Type 0 where
  pub model_name : String
  pub prompt : String
  pub system : String
  pub messages : Option (List (AiMessage V))
  pub config : Option GenerationConfig
  pub json : Bool
  pub schema : JsonObject
  pub tools : List AiTool
  pub returns_requests : Bool
  pub tool_choice : String

abbrev pub nothing_asked : {V : Type 0} → Asked V
nothing_asked = record {
  model_name = "";
  prompt = "";
  system = "";
  messages = none;
  config = none;
  json = false;
  schema = [];
  tools = [];
  returns_requests = false;
  tool_choice = "";
}

module _ {V : Type 0} where
  set_option : GenerateOption V → Asked V → Asked V
  set_option (with_model_name s) a = record a { model_name = s }
  set_option (with_prompt s) a = record a { prompt = s }
  set_option (with_system s) a = record a { system = s }
  set_option (with_tool_choice s) a = record a { tool_choice = s }
  set_option (with_messages ms) a = record a { messages = some ms }
  set_option (with_config c) a = record a { config = some c }
  set_option with_output_format_json a = record a { json = true }
  set_option (with_output_schema o) a = record a { schema = o }
  set_option (with_tools ts) a = record a { tools = ts }
  set_option (with_return_tool_requests b) a = record a { returns_requests = b }

  unfoldable pub asked : List (GenerateOption V) → Asked V → Asked V
  unfolding set_option
  asked [] a = a
  asked (o ∷ os) a = set_option o (asked os a)

  asked-append :
      (xs ys : List (GenerateOption V)) (a : Asked V) → asked (xs ++ ys) a ≡ asked xs (asked ys a)
  unfolding asked
  asked-append [] ys a = refl
  asked-append (o ∷ os) ys a = ap (set_option o) (asked-append os ys a)

  asked_then :
      (a : Asked V) {b c : Asked V} (xs ys : List (GenerateOption V))
      → asked ys a ≡ b
      → asked xs b ≡ c
      → asked (xs ++ ys) a ≡ c
  asked_then a xs ys h k = asked-append xs ys a ∙ (ap (asked xs) h ∙ k)

  -- A text that is not given is not set.
  asked_text :
      (mk : String → GenerateOption V) (put : String → Asked V)
      → ((s : String) → set_option (mk s) (put "") ≡ put s)
      → (s : String) → asked (option_if (not (s == "")) (mk s)) (put "") ≡ put s
  unfolding asked
  asked_text mk put h s = elim (Bool-cases (s == "")) [
    | inl e ↦ rw e (ap put (sym ((eq_iff s "").0 e)))
    | inr e ↦ rw e (h s)
  ]

  asked_of :
      {A : Type 0} (mk : A → GenerateOption V) (put : Option A → Asked V)
      → ((x : A) → set_option (mk x) (put none) ≡ put (some x))
      → (x : Option A) → asked (option_of mk x) (put none) ≡ put x
  unfolding asked
  asked_of mk put h none = refl
  asked_of mk put h (some x) = h x

  asked_json :
      (a : Asked V) (wanted : Bool) (o : JsonObject)
      → asked
          (if wanted
            then with_output_format_json ∷ option_if (not (is_empty o)) (with_output_schema o)
            else [])
          (record a { json = false; schema = [] })
        ≡ record a { json = wanted; schema = if wanted then o else [] }
  unfolding asked
  asked_json a true [] = refl
  asked_json a true (m ∷ o) = refl
  asked_json a false o = refl

  asked_tools :
      (a : Asked V) (ts : List ToolDefinition) (choice : String)
      → asked
          (if is_empty ts
            then []
            else (with_tools (map tool_from ts)
                ∷ with_return_tool_requests true
                ∷ option_if (not (choice == "")) (with_tool_choice choice)))
          (record a { tools = []; returns_requests = false; tool_choice = "" })
        ≡ record a {
          tools = map tool_from ts;
          returns_requests = not (is_empty ts);
          tool_choice = if is_empty ts then "" else choice;
        }
  unfolding asked
  asked_tools a [] choice = refl
  asked_tools a (t ∷ ts) choice =
      ap
        (λ b.
          set_option (with_tools (map tool_from (t ∷ ts)))
            (set_option (with_return_tool_requests true) b))
        (asked_text with_tool_choice
          (λ s. record a { tools = []; returns_requests = false; tool_choice = s }) (λ s. refl)
          choice)

-- What Genkit is asked for on behalf of a request.
unfoldable pub wanted : {V : Type 0} → (String → Option V) → GenerateRequest → Asked V
wanted unmarshal r = record {
  model_name = r.model_name;
  prompt = r.user_message;
  system = r.system_prompt;
  messages = messages_from unmarshal r.messages;
  config = config_for r;
  json = wants_json r;
  schema = if wants_json r then r.output_schema else [];
  tools = map tool_from r.tools;
  returns_requests = not (is_empty r.tools);
  tool_choice = if is_empty r.tools then "" else r.tool_choice;
}

-- The options carry the request over: read back, they give every field of it, but for a schema
-- without the JSON format and a tool choice without tools; tool calls are returned instead of being
-- run exactly if there are tools.
pub asked-all_options :
    {V : Type 0} (unmarshal : String → Option V) (r : GenerateRequest)
    → asked (all_options unmarshal r) nothing_asked ≡ wanted unmarshal r
unfolding all_options wanted asked
asked-all_options {V = V} unmarshal r =
    let t : Asked V = record (nothing_asked {V = V}) {
      tools = map tool_from r.tools;
      returns_requests = not (is_empty r.tools);
      tool_choice = if is_empty r.tools then "" else r.tool_choice;
    } in
    let j : Asked V = record t {
      json = wants_json r;
      schema = if wants_json r then r.output_schema else [];
    } in
    let c : Asked V = record j { config = config_for r } in
    let m : Asked V = record c { messages = messages_from unmarshal r.messages } in
    let s : Asked V = record m { system = r.system_prompt } in
    let js =
      if wants_json r
      then with_output_format_json
        ∷ option_if (not (is_empty r.output_schema)) (with_output_schema r.output_schema)
      else [] in
    let cs = option_of {V = V} with_config (config_for r) in
    let ms = option_of {V = V} with_messages (messages_from unmarshal r.messages) in
    let ss = option_if {V = V} (not (r.system_prompt == "")) (with_system r.system_prompt) in
    let ps = option_if {V = V} (not (r.user_message == "")) (with_prompt r.user_message) in
    let after_config =
      asked_then t cs js (asked_json t (wants_json r) r.output_schema)
        (asked_of with_config (λ x. record j { config = x }) (λ x. refl) (config_for r)) in
    let after_messages = asked_then t ms (cs ++ js) after_config (
      asked_of with_messages (λ x. record c { messages = x }) (λ x. refl)
        (messages_from unmarshal r.messages)) in
    let after_system =
      asked_then t ss (ms ++ (cs ++ js)) after_messages
        (asked_text with_system (λ x. record m { system = x }) (λ x. refl) r.system_prompt) in
    asked_then nothing_asked (generate_options unmarshal r) (tool_options unmarshal r)
      (asked_tools nothing_asked r.tools r.tool_choice)
      (ap (set_option (with_model_name r.model_name)) (
        asked_then t ps (ss ++ (ms ++ (cs ++ js))) after_system
          (asked_text with_prompt (λ x. record s { prompt = x }) (λ x. refl) r.user_message)))
