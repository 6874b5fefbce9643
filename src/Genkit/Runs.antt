-- ===== src/Genkit/Runs.antt =====
-- internal/proxy/generator.go: genkitRun, genkitRunStream and the Generator that is made of them.
-- `G` is the state behind Genkit and the instance cache, and `App` the type of Genkit instances.
-- The library's calls are fields of `Genkit`: genkit.Init with a plugin, genkit.Generate, and the
-- sequence that genkit.GenerateStream ranges over. The timeout of a call, which it carries in its
-- context, is one of the ways in which those calls end.
use genkit_proxy.Common.{String, Bool, Option, none, some, List, ◌==◌, if◌then◌else◌, [], ◌∷◌}
use genkit_proxy.Errors.Chain.{GoError, is, unsupported_provider, errorf, lit, quoted}
use genkit_proxy.Errors.Result.{ok, err}
use genkit_proxy.Generating.{Panic, Outcome, returned, panicked, Stream, finish, emit, Generator}
use genkit_proxy.Request.{GenerateRequest, GenerateResponse}
use genkit_proxy.Router.{Plugin, plugin_for}
use genkit_proxy.Genkit.{
  GenerateOption, ModelResponse, all_options, output_and_data, tool_calls_from, usage_from,
}

-- What the sequence of genkit.GenerateStream yields: an error, the final value, or a chunk with
-- its text.
pub data Value (V : Type 0) : Type 0 where
  failed : GoError → Value V
  final : Option (ModelResponse V) → Value V
  chunk : String → Value V

-- The sequence. A value stands with the state in which Genkit is left when the loop ends there.
pub data Values (G : Type 0) (V : Type 0) : Type 0 where
  ended : G → Values G V
  crashed : Panic → G → Values G V
  yields : Value V → G → Values G V → Values G V

-- appSource: an instance for a model name and a key.
abbrev pub AppSource : Type 0 → Type 0 → Type 0
AppSource G App = String → String → G → Outcome App × G

pub record Genkit (G V App : Type 0) : Type 0 where
  pub init : Plugin → G → Outcome App × G
  pub generate : App → List (GenerateOption V) → G → Outcome (ModelResponse V) × G
  pub values : App → List (GenerateOption V) → G → Values G V
  pub unmarshal : String → Option V
  pub marshal : V → Option String
  pub json_valid : String → Bool

-- The wrapping of an error by Generate and GenerateStream.
unfoldable pub call_error : GenerateRequest → GoError → GoError
call_error r e =
    if is unsupported_provider e
    then e
    else errorf (lit "generate " ∷ quoted r.model_name ∷ lit ": " ∷ []) e []

abbrev pub conclude {ℓ} :
    {A : Type ℓ} → GenerateRequest → (A → GenerateResponse) → Outcome A → Outcome GenerateResponse
conclude r f (returned (ok a)) = returned (ok (f a))
conclude r f (returned (err e)) = returned (err (call_error r e))
conclude r f (panicked p) = panicked p

module _ {G V : Type 0} where
  -- What follows the call of onChunk.
  abbrev pub after_chunk :
      G → (Outcome (Option (ModelResponse V)) → G → Stream G) → Stream G → Option GoError → Stream G
  after_chunk g k rest none = rest
  after_chunk g k rest (some e) = k (returned (err e)) g

  -- One round of the loop of genkitRunStream; `k` gets what it returns.
  unfoldable pub on_value :
      Value V → G → (Outcome (Option (ModelResponse V)) → G → Stream G) → Stream G → Stream G
  on_value (failed e) g k rest = k (returned (err e)) g
  on_value (final answer) g k rest = k (returned (ok answer)) g
  on_value (chunk delta) g k rest = if delta == "" then rest else emit delta (after_chunk g k rest)

  unfoldable pub forward_values :
      Values G V → (Outcome (Option (ModelResponse V)) → G → Stream G) → Stream G
  forward_values (ended g) k = k (returned (ok none)) g
  forward_values (crashed p g) k = k (panicked p) g
  forward_values (yields v g vs) k = on_value v g k (forward_values vs k)

module _ {G V App : Type 0} (genkit : Genkit G V App) where
  unfoldable pub fresh_app : AppSource G App
  fresh_app model_name key g = elim (plugin_for model_name key) [
    | err e ↦ (returned (err e), g)
    | ok plugin ↦ genkit.init plugin g
  ]

  -- newAppSource, by the lookup of the cache where there is one.
  unfoldable pub new_app_source : Option (AppSource G App) → AppSource G App
  new_app_source none = fresh_app
  new_app_source (some get) = get

  -- A call with the instance, unless there is none.
  with_app {ℓ} :
      {A : Type ℓ} → Outcome App × G → (GoError → G → A) → (Panic → G → A) → (App → G → A) → A
  with_app (returned (ok app), g) failure crash run = run app g
  with_app (returned (err e), g) failure crash run = failure e g
  with_app (panicked p, g) failure crash run = crash p g

  unfoldable pub genkit_run :
      AppSource G App → GenerateRequest → String → G → Outcome (ModelResponse V) × G
  unfolding with_app
  genkit_run source r key g =
      with_app (source r.model_name key g) (λ e g'. (returned (err e), g'))
        (λ p g'. (panicked p, g'))
        (λ app g'. genkit.generate app (all_options genkit.unmarshal r) g')

  unfoldable pub genkit_run_stream :
      AppSource G App
      → GenerateRequest
      → String
      → G
      → (Outcome (Option (ModelResponse V)) → G → Stream G)
      → Stream G
  unfolding with_app
  genkit_run_stream source r key g k =
      with_app (source r.model_name key g) (λ e g'. k (returned (err e)) g')
        (λ p g'. k (panicked p) g')
        (λ app g'. forward_values (genkit.values app (all_options genkit.unmarshal r) g') k)

  -- The response that Generate makes of the model's.
  unfoldable pub response_of : GenerateRequest → ModelResponse V → GenerateResponse
  response_of r answer =
      let (output, payload) = output_and_data genkit.json_valid r answer.text in
      record {
        model = r.model_name;
        output = output;
        finish_reason = answer.finish_reason;
        payload = payload;
        tool_calls = tool_calls_from genkit.marshal answer.tool_requests;
        usage = usage_from answer.usage;
      }

  -- The response that GenerateStream makes of the final value, if there was one.
  unfoldable pub stream_response_of : GenerateRequest → Option (ModelResponse V) → GenerateResponse
  stream_response_of r none = record {
    model = r.model_name;
    output = "";
    finish_reason = "";
    payload = none;
    tool_calls = [];
    usage = none;
  }
  stream_response_of r (some answer) = record {
    model = r.model_name;
    output = "";
    finish_reason = answer.finish_reason;
    payload = none;
    tool_calls = tool_calls_from genkit.marshal answer.tool_requests;
    usage = usage_from answer.usage;
  }

  unfoldable pub generate :
      AppSource G App → GenerateRequest → String → G → Outcome GenerateResponse × G
  generate source r key g =
      let (o, g') = genkit_run source r key g in (conclude r (response_of r) o, g')

  unfoldable pub generate_stream : AppSource G App → GenerateRequest → String → G → Stream G
  generate_stream source r key g =
      genkit_run_stream source r key g (λ o g'. finish (conclude r (stream_response_of r) o) g')

  -- NewGenkitGenerator.
  unfoldable pub new_genkit_generator : Option (AppSource G App) → Generator G
  unfolding new_app_source generate generate_stream
  new_genkit_generator cache = record {
    generate = generate (new_app_source cache);
    generate_stream = generate_stream (new_app_source cache);
  }
