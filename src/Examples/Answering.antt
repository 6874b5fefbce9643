-- ===== src/Examples/Answering.antt =====
-- Concrete inputs for the theorems on the Genkit generator.
use genkit_proxy.Common.{
  ℕ, suc, ◌≡◌, refl, String, Bool, true, false, Option, none, some, List, [], ◌∷◌, ◌++◌, map, ◌==◌,
  if◌then◌else◌,
}
use genkit_proxy.Errors.Chain.{text, opaque}
use genkit_proxy.Errors.Result.{ok}
use genkit_proxy.Generating.{fault, returned, panicked, OnChunk, run_stream}
use genkit_proxy.Router.{Plugin}
use genkit_proxy.Genkit.{ModelResponse, all_options, part_from, tool_calls_from, tool_request_part}
use genkit_proxy.Genkit.Runs.{
  Genkit, AppSource, yields, ended, chunk, final, generate_stream, conclude, stream_response_of,
}
use genkit_proxy.Genkit.Deltas.{texts, closing, deliver, answer, generate_stream-deliver}
use genkit_proxy.Genkit.Answers.{Uncached, uncached_cases}
use genkit_proxy.Genkit.Content.{part_of_call, part_from-tool_calls_from}
use genkit_proxy.Genkit.Options.{asked, nothing_asked}
use genkit_proxy.Genkit.Options.Asks.{Asks, all_options-Asks}
use genkit_proxy.Genkit.Cached.{Shared}
use genkit_proxy.Genkit.Cached.Cases.{Served, cached_cases}
use genkit_proxy.Common.Int.{pos}
use genkit_proxy.Cache.{Instance, new_genkit_cache}
use genkit_proxy.Cache.Alone.Settled.{Settled}
use genkit_proxy.RateLimit.{Clock}
use genkit_proxy.Examples.{hello, token_id}
use genkit_proxy.Examples.Caching.{token_id-Injective}

abbrev done : ModelResponse Bool
done = record {
  finish_reason = "stop";
  text = "Hello";
  tool_requests = record { name = "clock"; ref = "1"; input = some true } ∷ [];
  usage = none;
}

abbrev decode : String → Option Bool
decode s = if s == "true" then some true else if s == "false" then some false else none

abbrev encode : Bool → Option String
encode true = some "true"
encode false = some "false"

-- The state counts the calls; the stream has an empty chunk, and one after the final value.
abbrev small : Genkit ℕ Bool Plugin
small = record {
  init = λ plugin g. (returned (ok plugin), g);
  generate = λ app opts g. (returned (ok done), suc g);
  values = λ app opts g. yields (chunk "Hel") g (
      yields (chunk "") g (
        yields (chunk "lo") g
          (yields (final (some done)) (suc g) (yields (chunk "late") g (ended g)))));
  unmarshal = decode;
  marshal = encode;
  json_valid = λ s. false;
}

-- A client that keeps the deltas, and one that fails at the first.
abbrev keep : OnChunk (List String)
keep delta w = (none, w ++ delta ∷ [])

abbrev gone : OnChunk (List String)
gone delta w = (some (opaque (text "broken pipe")), w ++ delta ∷ [])

abbrev instance_for : String → AppSource ℕ Plugin
instance_for key model_name k g = (returned (ok (Plugin.google_ai key)), g)

kept :
    (deliver keep (texts (small.values (Plugin.google_ai "k") [] 0)) []) ≡ (none, "Hel" ∷ "lo" ∷ [])
unfolding deliver texts
kept = refl

refused :
    (deliver gone (texts (small.values (Plugin.google_ai "k") [] 0)) [])
    ≡ (some (opaque (text "broken pipe")), "Hel" ∷ [])
unfolding deliver texts
refused = refl

generate_stream-deliver_example :
    let vs = small.values (Plugin.google_ai "k") (all_options decode hello) 0 in
    let (reply, w') = deliver keep (texts vs) [] in
    (g : ℕ) × (run_stream keep (generate_stream small (instance_for "k") hello "k" 0) []
      ≡ (conclude hello (stream_response_of small hello) (answer (closing vs).0 reply), g, w'))
generate_stream-deliver_example =
    generate_stream-deliver small (instance_for "k") keep hello "k" 0 0 (Plugin.google_ai "k") []
      refl

uncached_cases_example : Uncached small hello "key" 0
uncached_cases_example = uncached_cases small hello "key" 0

encode_full :
    (v : Bool) → (s : String) × (encode v ≡ some s) × ((s == "") ≡ false) × (decode s ≡ some v)
encode_full true = ("true", refl, refl, refl)
encode_full false = ("false", refl, refl, refl)

part_from-tool_calls_from_example :
    map (λ c. part_from decode (part_of_call c)) (tool_calls_from encode done.tool_requests)
    ≡ map tool_request_part done.tool_requests
part_from-tool_calls_from_example =
    part_from-tool_calls_from encode decode encode_full done.tool_requests

all_options-Asks_example : Asks decode hello (asked (all_options decode hello) nothing_asked)
all_options-Asks_example = all_options-Asks decode hello

abbrev sharing : Genkit (Shared ℕ) Bool Instance
sharing = record {
  init = λ plugin s. (panicked fault, record s { state = suc s.state });
  generate = λ app opts s. (returned (ok done), s);
  values = λ app opts s. yields (final (some done)) s (ended s);
  unmarshal = decode;
  marshal = encode;
  json_valid = λ t. false;
}

abbrev unused : Shared ℕ
unused = record { state = 0; cache = new_genkit_cache (pos 100) (pos 2); calls = 0 }

unused-Settled : Settled token_id unused.cache unused.calls
unfolding genkit_proxy.Common.Assoc.lookup
unused-Settled k m e = cc e

abbrev ticking : ℕ → Clock
ticking n = record { now = n; later = n }

cached_cases_example :
    Served sharing token_id ticking
      (λ n. opaque (text "deadline"))
      (text "bad key")
      hello
      "k"
      unused
cached_cases_example =
    cached_cases sharing token_id ticking (λ n. opaque (text "deadline")) (text "bad key")
      token_id-Injective hello "k" unused unused-Settled
