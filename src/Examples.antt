-- ===== src/Examples.antt =====
-- Concrete inputs for the theorems, and tests of the definitions.
pub mod Serving
pub mod Caching
pub mod Answering
pub mod Counting
pub mod Metering
pub mod Granting
pub mod Configuring
pub mod Deciding
pub mod Visiting
use genkit_proxy.Common.{
  ℕ, zero, suc, ◌≤◌, ◌<◌, ◌≡◌, ◌≢◌, refl, String, Bool, true, false, Option, none, some, List, [],
  ◌∷◌, ◌⊎◌, ◌↔◌, arith,
}
use genkit_proxy.Common.Int.{ℤ, pos, negsuc}
use genkit_proxy.Errors.{status_for, safe_message, classify}
use genkit_proxy.Errors.Chain.{
  GoError, Message, text, opaque, openai, sentinel, no_provider_secret, errorf, relabel, wrapped,
}
use genkit_proxy.Errors.Result.{GoResult, ok, err}
use genkit_proxy.Router.{provider_of}
use genkit_proxy.Router.Laws.{Routes, provider_of_iff}
use genkit_proxy.Request.{GenerateRequest, GenerateResponse, empty_response, validate}
use genkit_proxy.Generating.{
  Generator, Outcome, returned, panicked, Stream, finish, emit, OnChunk, run_stream,
}
use genkit_proxy.Retry.{Env, new_retrying_generator, retry_delay}
use genkit_proxy.Retry.Attempts.{Last, generate-Last}
use genkit_proxy.Retry.Calls.{counting, attempts, retrying_calls}
use genkit_proxy.Retry.Streams.{OneStream, generate_stream-OneStream}

abbrev pub token_id : String → String
token_id s = s

abbrev pub hello : GenerateRequest
hello = record {
  model_name = "openai/gpt-4o";
  system_prompt = "";
  user_message = "hi";
  temperature = none;
  max_output_tokens = some (pos 64);
  top_p = none;
  top_k = none;
  stop_sequences = [];
  response_format = "";
  output_schema = [];
  messages = [];
  tools = [];
  tool_choice = "auto";
}

abbrev pub reply : ℕ → Outcome GenerateResponse
reply zero = returned (err (openai 429 (text "busy")))
reply (suc zero) = returned (err (openai 429 (text "busy")))
reply (suc (suc n)) = returned (ok empty_response)

abbrev pub chunks : ℕ → Stream ℕ
chunks zero = finish (reply 0) 1
chunks (suc n) =
    emit "hel" (λ a. emit "lo" (λ b. finish (returned (ok empty_response)) (suc (suc n))))

-- A provider that answers 429 twice and then succeeds; its state counts the calls.
abbrev pub busy_then_ok : Generator ℕ
busy_then_ok = record {
  generate = λ req key n. (reply n, suc n);
  generate_stream = λ req key n. chunks n;
}

abbrev pub patient : Env
patient = record { done = λ n. none; random = λ n. 7 }

-- A client that keeps what it is sent.
abbrev pub keeping : OnChunk (List String)
keeping d w = (none, d ∷ w)

generate-Last_example :
    Last patient busy_then_ok 3
      (pos 100_000_000)
      hello
      "k"
      0
      ((new_retrying_generator patient busy_then_ok 3 (pos 100_000_000)).generate hello "k" 0)
generate-Last_example =
    generate-Last patient busy_then_ok 3 (pos 100_000_000) hello "k" 0 (omega arith)

generate_stream-OneStream_example :
    OneStream patient busy_then_ok 3 (pos 100_000_000) hello "k" keeping 0 [] (
      run_stream keeping
        ((new_retrying_generator patient busy_then_ok 3 (pos 100_000_000)).generate_stream hello "k"
          0)
        [])
generate_stream-OneStream_example =
    generate_stream-OneStream patient busy_then_ok 3 (pos 100_000_000) hello "k" keeping 0 []
      (omega arith)

retry_stream_test :
    (run_stream keeping
      ((new_retrying_generator patient busy_then_ok 3 (pos 100_000_000)).generate_stream hello "k"
        0)
      []).2
    ≡ "lo" ∷ "hel" ∷ []
unfolding run_stream new_retrying_generator genkit_proxy.Errors.is_retryable classify
    genkit_proxy.Errors.Chain.as_validation genkit_proxy.Errors.Chain.is
    genkit_proxy.Errors.Chain.as_genkit genkit_proxy.Errors.Chain.as_genai
    genkit_proxy.Errors.Chain.as_openai genkit_proxy.Retry.pause retry_delay
    genkit_proxy.Retry.jitter genkit_proxy.Retry.to_int64
retry_stream_test = refl

retrying_calls_example :
    let r = new_retrying_generator patient (counting busy_then_ok) 3 (pos 100_000_000) in
    ((r.generate hello "k" (0, 0)).1.1 ≤ attempts 3)
    × ((run_stream keeping (r.generate_stream hello "k" (0, 0)) []).1.1 ≤ attempts 3)
retrying_calls_example =
    retrying_calls patient busy_then_ok 3 (pos 100_000_000) hello "k" keeping 0 []
