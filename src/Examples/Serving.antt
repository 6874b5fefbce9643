-- ===== src/Examples/Serving.antt =====
-- Concrete inputs for the theorems on the handlers, the middlewares and their configuration.
use genkit_proxy.Common.{
  ℕ, zero, suc, ◌≡◌, refl, String, Bool, true, false, Option, none, some, List, [], ◌++◌, ◌∷◌, ◌⊎◌,
}
use genkit_proxy.Common.Int.{pos}
use genkit_proxy.Errors.Chain.{GoError, text, opaque}
use genkit_proxy.Errors.Result.{ok}
use genkit_proxy.Http.{HttpRequest, World, fresh_writer}
use genkit_proxy.Http.Handler.{Handler, Clocks, Exit, done, generate_with}
use genkit_proxy.Http.Serve.{serve_http}
use genkit_proxy.Http.Serve.Cases.{Admitted}
use genkit_proxy.Http.Serve.Answers.{Generated, Rejected, serve_http_answers}
use genkit_proxy.Http.Serve.Replies.{Unwritten}
use genkit_proxy.Http.Streaming.{Network, serve_stream, stream_with}
use genkit_proxy.Config.{RateLimits, limit_for_model}
use genkit_proxy.Config.Limits.{limit_for_model-tag}
use genkit_proxy.Http.Streaming.Delivery.{perfect, delivered, stream_with-deltas}
use genkit_proxy.Http.Streaming.Transcript.{Transcript}
use genkit_proxy.Http.Streaming.Replies.{serve_stream-Transcript}
use genkit_proxy.RateLimit.Memory.{MemLimiter, memory_limiter, new_memory_limiter}
use genkit_proxy.Credentials.{new_credential_resolver}
use genkit_proxy.Examples.{token_id, hello, busy_then_ok}
use genkit_proxy.Examples.Deciding.{tenants}

abbrev pub proxy : Handler ℕ MemLimiter
proxy = record {
  generator = busy_then_ok;
  limiter = some memory_limiter;
  rl_cfg = record { stream_limit = 2; limit_for_model = some (λ model. (5, "")) };
  allowlist = none;
  resolver = new_credential_resolver token_id tenants;
}

abbrev pub noon : Clocks
noon = record {
  model_check = record { now = 1_000; later = 1_001 };
  stream_check = record { now = 1_002; later = 1_003 };
}

abbrev pub post : HttpRequest
post = record { method = "POST"; authorization = "Bearer key-1"; body = ok hello }

abbrev pub quiet : World ℕ MemLimiter
quiet = record {
  generator = 2;
  limiter = new_memory_limiter (pos 100);
  writer = fresh_writer;
  slot = none;
}

quiet-Unwritten : Unwritten quiet.writer
quiet-Unwritten = record { status = refl; body = refl }

-- The second event cannot be written.
abbrev fails : ℕ → Option GoError
fails (suc zero) = some (opaque (text "broken pipe"))
fails _ = none

abbrev broken_pipe : Network
broken_pipe = record { write_failure = fails; flush_failure = λ n. none }

serve_http_answers_example :
    ((a : Admitted token_id proxy noon post quiet)
      → Generated proxy a.request a.key quiet (serve_http token_id proxy noon post quiet))
    × (Admitted token_id proxy noon post quiet
        ⊎ Rejected quiet (serve_http token_id proxy noon post quiet))
serve_http_answers_example = serve_http_answers token_id proxy noon post quiet quiet-Unwritten

streamed : (serve_stream broken_pipe token_id proxy noon post quiet).0 ≡ done
unfolding serve_stream genkit_proxy.Http.Handler.with_request genkit_proxy.Http.Bearer.bearer_token
    genkit_proxy.Common.Text.cut genkit_proxy.Http.Bearer.equal_fold
    genkit_proxy.Common.Text.trim_space new_credential_resolver
    genkit_proxy.Credentials.authenticate genkit_proxy.Auth.authenticate
    genkit_proxy.Common.Assoc.lookup genkit_proxy.Http.Handler.with_body
    genkit_proxy.Request.validate genkit_proxy.Router.is_blank genkit_proxy.Router.provider_of
    genkit_proxy.Router.is_known_provider genkit_proxy.Request.below_one
    genkit_proxy.Request.is_tool_choice genkit_proxy.Http.Streaming.stream_valid
    genkit_proxy.Auth.hash_key genkit_proxy.Auth.resolve genkit_proxy.Common.Text.cut_before
    genkit_proxy.Common.Text.is_space genkit_proxy.Credentials.resolve
    genkit_proxy.Errors.Chain.as_genai genkit_proxy.Errors.Chain.as_genkit
    genkit_proxy.Errors.Chain.as_openai genkit_proxy.Errors.Chain.as_validation
    genkit_proxy.Errors.Chain.error_text genkit_proxy.Errors.Chain.errorf
    genkit_proxy.Errors.Chain.is genkit_proxy.Errors.Chain.sentinel_text
    genkit_proxy.Errors.category_for_http genkit_proxy.Errors.classify
    genkit_proxy.Errors.safe_message genkit_proxy.Errors.status_for genkit_proxy.Errors.status_of
    genkit_proxy.Generating.run_stream genkit_proxy.Http.Bearer.token_of
    genkit_proxy.Http.Handler.allow_model genkit_proxy.Http.Handler.check_limit
    genkit_proxy.Http.Serve.check_model_limit genkit_proxy.Http.Serve.check_tagged
    genkit_proxy.Http.Serve.rate_limit_key genkit_proxy.Http.Streaming.check_stream_limit
    genkit_proxy.Http.Streaming.conclude genkit_proxy.Http.Streaming.on_chunk
    genkit_proxy.Http.Streaming.resolve_and_stream genkit_proxy.Http.Streaming.send
    genkit_proxy.Http.Streaming.start genkit_proxy.Http.Streaming.stream_with
    genkit_proxy.Http.whole_seconds genkit_proxy.Http.write_error genkit_proxy.Http.write_go_error
    genkit_proxy.Http.write_json genkit_proxy.Http.write_limited genkit_proxy.Policy.allows
    genkit_proxy.Request.float_one genkit_proxy.Request.is_role genkit_proxy.Request.message_field
    genkit_proxy.Request.outside genkit_proxy.Request.part_field genkit_proxy.Request.part_kinds
    genkit_proxy.Request.tool_field genkit_proxy.Request.validate_messages
    genkit_proxy.Request.validate_tools genkit_proxy.Router.missing_model
    genkit_proxy.Router.not_prefixed genkit_proxy.Router.unsupported
    genkit_proxy.RateLimit.Memory.allow new_memory_limiter genkit_proxy.Common.Assoc.insert
    genkit_proxy.RateLimit.Window.full_key genkit_proxy.Common.Text.Decimal.format_int
    genkit_proxy.RateLimit.Window.unix_nano genkit_proxy.RateLimit.Window.unix_epoch
    genkit_proxy.RateLimit.Window.truncate genkit_proxy.Auth.new_static_secret_source
    genkit_proxy.Auth.static_resolve
streamed = refl

serve_stream-Transcript_example :
    Transcript (serve_stream broken_pipe token_id proxy noon post quiet).1.writer
serve_stream-Transcript_example =
    serve_stream-Transcript token_id broken_pipe proxy noon post quiet quiet-Unwritten streamed

stream_with-deltas_example :
    (stream_with perfect proxy hello "sk-acme" quiet).1.writer.body
    ≡ [] ++ delivered (proxy.generator.generate_stream hello "sk-acme" 2)
stream_with-deltas_example = stream_with-deltas proxy hello "sk-acme" quiet

abbrev limits : RateLimits
limits = record {
  stream_rps = 2;
  google_ai_rps = 0;
  open_ai_rps = 30;
  anthropic_rps = 0;
  vertex_ai_rps = 0;
  by_model = ("openai/gpt-4o", 5) ∷ [];
}

same_tag :
    (limit_for_model token_id limits "openai/o3").1
    ≡ (limit_for_model token_id limits "openai/o4-mini").1
unfolding limit_for_model genkit_proxy.Common.Text.cut_before genkit_proxy.Common.Assoc.lookup
same_tag = refl

limit_for_model-tag_example :
    (limit_for_model token_id limits "openai/o3").0
    ≡ (limit_for_model token_id limits "openai/o4-mini").0
limit_for_model-tag_example =
    limit_for_model-tag token_id limits "openai/o3" "openai/o4-mini" same_tag
