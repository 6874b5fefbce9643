-- ===== src/Http/Streaming.antt =====
-- ServeStream of internal/proxy/stream.go. `Network` says of the n-th event that is written whether
-- writing it or flushing it fails, and with which error; an event whose write fails is not in the
-- body. Clearing the write deadline has no counterpart.
pub mod Transcript
pub mod Replies
pub mod Delivery
use genkit_proxy.Common.{
  ℕ, suc, String, Bool, true, false, not, Option, none, some, List, [], ◌∷◌, ltb, if◌then◌else◌,
}
use genkit_proxy.Errors.{safe_message}
use genkit_proxy.Errors.Chain.{GoError}
use genkit_proxy.Errors.Result.{ok, err}
use genkit_proxy.Request.{GenerateRequest, GenerateResponse}
use genkit_proxy.Generating.{Generator, Outcome, returned, panicked, OnChunk, run_stream}
use genkit_proxy.Http.{
  HttpRequest, Writer, Payload, chunk_event, done_event, error_event, plain, set_header,
  write_header, write, write_go_error, World, ModelSlot,
}
use genkit_proxy.Http.Handler.{
  Handler, Clocks, Exit, done, unwound, check_limit, allow_model, respond, name_slot, fill_slot,
  with_request,
}
use genkit_proxy.Http.Serve.{rate_limit_key, check_model_limit}

pub record Network : Type 0 where
  pub write_failure : ℕ → Option GoError
  pub flush_failure : ℕ → Option GoError

-- The variables that onChunk shares with the handler.
pub record Sse : Type 0 where
  pub started : Bool
  pub events : ℕ
  pub writer : Writer

-- The closure `start`.
unfoldable pub start : Sse → Sse
start s = record s {
  started = true;
  writer = write_header 200 (
      set_header "Cache-Control" (plain "no-cache")
        (set_header "Content-Type" (plain "text/event-stream") s.writer));
}

abbrev pub ensure_started : Sse → Sse
ensure_started s = if s.started then s else start s

module _ (net : Network) where
  -- writeSSEEvent and the flush after it, with the error that the caller may look at.
  unfoldable pub send : Payload → Sse → Option GoError × Sse
  send p s = elim (net.write_failure s.events) [
    | some e ↦ (some e, record s { events = suc s.events })
    | none ↦
        (net.flush_failure s.events, record s { events = suc s.events; writer = write p s.writer })
  ]

  unfoldable pub on_chunk : OnChunk Sse
  on_chunk delta s = send (chunk_event delta) (ensure_started s)

  module _ {G L : Type 0} where
    abbrev with_sse : World G L → Sse → World G L
    with_sse w s = record w { writer = s.writer }

    -- What ServeStream does when GenerateStream has returned.
    unfoldable pub conclude : Outcome GenerateResponse → World G L → Sse → Exit × World G L
    conclude (panicked p) w s = (unwound p, with_sse w s)
    conclude (returned (err e)) w s =
        if s.started
        then (done, with_sse w (send (error_event (safe_message e)) s).1)
        else (done, respond (write_go_error e) (with_sse w s))
    conclude (returned (ok final)) w s =
        let ended =
          (send (done_event final.model final.finish_reason final.tool_calls final.usage)
            (ensure_started s)).1 in
        (done, with_sse (record w { slot = fill_slot final w.slot }) ended)

    unfoldable pub stream_with :
        Handler G L → GenerateRequest → String → World G L → Exit × World G L
    stream_with h req key w =
        let before : Sse = record { started = false; events = 0; writer = w.writer } in
        let (o, g, s) =
          run_stream on_chunk (h.generator.generate_stream req key w.generator) before in
        conclude o (record w { generator = g }) s

    module _ (digest : String → String) where
      -- The per-token limit on streams.
      unfoldable pub check_stream_limit :
          Handler G L → Clocks → String → World G L → Bool × World G L
      check_stream_limit h clocks token w = elim h.limiter [
        | none ↦ (true, w)
        | some lim ↦
            if ltb 0 h.rl_cfg.stream_limit
            then check_limit lim clocks.stream_check (rate_limit_key digest token "stream")
                h.rl_cfg.stream_limit w
            else (true, w)
      ]

      unfoldable pub resolve_and_stream :
          Handler G L → GenerateRequest → String → World G L → Exit × World G L
      resolve_and_stream h req token w =
          let named = record w { slot = name_slot req.model_name w.slot } in
          elim (h.resolver.resolve token req.model_name) [
            | err e ↦ (done, respond (write_go_error e) named)
            | ok key ↦ stream_with h req key named
          ]

      -- From the allowlist on.
      unfoldable pub stream_valid :
          Handler G L → Clocks → GenerateRequest → String → World G L → Exit × World G L
      stream_valid h clocks req token w =
          let (permitted, w1) = allow_model h req.model_name w in
          if not permitted
          then (done, w1)
          else (let (passed, w2) =
                check_model_limit digest h clocks.model_check token req.model_name w1 in
              if not passed
              then (done, w2)
              else (let (open', w3) = check_stream_limit h clocks token w2 in
                  if not open' then (done, w3) else resolve_and_stream h req token w3))

      unfoldable pub serve_stream :
          Handler G L → Clocks → HttpRequest → World G L → Exit × World G L
      serve_stream h clocks req w = with_request h req (stream_valid h clocks) w
