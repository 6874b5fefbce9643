-- ===== src/Http/Streaming/Delivery.antt =====
-- What the client of ServeStream receives on a network that never fails.
use mathlib.Core.List.{append-nil, append_assoc}
use genkit_proxy.Common.{
  if-on, if-off, ◌≡◌, refl, ◌∙◌, ap, sym, Bool, true, false, none, List, [], ◌∷◌, ◌++◌, map, String,
  Bool-cases, inl, inr,
}
use genkit_proxy.Errors.{safe_message}
use genkit_proxy.Errors.Result.{ok, err}
use genkit_proxy.Request.{GenerateRequest, GenerateResponse}
use genkit_proxy.Generating.{Outcome, returned, panicked, Stream, finish, emit, run_stream}
use genkit_proxy.Http.{
  Payload, chunk_event, done_event, error_event, error_body, World, write_error, write_json,
  write_go_error,
}
use genkit_proxy.Http.Handler.{Handler, Exit}
use genkit_proxy.Http.Streaming.{
  Network, Sse, start, ensure_started, send, on_chunk, conclude, stream_with,
}
use genkit_proxy.Http.Streaming.Transcript.{ensure_started-on, ensure_started-off}

abbrev pub perfect : Network
perfect = record { write_failure = λ n. none; flush_failure = λ n. none }

-- What a stream delivers and how it ends if no call of onChunk fails.
pub deltas : {G : Type 0} → Stream G → List String
deltas (finish o g) = []
deltas (emit d next) = d ∷ deltas (next none)

pub ending : {G : Type 0} → Stream G → Outcome GenerateResponse
ending (finish o g) = o
ending (emit d next) = ending (next none)

-- The last part of the body; an error before the first chunk is a JSON error.
pub closing : Outcome GenerateResponse → List String → List Payload
closing (panicked p) ds = []
closing (returned (ok final)) ds =
    done_event final.model final.finish_reason final.tool_calls final.usage ∷ []
closing (returned (err e)) [] = error_body (safe_message e) ∷ []
closing (returned (err e)) (d ∷ ds) = error_event (safe_message e) ∷ []

-- The events of a stream.
pub delivered : {G : Type 0} → Stream G → List Payload
unfolding deltas ending closing
delivered t = map chunk_event (deltas t) ++ closing (ending t) (deltas t)

ensure_started-started : (s : Sse) → (ensure_started s).started ≡ true
unfolding start
ensure_started-started s = elim (Bool-cases s.started) [
  | inl e ↦ ap (λ (t : Sse). t.started) (ensure_started-on s e) ∙ e
  | inr e ↦ ap (λ (t : Sse). t.started) (ensure_started-off s e)
]

ensure_started-body : (s : Sse) → (ensure_started s).writer.body ≡ s.writer.body
unfolding start
ensure_started-body s = elim (Bool-cases s.started) [
  | inl e ↦ ap (λ (t : Sse). t.writer.body) (ensure_started-on s e)
  | inr e ↦ ap (λ (t : Sse). t.writer.body) (ensure_started-off s e)
]

module _ {G : Type 0} where
  run-ending : (t : Stream G) (s : Sse) → (run_stream (on_chunk perfect) t s).0 ≡ ending t
  unfolding run_stream on_chunk send ending
  run-ending (finish o g) s = refl
  run-ending (emit d next) s = run-ending (next none) (on_chunk perfect d s).1

  run-deltas :
      (t : Stream G) (s : Sse)
      → (run_stream (on_chunk perfect) t s).2.writer.body
        ≡ s.writer.body ++ map chunk_event (deltas t)
  unfolding run_stream on_chunk send deltas
  run-deltas (finish o g) s = sym (append-nil s.writer.body)
  run-deltas (emit d next) s =
      run-deltas (next none) (on_chunk perfect d s).1
      ∙ (append_assoc (ensure_started s).writer.body (chunk_event d ∷ [])
            (map chunk_event (deltas (next none)))
          ∙ ap (λ (b : List Payload). b ++ map chunk_event (d ∷ deltas (next none)))
              (ensure_started-body s))

  run-started :
      (t : Stream G) (s : Sse)
      → s.started ≡ true
      → (run_stream (on_chunk perfect) t s).2.started ≡ true
  unfolding run_stream on_chunk send
  run-started (finish o g) s e = e
  run-started (emit d next) s e =
      run-started (next none) (on_chunk perfect d s).1 (ensure_started-started s)

-- Whether the headers are sent tells whether something was delivered.
abbrev some_delivered : List String → Bool
some_delivered [] = false
some_delivered (d ∷ ds) = true

run-some_delivered :
    {G : Type 0} (t : Stream G) (s : Sse)
    → s.started ≡ false
    → (run_stream (on_chunk perfect) t s).2.started ≡ some_delivered (deltas t)
unfolding run_stream on_chunk send deltas
run-some_delivered (finish o g) s e = e
run-some_delivered (emit d next) s e =
    run-started (next none) (on_chunk perfect d s).1 (ensure_started-started s)

conclude-closing :
    {G L : Type 0} (o : Outcome GenerateResponse) (v : World G L) (s : Sse) (ds : List String)
    → s.started ≡ some_delivered ds
    → (conclude perfect o v s).1.writer.body ≡ s.writer.body ++ closing o ds
unfolding conclude send closing write_go_error write_error write_json
conclude-closing (panicked p) v s ds e = sym (append-nil s.writer.body)
conclude-closing (returned (ok final)) v s ds e =
    ap (λ (b : List Payload). b ++ closing (returned (ok final)) ds) (ensure_started-body s)
conclude-closing (returned (err er)) v s [] e =
    ap (λ (r : Exit × World _ _). r.1.writer.body) (if-off s.started _ _ e)
conclude-closing (returned (err er)) v s (d ∷ ds) e =
    ap (λ (r : Exit × World _ _). r.1.writer.body) (if-on s.started _ _ e)

-- On a network that never fails, the body that a stream adds to the response is a chunk event for
-- each delta of the generator, in order, and then the event of its end: "done" for a result,
-- "error" for an error after a chunk, one JSON error for an error before any, nothing for a panic.
pub stream_with-deltas :
    {G L : Type 0} (h : Handler G L) (req : GenerateRequest) (key : String) (v : World G L)
    → (stream_with perfect h req key v).1.writer.body
      ≡ v.writer.body ++ delivered (h.generator.generate_stream req key v.generator)
unfolding stream_with delivered
stream_with-deltas h req key v =
    let t = h.generator.generate_stream req key v.generator in
    let before : Sse = record { started = false; events = 0; writer = v.writer } in
    let o = (run_stream (on_chunk perfect) t before).0 in
    let body = map chunk_event (deltas t) in
    conclude-closing _ _ _ (deltas t) (run-some_delivered t before refl)
    ∙ (ap (λ (b : List Payload). b ++ closing o (deltas t)) (run-deltas t before)
        ∙ (append_assoc v.writer.body body _
            ∙ ap (λ (r : Outcome GenerateResponse). v.writer.body ++ (body ++ closing r (deltas t)))
                (run-ending t before)))
