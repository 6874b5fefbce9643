-- ===== src/Http/Streaming/Transcript.antt =====
-- The event stream that the client of ServeStream receives.
use mathlib.Core.List.{map-append, append-nil}
use genkit_proxy.Common.{
  if-on, if-off, ℕ, ◌≡◌, refl, ◌∙◌, ap, sym, subst, inl, inr, Bool, true, false, Option, some, List,
  [], ◌∷◌, ◌++◌, map, arith, String, if◌then◌else◌, Option-cases,
}
use genkit_proxy.Errors.{status_for, safe_message}
use genkit_proxy.Errors.Laws.{status_for_bounds}
use genkit_proxy.Errors.Chain.{Message}
use genkit_proxy.Errors.Result.{ok, err}
use genkit_proxy.Request.{GenerateRequest, GenerateResponse}
use genkit_proxy.Generating.{Outcome, returned, panicked, Stream, finish, emit, OnChunk, run_stream}
use genkit_proxy.Http.{
  Writer, first_status, Payload, chunk_event, done_event, error_event, write_go_error, World,
}
use genkit_proxy.Http.Handler.{Handler}
use genkit_proxy.Http.Serve.Replies.{Unwritten, Failed, write_error-Failed}
use genkit_proxy.Http.Answered.{Answered, complete, silent, torn}
use genkit_proxy.Http.Streaming.{
  Network, Sse, start, ensure_started, send, on_chunk, conclude, stream_with,
}

-- What may follow the chunks: one closing event, or none if it could not be written.
pub data Closing (tail : List Payload) : Type 0 where
  lost : tail ≡ [] → Closing tail
  finished :
      (r : GenerateResponse)
      → tail ≡ done_event r.model r.finish_reason r.tool_calls r.usage ∷ []
      → Closing tail
  broken : (m : Message) → tail ≡ error_event m ∷ [] → Closing tail

-- Either one JSON error, or a 200 whose body is chunks and then the closing event.
pub data Transcript (w : Writer) : Type 0 where
  rejected : Failed w → Transcript w
  streamed :
      (deltas : List String) (tail : List Payload)
      → w.status ≡ some 200
      → w.body ≡ map chunk_event deltas ++ tail
      → Closing tail
      → Transcript w

-- What a panic leaves behind the first chunk: chunk events and no closing event.
pub data CutShort (w : Writer) : Type 0 where
  chunks :
      (deltas : List String) → w.status ≡ some 200 → w.body ≡ map chunk_event deltas → CutShort w

-- The state of the response between two chunks.
data Open (w : Writer) (s : Sse) : Type 0 where
  waiting : s.started ≡ false → s.writer ≡ w → Open w s
  flowing :
      (deltas : List String)
      → s.started ≡ true
      → s.writer.status ≡ some 200
      → s.writer.body ≡ map chunk_event deltas
      → Open w s

run_stream-invariant :
    {G W : Type 0} (P : W → Type 0) (client : OnChunk W)
    → ((d : String) (w : W) → P w → P (client d w).1)
    → (s : Stream G) (w : W) → P w
    → P (run_stream client s w).2
unfolding run_stream
run_stream-invariant P client keep (finish o g) w p = p
run_stream-invariant P client keep (emit d next) w p =
    run_stream-invariant P client keep (next (client d w).0) (client d w).1 (keep d w p)

snoc-chunk :
    (ds : List String) (d : String)
    → map chunk_event ds ++ chunk_event d ∷ [] ≡ map chunk_event (ds ++ d ∷ [])
snoc-chunk ds d = sym (map-append chunk_event ds (d ∷ []))

pub ensure_started-on : (s : Sse) → s.started ≡ true → ensure_started s ≡ s
ensure_started-on s e = ap (λ (b : Bool). if b then s else start s) e

pub ensure_started-off : (s : Sse) → s.started ≡ false → ensure_started s ≡ start s
ensure_started-off s e = ap (λ (b : Bool). if b then s else start s) e

module _ (net : Network) (w : Writer) (u : Unwritten w) where
  send-flowing :
      (d : String) (s : Sse) (ds : List String)
      → s.started ≡ true
      → s.writer.status ≡ some 200
      → s.writer.body ≡ map chunk_event ds
      → Open w (send net (chunk_event d) s).1
  unfolding send
  send-flowing d s ds a b c = elim (Option-cases (net.write_failure s.events)) [
    | inr (e, f) ↦ rw (f, send) (flowing ds a b c)
    | inl f ↦
        rw (f, send)
          (flowing (ds ++ d ∷ []) a (ground arith)
            (ap (λ (x : List Payload). x ++ chunk_event d ∷ []) c ∙ snoc-chunk ds d))
  ]

  on_chunk-Open : (d : String) (s : Sse) → Open w s → Open w (on_chunk net d s).1
  unfolding on_chunk start
  on_chunk-Open d s (flowing ds a b c) =
      subst (λ (t : Sse). Open w (send net (chunk_event d) t).1) (sym (ensure_started-on s a))
        (send-flowing d s ds a b c)
  on_chunk-Open d s (waiting a b) =
      subst (λ (t : Sse). Open w (send net (chunk_event d) t).1) (sym (ensure_started-off s a))
        (send-flowing d (start s) [] refl
          (ap (λ (x : Writer). first_status x.status 200) b
            ∙ ap (λ (x : Option ℕ). first_status x 200) u.status)
          (ap (λ (x : Writer). x.body) b ∙ u.body))

  send-Transcript :
      (p : Payload) (s : Sse) (ds : List String)
      → s.writer.status ≡ some 200
      → s.writer.body ≡ map chunk_event ds
      → Closing (p ∷ [])
      → Transcript (send net p s).1.writer
  unfolding send
  send-Transcript p s ds b c closing = elim (Option-cases (net.write_failure s.events)) [
    | inr (e, f) ↦
        rw (f, send) (streamed ds [] b (c ∙ sym (append-nil (map chunk_event ds))) (lost refl))
    | inl f ↦
        rw (f, send)
          (streamed ds (p ∷ []) (ground arith) (ap (λ (x : List Payload). x ++ p ∷ []) c) closing)
  ]

  -- The response once the headers of the stream are sent.
  ensure_started-flowing :
      (s : Sse)
      → Open w s
      → (ds : List String) × ((ensure_started s).writer.status ≡ some 200)
        × ((ensure_started s).writer.body ≡ map chunk_event ds)
  unfolding start
  ensure_started-flowing s (flowing ds a b c) = (
    ds,
    subst (λ (t : Sse). t.writer.status ≡ some 200) (sym (ensure_started-on s a)) b,
    subst (λ (t : Sse). t.writer.body ≡ map chunk_event ds) (sym (ensure_started-on s a)) c,
  )
  ensure_started-flowing s (waiting a b) = (
    [],
    subst (λ (t : Sse). t.writer.status ≡ some 200) (sym (ensure_started-off s a))
        (ap (λ (x : Writer). first_status x.status 200) b
          ∙ ap (λ (x : Option ℕ). first_status x 200) u.status),
    subst (λ (t : Sse). t.writer.body ≡ []) (sym (ensure_started-off s a))
        (ap (λ (x : Writer). x.body) b ∙ u.body),
  )

  conclude-Answered :
      {G L : Type 0} (o : Outcome GenerateResponse) (v : World G L) (s : Sse)
      → Open w s
      → Answered Transcript CutShort (conclude net o v s)
  unfolding conclude write_go_error
  conclude-Answered (panicked p) v s (waiting a b) = silent p refl (subst Unwritten (sym b) u)
  conclude-Answered (panicked p) v s (flowing ds a b c) = torn p 200 refl b (chunks ds b c)
  conclude-Answered (returned (err er)) v s (flowing ds a b c) =
      subst (Answered Transcript CutShort) (sym (if-on s.started _ _ a)) (
        complete refl (
          send-Transcript (error_event (safe_message er)) s ds b c (broken (safe_message er) refl)))
  conclude-Answered (returned (err er)) v s (waiting a b) =
      subst (Answered Transcript CutShort) (sym (if-off s.started _ _ a)) (
        complete refl (
          rejected (
            write_error-Failed s.writer (status_for er) (safe_message er)
              (subst Unwritten (sym b) u) (status_for_bounds er))))
  conclude-Answered (returned (ok final)) v s p =
      let (ds, b, c) = ensure_started-flowing s p in
      complete refl (send-Transcript _ (ensure_started s) ds b c (finished final refl))

  pub stream_with-Answered :
      {G L : Type 0} (h : Handler G L) (req : GenerateRequest) (key : String) (v : World G L)
      → v.writer ≡ w
      → Answered Transcript CutShort (stream_with net h req key v)
  unfolding stream_with
  stream_with-Answered h req key v same =
      let before : Sse = record { started = false; events = 0; writer = v.writer } in
      let s = h.generator.generate_stream req key v.generator in
      conclude-Answered _ _ _
        (run_stream-invariant (Open w) (on_chunk net) on_chunk-Open s before (waiting refl same))
