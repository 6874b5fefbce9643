-- ===== src/Server/Records.antt =====
-- What the server logs and counts of a request.
use genkit_proxy.Generating.{Panic, abort_handler, fault}
use genkit_proxy.Common.{ℕ, ◌≡◌, ◌⊎◌, String, List, [], ◌∷◌, ◌++◌}
use genkit_proxy.Http.{HttpRequest, World, ModelSlot}
use genkit_proxy.Http.Handler.{Exit, done, unwound}
use genkit_proxy.Http.Serve.Replies.{Unwritten}
use genkit_proxy.Metrics.{Meters, Attributes, provider_label}
use genkit_proxy.Middleware.{Served, request_id, log_status}
use genkit_proxy.Server.{Visit, AccessRecord, Backend, id_of, named_model}

abbrev pub access_of : Visit → HttpRequest → ModelSlot → ℕ → AccessRecord
access_of v req slot status = record {
  method = req.method;
  path = v.path;
  status = status;
  latency_ms = v.latency_ms;
  request_id = id_of v;
  model = named_model slot;
}

abbrev pub sample_of : HttpRequest → ModelSlot → ℕ → Attributes
sample_of req slot status = record {
  method = req.method;
  status = status;
  provider = provider_label slot.name;
}

-- Neither logged nor counted, but for the ids in `panics`.
pub record Uncounted {G : Type 0} (b : Backend G) (ids : List String) (after : Backend G)
    : Type 0 where
  pub access : after.access ≡ b.access
  pub meters : after.meters ≡ b.meters
  pub panics : after.panics ≡ b.panics ++ ids

module _ {G L : Type 0} (v : Visit) where
  -- Logged once and counted once, with the status that the client received.
  pub record Recorded (req : HttpRequest) (b : Backend G) (w : World (Backend G) L) : Type 0 where
    pub slot : ModelSlot
    pub access : w.generator.access ≡ b.access ++ access_of v req slot (log_status w) ∷ []
    pub requests :
        w.generator.meters.requests ≡ b.meters.requests ++ sample_of req slot (log_status w) ∷ []
    pub latency :
        w.generator.meters.latency
        ≡ b.meters.latency ++ (v.elapsed, sample_of req slot (log_status w)) ∷ []
    pub panics : w.generator.panics ≡ b.panics

  -- The handler behind Logger and the metrics, which show `b.meters`, was called and ended so.
  abbrev pub Ended : (Meters → Served G L) → HttpRequest → Backend G → Exit → Type 0
  Ended handler req b e = (x : World G L) × ((handler b.meters req x).0 ≡ e)

  data Passing (handler : Meters → Served G L) (req : HttpRequest) (b : Backend G)
      (res : Exit × World (Backend G) L) : Type 0 where
    kept_out :
        res.0 ≡ done → log_status res.1 ≡ 429 → res.1.generator ≡ b → Passing handler req b res
    settled :
        Ended handler req b done → res.0 ≡ done → Recorded req b res.1 → Passing handler req b res
    panicking :
        (p : Panic)
        → Ended handler req b (unwound p)
        → res.0 ≡ unwound p
        → Uncounted b [] res.1.generator
        → Passing handler req b res

  -- What a request leaves behind Recover, by how the handler ended, if it was called: as it was, or
  -- what Logger and the metrics record, or the record of a panic with an empty id, or nothing for a
  -- panic with http.ErrAbortHandler.
  pub data Trace (handler : Meters → Served G L) (req : HttpRequest) (b : Backend G)
      (res : Exit × World (Backend G) L) : Type 0 where
    untouched :
        res.0 ≡ done
        → (req.method ≡ "OPTIONS") ⊎ (log_status res.1 ≡ 429)
        → res.1.generator ≡ b
        → Trace handler req b res
    recorded :
        Ended handler req b done → res.0 ≡ done → Recorded req b res.1 → Trace handler req b res
    caught :
        Ended handler req b (unwound fault)
        → res.0 ≡ done
        → Uncounted b ("" ∷ []) res.1.generator
        → Trace handler req b res
    aborted :
        Ended handler req b (unwound abort_handler)
        → res.0 ≡ unwound abort_handler
        → Uncounted b [] res.1.generator
        → Trace handler req b res

module _ {G L : Type 0} (v : Visit) (handler : Meters → Served G L) where
  abbrev Traceable : Served (Backend G) L → Type 0
  Traceable next =
      (req : HttpRequest) (w : World (Backend G) L)
      → Unwritten w.writer
      → Passing v handler req w.generator (next req w)
