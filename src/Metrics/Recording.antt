-- ===== src/Metrics/Recording.antt =====
-- The samples of the requests that ServeHTTP serves.
use genkit_proxy.Generating.{Panic}
use genkit_proxy.Common.{
  ℕ, All-append, ◌≡◌, refl, ap, sym, ◌∙◌, ◌⊎◌, inl, inr, List, ◌++◌, Option-cases, String, Option,
  none, some, [], ◌∷◌, All,
}
use genkit_proxy.Common.Int.{ℤ}
use genkit_proxy.Request.{Usage}
use genkit_proxy.Http.{HttpRequest, World}
use genkit_proxy.Http.Handler.{Handler, Clocks, Exit, done, unwound}
use genkit_proxy.Http.Serve.{serve_http}
use genkit_proxy.Metrics.{
  Attributes, TokenAttributes, Meters, slot_of, provider_label, usage_samples, record_request,
  after_handler, metrics,
}
use genkit_proxy.Middleware.{log_status}
use genkit_proxy.Metrics.Labels.{Label, Labelled, serve_http-Labelled}

-- Samples with such labels.
pub record Tidy (m : Meters) : Type 0 where
  pub requests : All (λ (a : Attributes). Label a.provider) m.requests
  pub latency : All (λ (s : ℕ × Attributes). Label (s.1).provider) m.latency
  pub tokens : All (λ (s : ℤ × TokenAttributes). Label (s.1).provider) m.tokens

usage_samples-Label :
    (p : String) (u : Option Usage)
    → Label p
    → All (λ (s : ℤ × TokenAttributes). Label (s.1).provider) (usage_samples p u)
usage_samples-Label p none l = tt
usage_samples-Label p (some u) l = (l, (l, tt))

-- The token counts of a request: the input and the output, if its response reported them.
pub tokens_of : String → Option Usage → List (ℤ × TokenAttributes)
tokens_of label none = []
tokens_of label (some u) =
    (u.input, record { provider = label; kind = "input" })
    ∷ (u.output, record { provider = label; kind = "output" })
    ∷ []

-- One sample more in each histogram and counter, of this method, with the status that the client
-- received and the label of the model in the slot.
pub record Sampled {G L : Type 0} (req : HttpRequest) (elapsed : ℕ) (w : World G L)
    (before after : Meters) : Type 0 where
  pub label : String
  pub from_model : label ≡ provider_label (slot_of w.slot).name
  pub status : ℕ
  pub sent : (w.writer.status ≡ some status) ⊎ ((w.writer.status ≡ none) × (status ≡ 200))
  pub requests :
      after.requests
      ≡ before.requests ++ record { method = req.method; status = status; provider = label } ∷ []
  pub latency :
      after.latency
      ≡ before.latency
        ++ (elapsed, record { method = req.method; status = status; provider = label }) ∷ []
  pub tokens : after.tokens ≡ before.tokens ++ tokens_of label (slot_of w.slot).usage

-- Recorded: the samples of a handler that returned, nothing for one that panicked.
pub record Recorded {G L : Type 0} (req : HttpRequest) (elapsed : ℕ) (res : Exit × World G L)
    (before after : Meters) : Type 0 where
  pub tidy : Tidy after
  pub once : res.0 ≡ done → Sampled req elapsed res.1 before after
  pub never : (p : Panic) → res.0 ≡ unwound p → after ≡ before

log_status-sent :
    {G L : Type 0} (w : World G L)
    → (w.writer.status ≡ some (log_status w)) ⊎ ((w.writer.status ≡ none) × (log_status w ≡ 200))
unfolding log_status
log_status-sent w = elim (Option-cases w.writer.status) [
  | inl a ↦ inr (a, rw a refl)
  | inr (code, a) ↦ inl (a ∙ ap some (sym (rw a refl)))
]

usage_samples-tokens_of :
    (label : String) (u : Option Usage) → usage_samples label u ≡ tokens_of label u
unfolding tokens_of
usage_samples-tokens_of label none = refl
usage_samples-tokens_of label (some u) = refl

after_handler-Recorded :
    {G L : Type 0} (req : HttpRequest) (elapsed : ℕ) (res : Exit × World G L) (m : Meters)
    → Labelled (res.1).slot
    → Tidy m
    → Recorded req elapsed res m (after_handler req elapsed res m).2
unfolding after_handler record_request provider_label
after_handler-Recorded req elapsed (unwound p, w) m l t = record {
  tidy = t;
  once = λ e. cc e;
  never = λ q e. refl;
}
after_handler-Recorded req elapsed (done, w) m l t = record {
  tidy = record {
    requests = All-append _ m.requests _ t.requests (l, tt);
    latency = All-append _ m.latency _ t.latency (l, tt);
    tokens = All-append _ m.tokens _ t.tokens (usage_samples-Label _ (slot_of w.slot).usage l);
  };
  once = λ e. record {
    label = provider_label (slot_of w.slot).name;
    from_model = refl;
    status = log_status w;
    sent = log_status-sent w;
    requests = refl;
    latency = refl;
    tokens = ap (λ x. m.tokens ++ x) (usage_samples-tokens_of _ (slot_of w.slot).usage);
  };
  never = λ q e. cc e;
}

-- If the provider labels so far, and that of the model in the slot, are the empty one or one of
-- the four providers, the labels after a request through the metrics around ServeHTTP are so too,
-- whatever the request says. A request whose handler returns adds one sample to the requests and
-- one, with the time, to the latencies, both with its method, the status that the client received
-- and the label of the model in the slot, and its token counts if there are any; a request that
-- ends by a panic adds nothing.
pub metrics-Recorded :
    (digest : String → String) {G L : Type 0} (h : Handler G L) (clocks : Clocks) (elapsed : ℕ)
    (req : HttpRequest) (w : World G L) (m : Meters)
    → Label (provider_label (slot_of w.slot).name)
    → Tidy m
    → let res = serve_http digest h clocks req (record w { slot = some (slot_of w.slot) }) in
      Recorded req elapsed res m (metrics elapsed (serve_http digest h clocks) req w m).2
unfolding metrics
metrics-Recorded digest h clocks elapsed req w m l t =
    after_handler-Recorded req elapsed _ m (serve_http-Labelled digest h clocks req _ l) t
