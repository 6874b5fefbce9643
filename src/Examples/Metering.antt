-- ===== src/Examples/Metering.antt =====
-- A request that is counted.
use genkit_proxy.Common.{ℕ, ◌≡◌, refl, inl, inr, String, true, some, List, [], ◌∷◌}
use genkit_proxy.Router.{is_known_provider}
use genkit_proxy.Http.Serve.{serve_http}
use genkit_proxy.Metrics.{Meters, provider_label, slot_of, metrics}
use genkit_proxy.Metrics.Labels.{Label}
use genkit_proxy.Metrics.Recording.{Tidy, Recorded, metrics-Recorded}
use genkit_proxy.Examples.{token_id}
use genkit_proxy.Examples.Serving.{proxy, noon, post, quiet}

abbrev one_sample : Meters
one_sample = record {
  requests = record { method = "POST"; status = 200; provider = "openai" } ∷ [];
  latency = [];
  tokens = [];
}

one_sample-Tidy : Tidy one_sample
unfolding is_known_provider
one_sample-Tidy = record { requests = (inr refl, tt); latency = tt; tokens = tt }

no_model-Label : Label (provider_label (slot_of quiet.slot).name)
unfolding provider_label genkit_proxy.Common.Text.cut_before
no_model-Label = inl refl

metrics-Recorded_example :
    Recorded post 1_500_000
      (serve_http token_id proxy noon post (record quiet { slot = some (slot_of quiet.slot) }))
      one_sample
      (metrics 1_500_000 (serve_http token_id proxy noon) post quiet one_sample).2
metrics-Recorded_example =
    metrics-Recorded token_id proxy noon 1_500_000 post quiet one_sample no_model-Label
      one_sample-Tidy
