-- ===== src/Metrics/Setup.antt =====
-- NewMetrics of internal/proxy/metrics.go. The calls of OpenTelemetry and of the Prometheus exporter
-- are the fields of `Telemetry`: `E` stands for an exporter and `I` for an instrument. Histogram
-- bounds are kept in milliseconds.
use genkit_proxy.Common.{ℕ, String, List, [], ◌∷◌}
use genkit_proxy.Errors.Chain.{lit, errorf}
use genkit_proxy.Errors.Result.{GoResult, ok, err, ◌>>=◌}

-- What a meter is asked for.
pub record Instrument : Type 0 where
  pub name : String
  pub description : String
  pub unit : String

-- A meter of the provider with its reader, its views and the scope.
pub record Meter (E : Type 0) : Type 0 where
  pub reader : E
  pub views : List (String × List ℕ)
  pub scope : String

pub record Telemetry (E I : Type 0) : Type 0 where
  pub new_exporter : GoResult E
  pub int64_counter : Meter E → Instrument → GoResult I
  pub float64_histogram : Meter E → Instrument → GoResult I

-- Metrics, up to the handler of the exposition.
pub record Instruments (I : Type 0) : Type 0 where
  pub requests : I
  pub latency : I
  pub tokens : I

abbrev pub latency_boundaries : List ℕ
latency_boundaries =
    50 ∷ 100 ∷ 250 ∷ 500 ∷ 1_000 ∷ 2_000 ∷ 5_000 ∷ 10_000 ∷ 20_000 ∷ 30_000 ∷ 60_000 ∷ []

-- The wrapping of an error of the set-up.
abbrev labelled {ℓ} : {A : Type ℓ} → String → GoResult A → GoResult A
labelled what (ok a) = ok a
labelled what (err e) = err (errorf (lit what ∷ []) e [])

abbrev pub meter_of : {E : Type 0} → E → Meter E
meter_of exporter = record {
  reader = exporter;
  views = ("http_request_duration", latency_boundaries) ∷ [];
  scope = "github.com/nicolapasqua99/genkit-proxy";
}

module _ {E I : Type 0} (otel : Telemetry E I) where
  unfoldable pub new_metrics : GoResult (Instruments I)
  new_metrics = do
    exporter ← labelled "metrics: prometheus exporter: " otel.new_exporter
    let meter = meter_of exporter
    requests ← labelled "metrics: requests counter: " (
        otel.int64_counter meter (record {
          name = "http_requests";
          description = "Total HTTP requests handled, by method, status, and provider.";
          unit = "";
        }))
    latency ← labelled "metrics: latency histogram: " (
        otel.float64_histogram meter (record {
          name = "http_request_duration";
          description = "HTTP request latency in seconds, by method, status, and provider.";
          unit = "s";
        }))
    tokens ← labelled "metrics: tokens counter: " (
        otel.int64_counter meter (record {
          name = "llm_tokens";
          description = "Total LLM tokens consumed, by provider and kind (input/output).";
          unit = "";
        }))
    ok (record { requests = requests; latency = latency; tokens = tokens })
