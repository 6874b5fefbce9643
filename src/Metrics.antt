-- ===== src/Metrics.antt =====
-- internal/proxy/metrics.go: what Metrics.Middleware records. The instruments are the samples that
-- were added to them; a latency is a number of nanoseconds. Nothing is recorded for a request that
-- ends by a panic, which unwinds the middleware.
pub mod Labels
pub mod Recording
pub mod Setup
use genkit_proxy.Common.{ℕ, String, Option, none, some, List, [], ◌∷◌, ◌++◌}
use genkit_proxy.Common.Int.{ℤ}
use genkit_proxy.Common.Text.{cut_before}
use genkit_proxy.Request.{Usage}
use genkit_proxy.Http.{HttpRequest, ModelSlot, World}
use genkit_proxy.Http.Handler.{Exit, done, unwound}
use genkit_proxy.Middleware.{Served, log_status}

-- The attributes of http_requests and http_request_duration, and those of llm_tokens.
pub record Attributes : Type 0 where
  pub method : String
  pub status : ℕ
  pub provider : String

pub record TokenAttributes : Type 0 where
  pub provider : String
  pub kind : String

pub record Meters : Type 0 where
  pub requests : List Attributes
  pub latency : List (ℕ × Attributes)
  pub tokens : List (ℤ × TokenAttributes)

abbrev pub no_samples : Meters
no_samples = record { requests = []; latency = []; tokens = [] }

unfoldable pub provider_label : String → String
provider_label model_name = cut_before b'/' model_name

abbrev pub slot_of : Option ModelSlot → ModelSlot
slot_of none = record { name = ""; usage = none }
slot_of (some s) = s

abbrev pub usage_samples : String → Option Usage → List (ℤ × TokenAttributes)
usage_samples provider none = []
usage_samples provider (some u) =
    (u.input, record { provider = provider; kind = "input" })
    ∷ (u.output, record { provider = provider; kind = "output" })
    ∷ []

module _ {G L : Type 0} where
  -- What follows the handler's return.
  unfoldable pub record_request : HttpRequest → ℕ → World G L → Meters → Meters
  unfolding provider_label
  record_request req elapsed w m =
      let slot = slot_of w.slot in
      let provider = provider_label slot.name in
      let attrs : Attributes = record {
        method = req.method;
        status = log_status w;
        provider = provider;
      } in
      record {
        requests = m.requests ++ attrs ∷ [];
        latency = m.latency ++ (elapsed, attrs) ∷ [];
        tokens = m.tokens ++ usage_samples provider slot.usage;
      }

  unfoldable pub after_handler :
      HttpRequest → ℕ → Exit × World G L → Meters → Exit × World G L × Meters
  unfolding record_request
  after_handler req elapsed (unwound p, w) m = (unwound p, w, m)
  after_handler req elapsed (done, w) m = (done, w, record_request req elapsed w m)

  -- Middleware: it installs a slot where there is none.
  unfoldable pub metrics :
      ℕ → Served G L → HttpRequest → World G L → Meters → Exit × World G L × Meters
  metrics elapsed next req w m =
      after_handler req elapsed (next req (record w { slot = some (slot_of w.slot) })) m
