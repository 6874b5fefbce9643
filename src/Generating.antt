-- ===== src/Generating.antt =====
-- The Generator interface of internal/proxy/generator.go, which the handlers and the retrying
-- generator call. `G` is the state behind an implementation (the provider, the instance cache).
-- A streaming call is a tree: what it does next may depend on what onChunk answered, and every
-- chunk that it delivers stands in the tree.
use genkit_proxy.Common.{String, Option}
use genkit_proxy.Errors.Chain.{GoError}
use genkit_proxy.Errors.Result.{GoResult}
use genkit_proxy.Request.{GenerateRequest, GenerateResponse}

-- The value of a panic: http.ErrAbortHandler, or any other value.
pub data Panic : Type 0 where
  abort_handler fault : Panic

-- How a call ends: with a result, or by a panic that unwinds its caller.
pub data Outcome {ℓ} (A : Type ℓ) : Type ℓ where
  returned : GoResult A → Outcome A
  panicked : Panic → Outcome A

pub data Stream (G : Type 0) : Type 0 where
  finish : Outcome GenerateResponse → G → Stream G
  emit : String → (Option GoError → Stream G) → Stream G

pub record Generator (G : Type 0) : Type 0 where
  pub generate : GenerateRequest → String → G → Outcome GenerateResponse × G
  pub generate_stream : GenerateRequest → String → G → Stream G

-- What stands behind onChunk: it answers each delta and changes the world `W` of the caller.
abbrev pub OnChunk : Type 0 → Type 0
OnChunk W = String → W → Option GoError × W

module _ {G W : Type 0} where
  unfoldable pub run_stream : OnChunk W → Stream G → W → Outcome GenerateResponse × G × W
  run_stream client (finish o g) w = (o, g, w)
  run_stream client (emit delta next) w =
      let (reply, w') = client delta w in run_stream client (next reply) w'
