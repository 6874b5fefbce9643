-- ===== src/Genkit/Deltas.antt =====
-- What a streaming call delivers of the sequence that Genkit yields, and how it ends.
use genkit_proxy.Common.{
  String, ◌≡◌, refl, Bool-cases, inl, inr, Option, none, some, List, [], ◌∷◌, ◌==◌, if◌then◌else◌,
}
use genkit_proxy.Errors.Chain.{GoError}
use genkit_proxy.Errors.Result.{ok, err}
use genkit_proxy.Generating.{Outcome, returned, panicked, Stream, finish, OnChunk, run_stream}
use genkit_proxy.Request.{GenerateRequest}
use genkit_proxy.Genkit.{ModelResponse, all_options}
use genkit_proxy.Genkit.Runs.{
  Genkit, AppSource, Values, failed, final, chunk, ended, crashed, yields, on_value, after_chunk,
  forward_values, genkit_run_stream, generate_stream, conclude, stream_response_of,
}

text_before : String → List String → List String
text_before delta rest = if delta == "" then rest else delta ∷ rest

module _ {G V : Type 0} where
  -- The texts that are not empty, before the first error, the final value or the end.
  unfoldable pub texts : Values G V → List String
  unfolding text_before
  texts (ended g) = []
  texts (crashed p g) = []
  texts (yields (failed e) g vs) = []
  texts (yields (final answer) g vs) = []
  texts (yields (chunk delta) g vs) = text_before delta (texts vs)

  -- How the sequence ends, if it is read to its end.
  unfoldable pub closing : Values G V → Outcome (Option (ModelResponse V)) × G
  closing (ended g) = (returned (ok none), g)
  closing (crashed p g) = (panicked p, g)
  closing (yields (failed e) g vs) = (returned (err e), g)
  closing (yields (final answer) g vs) = (returned (ok answer), g)
  closing (yields (chunk delta) g vs) = closing vs

-- The texts given to onChunk, one after the other, up to its first error.
deliver_next : {W : Type 0} → Option GoError × W → (W → Option GoError × W) → Option GoError × W
deliver_next (some e, w) more = (some e, w)
deliver_next (none, w) more = more w

unfoldable pub deliver : {W : Type 0} → OnChunk W → List String → W → Option GoError × W
unfolding deliver_next
deliver client [] w = (none, w)
deliver client (t ∷ ts) w = deliver_next (client t w) (deliver client ts)

-- How a call ends when onChunk made this of its texts.
abbrev pub answer {ℓ} : {A : Type ℓ} → Outcome A → Option GoError → Outcome A
answer o none = o
answer o (some e) = returned (err e)

module _ {G V W : Type 0} (client : OnChunk W)
    (k : Outcome (Option (ModelResponse V)) → G → Stream G) where
  Forwarded : Stream G → Values G V → Option GoError × W → W → Type 0
  Forwarded s vs d w =
      (g : G) × (run_stream client s w
        ≡ run_stream client (k (answer (closing vs).0 (d.0)) g) (d.1))

  -- One chunk: by what onChunk answers.
  after_chunk-Forwarded :
      (g : G) (vs : Values G V) (p : Option GoError × W)
      → ((w : W) → Forwarded (forward_values vs k) vs (deliver client (texts vs) w) w)
      → Forwarded
          (after_chunk g k (forward_values vs k) (p.0))
          vs
          (deliver_next p (deliver client (texts vs)))
          (p.1)
  unfolding Forwarded deliver_next
  after_chunk-Forwarded g vs (some e, w) rest = (g, refl)
  after_chunk-Forwarded g vs (none, w) rest = rest w

  forward-deliver :
      (vs : Values G V) (w : W) → Forwarded (forward_values vs k) vs (deliver client (texts vs) w) w
  unfolding Forwarded forward_values on_value texts text_before closing deliver run_stream
  forward-deliver (ended g) w = (g, refl)
  forward-deliver (crashed p g) w = (g, refl)
  forward-deliver (yields (failed e) g vs) w = (g, refl)
  forward-deliver (yields (final a) g vs) w = (g, refl)
  forward-deliver (yields (chunk delta) g vs) w = elim (Bool-cases (delta == "")) [
    | inl blank ↦ rw blank (forward-deliver vs w)
    | inr full ↦ rw full (after_chunk-Forwarded g vs (client delta w) (forward-deliver vs))
  ]

-- With an instance, a streaming call gives onChunk the texts of Genkit's chunks that are not
-- empty, in their order, up to the first error, final value or error of onChunk. It answers with
-- that error of onChunk, else with what ended the sequence.
pub generate_stream-deliver :
    {G V App W : Type 0} (genkit : Genkit G V App) (source : AppSource G App) (client : OnChunk W)
    (r : GenerateRequest) (key : String) (g g' : G) (app : App) (w : W)
    → source r.model_name key g ≡ (returned (ok app), g')
    → let vs = genkit.values app (all_options genkit.unmarshal r) g' in
      let (reply, w') = deliver client (texts vs) w in
      (g'' : G) × (run_stream client (generate_stream genkit source r key g) w
        ≡ (conclude r (stream_response_of genkit r) (answer (closing vs).0 reply), g'', w'))
unfolding generate_stream genkit_run_stream Forwarded run_stream
generate_stream-deliver genkit source client r key g g' app w h =
    let vs = genkit.values app (all_options genkit.unmarshal r) g' in
    rw h
      (forward-deliver client (λ o g'. finish (conclude r (stream_response_of genkit r) o) g') vs w)
