-- ===== src/Genkit/Answers.antt =====
-- How a call of the Genkit generator ends, errors included.
use genkit_proxy.Common.{
  String, ◌≡◌, refl, false, Bool-cases, inl, inr, none, some, if◌then◌else◌, ◌==◌, ◌∙◌, ◌∷◌, [],
}
use genkit_proxy.Errors.{classify, status_for, is_retryable, is_logged}
use genkit_proxy.Errors.Chain.{GoError, is, unsupported_provider, errorf, lit, quoted}
use genkit_proxy.Errors.Laws.{classify-errorf}
use genkit_proxy.Errors.Result.{ok, err, GoResult-cases}
use genkit_proxy.Generating.{returned, finish}
use genkit_proxy.Request.{GenerateRequest}
use genkit_proxy.Router.{provider_of, provider_vertex_ai, plugin_for, Plugin}
use genkit_proxy.Router.Plugins.{credential, plugin_for-credential, provider_of_err}
use genkit_proxy.Genkit.Runs.{
  Genkit, call_error, fresh_app, genkit_run, generate, generate_stream, genkit_run_stream,
  new_genkit_generator,
}

-- What the handlers, the retrying generator and the logs read of an error.
pub record Same (e e' : GoError) : Type 0 where
  pub category : classify e' ≡ classify e
  pub status : status_for e' ≡ status_for e
  pub retried : is_retryable e' ≡ is_retryable e
  pub logged : is_logged e' ≡ is_logged e

Same-refl : (e : GoError) → Same e e
Same-refl e = record { category = refl; status = refl; retried = refl; logged = refl }

-- The wrapping changes nothing that is decided by the error, and keeps the unsupported provider
-- recognisable.
pub call_error-Same :
    (r : GenerateRequest) (e : GoError)
    → Same e (call_error r e)
      × (is unsupported_provider (call_error r e) ≡ is unsupported_provider e)
unfolding call_error errorf is
call_error-Same r e = elim (Bool-cases (is unsupported_provider e)) [
  | inl known ↦ rw known (Same-refl e, known)
  | inr other ↦ rw other (
      let (c, s, t, l) =
        classify-errorf (lit "generate " ∷ quoted r.model_name ∷ lit ": " ∷ []) [] e in
      (record { category = c; status = s; retried = t; logged = l }, other))
]

module _ {G V App : Type 0} (genkit : Genkit G V App) (r : GenerateRequest) (key : String)
    (g : G) where
  -- Without a cache: a call for a model that is not routed ends before Genkit is reached, and any
  -- other call is one whose instance is built with a plugin; the key is in that plugin alone.
  pub data Uncached : Type 0 where
    unrouted :
        (e : GoError)
        → provider_of r.model_name ≡ err e
        → (new_genkit_generator genkit none).generate r key g ≡ (returned (err (call_error r e)), g)
        → (new_genkit_generator genkit none).generate_stream r key g
          ≡ finish (returned (err (call_error r e))) g
        → status_for (call_error r e) ≡ 400
        → is_retryable (call_error r e) ≡ false
        → Uncached
    built :
        (p : String) (plugin : Plugin)
        → provider_of r.model_name ≡ ok p
        → credential plugin ≡ (if p == provider_vertex_ai then none else some key)
        → (new_genkit_generator genkit none).generate r key g
          ≡ generate genkit (λ _ _. genkit.init plugin) r "" g
        → (new_genkit_generator genkit none).generate_stream r key g
          ≡ generate_stream genkit (λ _ _. genkit.init plugin) r "" g
        → Uncached

  plugin_for_unrouted :
      (e : GoError) → provider_of r.model_name ≡ err e → plugin_for r.model_name key ≡ err e
  unfolding plugin_for
  plugin_for_unrouted e h = rw h refl

  source_of_error :
      (e : GoError)
      → plugin_for r.model_name key ≡ err e
      → fresh_app genkit r.model_name key g ≡ (returned (err e), g)
  unfolding fresh_app
  source_of_error e h = rw (h, fresh_app) refl

  source_of_plugin :
      (plugin : Plugin)
      → plugin_for r.model_name key ≡ ok plugin
      → fresh_app genkit r.model_name key g ≡ genkit.init plugin g
  unfolding fresh_app
  source_of_plugin plugin h = rw (h, fresh_app) refl

  by_error :
      (e : GoError)
      → plugin_for r.model_name key ≡ err e
      → ((new_genkit_generator genkit none).generate r key g ≡ (returned (err (call_error r e)), g))
        × ((new_genkit_generator genkit none).generate_stream r key g
            ≡ finish (returned (err (call_error r e))) g)
  unfolding new_genkit_generator genkit_run genkit_run_stream
  by_error e h = rw (source_of_error e h) (refl, refl)

  by_plugin :
      (plugin : Plugin)
      → plugin_for r.model_name key ≡ ok plugin
      → ((new_genkit_generator genkit none).generate r key g
          ≡ generate genkit (λ _ _. genkit.init plugin) r "" g)
        × ((new_genkit_generator genkit none).generate_stream r key g
            ≡ generate_stream genkit (λ _ _. genkit.init plugin) r "" g)
  unfolding new_genkit_generator genkit_run genkit_run_stream
  by_plugin plugin h = rw (source_of_plugin plugin h) (refl, refl)

  -- Without a cache, a call for a model that is not routed ends with an error of status 400 that is
  -- not retried, before Genkit is reached; any other call is the call with an instance built from a
  -- plugin that holds the caller's own key, or none for Vertex AI, and the key is used nowhere else.
  pub uncached_cases : Uncached
  uncached_cases = elim (GoResult-cases (provider_of r.model_name)) [
    | inl (p, h) ↦
        let (plugin, e, c) = plugin_for-credential r.model_name key p h in
        let (one, two) = by_plugin plugin e in built p plugin h c one two
    | inr (e, h) ↦
        let (one, two) = by_error e (plugin_for_unrouted e h) in
        let (status, retried) = provider_of_err r.model_name e h in
        let (same, _) = call_error-Same r e in
        unrouted e h one two (same.status ∙ status) (same.retried ∙ retried)
  ]
