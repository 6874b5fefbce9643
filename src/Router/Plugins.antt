-- ===== src/Router/Plugins.antt =====
-- The plugin and the errors of the router.
use genkit_proxy.Common.{
  String, ◌≡◌, inl, inr, refl, if◌then◌else◌, ◌==◌, Option-cases, true, false, Option, none, some,
  arith,
}
use genkit_proxy.Common.Text.{cut}
use genkit_proxy.Errors.{is_retryable, status_for, classify}
use genkit_proxy.Errors.Chain.{GoError, is, as_validation, errorf}
use genkit_proxy.Errors.Result.{ok, err}
use genkit_proxy.Router.{
  missing_model, plugin_of, provider_of, plugin_for, Plugin, google_ai, open_ai, anthropic,
  vertex_ai, provider_vertex_ai, not_prefixed, unsupported, is_known_provider,
}
use genkit_proxy.Router.Known.{known_elim}
use genkit_proxy.Router.Laws.{provider_of-Accepts}

-- The credential that a plugin holds; Vertex AI holds none.
unfoldable pub credential : Plugin → Option String
credential (google_ai key) = some key
credential (open_ai key) = some key
credential (anthropic key) = some key
credential vertex_ai = none

plugin_of-credential :
    (key p : String)
    → is_known_provider p ≡ true
    → (plugin : Plugin) × (plugin_of p key ≡ ok plugin)
      × (credential plugin ≡ (if p == provider_vertex_ai then none else some key))
unfolding plugin_of credential
plugin_of-credential key =
    known_elim
      (λ p.
        (plugin : Plugin) × (plugin_of p key ≡ ok plugin)
        × (credential plugin ≡ (if p == provider_vertex_ai then none else some key)))
      (google_ai key, refl, refl) (open_ai key, refl, refl) (anthropic key, refl, refl)
      (vertex_ai, refl, refl)

not_prefixed-status :
    (m : String) → (status_for (not_prefixed m) ≡ 400) × (is_retryable (not_prefixed m) ≡ false)
unfolding not_prefixed status_for is_retryable classify errorf is as_validation
not_prefixed-status m = (refl, refl)

unsupported-status :
    (p : String) → (status_for (unsupported p) ≡ 400) × (is_retryable (unsupported p) ≡ false)
unfolding unsupported status_for is_retryable classify errorf is as_validation
unsupported-status p = (refl, refl)

missing_model-status : (status_for missing_model ≡ 400) × (is_retryable missing_model ≡ false)
unfolding missing_model status_for is_retryable classify is as_validation
missing_model-status = (refl, refl)

-- A model name that is not routed is the caller's mistake: status 400, and never retried.
pub provider_of_err :
    (m : String) (e : GoError)
    → provider_of m ≡ err e
    → (status_for e ≡ 400) × (is_retryable e ≡ false)
unfolding provider_of
provider_of_err m e h = elim (Option-cases (cut b'/' m)) [
  | inl c ↦ ground (arith, not_prefixed-status m)
  | inr (c, d) ↦
      ground (arith, not_prefixed-status m, unsupported-status (c.0), missing_model-status)
]

-- A plugin holds the caller's own key and no other credential, and none for Vertex AI; a routed
-- model always has one.
pub plugin_for-credential :
    (m key p : String)
    → provider_of m ≡ ok p
    → (plugin : Plugin) × (plugin_for m key ≡ ok plugin)
      × (credential plugin ≡ (if p == provider_vertex_ai then none else some key))
unfolding plugin_for
plugin_for-credential m key p h =
    let a = provider_of-Accepts m p h in
    let (plugin, e, c) = plugin_of-credential key p (a.1).known in (plugin, rw h e, c)
