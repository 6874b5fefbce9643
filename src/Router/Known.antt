-- ===== src/Router/Known.antt =====
-- The four provider names, one by one.
use genkit_proxy.Common.{◌≡◌, subst, sym, inl, inr, String, true, text_cases, arith}
use genkit_proxy.Router.{
  is_known_provider, provider_google_ai, provider_open_ai, provider_anthropic, provider_vertex_ai,
}

-- What holds of the four supported providers holds of every known one.
pub known_elim {ℓ} :
    (P : String → Type ℓ)
    → P provider_google_ai
    → P provider_open_ai
    → P provider_anthropic
    → P provider_vertex_ai
    → (p : String) → is_known_provider p ≡ true
    → P p
unfolding is_known_provider
known_elim P w x y z p h = elim (text_cases p provider_google_ai) [
  | inl e ↦ subst P (sym e.0) w
  | inr a ↦ elim (text_cases p provider_open_ai) [
    | inl e ↦ subst P (sym e.0) x
    | inr b ↦ elim (text_cases p provider_anthropic) [
      | inl e ↦ subst P (sym e.0) y
      | inr c ↦ elim (text_cases p provider_vertex_ai) [
        | inl e ↦ subst P (sym e.0) z
        | inr d ↦ absurd (ground (arith, a.1, b.1, c.1, d.1))
      ]
    ]
  ]
]
