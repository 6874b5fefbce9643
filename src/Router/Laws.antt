-- ===== src/Router/Laws.antt =====
-- Which model names are routed, and to which plugin.
use Prim.Native.Char.{Char, code}
use Prim.Native.String
use genkit_proxy.Common.{
  String, ◌≡◌, ◌↔◌, inl, inr, refl, true, false, some, arith, Option-cases, ◌==◌,
}
use genkit_proxy.Common.Text.{cut, contains}
use genkit_proxy.Common.Text.Cut.{append-cut, cut-append}
use genkit_proxy.Router.Known.{known_elim}
use genkit_proxy.Errors.Result.{ok}
use genkit_proxy.Router.{provider_of, is_blank, is_known_provider}

unfoldable pub slash : Char
slash = "/"

-- A model name that is routed to a provider: one of the four, a slash, and a model that is not
-- white space.
pub record Routes (model_name provider : String) : Type 0 where
  pub model : String
  pub spelled : model_name ≡ String.◌++◌ provider (String.◌∷◌ slash model)
  pub known : is_known_provider provider ≡ true
  pub named : is_blank model ≡ false

known-contains :
    (p : String) → is_known_provider p ≡ true → (contains b'/' p ≡ false) × ((p == "") ≡ false)
unfolding contains
known-contains =
    known_elim (λ p. (contains b'/' p ≡ false) × ((p == "") ≡ false)) (refl, refl) (refl, refl)
      (refl, refl) (refl, refl)

slash-code : code slash ≡ b'/'
unfolding slash
slash-code = refl

cut-slash :
    (p model : String)
    → contains b'/' p ≡ false
    → cut b'/' (String.◌++◌ p (String.◌∷◌ slash model)) ≡ some (p, model)
cut-slash p model = rw (← slash-code) (cut-append slash p model)

provider-cut :
    (m p model : String) → cut b'/' m ≡ some (p, model) → m ≡ String.◌++◌ p (String.◌∷◌ slash model)
provider-cut m p model = rw (← slash-code) (λ e. (append-cut slash m p model e).0)

-- What `provider_of` tests.
pub record Accepts (m p model : String) : Type 0 where
  pub split : cut b'/' m ≡ some (p, model)
  pub known : is_known_provider p ≡ true
  pub named : is_blank model ≡ false

pub provider_of-Accepts :
    (m p : String) → provider_of m ≡ ok p → (model : String) × Accepts m p model
unfolding provider_of
provider_of-Accepts m p h = elim (Option-cases (cut b'/' m)) [
  | inl e ↦ ground arith
  | inr (c, e) ↦
      let same : c.0 ≡ p = ground arith in
      (c.1, record { split = rw (← same) e; known = ground arith; named = ground arith })
]

pub Accepts-provider_of : (m p model : String) → Accepts m p model → provider_of m ≡ ok p
unfolding provider_of
Accepts-provider_of m p model a = ground (arith, known-contains p a.known)

provider_of-Routes : (m p : String) → provider_of m ≡ ok p → Routes m p
provider_of-Routes m p h =
    let (model, a) = provider_of-Accepts m p h in
    record {
      model = model;
      spelled = provider-cut m p model a.split;
      known = a.known;
      named = a.named;
    }

Routes-provider_of : (m p : String) → Routes m p → provider_of m ≡ ok p
Routes-provider_of m p r = Accepts-provider_of m p r.model (record {
  split = rw r.spelled (cut-slash p r.model (known-contains p r.known).0);
  known = r.known;
  named = r.named;
})

-- A model name is routed to `p` exactly when it is `p`, a slash and a model that is not white
-- space, for one of the four supported providers `p`.
pub provider_of_iff : (m p : String) → (provider_of m ≡ ok p) ↔ Routes m p
provider_of_iff m p = (provider_of-Routes m p, Routes-provider_of m p)
