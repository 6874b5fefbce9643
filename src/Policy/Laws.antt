-- ===== src/Policy/Laws.antt =====
-- What an allowlist built from its entries permits.
use genkit_proxy.Common.{
  String, ◌≡◌, Bool, true, false, ◌||◌, ◌&&◌, List, [], ◌∷◌, ◌==◌, any, all, is_empty,
  if◌then◌else◌, arith, not,
}
use genkit_proxy.Common.Text.{trim_space, contains, cut_before}
use genkit_proxy.Policy.{ModelAllowlist, member, add_entry, collect, new_model_allowlist, allows}

-- An entry that grants a model: trimmed and not empty, it is the model's name if it holds a slash
-- and the model's provider prefix otherwise.
abbrev pub grants : String → String → Bool
grants model entry =
    let e = trim_space entry in
    not (e == "") && (if contains b'/' e then e == model else e == cut_before b'/' model)

permitted : String → ModelAllowlist → Bool
permitted model a = member model a.models || member (cut_before b'/' model) a.providers

collect-permitted :
    (model : String) (es : List String) (a : ModelAllowlist)
    → permitted model (collect es a) ≡ (permitted model a || any (grants model) es)
unfolding collect permitted
collect-permitted model [] a = ground arith
collect-permitted model (e ∷ es) a =
    ground (arith, collect-permitted model es (add_entry (trim_space e) a))

vacuous : ModelAllowlist → Bool
vacuous a = is_empty a.models && is_empty a.providers

collect-vacuous :
    (es : List String) (a : ModelAllowlist)
    → vacuous (collect es a) ≡ (vacuous a && all (λ e. trim_space e == "") es)
unfolding collect vacuous
collect-vacuous [] a = ground arith
collect-vacuous (e ∷ es) a = ground (arith, collect-vacuous es (add_entry (trim_space e) a))

abbrev nothing : ModelAllowlist
nothing = record { models = []; providers = [] }

permitted_vacuous :
    (model : String) (a : ModelAllowlist) → vacuous a ≡ true → permitted model a ≡ false
unfolding permitted vacuous
permitted_vacuous model a h = ground arith

-- A model is permitted exactly when some entry grants it, or every entry is blank.
pub allows-new_model_allowlist :
    (entries : List String) (model : String)
    → allows (new_model_allowlist entries) model
      ≡ (all (λ e. trim_space e == "") entries || any (grants model) entries)
unfolding allows new_model_allowlist permitted vacuous
allows-new_model_allowlist entries model = ground (
  arith,
  collect-vacuous entries nothing,
  collect-permitted model entries nothing,
  permitted_vacuous model (collect entries nothing),
)
