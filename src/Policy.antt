-- ===== src/Policy.antt =====
-- internal/proxy/policy.go: the model allowlist. A Go set is a list of its members; a nil
-- allowlist is `none`.
pub mod Laws
use genkit_proxy.Common.{
  String, Bool, true, ◌||◌, ◌&&◌, Option, none, some, List, [], ◌∷◌, ◌==◌, any, is_empty,
  if◌then◌else◌,
}
use genkit_proxy.Common.Text.{trim_space, contains, cut_before}

pub record ModelAllowlist : Type 0 where
  pub models : List String
  pub providers : List String

abbrev pub member : String → List String → Bool
member k = any (λ j. j == k)

-- One round of the loop of NewModelAllowlist, on the trimmed entry.
add_entry : String → ModelAllowlist → ModelAllowlist
add_entry entry a =
    if entry == ""
    then a
    else if contains b'/' entry
    then record a { models = entry ∷ a.models }
    else record a { providers = entry ∷ a.providers }

collect : List String → ModelAllowlist → ModelAllowlist
unfolding add_entry
collect [] a = a
collect (entry ∷ entries) a = collect entries (add_entry (trim_space entry) a)

unfoldable pub new_model_allowlist : List String → Option ModelAllowlist
unfolding collect
new_model_allowlist entries =
    let a = collect entries (record { models = []; providers = [] }) in
    if is_empty a.models && is_empty a.providers then none else some a

unfoldable pub allows : Option ModelAllowlist → String → Bool
allows none model = true
allows (some a) model = member model a.models || member (cut_before b'/' model) a.providers
