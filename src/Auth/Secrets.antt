-- ===== src/Auth/Secrets.antt =====
-- What ParseStaticSecrets of internal/auth/source.go reads out of its text.
use genkit_proxy.Common.{
  ◌≡◌, ◌↔◌, ◌⊎◌, inl, inr, ◌∙◌, String, true, false, Bool-cases, Option-cases, none, some, List, [],
  ◌∷◌, ◌==◌, if-on, if-off, ap, text_cases, arith,
}
use genkit_proxy.Common.Assoc.{lookup, insert, lookup-insert}
use genkit_proxy.Common.Text.{split, trim_space, cut}
use genkit_proxy.Errors.Result.{ok, chain-Succeeds}
use genkit_proxy.Auth.{add_secret, add_secrets, parse_static_secrets}

-- The entry `ref=value`, which is not blank: white space around the entry and the ref is dropped.
abbrev pub Names : String → String → String → Type 0
Names ref value entry =
    (p : String × String) × (cut b'=' (trim_space entry) ≡ some p)
    × (trim_space (p.0) ≡ ref)
    × (p.1 ≡ value)
    × ((trim_space entry == "") ≡ false)

abbrev pub Exists : (String → Type 0) → List String → Type 0
Exists P [] = ⊥
Exists P (x ∷ xs) = P x ⊎ Exists P xs

-- One round of the loop that goes on: a blank entry, or a ref that is new.
data Added (entry : String) (m m' : List (String × String)) : Type 0 where
  blank : (entry == "") ≡ true → m' ≡ m → Added entry m m'
  named :
      (p : String × String)
      → (entry == "") ≡ false
      → cut b'=' entry ≡ some p
      → lookup (trim_space (p.0)) m ≡ none
      → m' ≡ insert (trim_space (p.0)) (p.1) m
      → Added entry m m'

add_secret-Added :
    (entry : String) (m m' : List (String × String)) → add_secret entry m ≡ ok m' → Added entry m m'
unfolding add_secret
add_secret-Added entry m m' eq = elim (Bool-cases (entry == "")) [
  | inl e ↦ blank e (ground arith)
  | inr full ↦ elim (Option-cases (cut b'=' entry)) [
    | inl c ↦ ground arith
    | inr (p, c) ↦ elim (Bool-cases (trim_space (p.0) == "")) [
      | inl no_ref ↦ ground arith
      | inr ref ↦ elim (Option-cases (lookup (trim_space (p.0)) m)) [
        | inr (old, d) ↦ ground arith
        | inl d ↦ named p full c d (ground arith)
      ]
    ]
  ]
]

Added-lookup :
    (e ref v : String) (m m' : List (String × String))
    → Added (trim_space e) m m'
    → (lookup ref m' ≡ some v) ↔ ((lookup ref m ≡ some v) ⊎ Names ref v e)
Added-lookup e ref v m m' (blank b same) = (
  λ h. inl (rw (← same) h),
  λ h. elim h [ inl l ↦ rw same l | inr (p, c, r, w, full) ↦ cc (b, full) ],
)
Added-lookup e ref v m m' (named p full c new same) =
    let at = lookup-insert (trim_space (p.0)) ref (p.1) m in
    elim (text_cases (trim_space (p.0)) ref) [
      | inl (eq, test) ↦
          let own : lookup ref m' ≡ some (p.1) =
            ap (lookup ref) same ∙ (at ∙ if-on (trim_space (p.0) == ref) _ _ test) in
          let before : lookup ref m ≡ none = cc (new, eq) in
          (
            λ h. inr (p, c, eq, cc (own, h), full),
            λ h. elim h [ inl l ↦ cc (before, l) | inr (q, c', r, w, _) ↦ cc (own, c, c', w) ],
          )
      | inr (ne, test) ↦
          let other : lookup ref m' ≡ lookup ref m =
            ap (lookup ref) same ∙ (at ∙ if-off (trim_space (p.0) == ref) _ _ test) in
          (
            λ h. inl (cc (other, h)),
            λ h. elim h [
              | inl l ↦ cc (other, l)
              | inr (q, c', r, w, _) ↦ absurd (ne (cc (c, c', r)))
            ],
          )
    ]

add_secrets-lookup :
    (es : List String) (ref v : String) (m m' : List (String × String))
    → add_secrets es m ≡ ok m'
    → (lookup ref m' ≡ some v) ↔ ((lookup ref m ≡ some v) ⊎ Exists (Names ref v) es)
unfolding add_secrets
add_secrets-lookup [] ref v m m' eq =
    let same : m ≡ m' = cc eq in
    (
      λ h. inl (cc (same, h)),
      λ h. elim h [ inl l ↦ cc (same, l) | inr none_left ↦ absurd none_left ],
    )
add_secrets-lookup (e ∷ es) ref v m m' eq =
    let s = chain-Succeeds (add_secret (trim_space e) m) (add_secrets es) eq in
    let (one, eno) =
      Added-lookup e ref v m s.value (add_secret-Added (trim_space e) m s.value s.step) in
    let (rest, tser) = add_secrets-lookup es ref v s.value m' s.remaining in
    (
      λ h. elim (rest h) [
        | inr later ↦ inr (inr later)
        | inl now ↦ elim (one now) [ inl old ↦ inl old | inr here ↦ inr (inl here) ]
      ],
      λ h. elim h [
        | inl old ↦ tser (inl (eno (inl old)))
        | inr (inl here) ↦ tser (inl (eno (inr here)))
        | inr (inr later) ↦ tser (inr later)
      ],
    )

-- Where ParseStaticSecrets succeeds, its map holds exactly what the entries of the text name: no
-- entry is dropped or overwritten, and nothing else is there.
pub parse_static_secrets-lookup :
    (raw : String) (m : List (String × String))
    → parse_static_secrets raw ≡ ok m
    → (ref v : String) → (lookup ref m ≡ some v) ↔ Exists (Names ref v) (split b',' raw)
unfolding parse_static_secrets lookup
parse_static_secrets-lookup raw m eq ref v =
    let (to, from) = add_secrets-lookup (split b',' raw) ref v [] m eq in
    (λ h. elim (to h) [ inl l ↦ cc l | inr x ↦ x ], λ h. from (inr h))
