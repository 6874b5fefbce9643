-- ===== src/Http/Bearer.antt =====
-- bearerToken of internal/proxy/proxy.go.
use Prim.Native.Char.{code}
use Prim.Native.String.{String, [], ◌∷◌}
use genkit_proxy.Common.{
  ℕ, ◌+◌, Bool, true, false, ◌&&◌, leb, nat_eq, none, some, ◌==◌, if◌then◌else◌,
}
use genkit_proxy.Common.Text.{cut, trim_space}
use genkit_proxy.Errors.Chain.{sentinel, missing_credentials}
use genkit_proxy.Errors.Result.{GoResult, ok, err}

-- The fold of a character under strings.EqualFold, as far as the letters of "bearer" tell: no
-- character outside ASCII folds to one of them.
fold_char : ℕ → ℕ
fold_char c = if leb b'A' c && leb c b'Z' then c + 32 else c

-- strings.EqualFold(s, t) for a text `t` of such letters in lower case.
unfoldable pub equal_fold : String → String → Bool
unfolding fold_char
equal_fold [] [] = true
equal_fold [] (d ∷ t) = false
equal_fold (c ∷ s) [] = false
equal_fold (c ∷ s) (d ∷ t) = nat_eq (fold_char (code c)) (code d) && equal_fold s t

unfoldable pub token_of : String → GoResult String
token_of rest =
    let token = trim_space rest in
    if token == "" then err (sentinel missing_credentials) else ok token

unfoldable pub bearer_token : String → GoResult String
unfolding token_of
bearer_token header = elim (cut b' ' header) [
  | none ↦ err (sentinel missing_credentials)
  | some p ↦ if equal_fold p.0 "bearer" then token_of p.1 else err (sentinel missing_credentials)
]
