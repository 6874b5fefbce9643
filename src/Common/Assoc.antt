-- ===== src/Common/Assoc.antt =====
-- Go's `map[string]V` as an association list: a write replaces the entry of its key.
use Prim.Native.Nat.{suc, ◌≤◌, ◌<◌}
use Prim.Native.String.{String}
use mathlib.Core.Path.{◌≡◌, refl}
use mathlib.Core.Option.{Option, none, some}
use mathlib.Core.List.{List, [], ◌∷◌}
use native.Mathlib.Omega.{arith}
use text.Mathlib.Text.{◌==◌}
use text.Mathlib.TextEquality.{eq_iff}
use genkit_proxy.Common.Lists.{length}
use genkit_proxy.Common.Tests.{if◌then◌else◌}

module _ {ℓ} {V : Type ℓ} where
  -- `value, ok := entries[key]`
  unfoldable pub lookup : String → List (String × V) → Option V
  lookup key [] = none
  lookup key (entry ∷ entries) = if entry.0 == key then some entry.1 else lookup key entries

  -- `entries[key] = value`
  unfoldable pub insert : String → V → List (String × V) → List (String × V)
  insert key value [] = (key, value) ∷ []
  insert key value (entry ∷ entries) =
      if entry.0 == key then (key, value) ∷ entries else entry ∷ insert key value entries

  pub lookup-insert :
      (written read : String) (value : V) (entries : List (String × V))
      → lookup read (insert written value entries)
        ≡ (if written == read then some value else lookup read entries)
  unfolding lookup insert
  lookup-insert written read value [] = refl
  lookup-insert written read value (entry ∷ entries) = ground (
    arith,
    lookup-insert written read value entries,
    eq_iff entry.0 written,
    eq_iff entry.0 read,
    eq_iff written read,
  )

  -- `delete(entries, key)`
  unfoldable pub erase : String → List (String × V) → List (String × V)
  erase key [] = []
  erase key (entry ∷ entries) =
      let rest = erase key entries in if entry.0 == key then rest else entry ∷ rest

  pub lookup-erase :
      (gone read : String) (entries : List (String × V))
      → lookup read (erase gone entries) ≡ (if gone == read then none else lookup read entries)
  unfolding lookup erase
  lookup-erase gone read [] = ground arith
  lookup-erase gone read (entry ∷ entries) = ground (
    arith,
    lookup-erase gone read entries,
    eq_iff entry.0 gone,
    eq_iff entry.0 read,
    eq_iff gone read,
  )

  pub length-erase-le :
      (gone : String) (entries : List (String × V)) → length (erase gone entries) ≤ length entries
  unfolding erase
  length-erase-le gone [] = omega arith
  length-erase-le gone (entry ∷ entries) = ground (arith, length-erase-le gone entries)

  -- Deleting a key that is there shortens the map, and writing one that is not lengthens it by one.
  pub length-erase-lt :
      (gone : String) (value : V) (entries : List (String × V))
      → lookup gone entries ≡ some value
      → length (erase gone entries) < length entries
  unfolding erase lookup
  length-erase-lt gone value [] there = cc
  length-erase-lt gone value (entry ∷ entries) there =
      ground (arith, length-erase-le gone entries, length-erase-lt gone value entries)

  pub length-insert :
      (written : String) (value : V) (entries : List (String × V))
      → lookup written entries ≡ none
      → length (insert written value entries) ≡ suc (length entries)
  unfolding insert lookup
  length-insert written value [] absent = refl
  length-insert written value (entry ∷ entries) absent =
      ground (arith, length-insert written value entries)
