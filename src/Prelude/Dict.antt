-- ===== src/Prelude/Dict.antt =====
-- Go's `map[string]V`, as an association list. A key that is new comes first: Go leaves the order
-- of a map open, and the model's functions read a map by its keys.

use Prim.Native.String.{String}
use mathlib.Core.Path.{◌≡◌, refl}
use mathlib.Core.Option.{Option, none, some}
use mathlib.Core.List.{List, [], ◌∷◌}
use native.Mathlib.Omega.{arith}
use text.Mathlib.Text.{◌==◌}
use text.Mathlib.TextEquality.{eq_iff}
use agentsdk.Prelude.Tests.{if◌then◌else◌}

abbrev pub Dict {ℓ} : Type ℓ → Type ℓ
Dict V = List (String × V)

module _ {ℓ} {V : Type ℓ} where
  -- d[k], ok
  unfoldable pub lookup : String → Dict V → Option V
  lookup k [] = none
  lookup k ((j, v) ∷ d) = if j == k then some v else lookup k d

  -- d[k], the zero value where there is none
  unfoldable pub lookup_or : V → String → Dict V → V
  unfolding lookup
  lookup_or zero_value k d = elim (lookup k d) [ none ↦ zero_value | some v ↦ v ]

  -- delete(d, k)
  unfoldable pub erase : String → Dict V → Dict V
  erase k [] = []
  erase k ((j, v) ∷ d) = let rest = erase k d in if j == k then rest else (j, v) ∷ rest

  -- d[k] = v
  unfoldable pub insert : String → V → Dict V → Dict V
  insert k v d = (k, v) ∷ erase k d

  pub lookup-erase :
      (k j : String) (d : Dict V) → lookup j (erase k d) ≡ (if k == j then none else lookup j d)
  unfolding lookup erase
  lookup-erase k j [] = ground arith
  lookup-erase k j ((i, v) ∷ d) =
      ground (arith, lookup-erase k j d, eq_iff i k, eq_iff i j, eq_iff k j)

  pub lookup-insert :
      (k j : String) (v : V) (d : Dict V)
      → lookup j (insert k v d) ≡ (if k == j then some v else lookup j d)
  unfolding insert lookup
  lookup-insert k j v d = ground (arith, lookup-erase k j d)

  -- A key that is not there leaves nothing to erase.
  pub erase-fresh : (k : String) (d : Dict V) → lookup k d ≡ none → erase k d ≡ d
  unfolding lookup erase
  erase-fresh k [] h = refl
  erase-fresh k ((i, v) ∷ d) h = ground (arith, erase-fresh k d)

  pub lookup_or-insert :
      (zero_value : V) (k j : String) (v : V) (d : Dict V)
      → lookup_or zero_value j (insert k v d) ≡ (if k == j then v else lookup_or zero_value j d)
  unfolding lookup_or
  lookup_or-insert zero_value k j v d = ground (arith, lookup-insert k j v d)

  -- No key stands twice.
  abbrev pub IsUnique : Dict V → Type ℓ
  IsUnique [] = Unit
  IsUnique ((k, v) ∷ d) = (lookup k d ≡ none) × IsUnique d

  IsUnique-erase : (k : String) (d : Dict V) → IsUnique d → IsUnique (erase k d)
  unfolding erase
  IsUnique-erase k [] u = tt
  IsUnique-erase k ((j, v) ∷ d) u = ground (arith, u.0, IsUnique-erase k d u.1, lookup-erase k j d)

  pub IsUnique-insert : (k : String) (v : V) (d : Dict V) → IsUnique d → IsUnique (insert k v d)
  unfolding insert
  IsUnique-insert k v d u = (ground (arith, lookup-erase k k d, eq_iff k k), IsUnique-erase k d u)
