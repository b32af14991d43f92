-- ===== src/Prelude/Maps.antt =====
-- A `HashMap<String, u64>` as an association list, and equality of texts.
use Prim.Native.String.{String}
use mathlib.Core.Path.{◌≡◌, refl}
use mathlib.Core.Logic.{◌↔◌}
use mathlib.Core.Bool.{Bool, true}
use mathlib.Core.List.{List, [], ◌∷◌}
use mathlib.Core.Option.{Option, none, some}
use native.Mathlib.Omega.{arith}
use text.Mathlib.Text.{◌==◌}
use text.Mathlib.TextEquality.{eq_iff}
use ge_sensor.Prelude.Tests.{if◌then◌else◌}

abbrev pub str_eq : String → String → Bool
str_eq s t = s == t

pub str_eq_iff : (s t : String) → (str_eq s t ≡ true) ↔ (s ≡ t)
str_eq_iff s t = eq_iff s t

module _ {V : Type 0} where
  unfoldable pub lookup : String → List (String × V) → Option V
  lookup k [] = none
  lookup k ((j, v) ∷ m) = if j == k then some v else lookup k m

  -- `map.entry(k).or_insert(default)` and then a change of the value.
  unfoldable pub update_or_insert : String → V → (V → V) → List (String × V) → List (String × V)
  update_or_insert k default f [] = (k, f default) ∷ []
  update_or_insert k default f ((j, v) ∷ m) =
      let rest = update_or_insert k default f m in if j == k then (j, f v) ∷ m else (j, v) ∷ rest

  unfoldable pub remove : String → List (String × V) → List (String × V)
  remove k [] = []
  remove k ((j, v) ∷ m) = let rest = remove k m in if j == k then rest else (j, v) ∷ rest

  abbrev pub value_or : V → Option V → V
  value_or d none = d
  value_or d (some v) = v

  pub lookup-update_or_insert :
      (k j : String) (d : V) (f : V → V) (m : List (String × V))
      → lookup j (update_or_insert k d f m)
        ≡ (if k == j then some (f (value_or d (lookup k m))) else lookup j m)
  unfolding lookup update_or_insert
  lookup-update_or_insert k j d f [] = refl
  lookup-update_or_insert k j d f ((i, v) ∷ m) =
      ground (arith, eq_iff k j, eq_iff i k, eq_iff i j, lookup-update_or_insert k j d f m)

  pub lookup-remove :
      (k j : String) (m : List (String × V))
      → lookup j (remove k m) ≡ (if k == j then none else lookup j m)
  unfolding lookup remove
  lookup-remove k j [] = ground arith
  lookup-remove k j ((i, v) ∷ m) =
      ground (arith, eq_iff k j, eq_iff i k, eq_iff i j, lookup-remove k j m)
