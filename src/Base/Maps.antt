-- ===== src/Base/Maps.antt =====
-- `Map` and objects used as dictionaries: pairs in order of insertion, each key once.
use Prim.Native.String.{String}
use mathlib.Core.Path.{◌≡◌, refl}
use mathlib.Core.Option.{Option, none, some}
use mathlib.Core.List.{List, [], ◌∷◌}
use native.Mathlib.Omega.{arith}
use text.Mathlib.Text.{◌==◌ as str_eq}
use text.Mathlib.TextEquality.{eq_iff}
use manage_call_ai.Base.Tests.{if◌then◌else◌}

module _ {ℓ} {V : Type ℓ} where
  unfoldable pub map_get : String → List (String × V) → Option V
  map_get key [] = none
  map_get key ((k, v) ∷ m) = if str_eq k key then some v else map_get key m

  unfoldable pub map_set : String → V → List (String × V) → List (String × V)
  map_set key v [] = (key, v) ∷ []
  map_set key v ((k, w) ∷ m) = if str_eq k key then (k, v) ∷ m else (k, w) ∷ map_set key v m

  pub map_get-map_set :
      (key k : String) (v : V) (m : List (String × V))
      → map_get k (map_set key v m) ≡ (if str_eq key k then some v else map_get k m)
  unfolding map_get map_set
  map_get-map_set key k v [] = refl
  map_get-map_set key k v ((j, w) ∷ m) =
      ground (arith, eq_iff key k, eq_iff j key, eq_iff j k, map_get-map_set key k v m)

  -- `{ ...base, ...more }`.
  unfoldable pub map_merge : List (String × V) → List (String × V) → List (String × V)
  map_merge base [] = base
  map_merge base ((k, v) ∷ more) = map_merge (map_set k v base) more
