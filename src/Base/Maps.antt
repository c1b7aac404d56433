-- ===== src/Base/Maps.antt =====
-- `HashMap<String, V>` and `HashMap<Vec<u8>, V>`: the entries, in some order, one for each key.
use mathlib.Core.List.{List, [], ◌∷◌}
use mathlib.Core.Option.{Option, none, some}
use mathlib.Core.Path.{◌≡◌, refl}
use native.Mathlib.Omega.{arith}
use keryx_api_shim.Base.Tests.{Bytes, bytes_eq, bytes_eq_iff, if◌then◌else◌}

abbrev pub HashMap {ℓ} : Type ℓ → Type ℓ
HashMap V = List (Bytes × V)

module _ {ℓ} {V : Type ℓ} where
  unfoldable pub map_get : Bytes → HashMap V → Option V
  map_get k [] = none
  map_get k ((j, v) ∷ m) = if bytes_eq j k then some v else map_get k m

  -- `insert`: the value of a key is replaced where the key is.
  unfoldable pub map_insert : Bytes → V → HashMap V → HashMap V
  map_insert k v [] = (k, v) ∷ []
  map_insert k v ((j, w) ∷ m) = if bytes_eq j k then (j, v) ∷ m else (j, w) ∷ map_insert k v m

  unfoldable pub map_remove : Bytes → HashMap V → HashMap V
  map_remove k [] = []
  map_remove k ((j, w) ∷ m) = if bytes_eq j k then map_remove k m else (j, w) ∷ map_remove k m

  pub get-map_insert :
      (k j : Bytes) (v : V) (m : HashMap V)
      → map_get j (map_insert k v m) ≡ (if bytes_eq k j then some v else map_get j m)
  unfolding map_get map_insert
  get-map_insert k j v [] = refl
  get-map_insert k j v ((i, w) ∷ m) =
      ground (arith, get-map_insert k j v m, bytes_eq_iff i k, bytes_eq_iff i j, bytes_eq_iff k j)

  pub get-map_remove :
      (k j : Bytes) (m : HashMap V)
      → map_get j (map_remove k m) ≡ (if bytes_eq k j then none else map_get j m)
  unfolding map_get map_remove
  get-map_remove k j [] = ground arith
  get-map_remove k j ((i, w) ∷ m) =
      ground (arith, get-map_remove k j m, bytes_eq_iff i k, bytes_eq_iff i j, bytes_eq_iff k j)
