-- ===== src/Indexer/Bounded.antt =====
-- `Bounded`: a map in insertion order with a hard capacity.
pub mod Capacity
use keryx_api_shim.Base.{
  ℕ, Bool, true, false, Option, none, some, List, [], ◌∷◌, ◌++◌, Bytes, ltb, if◌then◌else◌, is_some,
  length,
}
use keryx_api_shim.Base.Maps.{HashMap, map_get, map_insert, map_remove}

pub record Bounded {ℓ} (V : Type ℓ) : Type ℓ where
  pub map : HashMap V
  pub order : List Bytes
  pub cap : ℕ

module _ {ℓ} {V : Type ℓ} where
  unfoldable pub new : ℕ → Bounded V
  new cap = record { map = []; order = []; cap = cap }

  -- `while self.order.len() > self.cap`
  unfoldable pub evict : ℕ → List Bytes → HashMap V → List Bytes × HashMap V
  evict cap [] m = ([], m)
  evict cap (old ∷ order) m =
      let rest = evict cap order (map_remove old m) in
      if ltb cap (length (old ∷ order)) then rest else (old ∷ order, m)

  unfoldable pub insert : Bytes → V → Bounded V → Bounded V
  insert key value b =
      let map = map_insert key value b.map in
      if is_some (map_get key b.map)
      then record b { map = map }
      else (let r = evict b.cap (b.order ++ key ∷ []) map in record b { map = r.1; order = r.0 })

  unfoldable pub get : Bytes → Bounded V → Option V
  get key b = map_get key b.map

  unfoldable pub len : Bounded V → ℕ
  len b = length b.map
