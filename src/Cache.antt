-- ===== src/Cache.antt =====
-- `src/cache.rs`: cells that keep a value for a time. An instant is a number, and `elapsed` stops
-- at 0; a cell is read and written as a whole, under its lock.
pub mod Freshness
pub mod Calls
use keryx_api_shim.Base.{ℕ, ◌-◌, Option, none, some, ltb, if◌then◌else◌}
use keryx_api_shim.Base.Results.{Result, ok, err}

pub record TtlCell (T : Type 0) : Type 0 where
  pub ttl : ℕ
  pub slot : Option (ℕ × T)

module _ {T : Type 0} where
  unfoldable pub new_cell : ℕ → TtlCell T
  new_cell ttl = record { ttl = ttl; slot = none }

  -- What the cell serves at the time `now`.
  unfoldable pub fresh : ℕ → TtlCell T → Option T
  fresh now c = elim c.slot [
    | none ↦ none
    | some e ↦ if ltb (now - e.0) c.ttl then some e.1 else none
  ]

  unfoldable pub store_at : ℕ → T → TtlCell T → TtlCell T
  store_at now value c = record c { slot = some (now, value) }

  -- A call at the time `now`, whose `init`, if it runs, ends at the time `done` with `outcome`.
  unfoldable pub get_or_try_init :
      {E : Type 0} → ℕ → ℕ → Result E T → TtlCell T → Result E T × TtlCell T
  get_or_try_init now done outcome c = elim (fresh now c) [
    | some value ↦ (ok value, c)
    | none ↦ elim outcome [ err e ↦ (err e, c) | ok value ↦ (ok value, store_at done value c) ]
  ]

  unfoldable pub get_or_init : ℕ → ℕ → T → TtlCell T → T × TtlCell T
  get_or_init now done outcome c = elim (fresh now c) [
    | some value ↦ (value, c)
    | none ↦ (outcome, store_at done outcome c)
  ]
