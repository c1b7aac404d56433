-- ===== src/Cache/Calls.antt =====
-- What a failing `init` of `get_or_try_init` leaves.
use keryx_api_shim.Base.{ℕ, ◌≡◌, refl, ap, inl, inr, Option-cases}
use keryx_api_shim.Base.Results.{Result, err}
use keryx_api_shim.Cache.{TtlCell, fresh, get_or_try_init}

module _ {E T : Type 0} where
  cell_err :
      (now done : ℕ) (e : E) (c : TtlCell T)
      → (get_or_try_init {T = T} {E = E} now done (err e) c).1 ≡ c
  unfolding get_or_try_init
  cell_err now done e c = elim (Option-cases (fresh now c)) [
    | inl f ↦ rw (f, get_or_try_init) refl
    | inr (value, f) ↦ rw (f, get_or_try_init) refl
  ]

  -- A call whose `init` fails leaves no trace in the cell: what the next call returns, and the
  -- cell after it, are as if the first had not been made.
  pub get_or_try_init_err :
      (now done later after : ℕ) (e : E) (outcome : Result E T) (c : TtlCell T)
      → get_or_try_init later after outcome (get_or_try_init {T = T} {E = E} now done (err e) c).1
        ≡ get_or_try_init later after outcome c
  get_or_try_init_err now done later after e outcome c =
      ap (get_or_try_init later after outcome) (cell_err now done e c)
