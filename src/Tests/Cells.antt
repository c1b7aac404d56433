-- ===== src/Tests/Cells.antt =====
-- Runs of a cell.
use keryx_api_shim.Base.{ℕ, refl, All, some, [], ◌∷◌, arith}
use keryx_api_shim.Cache.{new_cell, fresh, store_at}
use keryx_api_shim.Cache.Freshness.{
  World, Reach, here, next, tick, hit, miss, init_ok, write, start, IsFresh, IsOwn,
  served_fresh_lem,
}

-- One caller fills the cell after a wait for the lock, and a second one is served from it.
abbrev filled : World ℕ
filled = record {
  now = 2;
  cell = record { ttl = 3; slot = some (0, 7) };
  running = 0;
  waiting = [];
  inits = (0, 7) ∷ [];
  served = (2, 7) ∷ [];
  returned = (1, 7) ∷ [];
}

filled-Reach : Reach (start 0 3) filled
unfolding start new_cell fresh store_at
filled-Reach =
    next
      (next
        (next
          (next (next (next here (miss refl refl)) (init_ok 7 (omega arith) refl)) (tick 1 refl))
          (write [] [] 0 7 refl refl))
        (tick 1 refl))
      (hit 7 refl refl)

served_fresh_lem_example :
    All (IsFresh 3 filled.inits) filled.served × All (IsOwn filled.inits) filled.returned
served_fresh_lem_example = served_fresh_lem 0 3 filled filled-Reach
