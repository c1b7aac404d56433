-- ===== src/Tests/Overlay.antt =====
-- Runs of the mempool overlay and of the bounded map.
use keryx_api_shim.Base.{ℕ, refl, [], ◌∷◌, ascii, arith}
use keryx_api_shim.Base.Maps.{map_get}
use keryx_api_shim.Indexer.Bounded.{Bounded, insert}
use keryx_api_shim.Indexer.Bounded.Capacity.{insert-IsBounded, IsBounded, listed, distinct}

-- A full map of capacity one.
abbrev full : Bounded ℕ
full = record { map = (ascii "a", 1) ∷ []; order = ascii "a" ∷ []; cap = 1 }

full-IsBounded : IsBounded full
unfolding map_get listed distinct
full-IsBounded = record { same = λ k. ground arith; once = refl; within = omega arith }

insert-IsBounded_example : IsBounded (insert (ascii "b") 2 full)
insert-IsBounded_example = insert-IsBounded (ascii "b") 2 full full-IsBounded
