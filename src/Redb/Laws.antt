-- ===== src/Redb/Laws.antt =====
-- What follows from the laws of a table, as equations between tables.
use keryx_api_shim.Base.{◌≡◌, ◌≢◌, none, some, arith}
use keryx_api_shim.Redb.Defs.{Key, Engine}

module _ {K : Type 0} {key : Key K} (e : Engine K key) {V : Type 0} where
  open e use {Table, get, insert, remove, get-insert, get-remove, extensional}

  pub get-insert_self : (t : Table V) (k : K) (v : V) → get (insert t k v) k ≡ some v
  get-insert_self t k v = ground (arith, get-insert t k v k, key.beq_iff k k)

  pub get-insert_ne : (t : Table V) (k : K) (v : V) (j : K) → k ≢ j → get (insert t k v) j ≡ get t j
  get-insert_ne t k v j h = ground (arith, get-insert t k v j, key.beq_iff k j)

  -- Removing a key that was just inserted and was absent before restores the table.
  pub remove-insert : (t : Table V) (k : K) (v : V) → get t k ≡ none → remove (insert t k v) k ≡ t
  remove-insert t k v h =
      extensional _ _
        λ j. ground (arith, get-remove (insert t k v) k j, get-insert t k v j, key.beq_iff k j)

  -- A second write to a key replaces the first.
  pub insert-insert_self :
      (t : Table V) (k : K) (v w : V) → insert (insert t k v) k w ≡ insert t k w
  insert-insert_self t k v w =
      extensional _ _
        λ j. ground (arith, get-insert (insert t k v) k w j, get-insert t k v j, get-insert t k w j)

  -- Writing what a key already holds changes nothing.
  pub insert_present : (t : Table V) (k : K) (v : V) → get t k ≡ some v → insert t k v ≡ t
  insert_present t k v h = extensional _ _ λ j. ground (arith, get-insert t k v j, key.beq_iff k j)

  pub remove-insert_ne :
      (t : Table V) (k j : K) (v : V) → k ≢ j → remove (insert t k v) j ≡ insert (remove t j) k v
  remove-insert_ne t k j v h = extensional _ _ λ i. ground (
    arith,
    get-remove (insert t k v) j i,
    get-insert t k v i,
    get-insert (remove t j) k v i,
    get-remove t j i,
    key.beq_iff k i,
    key.beq_iff j i,
  )
