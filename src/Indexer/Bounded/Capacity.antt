-- ===== src/Indexer/Bounded/Capacity.antt =====
-- The capacity holds, and an entry that was just inserted is found.
use keryx_api_shim.Base.{
  ℕ, ◌≤◌, ◌≡◌, refl, Bool, true, false, ◌&&◌, ◌||◌, not, some, List, [], ◌∷◌, ◌++◌, Bytes, ltb,
  is_some, length, bytes_eq, bytes_eq_iff, arith, Bool-cases, inl, inr,
}
use keryx_api_shim.Base.Maps.{
  HashMap, map_get, map_insert, map_remove, get-map_insert, get-map_remove,
}
use keryx_api_shim.Indexer.Bounded.{Bounded, evict, insert, get}

unfoldable pub listed : Bytes → List Bytes → Bool
listed k [] = false
listed k (j ∷ l) = bytes_eq j k || listed k l

-- No key is in the queue twice.
unfoldable pub distinct : List Bytes → Bool
unfolding listed
distinct [] = true
distinct (k ∷ l) = not (listed k l) && distinct l

listed-append :
    (k key : Bytes) (l : List Bytes) → listed k (l ++ key ∷ []) ≡ (listed k l || bytes_eq key k)
unfolding listed
listed-append k key [] = ground arith
listed-append k key (j ∷ l) = ground (arith, listed-append k key l)

distinct-append :
    (key : Bytes) (l : List Bytes)
    → listed key l ≡ false
    → distinct l ≡ true
    → distinct (l ++ key ∷ []) ≡ true
unfolding distinct listed
distinct-append key [] h k = ground arith
distinct-append key (j ∷ l) h k =
    ground
      (arith, distinct-append key l, listed-append j key l, bytes_eq_iff key j, bytes_eq_iff j key)

module _ {ℓ} {V : Type ℓ} where
  -- The queue holds each key of the map once, and no more keys than the capacity.
  pub record IsBounded (b : Bounded V) : Type ℓ where
    pub same : (k : Bytes) → is_some (map_get k b.map) ≡ listed k b.order
    pub once : distinct b.order ≡ true
    pub within : length b.order ≤ b.cap

  -- The loop keeps the map and the queue in step, and ends within the capacity.
  evict-IsBounded :
      (cap : ℕ) (order : List Bytes) (m : HashMap V)
      → ((k : Bytes) → is_some (map_get k m) ≡ listed k order)
      → distinct order ≡ true
      → IsBounded (record { map = (evict cap order m).1; order = (evict cap order m).0; cap = cap })
  unfolding evict listed distinct
  evict-IsBounded cap [] m same once = record { same = same; once = refl; within = omega arith }
  evict-IsBounded cap (old ∷ order) m same once =
      elim (Bool-cases (ltb cap (length (old ∷ order)))) [
        | inl e ↦ rw e (
            evict-IsBounded cap order (map_remove old m)
              (λ k. ground (arith, same k, get-map_remove old k m, bytes_eq_iff old k))
              (ground arith))
        | inr e ↦ rw e (record { same = same; once = once; within = ground arith })
      ]

  -- Inserting keeps the map and the queue in step and within the capacity.
  pub insert-IsBounded :
      (key : Bytes) (value : V) (b : Bounded V) → IsBounded b → IsBounded (insert key value b)
  unfolding insert
  insert-IsBounded key value b h = elim (Bool-cases (is_some (map_get key b.map))) [
    | inl e ↦ rw e (record {
      same = λ k. ground (arith, h.same k, get-map_insert key k value b.map, bytes_eq_iff key k);
      once = h.once;
      within = h.within;
    })
    | inr e ↦ rw e (
        evict-IsBounded b.cap (b.order ++ key ∷ []) (map_insert key value b.map)
          (λ k.
            ground (arith, h.same k, get-map_insert key k value b.map, listed-append k key b.order))
          (distinct-append key b.order (ground (arith, h.same key)) h.once))
  ]

  -- The loop does not reach the key at the end of the queue.
  evict_last :
      (cap : ℕ) (order : List Bytes) (key : Bytes) (value : V) (m : HashMap V)
      → 1 ≤ cap
      → listed key order ≡ false
      → map_get key m ≡ some value
      → map_get key (evict cap (order ++ key ∷ []) m).1 ≡ some value
  unfolding evict listed
  evict_last cap [] key value m h k e = let small : ltb cap 1 ≡ false = ground arith in rw small e
  evict_last cap (old ∷ order) key value m h k e =
      elim (Bool-cases (ltb cap (length (old ∷ (order ++ key ∷ []))))) [
        | inl f ↦ rw f (
            evict_last cap order key value (map_remove old m) h (ground arith)
              (ground (arith, get-map_remove old key m)))
        | inr f ↦ rw f e
      ]

  -- With a capacity of at least one, an entry is found right after it was inserted, in a map
  -- whose queue is in step with it.
  pub get-insert :
      (key : Bytes) (value : V) (b : Bounded V)
      → 1 ≤ b.cap
      → IsBounded b
      → get key (insert key value b) ≡ some value
  unfolding insert get
  get-insert key value b h bounded =
      let new_map = map_insert key value b.map in
      let found : map_get key new_map ≡ some value =
        ground (arith, get-map_insert key key value b.map, bytes_eq_iff key key) in
      elim (Bool-cases (is_some (map_get key b.map))) [
        | inl e ↦ rw e found
        | inr e ↦
            rw e (
              evict_last b.cap b.order key value new_map h (ground (arith, bounded.same key)) found)
      ]
