-- ===== src/Redb/Sorted.antt =====
-- An instance of the database's interface: a table is its list of entries in key order.
use mathlib.Core.HLevel.{Σ_prop_path}
use mathlib.Core.Bool.{Bool-set}
use keryx_api_shim.Base.{◌≡◌, refl, true, none, some, List, [], ◌∷◌, arith, if◌then◌else◌}
use keryx_api_shim.Redb.Defs.{Key, Engine, Redb, lookup, below, ascending, num_key, text_key}

abbrev pub SortedTable : {K : Type 0} → Key K → Type 0 → Type 0
SortedTable {K} key V = (l : List (K × V)) × (ascending key l ≡ true)

module _ {K : Type 0} (key : Key K) {V : Type 0} where
  pub put : K → V → List (K × V) → List (K × V)
  put k v [] = (k, v) ∷ []
  put k v ((j, w) ∷ l) =
      if key.lt k j
      then (k, v) ∷ (j, w) ∷ l
      else if key.beq k j
      then (k, v) ∷ l
      else (j, w) ∷ put k v l

  pub drop_key : K → List (K × V) → List (K × V)
  drop_key k [] = []
  drop_key k ((j, w) ∷ l) = if key.beq j k then l else (j, w) ∷ drop_key k l

  below_trans :
      (k j : K) (l : List (K × V)) → key.lt k j ≡ true → below key j l ≡ true → below key k l ≡ true
  unfolding below
  below_trans k j [] h b = refl
  below_trans k j ((i, w) ∷ l) h b = ground (arith, key.trans k j i, below_trans k j l)

  lookup-below : (k : K) (l : List (K × V)) → below key k l ≡ true → lookup key k l ≡ none
  unfolding below lookup
  lookup-below k [] b = refl
  lookup-below k ((i, w) ∷ l) b = ground (arith, key.irrefl k, key.beq_iff i k, lookup-below k l)

  pub lookup-put :
      (k : K) (v : V) (l : List (K × V)) (j : K)
      → lookup key j (put k v l) ≡ (if key.beq k j then some v else lookup key j l)
  unfolding lookup put
  lookup-put k v [] j = refl
  lookup-put k v ((i, w) ∷ l) j =
      ground (arith, key.beq_iff k i, key.beq_iff i j, key.beq_iff k j, lookup-put k v l j)

  below-put :
      (j k : K) (v : V) (l : List (K × V))
      → key.lt j k ≡ true
      → below key j l ≡ true
      → below key j (put k v l) ≡ true
  unfolding below put
  below-put j k v [] h b = ground arith
  below-put j k v ((i, w) ∷ l) h b = ground (arith, below-put j k v l)

  pub ascending-put :
      (k : K) (v : V) (l : List (K × V)) → ascending key l ≡ true → ascending key (put k v l) ≡ true
  unfolding ascending put
  ascending-put k v [] h = refl
  ascending-put k v ((i, w) ∷ l) h = ground (
    arith,
    key.beq_iff k i,
    key.total k i,
    below_trans k i l,
    below-put i k v l,
    ascending-put k v l,
  )

  pub lookup-drop_key :
      (k : K) (l : List (K × V)) (j : K)
      → ascending key l ≡ true
      → lookup key j (drop_key k l) ≡ (if key.beq k j then none else lookup key j l)
  unfolding lookup drop_key ascending
  lookup-drop_key k [] j h = ground arith
  lookup-drop_key k ((i, w) ∷ l) j h = ground (
    arith,
    key.beq_iff i k,
    key.beq_iff i j,
    key.beq_iff k j,
    lookup-below i l,
    lookup-drop_key k l j,
  )

  below-drop_key :
      (j k : K) (l : List (K × V)) → below key j l ≡ true → below key j (drop_key k l) ≡ true
  unfolding below drop_key
  below-drop_key j k [] b = refl
  below-drop_key j k ((i, w) ∷ l) b = ground (arith, below-drop_key j k l)

  pub ascending-drop_key :
      (k : K) (l : List (K × V)) → ascending key l ≡ true → ascending key (drop_key k l) ≡ true
  unfolding ascending drop_key
  ascending-drop_key k [] h = refl
  ascending-drop_key k ((i, w) ∷ l) h = ground (arith, below-drop_key i k l, ascending-drop_key k l)

  -- Two ascending lists in which every key has the same value are equal.
  eq_of_lookup :
      (l m : List (K × V))
      → ascending key l ≡ true
      → ascending key m ≡ true
      → ((k : K) → lookup key k l ≡ lookup key k m)
      → l ≡ m
  unfolding ascending lookup
  eq_of_lookup [] [] p q h = refl
  eq_of_lookup [] ((j, w) ∷ m) p q h = absurd (ground (arith, h j, key.beq_iff j j))
  eq_of_lookup ((k, v) ∷ l) [] p q h = absurd (ground (arith, h k, key.beq_iff k k))
  eq_of_lookup ((k, v) ∷ l) ((j, w) ∷ m) p q h =
      let same : k ≡ j = ground (
        arith,
        h k,
        h j,
        key.beq_iff k k,
        key.beq_iff j j,
        key.beq_iff j k,
        key.beq_iff k j,
        key.total k j,
        below_trans k j m,
        below_trans j k l,
        lookup-below k m,
        lookup-below j l,
      ) in
      let rest : l ≡ m = eq_of_lookup l m (ground arith) (ground arith) (λ i.
        ground
          (arith, h i, key.beq_iff k i, key.beq_iff j i, lookup-below k l, lookup-below j m)) in
      ground (arith, h k, key.beq_iff k k, key.beq_iff j k)

  pub sorted_ext :
      (t u : SortedTable key V) → ((k : K) → lookup key k t.0 ≡ lookup key k u.0) → t ≡ u
  sorted_ext t u h =
      Σ_prop_path (λ l. Bool-set (ascending key l) true) (eq_of_lookup t.0 u.0 t.1 u.1 h)

unfoldable pub sorted_engine : {K : Type 0} (key : Key K) → Engine K key
unfolding lookup put drop_key ascending below
sorted_engine {K} key = record {
  Table = λ V. SortedTable key V;
  create = λ V. ([], refl);
  get = λ t k. lookup key k t.0;
  insert = λ t k v. (put key k v t.0, ascending-put key k v t.0 t.1);
  remove = λ t k. (drop_key key k t.0, ascending-drop_key key k t.0 t.1);
  iter = λ t. t.0;
  get-create = λ V k. refl;
  get-insert = λ t k v j. lookup-put key k v t.0 j;
  get-remove = λ t k j. lookup-drop_key key k t.0 j t.1;
  lookup-iter = λ t k. refl;
  iter_ascending = λ t. t.1;
  extensional = λ t u h. sorted_ext key t u h;
}

unfoldable pub sorted_redb : Redb
unfolding sorted_engine
sorted_redb = record { nums = sorted_engine num_key; texts = sorted_engine text_key }
