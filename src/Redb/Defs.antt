-- ===== src/Redb/Defs.antt =====
-- What the store uses of `redb`: tables with ordered keys, read and written by key and walked in
-- key order. Keys are compared as numbers or as byte strings, as redb compares `u64` and `&[u8]`.
use keryx_api_shim.Redb.Order.{
  ltb_irrefl, ltb_trans, ltb_total, lt_bytes, lt_bytes_irrefl, lt_bytes_trans, lt_bytes_total,
}
use keryx_api_shim.Base.{
  ℕ, ◌≡◌, ◌↔◌, ◌⊎◌, Bool, true, false, ◌&&◌, ◌||◌, Option, none, some, List, [], ◌∷◌, Bytes, ltb,
  ◌==◌, if◌then◌else◌, bytes_eq, bytes_eq_iff, ==_iff,
}

pub record Key (K : Type 0) : Type 0 where
  pub beq : K → K → Bool
  pub lt : K → K → Bool
  pub beq_iff : (a b : K) → (beq a b ≡ true) ↔ (a ≡ b)
  pub irrefl : (a : K) → lt a a ≡ false
  pub trans : (a b c : K) → lt a b ≡ true → lt b c ≡ true → lt a c ≡ true
  pub total : (a b : K) → (lt a b ≡ true) ⊎ ((beq a b ≡ true) ⊎ (lt b a ≡ true))

module _ {K : Type 0} (key : Key K) where
  unfoldable pub lookup {ℓ} : {V : Type ℓ} → K → List (K × V) → Option V
  lookup k [] = none
  lookup k ((j, v) ∷ l) = if key.beq j k then some v else lookup k l

  -- Whether `k` comes before every key of the list.
  unfoldable pub below {ℓ} : {V : Type ℓ} → K → List (K × V) → Bool
  below k [] = true
  below k ((j, v) ∷ l) = key.lt k j && below k l

  unfoldable pub ascending {ℓ} : {V : Type ℓ} → List (K × V) → Bool
  unfolding below
  ascending [] = true
  ascending ((j, v) ∷ l) = below j l && ascending l

  -- Of a walk in key order, the entries with a key from `lo` to `hi`, both included.
  unfoldable pub between {ℓ} : {V : Type ℓ} → K → K → List (K × V) → List (K × V)
  between lo hi [] = []
  between lo hi ((j, v) ∷ l) =
      if key.lt j lo || key.lt hi j then between lo hi l else (j, v) ∷ between lo hi l

-- One table type of the database. `extensional`: a table is taken up to its contents, which is
-- all that redb's operations show.
pub record Engine (K : Type 0) (key : Key K) : Type 1 where
  pub Table : Type 0 → Type 0
  pub create : (V : Type 0) → Table V
  pub get : {V : Type 0} → Table V → K → Option V
  pub insert : {V : Type 0} → Table V → K → V → Table V
  pub remove : {V : Type 0} → Table V → K → Table V
  pub iter : {V : Type 0} → Table V → List (K × V)
  pub get-create : (V : Type 0) (k : K) → get (create V) k ≡ none
  pub get-insert :
      {V : Type 0} (t : Table V) (k : K) (v : V) (j : K)
      → get (insert t k v) j ≡ (if key.beq k j then some v else get t j)
  pub get-remove :
      {V : Type 0} (t : Table V) (k j : K)
      → get (remove t k) j ≡ (if key.beq k j then none else get t j)
  pub lookup-iter : {V : Type 0} (t : Table V) (k : K) → lookup key k (iter t) ≡ get t k
  pub iter_ascending : {V : Type 0} (t : Table V) → ascending key (iter t) ≡ true
  pub extensional : {V : Type 0} (t u : Table V) → ((k : K) → get t k ≡ get u k) → t ≡ u

-- `u64` keys, by their value.
abbrev pub num_key : Key ℕ
num_key = record {
  beq = ◌==◌;
  lt = ltb;
  beq_iff = ==_iff;
  irrefl = ltb_irrefl;
  trans = ltb_trans;
  total = ltb_total;
}

-- `&str` and `&[u8]` keys, byte by byte.
abbrev pub text_key : Key Bytes
text_key = record {
  beq = bytes_eq;
  lt = lt_bytes;
  beq_iff = bytes_eq_iff;
  irrefl = lt_bytes_irrefl;
  trans = lt_bytes_trans;
  total = lt_bytes_total;
}

-- The two kinds of tables of one database file.
pub record Redb : Type 1 where
  pub nums : Engine ℕ num_key
  pub texts : Engine Bytes text_key
