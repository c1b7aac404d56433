-- ===== src/Store/Linked.antt =====
-- The rows that name a transaction by its number: the ids and the spends.
pub mod Steps
pub mod Recorded
pub mod Reached
use keryx_api_shim.Base.{
  ℕ, suc, ◌<◌, ◌≡◌, refl, sym, ◌∙◌, ==_iff, Bool, true, false, ◌||◌, none, some, List, [], ◌∷◌, map,
  Bytes, bytes_eq, bytes_eq_iff, ◌==◌, if◌then◌else◌, arith, Bool-cases, inl, inr,
}
use keryx_api_shim.Store.Types.{RawIn, RawTx, AcceptedGroup, StoredIn, IndexedTx}
use keryx_api_shim.Store.Keys.{outpoint_key}
use keryx_api_shim.Store.Tables.{Deps, NumTable, TextTable, LedgerTables}
use keryx_api_shim.Store.Ledger.{stored_in, build_indexed, record_spends}
use keryx_api_shim.Store.Ledger.Undo.{spends_key, get-record_spends}
use keryx_api_shim.Store.Unwind.{remove_spends}

-- Whether `j` is the outpoint of one of the stored inputs.
unfoldable pub spends_stored : Bytes → List StoredIn → Bool
spends_stored j [] = false
spends_stored j (i ∷ inputs) =
    bytes_eq (outpoint_key i.previous_tx_id i.previous_index) j || spends_stored j inputs

spends_stored-stored_in :
    (j : Bytes) (inps : List RawIn) → spends_stored j (map stored_in inps) ≡ spends_key j inps
unfolding spends_stored spends_key stored_in
spends_stored-stored_in j [] = refl
spends_stored-stored_in j (i ∷ inps) = rw (spends_stored-stored_in j inps) refl

module _ (d : Deps) where
  open d.db use {nums, texts}

  get-remove_spends_stored :
      (inputs : List StoredIn) (t : TextTable d ℕ) (j : Bytes)
      → texts.get (remove_spends d inputs t) j
        ≡ (if spends_stored j inputs then none else texts.get t j)
  unfolding remove_spends spends_stored
  get-remove_spends_stored [] t j = refl
  get-remove_spends_stored (i ∷ inputs) t j =
      let k = outpoint_key i.previous_tx_id i.previous_index in
      ground (arith, get-remove_spends_stored inputs (texts.remove t k) j, texts.get-remove t k j)

  -- The row at a number has the id.
  pub record HasId (tx : NumTable d IndexedTx) (id : Bytes) (n : ℕ) : Type 0 where
    pub row : IndexedTx
    pub found : nums.get tx n ≡ some row
    pub same_id : row.tx_id ≡ id

  -- The row at a number is no coinbase and has an input that spends the outpoint of the key.
  pub record Spends (tx : NumTable d IndexedTx) (key : Bytes) (n : ℕ) : Type 0 where
    pub row : IndexedTx
    pub found : nums.get tx n ≡ some row
    pub spent : spends_stored key row.inputs ≡ true
    pub not_coinbase : row.is_coinbase ≡ false

  -- Every number in use is below the next one, every id leads to the row with the id, and every
  -- spent outpoint to a row that spends it.
  pub record IsLinked (next : ℕ) (tx : NumTable d IndexedTx) (ids spends : TextTable d ℕ)
      : Type 0 where
    pub numbered : (n : ℕ) (r : IndexedTx) → nums.get tx n ≡ some r → n < next
    pub ids_lead : (id : Bytes) (n : ℕ) → texts.get ids id ≡ some n → HasId tx id n
    pub spends_lead : (key : Bytes) (n : ℕ) → texts.get spends key ≡ some n → Spends tx key n

  module _ (next : ℕ) (tx : NumTable d IndexedTx) (ids spends : TextTable d ℕ)
      (h : IsLinked next tx ids spends) where
    -- A row that is there is not at the next number.
    kept_row :
        (v r : IndexedTx) (n : ℕ)
        → nums.get tx n ≡ some r
        → nums.get (nums.insert tx next v) n ≡ some r
    kept_row v r n e = ground (arith, nums.get-insert tx next v n, h.numbered n r e)

    new_row : (v : IndexedTx) → nums.get (nums.insert tx next v) next ≡ some v
    new_row v = ground (arith, nums.get-insert tx next v next)

    module _ (v : IndexedTx) where
      abbrev tx' : NumTable d IndexedTx
      tx' = nums.insert tx next v

      insert-ids :
          (id : Bytes) (n : ℕ)
          → texts.get (texts.insert ids v.tx_id next) id ≡ some n
          → HasId tx' id n
      insert-ids id n e = elim (Bool-cases (bytes_eq v.tx_id id)) [
        | inl b ↦
            let same : next ≡ n = ground (arith, texts.get-insert ids v.tx_id next id) in
            record {
              row = v;
              found = rw (sym same) (new_row v);
              same_id = (bytes_eq_iff v.tx_id id).0 b;
            }
        | inr b ↦
            let old = h.ids_lead id n (ground (arith, texts.get-insert ids v.tx_id next id)) in
            record { row = old.row; found = kept_row v old.row n old.found; same_id = old.same_id }
      ]

      insert-spends :
          (inps : List RawIn)
          → v.inputs ≡ map stored_in inps
          → (key : Bytes) (n : ℕ)
          → texts.get (if v.is_coinbase then spends else record_spends d next inps spends) key
            ≡ some n
          → Spends tx' key n
      insert-spends inps same_inputs key n e = elim (Bool-cases v.is_coinbase) [
        | inl c ↦
            let old = h.spends_lead key n (ground arith) in
            record {
              row = old.row;
              found = kept_row v old.row n old.found;
              spent = old.spent;
              not_coinbase = old.not_coinbase;
            }
        | inr c ↦ elim (Bool-cases (spends_key key inps)) [
          | inl b ↦
              let same : next ≡ n = ground (arith, get-record_spends d next inps spends key) in
              record {
                row = v;
                found = rw (sym same) (new_row v);
                spent = rw same_inputs (spends_stored-stored_in key inps ∙ b);
                not_coinbase = c;
              }
          | inr b ↦
              let old =
                h.spends_lead key n (ground (arith, get-record_spends d next inps spends key)) in
              record {
                row = old.row;
                found = kept_row v old.row n old.found;
                spent = old.spent;
                not_coinbase = old.not_coinbase;
              }
        ]
      ]

      -- A new row with its id and its spends keeps the links.
      pub insert-IsLinked :
          (inps : List RawIn)
          → v.inputs ≡ map stored_in inps
          → IsLinked
              (suc next)
              tx'
              (texts.insert ids v.tx_id next)
              (if v.is_coinbase then spends else record_spends d next inps spends)
      insert-IsLinked inps same_inputs = record {
        numbered = λ n r e. ground (arith, nums.get-insert tx next v n, h.numbered n r);
        ids_lead = insert-ids;
        spends_lead = insert-spends inps same_inputs;
      }

    -- Removing a row with its id and its spends keeps the links.
    pub remove-IsLinked :
        (k : ℕ) (v : IndexedTx)
        → nums.get tx k ≡ some v
        → IsLinked next
            (nums.remove tx k)
            (texts.remove ids v.tx_id)
            (if v.is_coinbase then spends else remove_spends d v.inputs spends)
    remove-IsLinked k v present = record {
      numbered = λ n r e. ground (arith, nums.get-remove tx k n, h.numbered n r);
      ids_lead = λ id n e.
          let old = h.ids_lead id n (ground (arith, texts.get-remove ids v.tx_id id)) in
          record {
            row = old.row;
            found = ground (
              arith,
              nums.get-remove tx k n,
              old.found,
              old.same_id,
              present,
              texts.get-remove ids v.tx_id id,
              bytes_eq_iff v.tx_id id,
              ==_iff k n,
            );
            same_id = old.same_id;
          };
      spends_lead = remove-spends;
    }
      where
        remove-spends :
            (key : Bytes) (n : ℕ)
            → texts.get (if v.is_coinbase then spends else remove_spends d v.inputs spends) key
              ≡ some n
            → Spends (nums.remove tx k) key n
        remove-spends key n e =
            let old =
              h.spends_lead key n (ground (arith, get-remove_spends_stored v.inputs spends key)) in
            record {
              row = old.row;
              found = ground (
                arith,
                nums.get-remove tx k n,
                old.found,
                old.spent,
                old.not_coinbase,
                present,
                get-remove_spends_stored v.inputs spends key,
                ==_iff k n,
              );
              spent = old.spent;
              not_coinbase = old.not_coinbase;
            }
