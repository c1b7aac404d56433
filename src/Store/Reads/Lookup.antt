-- ===== src/Store/Reads/Lookup.antt =====
-- Reading back what the indexing of a transaction wrote.
use keryx_api_shim.Base.{ℕ, ◌≡◌, refl, true, false, some, Bytes, arith}
use keryx_api_shim.Redb.Laws
use keryx_api_shim.Store.Types.{RawTx, AcceptedGroup, IndexedTx}
use keryx_api_shim.Store.Keys.{outpoint_key}
use keryx_api_shim.Store.Tables.{Deps, Tables}
use keryx_api_shim.Store.Ledger.{build_indexed, compute_ledger, index_tx}
use keryx_api_shim.Store.Ledger.Undo.{spends_key, get-record_spends}
use keryx_api_shim.Store.Reads.{tx_by_id, spend_of}

module _ (d : Deps) (prefix : Bytes) where
  open d.db use {nums, texts}

  module _ (group : AcceptedGroup) (raw : RawTx) (tx_num : ℕ) (s : Tables d) where
    abbrev indexed : Tables d
    indexed = record s { ledger = index_tx d prefix group raw tx_num s.ledger }

    abbrev row : IndexedTx
    row = build_indexed raw tx_num group (compute_ledger d s.ledger prefix raw)

    stored : nums.get indexed.ledger.tx tx_num ≡ some row
    unfolding index_tx
    stored = Laws.get-insert_self nums s.ledger.tx tx_num row

    -- A transaction that was just indexed is found by its id.
    pub tx_by_id-index_tx : tx_by_id d indexed raw.tx_id ≡ some row
    unfolding tx_by_id
    tx_by_id-index_tx =
        let found : texts.get indexed.ledger.tx_by_id raw.tx_id ≡ some tx_num =
          unfold index_tx in Laws.get-insert_self texts s.ledger.tx_by_id raw.tx_id tx_num in
        rw (found, stored) refl

    -- Once a transaction that is no coinbase is indexed, it is found as the spender of each of
    -- the outpoints that its inputs name.
    pub spend_of-index_tx :
        (txid : Bytes) (index : ℕ)
        → raw.is_coinbase ≡ false
        → spends_key (outpoint_key txid index) raw.inputs ≡ true
        → spend_of d indexed txid index ≡ some row
    unfolding spend_of
    spend_of-index_tx txid index h k =
        let key = outpoint_key txid index in
        let found : texts.get indexed.ledger.outpoint_spend key ≡ some tx_num =
          unfold index_tx in
          ground (arith, get-record_spends d tx_num raw.inputs s.ledger.outpoint_spend key) in
        rw (found, stored) refl
