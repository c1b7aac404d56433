-- ===== src/Api/Chain.antt =====
-- The endpoints on addresses, transactions and outpoints (`src/api/handlers.rs`). The JSON of a
-- transaction is the record that the overlay renders.
pub mod Pending
pub mod Spends
use keryx_api_shim.Base.{
  ℕ, Bool, true, false, ◌&&◌, not, Option, none, some, List, [], ◌∷◌, ◌++◌, map, Bytes, ◌==◌,
  if◌then◌else◌, length, all, or_default, is_some, ascii, ◌>>=◌,
}
use keryx_api_shim.Base.Ascii.{is_ascii_hexdigit}
use keryx_api_shim.Base.Decimal.{decimal}
use keryx_api_shim.Base.Results.{Result, ok, err}
use keryx_api_shim.Store.Types.{StoredIn, IndexedTx, HistRow}
use keryx_api_shim.Store.Tables.{Deps, Tables}
use keryx_api_shim.Store.Reads
use keryx_api_shim.Store.Reads.{tx_by_id, spend_of, address_totals, window_low_daa}
use keryx_api_shim.Mempool.{
  PendingRow, RenderedIn, Rendered, Snapshot, pending_spend, pending_history,
}
use keryx_api_shim.Node.{NodeError}
use keryx_api_shim.Indexer.Staging.{RpcTransaction}
use keryx_api_shim.Store.Faults.{ReadFaults}
use keryx_api_shim.Api.{ApiError, bad_request, not_found, node, query}
use keryx_api_shim.Api.Addresses.{validate_address}
use keryx_api_shim.Api.Transactions.{TxJson, validate, into_proto}
use keryx_api_shim.Api.Utxos.{clamp}

-- What a handler sees of the indexer: the store, once it is open, and the overlay.
pub record IndexerHandle (d : Deps) : Type 0 where
  pub store : Option (Tables d)
  pub mempool : Snapshot

pub record HistoryTx : Type 0 where
  pub tx_id : Bytes
  pub amount_sompi : ℕ
  pub is_spend : Bool
  pub daa_score : ℕ
  pub block_hash : Bytes
  pub address : Bytes
  pub pending : Bool

pub record AddressHistoryResponse : Type 0 where
  pub address : Bytes
  pub total_received_sompi : ℕ
  pub total_tx_count : ℕ
  pub transactions : List HistoryTx
  pub history_since_daa : Option ℕ

pub record BalanceResponse : Type 0 where
  pub address : Bytes
  pub balance_sompi : ℕ

pub data SpendStatus : Type 0 where
  mempool accepted : SpendStatus

abbrev pub history_max_limit : ℕ
history_max_limit = 1000

unfoldable pub pending_tx : Bytes → PendingRow → HistoryTx
pending_tx address p = record {
  tx_id = p.tx_id;
  amount_sompi = p.amount_sompi;
  is_spend = p.is_spend;
  daa_score = 0;
  block_hash = [];
  address = address;
  pending = true;
}

unfoldable pub history_tx : Bytes → HistRow → HistoryTx
history_tx address r = record {
  tx_id = r.tx_id;
  amount_sompi = r.amount_sompi;
  is_spend = r.is_spend;
  daa_score = r.daa_score;
  block_hash = r.block_hash;
  address = address;
  pending = false;
}

unfoldable pub is_txid : Bytes → Bool
is_txid s = length s == 64 && all is_ascii_hexdigit s

unfoldable pub stored_in_json : StoredIn → RenderedIn
stored_in_json i = record {
  transaction_id = i.previous_tx_id;
  index = i.previous_index;
  signature_script = i.signature_script;
  sequence = decimal 20 i.sequence;
  sig_op_count = i.sig_op_count;
}

unfoldable pub tx_to_json : IndexedTx → Rendered
tx_to_json itx = record {
  tx_id = itx.tx_id;
  version = itx.version;
  inputs = map stored_in_json itx.inputs;
  outputs = itx.outputs;
  lock_time = itx.lock_time;
  subnetwork_id = itx.subnetwork_id;
  gas = itx.gas;
  payload = itx.payload;
  block_hash = some itx.accepting_block_hash;
  daa_score = itx.accepting_daa;
  is_coinbase = itx.is_coinbase;
}

unfoldable pub balance :
    (Bytes → Bytes) → (Bytes → Result NodeError ℕ) → Bytes → Result ApiError BalanceResponse
balance debug get_balance address = elim (validate_address debug address) [
  | err m ↦ err (bad_request m)
  | ok _ ↦ elim (get_balance address) [
    | err e ↦ err (node e)
    | ok sompi ↦ ok (record { address = address; balance_sompi = sompi })
  ]
]

-- `body` is the extracted JSON, or the text of its rejection; `submit` is the client's call.
unfoldable pub broadcast :
    (RpcTransaction → Result NodeError Bytes) → Result Bytes TxJson → Result ApiError Bytes
broadcast submit body = elim body [
  | err text ↦ err (bad_request (ascii "invalid transaction JSON: " ++ text))
  | ok tx ↦ elim (validate tx) [
    | err m ↦ err (bad_request m)
    | ok _ ↦ elim (submit (into_proto tx)) [ err e ↦ err (node e) | ok id ↦ ok id ]
  ]
]

module _ (d : Deps) where
  -- `app.indexer` with an open store.
  unfoldable pub open_index : Option (IndexerHandle d) → Option (IndexerHandle d × Tables d)
  open_index indexer = do h ← indexer; store ← h.store; some (h, store)

  unfoldable pub require_index : Option (IndexerHandle d) → Result ApiError (Tables d)
  require_index indexer = elim (open_index indexer) [
    | none ↦ err (not_found (ascii "transaction index is not enabled on this shim"))
    | some p ↦ ok p.1
  ]

module _ (d : Deps) (faults : ReadFaults) where
  unfoldable pub address_history :
      (Bytes → Bytes)
      → Option (IndexerHandle d)
      → Bytes
      → Option ℕ
      → Option ℕ
      → Result ApiError AddressHistoryResponse
  address_history debug indexer address limit offset = elim (validate_address debug address) [
    | err m ↦ err (bad_request m)
    | ok _ ↦ elim (open_index d indexer) [
      | none ↦ ok (record {
        address = address;
        total_received_sompi = 0;
        total_tx_count = 0;
        transactions = [];
        history_since_daa = none;
      })
      | some (h, store) ↦
          let skip = or_default offset 0 in
          let rows =
            Reads.address_history d store address (clamp 1 history_max_limit (or_default limit 10))
              skip in
          let unconfirmed =
            if skip == 0
            then map (pending_tx address) (pending_history h.mempool address)
            else [] in
          elim (query faults.address_history rows) [
            | err e ↦ err e
            | ok rows ↦ elim (query faults.address_totals (address_totals d store address)) [
              | err e ↦ err e
              | ok totals ↦ elim (query faults.window_low_daa (window_low_daa d store)) [
                | err e ↦ err e
                | ok low ↦ ok (record {
                  address = address;
                  total_received_sompi = totals.0;
                  total_tx_count = totals.1;
                  transactions = unconfirmed ++ map (history_tx address) rows;
                  history_since_daa = low;
                })
              ]
            ]
          ]
    ]
  ]

  unfoldable pub transaction : Option (IndexerHandle d) → Bytes → Result ApiError Rendered
  transaction indexer tx_id =
      if not (is_txid tx_id)
      then err (bad_request (ascii "transaction id must be 64 hex chars"))
      else elim (require_index d indexer) [
        | err e ↦ err e
        | ok store ↦ elim (query faults.tx_by_id (tx_by_id d store tx_id)) [
          | err e ↦ err e
          | ok (some itx) ↦ ok (tx_to_json itx)
          | ok none ↦ err (not_found (ascii "transaction not found within the indexer window"))
        ]
      ]

  unfoldable pub outpoint_spend :
      Option (IndexerHandle d) → Bytes → ℕ → Result ApiError (SpendStatus × Rendered)
  outpoint_spend indexer tx_id index =
      if not (is_txid tx_id)
      then err (bad_request (ascii "transaction id must be 64 hex chars"))
      else elim (open_index d indexer) [
        | none ↦ err (not_found (ascii "transaction index is not enabled on this shim"))
        | some (h, store) ↦ elim (pending_spend h.mempool tx_id index) [
          | some pending ↦ ok (mempool, pending)
          | none ↦ elim (query faults.spend_of (spend_of d store tx_id index)) [
            | err e ↦ err e
            | ok (some itx) ↦ ok (accepted, tx_to_json itx)
            | ok none ↦ err (
                not_found
                  (ascii "outpoint has no known spending transaction in the indexer window"))
          ]
        ]
      ]
