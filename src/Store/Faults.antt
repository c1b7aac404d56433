-- ===== src/Store/Faults.antt =====
-- The errors of the store: `StoreError`, its text, and which operations of the database fail. A
-- write runs in one transaction of the database, so that a failed one commits nothing.
use keryx_api_shim.Base.{Option, none, some, ◌++◌, Bytes, ascii}
use keryx_api_shim.Base.Results.{Result, ok, err}

pub data StoreError : Type 0 where
  db decode : Bytes → StoreError

-- `Display`
unfoldable pub store_error_text : StoreError → Bytes
store_error_text (db e) = ascii "index db: " ++ e
store_error_text (decode e) = ascii "index decode: " ++ e

-- An operation that gives `a`, unless the database fails it.
abbrev pub attempt {ℓ} : {A : Type ℓ} → Option StoreError → A → Result StoreError A
attempt none a = ok a
attempt (some e) a = err e

-- `r.ok().flatten()`
abbrev pub ok_flatten : {A : Type 0} → Result StoreError (Option A) → Option A
ok_flatten (ok o) = o
ok_flatten (err e) = none

-- What the database fails during one step of the indexer.
pub record WriteFaults : Type 0 where
  pub apply : Option StoreError
  pub unwind_chain_block : Bytes → Option StoreError
  pub expire_below : Option StoreError
  pub checkpoint : Option StoreError
  pub window_low_daa : Option StoreError
  pub chain_blocks : Option StoreError

-- What the database fails during one request to the API.
pub record ReadFaults : Type 0 where
  pub address_history : Option StoreError
  pub address_totals : Option StoreError
  pub window_low_daa : Option StoreError
  pub tx_by_id : Option StoreError
  pub spend_of : Option StoreError
  pub capabilities : Option StoreError
  pub inference_feed : Option StoreError
  pub inference_by_tx : Option StoreError
  pub challenges : Option StoreError
  pub total_txs : Option StoreError
