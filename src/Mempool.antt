-- ===== src/Mempool.antt =====
-- `src/indexer/mempool.rs`: the overlay of unconfirmed transactions.
pub mod Overlay
use keryx_api_shim.Base.{
  ℕ, zero, suc, ◌+◌, ◌/◌, ◌%◌, Bool, true, false, Option, none, some, List, [], ◌∷◌, ◌++◌, map,
  Bytes, ltb, if◌then◌else◌, get_elem?, or_default,
}
use keryx_api_shim.Base.Maps.{HashMap, map_get, map_insert}
use keryx_api_shim.Base.Words.{add64}
use keryx_api_shim.Base.Decimal.{decimal}
use keryx_api_shim.Store.Types.{RawIn, RawTx, StoredOut}
use keryx_api_shim.Store.Keys.{outpoint_key}
use keryx_api_shim.Store.Tables.{Deps, Tables}
use keryx_api_shim.Store.Ledger.{
  Amounts, stored_out, attribute, add_debit, credit_outputs, net_i64, unsigned_abs, is_negative,
}
use keryx_api_shim.Store.Reads.{tx_by_id}

pub record PendingRow : Type 0 where
  pub tx_id : Bytes
  pub amount_sompi : ℕ
  pub is_spend : Bool

-- One element of `inputs` in the rendered JSON.
pub record RenderedIn : Type 0 where
  pub transaction_id : Bytes
  pub index : ℕ
  pub signature_script : Bytes
  pub sequence : Bytes
  pub sig_op_count : ℕ

-- The rendered JSON of a pending transaction.
pub record Rendered : Type 0 where
  pub tx_id : Bytes
  pub version : ℕ
  pub inputs : List RenderedIn
  pub outputs : List StoredOut
  pub lock_time : ℕ
  pub subnetwork_id : Bytes
  pub gas : ℕ
  pub payload : Bytes
  pub block_hash : Option Bytes
  pub daa_score : ℕ
  pub is_coinbase : Bool

unfoldable pub render_input : RawIn → RenderedIn
render_input i = record {
  transaction_id = i.previous_tx_id;
  index = i.previous_index;
  signature_script = i.signature_script;
  sequence = decimal 20 i.sequence;
  sig_op_count = i.sig_op_count;
}

unfoldable pub render_pending : RawTx → Rendered
render_pending raw = record {
  tx_id = raw.tx_id;
  version = raw.version;
  inputs = map render_input raw.inputs;
  outputs = map stored_out raw.outputs;
  lock_time = raw.lock_time;
  subnetwork_id = raw.subnetwork_id;
  gas = raw.gas;
  payload = raw.payload;
  block_hash = none;
  daa_score = 0;
  is_coinbase = raw.is_coinbase;
}

pub record Snapshot : Type 0 where
  pub spends : HashMap Rendered
  pub history : HashMap (List PendingRow)
  pub count : ℕ

unfoldable pub add_spends : Rendered → List RawIn → HashMap Rendered → HashMap Rendered
add_spends rendered [] m = m
add_spends rendered (inp ∷ inps) m =
    add_spends rendered inps
      (map_insert (outpoint_key inp.previous_tx_id inp.previous_index) rendered m)

unfoldable pub pending_row : RawTx → ℕ × ℕ → PendingRow
pending_row raw p =
    let net = net_i64 p.0 p.1 in
    record { tx_id = raw.tx_id; amount_sompi = unsigned_abs net; is_spend = is_negative net }

-- `history.entry(address).or_default().push(row)`
unfoldable pub push_row : Bytes → PendingRow → HashMap (List PendingRow) → HashMap (List PendingRow)
push_row address row m = map_insert address (or_default (map_get address m) [] ++ row ∷ []) m

unfoldable pub push_rows : RawTx → Amounts → HashMap (List PendingRow) → HashMap (List PendingRow)
push_rows raw [] m = m
push_rows raw ((address, p) ∷ acc) m = push_rows raw acc (push_row address (pending_row raw p) m)

module _ (d : Deps) (prefix : Bytes) (store : Tables d) where
  -- The debits, by the confirmed transactions that the inputs spend from.
  unfoldable pub debit_pending : List RawIn → Amounts → Amounts
  debit_pending [] acc = acc
  debit_pending (inp ∷ inps) acc = debit_pending inps (elim (tx_by_id d store inp.previous_tx_id) [
    | none ↦ acc
    | some funding ↦ elim (get_elem? funding.outputs inp.previous_index) [
      | none ↦ acc
      | some o ↦ attribute add_debit prefix o.script_public_key o.amount acc
    ]
  ])

  unfoldable pub pending_amounts : RawTx → Amounts
  pending_amounts raw =
      let credited = credit_outputs prefix raw.outputs [] in
      if raw.is_coinbase then credited else debit_pending raw.inputs credited

  -- One round of `for raw in txs`.
  unfoldable pub add_pending : RawTx → Snapshot → Snapshot
  add_pending raw s = record {
    spends =
        if raw.is_coinbase then s.spends else add_spends (render_pending raw) raw.inputs s.spends;
    history = push_rows raw (d.arrange (pending_amounts raw)) s.history;
    count = add64 s.count 1;
  }

  unfoldable pub add_all : List RawTx → Snapshot → Snapshot
  add_all [] s = s
  add_all (raw ∷ txs) s = add_all txs (add_pending raw s)

  unfoldable pub build_snapshot : List RawTx → Snapshot
  build_snapshot txs = add_all txs (record { spends = []; history = []; count = 0 })

-- `Mempool::spend_of`
unfoldable pub pending_spend : Snapshot → Bytes → ℕ → Option Rendered
pending_spend s txid index = map_get (outpoint_key txid index) s.spends

-- `Mempool::history`
unfoldable pub pending_history : Snapshot → Bytes → List PendingRow
pending_history s address = or_default (map_get address s.history) []
