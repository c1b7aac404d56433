-- ===== src/Store/Ledger.antt =====
-- The rows that one transaction adds: `compute_ledger`, `build_indexed`, `read_totals`, and the
-- writes of `Store::apply` to the transaction, spend, history and totals tables.
pub mod Totals
pub mod Undo
pub mod Addresses
pub mod Net
use keryx_api_shim.Base.{
  ℕ, ◌+◌, ◌-◌, ◌%◌, ◌^◌, Bool, true, false, Option, none, some, List, [], ◌∷◌, map, Bytes, ltb, leb,
  if◌then◌else◌, bytes_eq, get_elem?, or_default, ◌>>=◌,
}
use keryx_api_shim.Base.Words.{add64, u64_mod}
use keryx_api_shim.Address.{script_to_address}
use keryx_api_shim.Store.Types.{
  RawIn, RawOut, RawTx, AcceptedGroup, StoredIn, StoredOut, LedgerEntry, IndexedTx, HistRow,
}
use keryx_api_shim.Store.Keys.{outpoint_key, hist_key}
use keryx_api_shim.Store.Tables.{Deps, NumTable, TextTable, LedgerTables}

-- The `HashMap` from an address to its credit and debit, in the order of the first insertions.
abbrev pub Amounts : Type 0
Amounts = List (Bytes × (ℕ × ℕ))

-- `acc.entry(addr).or_default()`, changed by `f`
unfoldable pub entry_or_default : Bytes → (ℕ × ℕ → ℕ × ℕ) → Amounts → Amounts
entry_or_default addr f [] = (addr, f (0, 0)) ∷ []
entry_or_default addr f ((a, p) ∷ acc) =
    if bytes_eq a addr then (a, f p) ∷ acc else (a, p) ∷ entry_or_default addr f acc

unfoldable pub add_credit : ℕ → ℕ × ℕ → ℕ × ℕ
add_credit amount p = (add64 p.0 amount, p.1)

unfoldable pub add_debit : ℕ → ℕ × ℕ → ℕ × ℕ
add_debit amount p = (p.0, add64 p.1 amount)

-- The change of one output or one spent output, if its script has an address.
unfoldable pub attribute : (ℕ → ℕ × ℕ → ℕ × ℕ) → Bytes → Bytes → ℕ → Amounts → Amounts
attribute add prefix script amount acc = elim (script_to_address script prefix) [
  | none ↦ acc
  | some addr ↦ entry_or_default addr (add amount) acc
]

unfoldable pub credit_outputs : Bytes → List RawOut → Amounts → Amounts
credit_outputs prefix [] acc = acc
credit_outputs prefix (out ∷ outs) acc =
    credit_outputs prefix outs (attribute add_credit prefix out.script_public_key out.amount acc)

unfoldable pub stored_in : RawIn → StoredIn
stored_in i = record {
  previous_tx_id = i.previous_tx_id;
  previous_index = i.previous_index;
  signature_script = i.signature_script;
  sequence = i.sequence;
  sig_op_count = i.sig_op_count;
}

unfoldable pub stored_out : RawOut → StoredOut
stored_out o = record {
  amount = o.amount;
  script_version = o.script_version;
  script_public_key = o.script_public_key;
}

unfoldable pub build_indexed : RawTx → ℕ → AcceptedGroup → List LedgerEntry → IndexedTx
build_indexed raw tx_num group ledger = record {
  tx_num = tx_num;
  tx_id = raw.tx_id;
  accepting_block_hash = group.chain_block_hash;
  accepting_daa = group.daa_score;
  is_coinbase = raw.is_coinbase;
  version = raw.version;
  lock_time = raw.lock_time;
  subnetwork_id = raw.subnetwork_id;
  gas = raw.gas;
  payload = raw.payload;
  inputs = map stored_in raw.inputs;
  outputs = map stored_out raw.outputs;
  ledger = ledger;
}

-- `credit as i64 - debit as i64`, as the bit pattern of the `i64`
unfoldable pub net_i64 : ℕ → ℕ → ℕ
net_i64 credit debit = (credit + u64_mod - debit) % u64_mod

-- `net.unsigned_abs()`
unfoldable pub unsigned_abs : ℕ → ℕ
unsigned_abs net = if ltb net (2 ^ 63) then net else u64_mod - net

-- `net < 0`
unfoldable pub is_negative : ℕ → Bool
is_negative net = leb (2 ^ 63) net

unfoldable pub hist_row : RawTx → AcceptedGroup → LedgerEntry → HistRow
hist_row raw group e =
    let net = net_i64 e.credit e.debit in
    record {
      tx_id = raw.tx_id;
      amount_sompi = unsigned_abs net;
      is_spend = is_negative net;
      daa_score = group.daa_score;
      block_hash = group.chain_block_hash;
    }

module _ (d : Deps) where
  open d.db use {nums, texts}

  -- The output that an input spends, if its transaction is indexed.
  unfoldable pub funding_output : LedgerTables d → RawIn → Option StoredOut
  funding_output t inp = do
    tx_num ← texts.get t.tx_by_id inp.previous_tx_id
    funding ← nums.get t.tx tx_num
    get_elem? funding.outputs inp.previous_index

  unfoldable pub debit_inputs : LedgerTables d → Bytes → List RawIn → Amounts → Amounts
  debit_inputs t prefix [] acc = acc
  debit_inputs t prefix (inp ∷ inps) acc = debit_inputs t prefix inps (elim (funding_output t inp) [
    | none ↦ acc
    | some o ↦ attribute add_debit prefix o.script_public_key o.amount acc
  ])

  -- The amounts of one transaction, by address.
  unfoldable pub amounts : LedgerTables d → Bytes → RawTx → Amounts
  amounts t prefix raw =
      let credited = credit_outputs prefix raw.outputs [] in
      if raw.is_coinbase then credited else debit_inputs t prefix raw.inputs credited

  unfoldable pub ledger_entry : Bytes × (ℕ × ℕ) → LedgerEntry
  ledger_entry (address, p) = record { address = address; credit = p.0; debit = p.1 }

  unfoldable pub compute_ledger : LedgerTables d → Bytes → RawTx → List LedgerEntry
  compute_ledger t prefix raw = map ledger_entry (d.arrange (amounts t prefix raw))

  unfoldable pub read_totals : TextTable d (ℕ × ℕ) → Bytes → ℕ × ℕ
  read_totals t addr = or_default (texts.get t addr) (0, 0)

  unfoldable pub record_spends : ℕ → List RawIn → TextTable d ℕ → TextTable d ℕ
  record_spends tx_num [] t = t
  record_spends tx_num (inp ∷ inps) t =
      record_spends tx_num inps
        (texts.insert t (outpoint_key inp.previous_tx_id inp.previous_index) tx_num)

  unfoldable pub record_history :
      RawTx → AcceptedGroup → ℕ → List LedgerEntry → TextTable d HistRow → TextTable d HistRow
  record_history raw group tx_num [] t = t
  record_history raw group tx_num (e ∷ es) t =
      record_history raw group tx_num es
        (texts.insert t (hist_key e.address tx_num) (hist_row raw group e))

  unfoldable pub add_total : LedgerEntry → TextTable d (ℕ × ℕ) → TextTable d (ℕ × ℕ)
  add_total e t =
      let (recv, cnt) = read_totals t e.address in
      texts.insert t e.address (add64 recv e.credit, add64 cnt 1)

  unfoldable pub add_totals : List LedgerEntry → TextTable d (ℕ × ℕ) → TextTable d (ℕ × ℕ)
  add_totals [] t = t
  add_totals (e ∷ es) t = add_totals es (add_total e t)

  -- The writes of one round of `for raw in &group.txs` to these tables. The loop over the ledger
  -- writes a history row and a total for each entry; the two tables are independent.
  unfoldable pub index_tx : Bytes → AcceptedGroup → RawTx → ℕ → LedgerTables d → LedgerTables d
  index_tx prefix group raw tx_num t =
      let ledger = compute_ledger t prefix raw in
      record {
        tx = nums.insert t.tx tx_num (build_indexed raw tx_num group ledger);
        tx_by_id = texts.insert t.tx_by_id raw.tx_id tx_num;
        addr_history = record_history raw group tx_num ledger t.addr_history;
        addr_totals = add_totals ledger t.addr_totals;
        outpoint_spend =
            if raw.is_coinbase
            then t.outpoint_spend
            else record_spends tx_num raw.inputs t.outpoint_spend;
      }
