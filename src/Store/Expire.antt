-- ===== src/Store/Expire.antt =====
-- `Store::expire_below`: the retention sweep.
pub mod Window
use keryx_api_shim.Base.{
  ℕ, zero, ◌+◌, Bool, true, false, ◌&&◌, not, Option, none, some, List, [], ◌∷◌, map, Bytes, ltb,
  leb, if◌then◌else◌, is_some, length, take,
}
use keryx_api_shim.Store.Types.{
  IndexedTx, AiRequestRec, AiRequestRecV1, AiResponseRec, AiResponseRecV1, AiChallengeRec, Compat,
  dec_request, dec_response,
}
use keryx_api_shim.Store.Keys.{from_be_bytes, resp_list_tx_num}
use keryx_api_shim.Store.Tables.{
  Deps, NumTable, TextTable, LedgerTables, BlockTables, AiTables, Tables,
}
use keryx_api_shim.Store.Unwind.{remove_spends, remove_history}

-- The transactions that the first scan collects: it ends at the first one at or above the cutoff.
unfoldable pub expired_txs : ℕ → List (ℕ × IndexedTx) → List (ℕ × IndexedTx)
expired_txs cutoff [] = []
expired_txs cutoff ((tx_num, itx) ∷ l) =
    if leb cutoff itx.accepting_daa then [] else (tx_num, itx) ∷ expired_txs cutoff l

-- The DAA score at the front of a `chain_key`.
unfoldable pub chain_key_daa : Bytes → ℕ
chain_key_daa key = from_be_bytes (take 8 key)

unfoldable pub expired_chain : ℕ → List (Bytes × Bytes) → List (Bytes × Bytes)
expired_chain cutoff [] = []
expired_chain cutoff ((key, hash) ∷ l) =
    if leb cutoff (chain_key_daa key) then [] else (key, hash) ∷ expired_chain cutoff l

-- `exp_req`: every request row below the cutoff.
unfoldable pub expired_requests :
    ℕ → List (ℕ × Compat AiRequestRec AiRequestRecV1) → List (ℕ × AiRequestRec)
expired_requests cutoff [] = []
expired_requests cutoff ((seq, row) ∷ l) =
    let rest = expired_requests cutoff l in
    if ltb (dec_request row).daa_score cutoff then (seq, dec_request row) ∷ rest else rest

unfoldable pub expired_responses :
    ℕ → List (Bytes × Compat AiResponseRec AiResponseRecV1) → List Bytes
expired_responses cutoff [] = []
expired_responses cutoff ((key, row) ∷ l) =
    let rest = expired_responses cutoff l in
    if ltb (dec_response row).daa_score cutoff then key ∷ rest else rest

unfoldable pub expired_challenges : ℕ → List (ℕ × AiChallengeRec) → List ℕ
expired_challenges cutoff [] = []
expired_challenges cutoff ((seq, rec) ∷ l) =
    let rest = expired_challenges cutoff l in if ltb rec.daa_score cutoff then seq ∷ rest else rest

unfoldable pub expired_caps : ℕ → List (Bytes × ℕ) → List Bytes
expired_caps cutoff [] = []
expired_caps cutoff ((key, last_seen) ∷ l) =
    let rest = expired_caps cutoff l in if ltb last_seen cutoff then key ∷ rest else rest

module _ (d : Deps) where
  open d.db use {nums, texts}

  -- The removals for one expired transaction: the totals stay.
  unfoldable pub expire_tx : ℕ → IndexedTx → LedgerTables d → LedgerTables d
  expire_tx tx_num itx t = record t {
    tx = nums.remove t.tx tx_num;
    tx_by_id = texts.remove t.tx_by_id itx.tx_id;
    addr_history = remove_history d tx_num itx.ledger t.addr_history;
    outpoint_spend =
        if itx.is_coinbase then t.outpoint_spend else remove_spends d itx.inputs t.outpoint_spend;
  }

  unfoldable pub expire_txs : List (ℕ × IndexedTx) → LedgerTables d → LedgerTables d
  expire_txs [] t = t
  expire_txs ((tx_num, itx) ∷ l) t = expire_txs l (expire_tx tx_num itx t)

  unfoldable pub expire_blocks : List (Bytes × Bytes) → BlockTables d → BlockTables d
  expire_blocks [] b = b
  expire_blocks ((key, hash) ∷ l) b = expire_blocks l (record {
    chain_by_daa = texts.remove b.chain_by_daa key;
    applied = texts.remove b.applied hash;
    accepted_by = texts.remove b.accepted_by hash;
  })

  unfoldable pub remove_texts : {V : Type 0} → List Bytes → TextTable d V → TextTable d V
  remove_texts [] t = t
  remove_texts (k ∷ ks) t = remove_texts ks (texts.remove t k)

  unfoldable pub remove_nums : {V : Type 0} → List ℕ → NumTable d V → NumTable d V
  remove_nums [] t = t
  remove_nums (k ∷ ks) t = remove_nums ks (nums.remove t k)

  -- A request goes with both of its keys, and with the responses filed under them.
  unfoldable pub expire_requests : List (ℕ × AiRequestRec) → AiTables d → AiTables d
  expire_requests [] t = t
  expire_requests ((seq, rec) ∷ l) t =
      let keys = rec.request_hash ∷ rec.tx_id ∷ [] in
      expire_requests l (record t {
        ai_req = nums.remove t.ai_req seq;
        ai_req_by_hash = remove_texts keys t.ai_req_by_hash;
        ai_resp = remove_texts keys t.ai_resp;
      })

  -- `exp_list`: the entries whose transaction is gone.
  unfoldable pub stale_list_keys : NumTable d IndexedTx → List (Bytes × (Unit {0})) → List Bytes
  stale_list_keys tx [] = []
  stale_list_keys tx ((key, _) ∷ l) =
      let rest = stale_list_keys tx l in
      if is_some (nums.get tx (resp_list_tx_num key)) then rest else key ∷ rest

  -- `exp_rh`: the mappings whose request is gone.
  unfoldable pub stale_response_hashes : TextTable d ℕ → List (Bytes × Bytes) → List Bytes
  stale_response_hashes by_hash [] = []
  stale_response_hashes by_hash ((key, request) ∷ l) =
      let rest = stale_response_hashes by_hash l in
      if is_some (texts.get by_hash request) then rest else key ∷ rest

  -- The sweeps of the inference tables, in their order; `tx` is the swept transaction table.
  unfoldable pub expire_ai : ℕ → NumTable d IndexedTx → AiTables d → AiTables d
  expire_ai cutoff tx t =
      let t1 = expire_requests (expired_requests cutoff (nums.iter t.ai_req)) t in
      let resp = remove_texts (expired_responses cutoff (texts.iter t1.ai_resp)) t1.ai_resp in
      record t1 {
        ai_resp = resp;
        ai_resp_list =
            remove_texts (stale_list_keys tx (texts.iter t1.ai_resp_list)) t1.ai_resp_list;
        ai_resp_hash =
            remove_texts (stale_response_hashes t1.ai_req_by_hash (texts.iter t1.ai_resp_hash))
              t1.ai_resp_hash;
        ai_chal = remove_nums (expired_challenges cutoff (nums.iter t1.ai_chal)) t1.ai_chal;
        ai_caps = remove_texts (expired_caps cutoff (texts.iter t1.ai_caps)) t1.ai_caps;
      }

  -- The committed tables and the number of removed transactions.
  unfoldable pub expire_below : ℕ → Tables d → Tables d × ℕ
  expire_below cutoff s =
      let expired = expired_txs cutoff (nums.iter s.ledger.tx) in
      let ledger = expire_txs expired s.ledger in
      (
        record s {
          ledger = ledger;
          blocks = expire_blocks (expired_chain cutoff (texts.iter s.blocks.chain_by_daa)) s.blocks;
          ai = expire_ai cutoff ledger.tx s.ai;
        },
        length expired,
      )
