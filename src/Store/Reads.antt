-- ===== src/Store/Reads.antt =====
-- The reads of the store.
pub mod Pages
pub mod Lookup
pub mod Caps
use keryx_api_shim.Base.{
  ℕ, zero, suc, ◌+◌, Bool, true, false, not, Option, none, some, List, [], ◌∷◌, ◌++◌, map, reverse,
  Bytes, ltb, leb, if◌then◌else◌, is_some, or_default, or_else, length, ascii, ◌>>=◌,
}
use keryx_api_shim.Hex.{from_hex}
use keryx_api_shim.Inference.Response.{AiResponse, decode_response}
use keryx_api_shim.Redb.Defs.{between, text_key}
use keryx_api_shim.Store.Types.{
  IndexedTx, HistRow, AiRequestRec, AiRequestRecV1, AiResponseRec, AiResponseRecV1, AiChallengeRec,
  Checkpoint, Compat, dec_request, dec_response,
}
use keryx_api_shim.Store.Keys.{outpoint_key, hist_bounds, resp_list_bounds, resp_list_tx_num}
use keryx_api_shim.Store.Tables.{Deps, NumTable, TextTable, Tables, meta_or_zero}
use keryx_api_shim.Store.Ledger.{read_totals}

-- The loop of `address_history`, over the rows in the order of the walk.
unfoldable pub history_loop : ℕ → ℕ → ℕ → List HistRow → List (Bytes × HistRow) → List HistRow
history_loop limit offset skipped out [] = out
history_loop limit offset skipped out ((k, row) ∷ rows) =
    let skip = history_loop limit offset (skipped + 1) out rows in
    let push = history_loop limit offset skipped (out ++ row ∷ []) rows in
    if ltb skipped offset then skip else if leb limit (length out) then out else push

unfoldable pub challenges_loop :
    ℕ → List AiChallengeRec → List (ℕ × AiChallengeRec) → List AiChallengeRec
challenges_loop limit out [] = out
challenges_loop limit out ((k, rec) ∷ rows) =
    let push = challenges_loop limit (out ++ rec ∷ []) rows in
    if leb limit (length out) then out else push

-- One request with every indexed response to it.
pub record InferenceDetail : Type 0 where
  pub request : AiRequestRec
  pub first_response : Option AiResponseRec
  pub responses : List (IndexedTx × AiResponse)

module _ (d : Deps) where
  open d.db use {nums, texts}

  unfoldable pub checkpoint : Tables d → Option Checkpoint
  checkpoint s = do
    hash ← texts.get s.meta_str (ascii "checkpoint_hash")
    daa ← texts.get s.meta (ascii "checkpoint_daa")
    some (record { chain_block_hash = hash; daa_score = daa })

  unfoldable pub is_applied : Tables d → Bytes → Bool
  is_applied s hash = is_some (texts.get s.blocks.applied hash)

  unfoldable pub total_txs : Tables d → ℕ
  total_txs s = meta_or_zero d s (ascii "total_txs")

  unfoldable pub chain_blocks : Tables d → ℕ
  chain_blocks s = length (texts.iter s.blocks.applied)

  unfoldable pub first_daa : List (ℕ × IndexedTx) → Option ℕ
  first_daa [] = none
  first_daa ((k, itx) ∷ l) = some itx.accepting_daa

  unfoldable pub window_low_daa : Tables d → Option ℕ
  window_low_daa s = first_daa (nums.iter s.ledger.tx)

  unfoldable pub address_totals : Tables d → Bytes → ℕ × ℕ
  address_totals s addr = read_totals d s.ledger.addr_totals addr

  -- `t.range(lo..=hi)?.rev()`
  unfoldable pub history_rows : Tables d → Bytes → List (Bytes × HistRow)
  history_rows s addr =
      let (lo, hi) = hist_bounds addr in
      reverse (between text_key lo hi (texts.iter s.ledger.addr_history))

  unfoldable pub address_history : Tables d → Bytes → ℕ → ℕ → List HistRow
  address_history s addr limit offset = history_loop limit offset 0 [] (history_rows s addr)

  unfoldable pub tx_by_id : Tables d → Bytes → Option IndexedTx
  tx_by_id s tx_id = do tx_num ← texts.get s.ledger.tx_by_id tx_id; nums.get s.ledger.tx tx_num

  unfoldable pub spend_of : Tables d → Bytes → ℕ → Option IndexedTx
  spend_of s txid index = do
    tx_num ← texts.get s.ledger.outpoint_spend (outpoint_key txid index)
    nums.get s.ledger.tx tx_num

  -- Under the request's identity, or under its tx id.
  unfoldable pub first_response :
      TextTable d (Compat AiResponseRec AiResponseRecV1) → AiRequestRec → Option AiResponseRec
  first_response resp req = do
    row ← or_else (texts.get resp req.request_hash) (texts.get resp req.tx_id)
    some (dec_response row)

  unfoldable pub feed_loop :
      TextTable d (Compat AiResponseRec AiResponseRecV1)
      → ℕ
      → ℕ
      → ℕ
      → List (AiRequestRec × Option AiResponseRec)
      → List (ℕ × Compat AiRequestRec AiRequestRecV1)
      → List (AiRequestRec × Option AiResponseRec)
  feed_loop resp limit offset skipped out [] = out
  feed_loop resp limit offset skipped out ((k, row) ∷ rows) =
      let req = dec_request row in
      let pass = feed_loop resp limit offset skipped out rows in
      let skip = feed_loop resp limit offset (skipped + 1) out rows in
      let push =
        feed_loop resp limit offset skipped (out ++ (req, first_response resp req) ∷ []) rows in
      if leb limit (length out)
      then out
      else if req.private
      then pass
      else if ltb skipped offset
      then skip
      else push

  unfoldable pub inference_feed : Tables d → ℕ → ℕ → List (AiRequestRec × Option AiResponseRec)
  inference_feed s limit offset =
      feed_loop s.ai.ai_resp limit offset 0 [] (reverse (nums.iter s.ai.ai_req))

  -- The response of a stored transaction.
  unfoldable pub stored_response : IndexedTx → Option AiResponse
  stored_response itx = do bytes ← from_hex itx.payload; decode_response d.base58 bytes

  unfoldable pub responses_of :
      NumTable d IndexedTx → List (Bytes × (Unit {0})) → List (IndexedTx × AiResponse)
  responses_of tx [] = []
  responses_of tx ((key, _) ∷ l) =
      let rest = responses_of tx l in
      elim (nums.get tx (resp_list_tx_num key)) [
        | none ↦ rest
        | some itx ↦ elim (stored_response itx) [ none ↦ rest | some resp ↦ (itx, resp) ∷ rest ]
      ]

  unfoldable pub inference_by_tx : Tables d → Bytes → Option InferenceDetail
  inference_by_tx s tx_id = do
    seq ← texts.get s.ai.ai_req_by_hash tx_id
    row ← nums.get s.ai.ai_req seq
    let request = dec_request row
    let bounds = resp_list_bounds request.request_hash
    some (record {
      request = request;
      first_response = first_response s.ai.ai_resp request;
      responses =
          responses_of s.ledger.tx
            (between text_key bounds.0 bounds.1 (texts.iter s.ai.ai_resp_list));
    })

  unfoldable pub challenges : Tables d → ℕ → List AiChallengeRec
  challenges s limit = challenges_loop limit [] (reverse (nums.iter s.ai.ai_chal))
