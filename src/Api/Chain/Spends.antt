-- ===== src/Api/Chain/Spends.antt =====
-- The form of a transaction before and after it is accepted, and the spend of an outpoint.
use keryx_api_shim.Base.{
  ℕ, ◌≡◌, refl, ap, true, false, none, some, List, [], ◌∷◌, map, Bytes, Option-cases, inl, inr,
}
use keryx_api_shim.Base.Results.{ok}
use keryx_api_shim.Store.Faults.{ReadFaults}
use keryx_api_shim.Api.{query}
use keryx_api_shim.Store.Types.{RawIn, RawTx, AcceptedGroup, LedgerEntry}
use keryx_api_shim.Store.Keys.{outpoint_key}
use keryx_api_shim.Store.Tables.{Deps, Tables}
use keryx_api_shim.Store.Ledger.{build_indexed, compute_ledger, index_tx, stored_in}
use keryx_api_shim.Store.Ledger.Undo.{spends_key}
use keryx_api_shim.Store.Reads.Lookup.{spend_of-index_tx}
use keryx_api_shim.Mempool.{render_input, render_pending, build_snapshot}
use keryx_api_shim.Mempool.Overlay.{last_spender, pending_spend-build_snapshot}
use keryx_api_shim.Api.Chain.{
  mempool, accepted, is_txid, stored_in_json, tx_to_json, open_index, outpoint_spend,
}

stored_inputs :
    (inputs : List RawIn) → map stored_in_json (map stored_in inputs) ≡ map render_input inputs
unfolding stored_in_json stored_in render_input
stored_inputs [] = refl
stored_inputs (i ∷ inputs) = ap (◌∷◌ (render_input i)) (stored_inputs inputs)

-- An indexed transaction is shown as it was when it was pending, with the hash and the score of
-- the accepting block.
pub tx_to_json-build_indexed :
    (raw : RawTx) (tx_num : ℕ) (group : AcceptedGroup) (ledger : List LedgerEntry)
    → tx_to_json (build_indexed raw tx_num group ledger) ≡ record (render_pending raw) {
      block_hash = some group.chain_block_hash;
      daa_score = group.daa_score;
    }
unfolding tx_to_json build_indexed render_pending
tx_to_json-build_indexed raw tx_num group ledger = rw (stored_inputs raw.inputs) refl

module _ (d : Deps) (prefix : Bytes) where
  -- Once a transaction that is no coinbase and spends an outpoint is indexed, the outpoint's spend
  -- is the last of the pending transactions that spend it, as `mempool`, and if there is none the
  -- indexed transaction, as `accepted`, in the form that it had while pending, with the accepting
  -- block; the outpoint's transaction id is 64 hex digits, and the read of the store succeeds.
  pub outpoint_spend-index_tx :
      (faults : ReadFaults) (group : AcceptedGroup) (raw : RawTx) (tx_num : ℕ) (s : Tables d)
      (txs : List RawTx) (txid : Bytes) (index : ℕ)
      → faults.spend_of ≡ none
      → is_txid txid ≡ true
      → raw.is_coinbase ≡ false
      → spends_key (outpoint_key txid index) raw.inputs ≡ true
      → outpoint_spend d faults
          (some (record {
            store = some (record s { ledger = index_tx d prefix group raw tx_num s.ledger });
            mempool = build_snapshot d prefix s txs;
          }))
          txid
          index
        ≡ elim (last_spender (outpoint_key txid index) txs) [
          | some pending ↦ ok (mempool, pending)
          | none ↦ ok (
            accepted,
            record (render_pending raw) {
              block_hash = some group.chain_block_hash;
              daa_score = group.daa_score;
            },
          )
        ]
  unfolding outpoint_spend open_index query
  outpoint_spend-index_tx faults group raw tx_num s txs txid index sound h k e =
      let stored = spend_of-index_tx d prefix group raw tx_num s txid index k e in
      let shown =
        tx_to_json-build_indexed raw tx_num group (compute_ledger d s.ledger prefix raw) in
      rw (h, pending_spend-build_snapshot d prefix s txs txid index)
        (elim (Option-cases (last_spender (outpoint_key txid index) txs)) [
          | inr (r, f) ↦ rw f refl
          | inl f ↦ rw (f, sound, stored, shown) refl
        ])
