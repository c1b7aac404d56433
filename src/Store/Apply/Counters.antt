-- ===== src/Store/Apply/Counters.antt =====
-- What `apply` writes to the `meta` tables, and what it leaves alone.
use keryx_api_shim.Base.{◌≡◌, refl, Option, none, some, List, [], ◌∷◌, Bytes, ascii, bytes_eq}
use keryx_api_shim.Store.Types.{RawTx, AcceptedGroup, Checkpoint}
use keryx_api_shim.Store.Tables.{Deps, Tables, meta_or_zero}
use keryx_api_shim.Store.Apply.{
  Run, apply_tx, apply_txs, apply_new_group, apply_group, apply_groups, save_counters,
  save_checkpoint,
}

module _ (d : Deps) (prefix : Bytes) where
  open d.db use {texts}

  pub total_txs-save :
      (cp : Option Checkpoint) (r : Run d) (s : Tables d)
      → meta_or_zero d
          (save_checkpoint d prefix cp (save_counters d prefix r s))
          (ascii "total_txs")
        ≡ r.total_txs
  unfolding meta_or_zero save_checkpoint save_counters bytes_eq
  total_txs-save none r s = simp texts.get-insert
  total_txs-save (some cp) r s = simp texts.get-insert

  pub next_tx_num-save :
      (cp : Option Checkpoint) (r : Run d) (s : Tables d)
      → meta_or_zero d
          (save_checkpoint d prefix cp (save_counters d prefix r s))
          (ascii "next_tx_num")
        ≡ r.next_tx_num
  unfolding meta_or_zero save_checkpoint save_counters bytes_eq
  next_tx_num-save none r s = simp texts.get-insert
  next_tx_num-save (some cp) r s = simp texts.get-insert

  pub blocks-apply_txs :
      (group : AcceptedGroup) (txs : List RawTx) (r : Run d)
      → (apply_txs d prefix group txs r).0.blocks ≡ r.blocks
  unfolding apply_txs apply_tx
  blocks-apply_txs group [] r = refl
  blocks-apply_txs group (raw ∷ txs) r = blocks-apply_txs group txs (apply_tx d prefix group raw r)

  -- Applying one block that is not applied yet is the round of the loop for a new block.
  pub apply_groups_new :
      (group : AcceptedGroup) (r : Run d)
      → texts.get r.blocks.applied group.chain_block_hash ≡ none
      → apply_groups d prefix (group ∷ []) r ≡ apply_new_group d prefix group r
  unfolding apply_groups apply_group
  apply_groups_new group r h = rw h
