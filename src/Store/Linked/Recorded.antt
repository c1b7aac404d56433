-- ===== src/Store/Linked/Recorded.antt =====
-- The entries that a batch leaves for its transactions: the id, and the outpoints it spends.
use keryx_api_shim.Base.{
  ℕ, ◌≡◌, sym, subst, ◌⊎◌, inl, inr, Bool, true, false, ◌&&◌, not, none, List, [], ◌∷◌, ◌++◌, Bytes,
  is_some, bytes_eq_iff, arith, Bool-cases,
}
use keryx_api_shim.Store.Types.{RawTx, AcceptedGroup}
use keryx_api_shim.Store.Tables.{Deps, LedgerTables, Tables}
use keryx_api_shim.Store.Ledger.{index_tx}
use keryx_api_shim.Store.Ledger.Undo.{spends_key, get-record_spends}
use keryx_api_shim.Store.Apply.{
  Run, apply_tx, apply_txs, apply_new_group, apply_group, apply_groups, start, apply,
}
use keryx_api_shim.Store.Order.Applied.{ledger-save}

-- Whether the transaction spends the outpoint of the key.
unfoldable pub consumes : RawTx → Bytes → Bool
consumes raw key = not raw.is_coinbase && spends_key key raw.inputs

module _ (d : Deps) (prefix : Bytes) where
  open d.db use {nums, texts}

  -- There is an entry for the transaction's id, and for the key if the transaction spends it.
  pub record IsRecorded (raw : RawTx) (key : Bytes) (t : LedgerTables d) : Type 0 where
    pub by_id : is_some (texts.get t.tx_by_id raw.tx_id) ≡ true
    pub by_spend : (consumes raw key ≡ false) ⊎ (is_some (texts.get t.outpoint_spend key) ≡ true)

  module _ (raw : RawTx) (key : Bytes) where
    IsRecorded-index_tx :
        (group : AcceptedGroup) (n : ℕ) (t : LedgerTables d)
        → IsRecorded raw key (index_tx d prefix group raw n t)
    unfolding index_tx consumes
    IsRecorded-index_tx group n t = record {
      by_id = ground (
        arith,
        texts.get-insert t.tx_by_id raw.tx_id n raw.tx_id,
        bytes_eq_iff raw.tx_id raw.tx_id,
      );
      by_spend = elim (Bool-cases (consumes raw key)) [
        | inr e ↦ inl (unfold consumes in e)
        | inl e ↦ inr (ground (arith, e, get-record_spends d n raw.inputs t.outpoint_spend key))
      ];
    }

    IsRecorded-index_other :
        (group : AcceptedGroup) (other : RawTx) (n : ℕ) (t : LedgerTables d)
        → IsRecorded raw key t
        → IsRecorded raw key (index_tx d prefix group other n t)
    unfolding index_tx
    IsRecorded-index_other group other n t h = record {
      by_id = ground (arith, texts.get-insert t.tx_by_id other.tx_id n raw.tx_id, h.by_id);
      by_spend = elim h.by_spend [
        | inl e ↦ inl e
        | inr e ↦ inr (ground (arith, e, get-record_spends d n other.inputs t.outpoint_spend key))
      ];
    }

    IsRecorded-later_txs :
        (group : AcceptedGroup) (txs : List RawTx) (r : Run d)
        → IsRecorded raw key r.ledger
        → IsRecorded raw key (apply_txs d prefix group txs r).0.ledger
    unfolding apply_txs apply_tx
    IsRecorded-later_txs group [] r h = h
    IsRecorded-later_txs group (other ∷ txs) r h =
        IsRecorded-later_txs group txs (apply_tx d prefix group other r)
          (IsRecorded-index_other group other r.next_tx_num r.ledger h)

    IsRecorded-apply_txs :
        (group : AcceptedGroup) (l m : List RawTx) (r : Run d)
        → IsRecorded raw key (apply_txs d prefix group (l ++ raw ∷ m) r).0.ledger
    unfolding apply_txs apply_tx
    IsRecorded-apply_txs group [] m r =
        IsRecorded-later_txs group m (apply_tx d prefix group raw r)
          (IsRecorded-index_tx group r.next_tx_num r.ledger)
    IsRecorded-apply_txs group (x ∷ l) m r =
        IsRecorded-apply_txs group l m (apply_tx d prefix group x r)

    IsRecorded-later_groups :
        (groups : List AcceptedGroup) (r : Run d)
        → IsRecorded raw key r.ledger
        → IsRecorded raw key (apply_groups d prefix groups r).ledger
    unfolding apply_groups apply_group apply_new_group
    IsRecorded-later_groups [] r h = h
    IsRecorded-later_groups (group ∷ groups) r h =
        IsRecorded-later_groups groups (apply_group d prefix group r)
          (elim (Bool-cases (is_some (texts.get r.blocks.applied group.chain_block_hash))) [
            | inl e ↦ rw e h
            | inr e ↦ rw e (IsRecorded-later_txs group group.txs r h)
          ])

    IsRecorded-apply_groups :
        (before after : List AcceptedGroup) (group : AcceptedGroup) (l m : List RawTx) (r : Run d)
        → texts.get (apply_groups d prefix before r).blocks.applied group.chain_block_hash ≡ none
        → group.txs ≡ l ++ raw ∷ m
        → IsRecorded raw key (apply_groups d prefix (before ++ group ∷ after) r).ledger
    unfolding apply_groups apply_group apply_new_group
    IsRecorded-apply_groups [] after group l m r new e =
        IsRecorded-later_groups after (apply_group d prefix group r) (
          rw (new, apply_group)
            (subst
              (λ (txs : List RawTx). IsRecorded raw key (apply_txs d prefix group txs r).0.ledger)
              (sym e) (IsRecorded-apply_txs group l m r)))
    IsRecorded-apply_groups (g ∷ before) after group l m r new e =
        IsRecorded-apply_groups before after group l m (apply_group d prefix g r) new e

    -- A batch has entries for each transaction of a block that was not applied before.
    pub IsRecorded-apply :
        (before after : List AcceptedGroup) (group : AcceptedGroup) (l m : List RawTx)
        (s : Tables d)
        → texts.get
            (apply_groups d prefix before (start d prefix s)).blocks.applied
            group.chain_block_hash
          ≡ none
        → group.txs ≡ l ++ raw ∷ m
        → IsRecorded raw key (apply d prefix (before ++ group ∷ after) s).0.ledger
    unfolding apply
    IsRecorded-apply before after group l m s new e =
        let r = apply_groups d prefix (before ++ group ∷ after) (start d prefix s) in
        rw (ledger-save d prefix r.checkpoint r s)
          (IsRecorded-apply_groups before after group l m (start d prefix s) new e)
