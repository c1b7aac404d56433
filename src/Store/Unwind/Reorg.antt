-- ===== src/Store/Unwind/Reorg.antt =====
-- A reorg: a chain block is applied and then removed from the chain.
use keryx_api_shim.Base.{
  ℕ, ◌+◌, ◌≡◌, refl, ap, ◌∙◌, some, List, [], ◌∷◌, reverse, Bytes, or_default, length, ascii, arith,
}
use keryx_api_shim.Redb.Laws
use keryx_api_shim.Store.Types.{AcceptedGroup}
use keryx_api_shim.Store.Tables.{Deps, LedgerTables, BlockTables, Tables, meta_or_zero}
use keryx_api_shim.Store.Apply.{
  Run, apply_txs, record_block, apply_new_group, apply_groups, start, save_counters,
  save_checkpoint, apply,
}
use keryx_api_shim.Store.Apply.Counters.{total_txs-save, blocks-apply_txs, apply_groups_new}
use keryx_api_shim.Store.Unwind.{unwind_txs, remove_block, unwind_chain_block}
use keryx_api_shim.Store.Unwind.Inverse.{CanApply, unwind_txs-apply_txs, remove_block-record_block}

module _ (d : Deps) (prefix : Bytes) where
  open d.db use {texts}

  -- What unwinding a block gives, from the row that lists its transactions.
  unwind_applied :
      (hash : Bytes) (s : Tables d) (tx_nums : List ℕ)
      → texts.get s.blocks.accepted_by hash ≡ some tx_nums
      → unwind_chain_block d hash s ≡ (
          let r =
            unwind_txs d (reverse tx_nums) (s.ledger, meta_or_zero d s (ascii "total_txs"), 0) in
          (
            record s {
              ledger = r.0;
              blocks = remove_block d hash s.blocks;
              meta = texts.insert s.meta (ascii "total_txs") r.1;
            },
            r.2,
          ))
  unfolding unwind_chain_block
  unwind_applied hash s tx_nums h = rw (h, unwind_chain_block)

  -- The counter that the unwinding writes back is the one it reads later.
  total_txs-insert :
      (s : Tables d) (ledger : LedgerTables d) (blocks : BlockTables d) (v : ℕ)
      → meta_or_zero d
          (record s {
            ledger = ledger;
            blocks = blocks;
            meta = texts.insert s.meta (ascii "total_txs") v;
          })
          (ascii "total_txs")
        ≡ v
  unfolding meta_or_zero
  total_txs-insert s ledger blocks v =
      ap (λ o. or_default o 0) (Laws.get-insert_self texts s.meta (ascii "total_txs") v)

  module _ (group : AcceptedGroup) (s : Tables d) (h : CanApply d prefix group s) where
    abbrev hash : Bytes
    hash = group.chain_block_hash

    abbrev run : Run d × List ℕ
    run = apply_txs d prefix group group.txs (start d prefix s)

    abbrev applied : Tables d
    applied = (apply d prefix (group ∷ []) s).0

    applied_run :
        apply_groups d prefix (group ∷ []) (start d prefix s)
        ≡ apply_new_group d prefix group (start d prefix s)
    applied_run = apply_groups_new d prefix group (start d prefix s) (unfold start in h.not_applied)

    ledger-applied : applied.ledger ≡ run.0.ledger
    unfolding apply save_counters save_checkpoint apply_new_group
    ledger-applied = rw applied_run

    blocks-applied : applied.blocks ≡ record_block d prefix group run.1 s.blocks
    unfolding apply save_counters save_checkpoint apply_new_group start
    blocks-applied = rw applied_run (
        ap (record_block d prefix group run.1)
          (blocks-apply_txs d prefix group group.txs (start d prefix s)))

    total-applied : meta_or_zero d applied (ascii "total_txs") ≡ run.0.total_txs
    unfolding apply apply_new_group
    total-applied =
        total_txs-save d prefix (apply_groups d prefix (group ∷ []) (start d prefix s)).checkpoint
          (apply_groups d prefix (group ∷ []) (start d prefix s)) s
        ∙ ap (λ (r : Run d). r.total_txs) applied_run

    listed : texts.get applied.blocks.accepted_by hash ≡ some run.1
    listed =
        ap (λ (b : BlockTables d). texts.get b.accepted_by hash) blocks-applied
        ∙ (unfold record_block in Laws.get-insert_self texts s.blocks.accepted_by hash run.1)

    unwound :
        unwind_txs d (reverse run.1) (applied.ledger, meta_or_zero d applied (ascii "total_txs"), 0)
        ≡ (s.ledger, meta_or_zero d s (ascii "total_txs"), length group.txs)
    unfolding start
    unwound =
        (λ i. unwind_txs d (reverse run.1) (ledger-applied i, total-applied i, 0))
        ∙ unwind_txs-apply_txs d prefix group group.txs (start d prefix s) 0 h.fresh h.fits
        ∙ (λ i. (s.ledger, meta_or_zero d s (ascii "total_txs"), zero_add (length group.txs) i))
      where
        zero_add : (n : ℕ) → 0 + n ≡ n
        zero_add n = omega arith

    -- Removing a chain block that was just applied restores every transaction, history, totals,
    -- spend and block row and the transaction counter, and reports the number of the block's
    -- transactions, when the block was not applied before, none of the rows that it adds was
    -- there, no address that it touches had an empty totals row, and no total or counter
    -- overflows.
    pub unwind_chain_block-apply :
        ((unwind_chain_block d hash applied).0.ledger ≡ s.ledger)
        × ((unwind_chain_block d hash applied).0.blocks ≡ s.blocks)
        × (meta_or_zero d (unwind_chain_block d hash applied).0 (ascii "total_txs")
            ≡ meta_or_zero d s (ascii "total_txs"))
        × ((unwind_chain_block d hash applied).1 ≡ length group.txs)
    unwind_chain_block-apply =
        rw (unwind_applied hash applied run.1 listed, unwound)
          (
            refl,
            ap (remove_block d hash) blocks-applied
                ∙ remove_block-record_block d prefix group run.1 s.blocks h.not_applied
                    h.not_accepted h.not_chained,
            total_txs-insert applied s.ledger (remove_block d hash applied.blocks)
                (meta_or_zero d s (ascii "total_txs")),
            refl,
          )
