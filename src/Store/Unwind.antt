-- ===== src/Store/Unwind.antt =====
-- `Store::unwind_chain_block` and `Store::set_checkpoint`.
pub mod Inverse
pub mod Reorg
use keryx_api_shim.Base.{
  ℕ, zero, ◌+◌, ◌-◌, Bool, true, false, ◌&&◌, Option, none, some, List, [], ◌∷◌, reverse, Bytes,
  ◌==◌, if◌then◌else◌, ascii,
}
use keryx_api_shim.Store.Types.{StoredIn, LedgerEntry, IndexedTx}
use keryx_api_shim.Store.Keys.{outpoint_key, hist_key, chain_key}
use keryx_api_shim.Store.Tables.{Deps, TextTable, LedgerTables, BlockTables, Tables, meta_or_zero}
use keryx_api_shim.Store.Ledger.{read_totals}

module _ (d : Deps) where
  open d.db use {nums, texts}

  unfoldable pub remove_spends : {V : Type 0} → List StoredIn → TextTable d V → TextTable d V
  remove_spends [] t = t
  remove_spends (inp ∷ inps) t =
      remove_spends inps (texts.remove t (outpoint_key inp.previous_tx_id inp.previous_index))

  unfoldable pub remove_history :
      {V : Type 0} → ℕ → List LedgerEntry → TextTable d V → TextTable d V
  remove_history tx_num [] t = t
  remove_history tx_num (e ∷ es) t =
      remove_history tx_num es (texts.remove t (hist_key e.address tx_num))

  -- `saturating_sub` is `-` on ℕ.
  unfoldable pub sub_total : LedgerEntry → TextTable d (ℕ × ℕ) → TextTable d (ℕ × ℕ)
  sub_total e t =
      let p = read_totals d t e.address in
      let recv = p.0 - e.credit in
      let cnt = p.1 - 1 in
      if recv == 0 && cnt == 0
      then texts.remove t e.address
      else texts.insert t e.address (recv, cnt)

  unfoldable pub sub_totals : List LedgerEntry → TextTable d (ℕ × ℕ) → TextTable d (ℕ × ℕ)
  sub_totals [] t = t
  sub_totals (e ∷ es) t = sub_totals es (sub_total e t)

  -- The removals for one indexed transaction.
  unfoldable pub remove_tx : ℕ → IndexedTx → LedgerTables d → LedgerTables d
  remove_tx tx_num itx t = record {
    tx = nums.remove t.tx tx_num;
    tx_by_id = texts.remove t.tx_by_id itx.tx_id;
    addr_history = remove_history tx_num itx.ledger t.addr_history;
    addr_totals = sub_totals itx.ledger t.addr_totals;
    outpoint_spend =
        if itx.is_coinbase then t.outpoint_spend else remove_spends itx.inputs t.outpoint_spend;
  }

  -- The loop `for tx_num in tx_nums.iter().rev()`, over the reversed list: the tables, the
  -- transaction counter and the number of removed transactions.
  unfoldable pub unwind_txs : List ℕ → LedgerTables d × ℕ × ℕ → LedgerTables d × ℕ × ℕ
  unwind_txs [] s = s
  unwind_txs (tx_num ∷ tx_nums) (t, total_txs, removed) =
      unwind_txs tx_nums (elim (nums.get t.tx tx_num) [
        | none ↦ (t, total_txs, removed)
        | some itx ↦ (remove_tx tx_num itx t, total_txs - 1, removed + 1)
      ])

  unfoldable pub remove_block : Bytes → BlockTables d → BlockTables d
  remove_block hash b = record {
    applied = texts.remove b.applied hash;
    chain_by_daa = elim (texts.get b.applied hash) [
      | none ↦ b.chain_by_daa
      | some daa ↦ texts.remove b.chain_by_daa (chain_key daa hash)
    ];
    accepted_by = texts.remove b.accepted_by hash;
  }

  -- The committed tables and the number of removed transactions.
  unfoldable pub unwind_chain_block : Bytes → Tables d → Tables d × ℕ
  unwind_chain_block hash s = elim (texts.get s.blocks.accepted_by hash) [
    | none ↦ (s, 0)
    | some tx_nums ↦
        let r = unwind_txs (reverse tx_nums) (s.ledger, meta_or_zero d s (ascii "total_txs"), 0) in
        (
          record s {
            ledger = r.0;
            blocks = remove_block hash s.blocks;
            meta = texts.insert s.meta (ascii "total_txs") r.1;
          },
          r.2,
        )
  ]

  unfoldable pub set_checkpoint : Bytes → ℕ → Tables d → Tables d
  set_checkpoint hash daa s = record s {
    meta_str = texts.insert s.meta_str (ascii "checkpoint_hash") hash;
    meta = texts.insert s.meta (ascii "checkpoint_daa") daa;
  }
