-- ===== src/Store/Linked/Steps.antt =====
-- The ids and the spends across `apply`, `unwind_chain_block` and `expire_below`.
use keryx_api_shim.Base.{
  ℕ, ◌+◌, ◌-◌, ◌<◌, ◌≤◌, ◌≡◌, refl, sym, ◌∙◌, true, some, List, [], ◌∷◌, reverse, Bytes, ascii,
  length, is_some, leb, ==_iff, Bool-cases, Option-cases, inl, inr, arith,
}
use keryx_api_shim.Base.Words.{u64_mod}
use keryx_api_shim.Redb.Defs.{num_key, lookup, ascending}
use keryx_api_shim.Store.Types.{IndexedTx, RawTx, AcceptedGroup}
use keryx_api_shim.Store.Tables.{Deps, NumTable, LedgerTables, Tables, meta_or_zero}
use keryx_api_shim.Store.Ledger.{index_tx, build_indexed, compute_ledger}
use keryx_api_shim.Store.Apply.{
  Run, apply_tx, apply_txs, apply_new_group, apply_group, apply_groups, start, apply,
}
use keryx_api_shim.Store.Apply.Counters.{next_tx_num-save}
use keryx_api_shim.Store.Unwind.{unwind_txs, remove_tx, unwind_chain_block}
use keryx_api_shim.Store.Expire.{expire_tx, expire_txs, expired_txs, expire_below}
use keryx_api_shim.Store.Order.{lt_of_lookup}
use keryx_api_shim.Store.Order.Applied.{
  tx_count, next_num, next_tx_num-apply_tx, next_tx_num-apply_txs, ledger-save,
  next_tx_num-insert_total,
}
use keryx_api_shim.Store.Linked.{IsLinked, insert-IsLinked, remove-IsLinked}

-- The links of the ledger's tables.
abbrev pub LedgerLinked : (d : Deps) → ℕ → LedgerTables d → Type 0
LedgerLinked d next t = IsLinked d next t.tx t.tx_by_id t.outpoint_spend

abbrev pub TablesLinked : (d : Deps) → Tables d → Type 0
TablesLinked d s = LedgerLinked d (meta_or_zero d s (ascii "next_tx_num")) s.ledger

module _ (d : Deps) (prefix : Bytes) where
  open d.db use {nums, texts}

  abbrev RunLinked : Run d → Type 0
  RunLinked r = LedgerLinked d r.next_tx_num r.ledger

  apply_tx-RunLinked :
      (group : AcceptedGroup) (raw : RawTx) (r : Run d)
      → RunLinked r
      → r.next_tx_num + 1 < u64_mod
      → RunLinked (apply_tx d prefix group raw r)
  unfolding apply_tx index_tx build_indexed
  apply_tx-RunLinked group raw r h room = rw (next_num r.next_tx_num room) (
      insert-IsLinked d r.next_tx_num r.ledger.tx r.ledger.tx_by_id r.ledger.outpoint_spend h
        (build_indexed raw r.next_tx_num group (compute_ledger d r.ledger prefix raw)) raw.inputs
        refl)

  apply_txs-RunLinked :
      (group : AcceptedGroup) (txs : List RawTx) (r : Run d)
      → RunLinked r
      → r.next_tx_num + length txs < u64_mod
      → RunLinked (apply_txs d prefix group txs r).0
  unfolding apply_txs
  apply_txs-RunLinked group [] r h room = h
  apply_txs-RunLinked group (raw ∷ txs) r h room =
      apply_txs-RunLinked group txs (apply_tx d prefix group raw r)
        (apply_tx-RunLinked group raw r h (omega arith))
        (omega (arith, next_tx_num-apply_tx d prefix group raw r))

  apply_group-RunLinked :
      (group : AcceptedGroup) (r : Run d)
      → RunLinked r
      → r.next_tx_num + length group.txs < u64_mod
      → RunLinked (apply_group d prefix group r)
        × ((apply_group d prefix group r).next_tx_num ≤ r.next_tx_num + length group.txs)
  unfolding apply_group apply_new_group
  apply_group-RunLinked group r h room =
      elim (Bool-cases (is_some (texts.get r.blocks.applied group.chain_block_hash))) [
        | inl e ↦ rw e (h, omega arith)
        | inr e ↦ rw e (
          apply_txs-RunLinked group group.txs r h room,
          omega (arith, next_tx_num-apply_txs d prefix group group.txs r room),
        )
      ]

  apply_groups-RunLinked :
      (groups : List AcceptedGroup) (r : Run d)
      → RunLinked r
      → r.next_tx_num + tx_count groups < u64_mod
      → RunLinked (apply_groups d prefix groups r)
  unfolding apply_groups tx_count
  apply_groups-RunLinked [] r h room = h
  apply_groups-RunLinked (group ∷ groups) r h room =
      let step = apply_group-RunLinked group r h (omega arith) in
      apply_groups-RunLinked groups (apply_group d prefix group r) step.0 (omega (arith, step.1))

  pub apply-TablesLinked :
      (groups : List AcceptedGroup) (s : Tables d)
      → TablesLinked d s
      → meta_or_zero d s (ascii "next_tx_num") + tx_count groups < u64_mod
      → TablesLinked d (apply d prefix groups s).0
  unfolding apply
  apply-TablesLinked groups s h room =
      let r = apply_groups d prefix groups (start d prefix s) in
      let run : LedgerLinked d r.next_tx_num r.ledger =
        apply_groups-RunLinked groups (start d prefix s) (unfold start in h)
          (unfold start in room) in
      rw (next_tx_num-save d prefix r.checkpoint r s, ledger-save d prefix r.checkpoint r s) run

module _ (d : Deps) where
  open d.db use {nums, texts}

  unwind_txs-LedgerLinked :
      (next : ℕ) (tx_nums : List ℕ) (t : LedgerTables d) (total removed : ℕ)
      → LedgerLinked d next t
      → LedgerLinked d next (unwind_txs d tx_nums (t, total, removed)).0
  unfolding unwind_txs remove_tx
  unwind_txs-LedgerLinked next [] t total removed h = h
  unwind_txs-LedgerLinked next (n ∷ tx_nums) t total removed h =
      elim (Option-cases (nums.get t.tx n)) [
        | inl e ↦ rw (e, unwind_txs) (unwind_txs-LedgerLinked next tx_nums t total removed h)
        | inr (itx, e) ↦
            rw (e, unwind_txs)
              (unwind_txs-LedgerLinked next tx_nums (remove_tx d n itx t) (total - 1) (removed + 1)
                (remove-IsLinked d next t.tx t.tx_by_id t.outpoint_spend h n itx e))
      ]

  pub unwind_chain_block-TablesLinked :
      (hash : Bytes) (s : Tables d)
      → TablesLinked d s
      → TablesLinked d (unwind_chain_block d hash s).0
  unfolding unwind_chain_block
  unwind_chain_block-TablesLinked hash s h =
      elim (Option-cases (texts.get s.blocks.accepted_by hash)) [
        | inl e ↦ rw (e, unwind_chain_block) h
        | inr (tx_nums, e) ↦
            let total = meta_or_zero d s (ascii "total_txs") in
            let next = meta_or_zero d s (ascii "next_tx_num") in
            let r = unwind_txs d (reverse tx_nums) (s.ledger, total, 0) in
            let kept : LedgerLinked d next r.0 =
              unwind_txs-LedgerLinked next (reverse tx_nums) s.ledger total 0 h in
            rw (e, unwind_chain_block)
              (unfold meta_or_zero in rw (next_tx_num-insert_total d s r.1) kept)
      ]

  -- The rows of a list are stored, each once those before it are removed.
  abbrev Present : List (ℕ × IndexedTx) → NumTable d IndexedTx → Type 0
  Present [] tx = Unit
  Present ((k, itx) ∷ l) tx = (nums.get tx k ≡ some itx) × Present l (nums.remove tx k)

  expired_txs-Present :
      (cutoff : ℕ) (l : List (ℕ × IndexedTx)) (tx : NumTable d IndexedTx)
      → ascending num_key l ≡ true
      → ((n : ℕ) (r : IndexedTx) → lookup num_key n l ≡ some r → nums.get tx n ≡ some r)
      → Present (expired_txs cutoff l) tx
  unfolding expired_txs ascending lookup
  expired_txs-Present cutoff [] tx a h = tt
  expired_txs-Present cutoff ((k, itx) ∷ l) tx a h =
      elim (Bool-cases (leb cutoff itx.accepting_daa)) [
        | inl e ↦ rw (e, expired_txs) tt
        | inr e ↦
            rw (e, expired_txs)
              (
                ground (arith, h k itx, ==_iff k k),
                expired_txs-Present cutoff l (nums.remove tx k) (ground arith) (λ n r f.
                    ground
                      (arith, lt_of_lookup k n l r, h n r, nums.get-remove tx k n, ==_iff k n)),
              )
      ]

  expire_txs-LedgerLinked :
      (next : ℕ) (l : List (ℕ × IndexedTx)) (t : LedgerTables d)
      → Present l t.tx
      → LedgerLinked d next t
      → LedgerLinked d next (expire_txs d l t)
  unfolding expire_txs expire_tx
  expire_txs-LedgerLinked next [] t p h = h
  expire_txs-LedgerLinked next ((k, itx) ∷ l) t p h =
      expire_txs-LedgerLinked next l (expire_tx d k itx t) p.1
        (remove-IsLinked d next t.tx t.tx_by_id t.outpoint_spend h k itx p.0)

  pub expire_below-TablesLinked :
      (cutoff : ℕ) (s : Tables d) → TablesLinked d s → TablesLinked d (expire_below d cutoff s).0
  unfolding expire_below meta_or_zero
  expire_below-TablesLinked cutoff s h =
      expire_txs-LedgerLinked (meta_or_zero d s (ascii "next_tx_num"))
        (expired_txs cutoff (nums.iter s.ledger.tx)) s.ledger
        (expired_txs-Present cutoff (nums.iter s.ledger.tx) s.ledger.tx
          (nums.iter_ascending s.ledger.tx) (λ n r e. sym (nums.lookup-iter s.ledger.tx n) ∙ e))
        h
