-- ===== src/Store/Unwind/Inverse.antt =====
-- Unwinding a chain block right after it was applied restores the ledger.
use mathlib.Core.List.{reverse-cons}
use keryx_api_shim.Base.{
  ℕ, suc, ◌+◌, ◌-◌, ◌<◌, ◌≡◌, refl, ap, ◌∙◌, Bool, true, false, none, some, List, [], ◌∷◌, ◌++◌,
  map, reverse, Bytes, if◌then◌else◌, length, ascii, arith,
}
use keryx_api_shim.Base.Words.{add64, add64_lem, u64_mod}
use keryx_api_shim.Redb.Laws
use keryx_api_shim.Store.Types.{RawIn, RawTx, AcceptedGroup}
use keryx_api_shim.Store.Keys.{chain_key}
use keryx_api_shim.Store.Tables.{Deps, TextTable, LedgerTables, BlockTables, Tables, meta_or_zero}
use keryx_api_shim.Store.Ledger.{stored_in, build_indexed, compute_ledger, record_spends, index_tx}
use keryx_api_shim.Store.Ledger.Totals.{AllRoom, sub_totals-add_totals}
use keryx_api_shim.Store.Ledger.Undo.{
  spends_key, history_key, remove_spends-record_spends, remove_history-record_history,
}
use keryx_api_shim.Store.Ledger.Addresses.{compute_ledger-Distinct}
use keryx_api_shim.Store.Apply.{Run, apply_tx, apply_txs, record_block, start}
use keryx_api_shim.Store.Unwind.{remove_spends, remove_tx, unwind_txs, remove_block}

module _ (d : Deps) (prefix : Bytes) where
  open d.db use {nums, texts}

  -- None of the rows that a transaction will add is there yet.
  pub record IsFresh (raw : RawTx) (tx_num : ℕ) (t : LedgerTables d) : Type 0 where
    pub num_free : nums.get t.tx tx_num ≡ none
    pub id_free : texts.get t.tx_by_id raw.tx_id ≡ none
    pub spends_free :
        raw.is_coinbase ≡ false
        → (j : Bytes) → spends_key j raw.inputs ≡ true
        → texts.get t.outpoint_spend j ≡ none
    pub history_free :
        (j : Bytes)
        → history_key tx_num j (compute_ledger d t prefix raw) ≡ true
        → texts.get t.addr_history j ≡ none
    pub room : AllRoom d (compute_ledger d t prefix raw) t.addr_totals

  -- Each transaction of the list is fresh when its turn comes.
  abbrev pub AllFresh : AcceptedGroup → List RawTx → Run d → Type 0
  AllFresh group [] r = Unit {0}
  AllFresh group (raw ∷ txs) r =
      IsFresh raw r.next_tx_num r.ledger × AllFresh group txs (apply_tx d prefix group raw r)

  -- A coinbase records no spends, and none are removed for it.
  spends_back :
      (coinbase : Bool) (tx_num : ℕ) (inps : List RawIn) (t : TextTable d ℕ)
      → (coinbase ≡ false → (j : Bytes) → spends_key j inps ≡ true → texts.get t j ≡ none)
      → (let recorded = if coinbase then t else record_spends d tx_num inps t in
          if coinbase then recorded else remove_spends d (map stored_in inps) recorded)
        ≡ t
  spends_back true tx_num inps t h = refl
  spends_back false tx_num inps t h = remove_spends-record_spends d tx_num inps t (h refl)

  module _ (group : AcceptedGroup) where
    -- The removals for a transaction take back exactly what it added, when none of the rows that
    -- it adds was there before, no address that it touches had an empty totals row, and no total
    -- overflows.
    pub remove_tx-index_tx :
        (raw : RawTx) (tx_num : ℕ) (t : LedgerTables d)
        → IsFresh raw tx_num t
        → remove_tx d tx_num
            (build_indexed raw tx_num group (compute_ledger d t prefix raw))
            (index_tx d prefix group raw tx_num t)
          ≡ t
    unfolding remove_tx index_tx build_indexed
    remove_tx-index_tx raw tx_num t h =
        let ledger = compute_ledger d t prefix raw in
        let itx = build_indexed raw tx_num group ledger in
        let tx_eq = Laws.remove-insert nums t.tx tx_num itx h.num_free in
        let id_eq = Laws.remove-insert texts t.tx_by_id raw.tx_id tx_num h.id_free in
        let history_eq =
          remove_history-record_history d raw group tx_num ledger t.addr_history h.history_free in
        let totals_eq =
          sub_totals-add_totals d ledger t.addr_totals (compute_ledger-Distinct d t prefix raw)
            h.room in
        let spends_eq =
          spends_back raw.is_coinbase tx_num raw.inputs t.outpoint_spend h.spends_free in
        λ i. record {
          tx = tx_eq i;
          tx_by_id = id_eq i;
          addr_history = history_eq i;
          addr_totals = totals_eq i;
          outpoint_spend = spends_eq i;
        }

    unwind_txs-append :
        (xs ys : List ℕ) (s : LedgerTables d × ℕ × ℕ)
        → unwind_txs d (xs ++ ys) s ≡ unwind_txs d ys (unwind_txs d xs s)
    unfolding unwind_txs
    unwind_txs-append [] ys s = refl
    unwind_txs-append (x ∷ xs) ys s = unwind_txs-append xs ys _

    -- One round of the unwinding loop, at the transaction applied last.
    unwind_last :
        (raw : RawTx) (r : Run d) (k : ℕ)
        → IsFresh raw r.next_tx_num r.ledger
        → r.total_txs + 1 < u64_mod
        → unwind_txs d
            (r.next_tx_num ∷ [])
            ((apply_tx d prefix group raw r).ledger, (apply_tx d prefix group raw r).total_txs, k)
          ≡ (r.ledger, r.total_txs, k + 1)
    unfolding unwind_txs apply_tx
    unwind_last raw r k h fits =
        let t = r.ledger in
        let itx = build_indexed raw r.next_tx_num group (compute_ledger d t prefix raw) in
        let found : nums.get (index_tx d prefix group raw r.next_tx_num t).tx r.next_tx_num
            ≡ some itx =
          unfold index_tx in Laws.get-insert_self nums t.tx r.next_tx_num itx in
        let count : add64 r.total_txs 1 - 1 ≡ r.total_txs =
          omega (arith, add64_lem r.total_txs 1 fits) in
        rw (found, unwind_txs) (λ i. (remove_tx-index_tx raw r.next_tx_num t h i, count i, k + 1))

    -- The loop over a group's transactions, and the unwinding of them all.
    pub unwind_txs-apply_txs :
        (txs : List RawTx) (r : Run d) (k : ℕ)
        → AllFresh group txs r
        → r.total_txs + length txs < u64_mod
        → unwind_txs d (reverse (apply_txs d prefix group txs r).1) (
          (apply_txs d prefix group txs r).0.ledger,
          (apply_txs d prefix group txs r).0.total_txs,
          k,
        )
          ≡ (r.ledger, r.total_txs, k + length txs)
    unfolding apply_txs
    unwind_txs-apply_txs [] r k h fits = unfold unwind_txs in λ i. (r.ledger, r.total_txs, same i)
      where
        same : k ≡ k + 0
        same = omega arith
    unwind_txs-apply_txs (raw ∷ txs) r k h fits =
        let r1 = apply_tx d prefix group raw r in
        let one : r1.total_txs ≡ r.total_txs + 1 =
          unfold apply_tx in add64_lem r.total_txs 1 (omega arith) in
        let rest = unwind_txs-apply_txs txs r1 k h.1 (omega arith) in
        let nums' = (apply_txs d prefix group txs r1).1 in
        let s = (apply_txs d prefix group txs r1).0 in
        ap (λ l. unwind_txs d l (s.ledger, s.total_txs, k)) (reverse-cons r.next_tx_num nums')
        ∙ unwind_txs-append (reverse nums') (r.next_tx_num ∷ []) (s.ledger, s.total_txs, k)
        ∙ ap (unwind_txs d (r.next_tx_num ∷ [])) rest
        ∙ unwind_last raw r (k + length txs) h.0 (omega arith)
        ∙ (λ i. (r.ledger, r.total_txs, same txs i))
      where
        same : (txs : List RawTx) → k + length txs + 1 ≡ k + suc (length txs)
        same txs = omega arith

  -- The tables of the blocks lose the unwound block's rows, and nothing else.
  pub remove_block-record_block :
      (group : AcceptedGroup) (tx_nums : List ℕ) (b : BlockTables d)
      → texts.get b.applied group.chain_block_hash ≡ none
      → texts.get b.accepted_by group.chain_block_hash ≡ none
      → texts.get b.chain_by_daa (chain_key group.daa_score group.chain_block_hash) ≡ none
      → remove_block d group.chain_block_hash (record_block d prefix group tx_nums b) ≡ b
  unfolding remove_block record_block
  remove_block-record_block group tx_nums b h k c =
      let hash = group.chain_block_hash in
      let key = chain_key group.daa_score hash in
      let daa = Laws.get-insert_self texts b.applied hash group.daa_score in
      rw daa (λ i. record {
        applied = Laws.remove-insert texts b.applied hash group.daa_score h i;
        chain_by_daa = Laws.remove-insert texts b.chain_by_daa key hash c i;
        accepted_by = Laws.remove-insert texts b.accepted_by hash tx_nums k i;
      })

  -- The block can be applied: it is not applied yet, its transactions are fresh, and the counter
  -- has room for them.
  pub record CanApply (group : AcceptedGroup) (s : Tables d) : Type 0 where
    pub not_applied : texts.get s.blocks.applied group.chain_block_hash ≡ none
    pub not_accepted : texts.get s.blocks.accepted_by group.chain_block_hash ≡ none
    pub not_chained :
        texts.get s.blocks.chain_by_daa (chain_key group.daa_score group.chain_block_hash) ≡ none
    pub fresh : AllFresh group group.txs (start d prefix s)
    pub fits : meta_or_zero d s (ascii "total_txs") + length group.txs < u64_mod
