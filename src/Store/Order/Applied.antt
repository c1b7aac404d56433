-- ===== src/Store/Order/Applied.antt =====
-- The order of the transaction table across `apply`, `unwind_chain_block` and `expire_below`.
use keryx_api_shim.Base.{
  ℕ, suc, ◌+◌, ◌<◌, ◌≤◌, ◌≡◌, refl, Bool, true, Option, none, some, List, [], ◌∷◌, reverse, Bytes,
  ascii, bytes_eq, length, is_some, Bool-cases, Option-cases, inl, inr, arith, or_default, leb,
  ◌&&◌, ◌-◌,
}
use keryx_api_shim.Base.Words.{add64, add64_lem, u64_mod}
use keryx_api_shim.Store.Types.{IndexedTx, RawTx, AcceptedGroup, Checkpoint}
use keryx_api_shim.Store.Tables.{Deps, LedgerTables, Tables, meta_or_zero}
use keryx_api_shim.Store.Ledger.{index_tx, build_indexed, compute_ledger}
use keryx_api_shim.Store.Apply.{
  Run, apply_tx, apply_txs, apply_new_group, apply_group, apply_groups, start, save_counters,
  save_checkpoint, apply,
}
use keryx_api_shim.Store.Apply.Counters.{next_tx_num-save}
use keryx_api_shim.Store.Unwind.{unwind_txs, remove_tx, unwind_chain_block}
use keryx_api_shim.Store.Expire.{expire_tx, expire_txs, expired_txs, expire_below}
use keryx_api_shim.Store.Order.{IsOrdered, IsOrdered-raise, insert-IsOrdered, remove-IsOrdered}

-- The accepting scores of the groups start at `low` or above and never go down.
unfoldable pub groups_rise : ℕ → List AcceptedGroup → Bool
groups_rise low [] = true
groups_rise low (group ∷ groups) = leb low group.daa_score && groups_rise group.daa_score groups

-- The score of the last group, or `top` where there is none.
unfoldable pub last_score : ℕ → List AcceptedGroup → ℕ
last_score top [] = top
last_score top (group ∷ groups) = last_score group.daa_score groups

unfoldable pub tx_count : List AcceptedGroup → ℕ
tx_count [] = 0
tx_count (group ∷ groups) = length group.txs + tx_count groups

pub next_num : (n : ℕ) → n + 1 < u64_mod → add64 n 1 ≡ suc n
next_num n room = omega (arith, add64_lem n 1 room)

module _ (d : Deps) (prefix : Bytes) where
  open d.db use {nums, texts}

  abbrev RunOrdered : ℕ → Run d → Type 0
  RunOrdered top r = IsOrdered d top r.next_tx_num r.ledger.tx

  apply_tx-IsOrdered :
      (top : ℕ) (group : AcceptedGroup) (raw : RawTx) (r : Run d)
      → RunOrdered top r
      → top ≤ group.daa_score
      → r.next_tx_num + 1 < u64_mod
      → RunOrdered group.daa_score (apply_tx d prefix group raw r)
  unfolding apply_tx index_tx build_indexed
  apply_tx-IsOrdered top group raw r o h room = rw (next_num r.next_tx_num room) (
      insert-IsOrdered d top r.next_tx_num r.ledger.tx
        (build_indexed raw r.next_tx_num group (compute_ledger d r.ledger prefix raw)) o h)

  pub next_tx_num-apply_tx :
      (group : AcceptedGroup) (raw : RawTx) (r : Run d)
      → r.next_tx_num + 1 < u64_mod
      → (apply_tx d prefix group raw r).next_tx_num ≡ suc r.next_tx_num
  unfolding apply_tx
  next_tx_num-apply_tx group raw r room = next_num r.next_tx_num room

  pub next_tx_num-apply_txs :
      (group : AcceptedGroup) (txs : List RawTx) (r : Run d)
      → r.next_tx_num + length txs < u64_mod
      → (apply_txs d prefix group txs r).0.next_tx_num ≡ r.next_tx_num + length txs
  unfolding apply_txs
  next_tx_num-apply_txs group [] r room = omega arith
  next_tx_num-apply_txs group (raw ∷ txs) r room =
      let e = next_tx_num-apply_tx group raw r (omega arith) in
      omega (
        arith,
        e,
        next_tx_num-apply_txs group txs (apply_tx d prefix group raw r) (omega (arith, e)),
      )

  apply_txs-IsOrdered :
      (top : ℕ) (group : AcceptedGroup) (txs : List RawTx) (r : Run d)
      → RunOrdered top r
      → top ≤ group.daa_score
      → r.next_tx_num + length txs < u64_mod
      → RunOrdered group.daa_score (apply_txs d prefix group txs r).0
  unfolding apply_txs
  apply_txs-IsOrdered top group [] r o h room =
      IsOrdered-raise d top r.next_tx_num group.daa_score r.ledger.tx o h
  apply_txs-IsOrdered top group (raw ∷ txs) r o h room =
      apply_txs-IsOrdered group.daa_score group txs (apply_tx d prefix group raw r)
        (apply_tx-IsOrdered top group raw r o h (omega arith)) (omega arith)
        (omega (arith, next_tx_num-apply_tx group raw r))

  apply_group-IsOrdered :
      (top : ℕ) (group : AcceptedGroup) (r : Run d)
      → RunOrdered top r
      → top ≤ group.daa_score
      → r.next_tx_num + length group.txs < u64_mod
      → RunOrdered group.daa_score (apply_group d prefix group r)
        × ((apply_group d prefix group r).next_tx_num ≤ r.next_tx_num + length group.txs)
  unfolding apply_group apply_new_group
  apply_group-IsOrdered top group r o h room =
      elim (Bool-cases (is_some (texts.get r.blocks.applied group.chain_block_hash))) [
        | inl e ↦
            rw e (IsOrdered-raise d top r.next_tx_num group.daa_score r.ledger.tx o h, omega arith)
        | inr e ↦ rw e (
          apply_txs-IsOrdered top group group.txs r o h room,
          omega (arith, next_tx_num-apply_txs group group.txs r room),
        )
      ]

  apply_groups-IsOrdered :
      (top : ℕ) (groups : List AcceptedGroup) (r : Run d)
      → RunOrdered top r
      → groups_rise top groups ≡ true
      → r.next_tx_num + tx_count groups < u64_mod
      → RunOrdered (last_score top groups) (apply_groups d prefix groups r)
  unfolding apply_groups groups_rise last_score tx_count
  apply_groups-IsOrdered top [] r o h room = o
  apply_groups-IsOrdered top (group ∷ groups) r o h room =
      let step = apply_group-IsOrdered top group r o (ground arith) (omega arith) in
      apply_groups-IsOrdered group.daa_score groups (apply_group d prefix group r) step.0
        (ground arith) (omega (arith, step.1))

  pub ledger-save :
      (cp : Option Checkpoint) (r : Run d) (s : Tables d)
      → (save_checkpoint d prefix cp (save_counters d prefix r s)).ledger ≡ r.ledger
  unfolding save_checkpoint save_counters
  ledger-save none r s = refl
  ledger-save (some cp) r s = refl

-- The order of the tables of a store, with the next number from the `meta` table.
abbrev pub InOrder : (d : Deps) → ℕ → Tables d → Type 0
InOrder d top s = IsOrdered d top (meta_or_zero d s (ascii "next_tx_num")) s.ledger.tx

module _ (d : Deps) (prefix : Bytes) where
  pub apply-InOrder :
      (top : ℕ) (groups : List AcceptedGroup) (s : Tables d)
      → InOrder d top s
      → groups_rise top groups ≡ true
      → meta_or_zero d s (ascii "next_tx_num") + tx_count groups < u64_mod
      → InOrder d (last_score top groups) (apply d prefix groups s).0
  unfolding apply
  apply-InOrder top groups s o h room =
      let r = apply_groups d prefix groups (start d prefix s) in
      let run : IsOrdered d (last_score top groups) r.next_tx_num r.ledger.tx =
        apply_groups-IsOrdered d prefix top groups (start d prefix s) (unfold start in o) h
          (unfold start in room) in
      rw (next_tx_num-save d prefix r.checkpoint r s, ledger-save d prefix r.checkpoint r s) run

module _ (d : Deps) where
  open d.db use {nums, texts}

  unwind_txs-IsOrdered :
      (top next : ℕ) (tx_nums : List ℕ) (t : LedgerTables d) (total removed : ℕ)
      → IsOrdered d top next t.tx
      → IsOrdered d top next (unwind_txs d tx_nums (t, total, removed)).0.tx
  unfolding unwind_txs remove_tx
  unwind_txs-IsOrdered top next [] t total removed o = o
  unwind_txs-IsOrdered top next (n ∷ tx_nums) t total removed o =
      elim (Option-cases (nums.get t.tx n)) [
        | inl e ↦ rw (e, unwind_txs) (unwind_txs-IsOrdered top next tx_nums t total removed o)
        | inr (itx, e) ↦
            rw (e, unwind_txs)
              (unwind_txs-IsOrdered top next tx_nums (remove_tx d n itx t) (total - 1) (removed + 1)
                (remove-IsOrdered d top next n t.tx o))
      ]

  pub next_tx_num-insert_total :
      (s : Tables d) (v : ℕ)
      → or_default (texts.get (texts.insert s.meta (ascii "total_txs") v) (ascii "next_tx_num")) 0
        ≡ meta_or_zero d s (ascii "next_tx_num")
  unfolding meta_or_zero bytes_eq
  next_tx_num-insert_total s v = simp texts.get-insert

  pub unwind_chain_block-InOrder :
      (top : ℕ) (hash : Bytes) (s : Tables d)
      → InOrder d top s
      → InOrder d top (unwind_chain_block d hash s).0
  unfolding unwind_chain_block
  unwind_chain_block-InOrder top hash s o =
      elim (Option-cases (texts.get s.blocks.accepted_by hash)) [
        | inl e ↦ rw (e, unwind_chain_block) o
        | inr (tx_nums, e) ↦
            let total = meta_or_zero d s (ascii "total_txs") in
            let next = meta_or_zero d s (ascii "next_tx_num") in
            let r = unwind_txs d (reverse tx_nums) (s.ledger, total, 0) in
            let kept : IsOrdered d top next r.0.tx =
              unwind_txs-IsOrdered top next (reverse tx_nums) s.ledger total 0 o in
            rw (e, unwind_chain_block)
              (unfold meta_or_zero in rw (next_tx_num-insert_total s r.1) kept)
      ]

  expire_txs-IsOrdered :
      (top next : ℕ) (l : List (ℕ × IndexedTx)) (t : LedgerTables d)
      → IsOrdered d top next t.tx
      → IsOrdered d top next (expire_txs d l t).tx
  unfolding expire_txs expire_tx
  expire_txs-IsOrdered top next [] t o = o
  expire_txs-IsOrdered top next ((k, itx) ∷ l) t o =
      expire_txs-IsOrdered top next l (expire_tx d k itx t) (remove-IsOrdered d top next k t.tx o)

  pub expire_below-InOrder :
      (top cutoff : ℕ) (s : Tables d) → InOrder d top s → InOrder d top (expire_below d cutoff s).0
  unfolding expire_below meta_or_zero
  expire_below-InOrder top cutoff s o =
      expire_txs-IsOrdered top (meta_or_zero d s (ascii "next_tx_num"))
        (expired_txs cutoff (nums.iter s.ledger.tx)) s.ledger o
