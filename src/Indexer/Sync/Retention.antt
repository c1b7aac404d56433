-- ===== src/Indexer/Sync/Retention.antt =====
-- What the retention sweep after a batch leaves.
use keryx_api_shim.Base.{
  ℕ, ◌+◌, ◌-◌, ◌<◌, ◌≤◌, ascii, ◌≡◌, ap, ◌∙◌, true, none, some, List, ◌∷◌, Bytes, arith, Bool-cases,
  Option-cases, inl, inr,
}
use keryx_api_shim.Base.Words.{add64, u64_mod}
use keryx_api_shim.Store.Types.{AcceptedGroup, IndexedTx}
use keryx_api_shim.Store.Tables.{Deps, Tables, meta_or_zero}
use keryx_api_shim.Store.Apply.{apply}
use keryx_api_shim.Store.Faults.{WriteFaults}
use keryx_api_shim.Store.Expire.Window.{daa_from, kept, expire_below_exact}
use keryx_api_shim.Store.Order.{IsOrdered-daa_from}
use keryx_api_shim.Store.Order.Applied.{groups_rise, last_score, tx_count}
use keryx_api_shim.Store.Order.Reached.{History, applied, History-InOrder}
use keryx_api_shim.Indexer.Sync.{Ctx, sweep_due, sync_groups}

module _ (d : Deps) (prefix : Bytes) where
  open d.db use {nums}

  kept_in_window :
      (checkpoint window : ℕ) (itx : IndexedTx)
      → checkpoint ≤ itx.accepting_daa + window
      → kept (checkpoint - window) (some itx) ≡ some itx
  unfolding kept
  kept_in_window checkpoint window itx h = ground arith

  -- A transaction that is stored once a batch is applied, and whose accepting score is no more
  -- than the window below the batch's checkpoint, survives the sweep that may follow, when the
  -- database does not fail to apply the batch and the stored transactions stand in the order of
  -- their scores.
  pub sync_groups_keeps_window :
      (faults : WriteFaults) (group : AcceptedGroup) (groups : List AcceptedGroup) (misses : ℕ)
      (s : Tables d) (ctx : Ctx) (n : ℕ) (itx : IndexedTx)
      → faults.apply ≡ none
      → daa_from 0 (nums.iter (apply d prefix (group ∷ groups) s).0.ledger.tx) ≡ true
      → nums.get (apply d prefix (group ∷ groups) s).0.ledger.tx n ≡ some itx
      → (apply d prefix (group ∷ groups) s).1.checkpoint_daa ≤ itx.accepting_daa + ctx.window_daa
      → nums.get (sync_groups d prefix faults (group ∷ groups) misses s ctx).0.ledger.tx n
        ≡ some itx
  unfolding sync_groups
  sync_groups_keeps_window faults group groups misses s ctx n itx sound rising found young =
      let r = apply d prefix (group ∷ groups) s in
      let daa = r.1.checkpoint_daa in
      let counted : Ctx = record ctx { total_misses = add64 ctx.total_misses misses } in
      elim (Bool-cases (sweep_due counted daa)) [
        | inl e ↦ elim (Option-cases faults.expire_below) [
          | inl f ↦
              rw (sound, e, f, sync_groups)
                (expire_below_exact d (daa - ctx.window_daa) r.0 n rising
                  ∙ ap (kept (daa - ctx.window_daa)) found
                  ∙ kept_in_window daa ctx.window_daa itx young)
          | inr (x, f) ↦ rw (sound, e, f, sync_groups) found
        ]
        | inr e ↦ rw (sound, e, sync_groups) found
      ]

  -- In every store that a history of writes leads to (restarts, batches with rising scores, blocks
  -- unwound, checkpoints and sweeps, from a new file on), a transaction that is stored once a
  -- further batch is applied survives the sweep that may follow, whether or not the sweep
  -- succeeds, if its accepting score is no more than the window below the batch's checkpoint. The
  -- batch's scores go on rising, the transaction counter has room for it, and the database does
  -- not fail to apply it.
  pub sync_groups_keeps_reached :
      {top : ℕ} {s : Tables d} (faults : WriteFaults) (group : AcceptedGroup)
      (groups : List AcceptedGroup) (misses : ℕ) (ctx : Ctx) (n : ℕ) (itx : IndexedTx)
      → faults.apply ≡ none
      → History d prefix top s
      → groups_rise top (group ∷ groups) ≡ true
      → meta_or_zero d s (ascii "next_tx_num") + tx_count (group ∷ groups) < u64_mod
      → nums.get (apply d prefix (group ∷ groups) s).0.ledger.tx n ≡ some itx
      → (apply d prefix (group ∷ groups) s).1.checkpoint_daa ≤ itx.accepting_daa + ctx.window_daa
      → nums.get (sync_groups d prefix faults (group ∷ groups) misses s ctx).0.ledger.tx n
        ≡ some itx
  sync_groups_keeps_reached {top} {s} faults group groups misses ctx n itx sound h rise room =
      let after = (apply d prefix (group ∷ groups) s).0 in
      let o = History-InOrder d prefix (applied (group ∷ groups) rise room h) in
      sync_groups_keeps_window faults group groups misses s ctx n itx sound (
        IsOrdered-daa_from d (last_score top (group ∷ groups))
          (meta_or_zero d after (ascii "next_tx_num")) after.ledger.tx o)
