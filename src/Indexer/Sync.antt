-- ===== src/Indexer/Sync.antt =====
-- The writes of a change of the virtual chain: `Ctx`, what `apply_groups` does to the tables and the
-- bookkeeping when `apply` returns, and the loop over the removed blocks. An error of the database
-- is logged and skipped.
pub mod Retention
use keryx_api_shim.Base.{
  ℕ, zero, ◌+◌, ◌-◌, Bool, true, false, ◌&&◌, List, [], ◌∷◌, Bytes, ltb, leb, if◌then◌else◌,
}
use keryx_api_shim.Base.Words.{add64}
use keryx_api_shim.Base.Results.{Result, ok, err, unwrap_or}
use keryx_api_shim.Store.Faults.{WriteFaults, attempt}
use keryx_api_shim.Store.Types.{AcceptedGroup}
use keryx_api_shim.Store.Tables.{Deps, Tables}
use keryx_api_shim.Store.Apply.{apply}
use keryx_api_shim.Store.Expire.{expire_below}
use keryx_api_shim.Store.Unwind.{unwind_chain_block}
use keryx_api_shim.Indexer.Staging.{RpcBlock, RpcAccepted, Staging, stage_block, build_groups}

abbrev pub expire_interval_daa : ℕ
expire_interval_daa = 900

pub record Ctx : Type 0 where
  pub window_daa : ℕ
  pub last_expire_daa : ℕ
  pub total_misses : ℕ

-- The condition of the retention sweep.
unfoldable pub sweep_due : Ctx → ℕ → Bool
sweep_due ctx checkpoint_daa =
    ltb 0 ctx.window_daa
    && ltb ctx.window_daa checkpoint_daa
    && leb (add64 ctx.last_expire_daa expire_interval_daa) checkpoint_daa

module _ (d : Deps) (prefix : Bytes) where
  -- The tables and the bookkeeping after `apply_groups`.
  unfoldable pub sync_groups :
      WriteFaults → List AcceptedGroup → ℕ → Tables d → Ctx → Tables d × Ctx
  sync_groups faults [] misses s ctx = (s, ctx)
  sync_groups faults (group ∷ groups) misses s ctx =
      elim (attempt faults.apply (apply d prefix (group ∷ groups) s)) [
        | err e ↦ (s, ctx)
        | ok r ↦
            let daa = r.1.checkpoint_daa in
            let counted : Ctx = record ctx { total_misses = add64 ctx.total_misses misses } in
            let swept = expire_below d (daa - ctx.window_daa) r.0 in
            if sweep_due counted daa
            then (
              unwrap_or (attempt faults.expire_below swept.0) r.0,
              record counted { last_expire_daa = daa },
            )
            else (r.0, counted)
      ]

  -- The loop over `removed_chain_block_hashes`.
  unfoldable pub unwind_removed : WriteFaults → List Bytes → Tables d → Tables d
  unwind_removed faults [] s = s
  unwind_removed faults (hash ∷ hashes) s =
      let unwound = attempt (faults.unwind_chain_block hash) (unwind_chain_block d hash s).0 in
      unwind_removed faults hashes (unwrap_or unwound s)
