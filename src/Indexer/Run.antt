-- ===== src/Indexer/Run.antt =====
-- The loop of the indexer: `run` of `src/indexer/mod.rs`, with `open_store`, `backfill`, the
-- status that `/health` shows, and the poller of `src/indexer/mempool.rs`. What the
-- node answers to the calls of a step is given with the step.
pub mod States
pub mod Resume
use keryx_api_shim.Base.{
  ℕ, zero, Bool, true, false, Option, none, some, List, [], ◌∷◌, map, Bytes, ◌==◌, if◌then◌else◌,
  length, or_default, ascii, is_some, not, ◌&&◌, min, ◌*◌, ◌-◌, ◌>>=◌,
}
use mathlib.Core.Option
use keryx_api_shim.Base.Words.{u64_mod}
use keryx_api_shim.Base.Results.{Result, ok, err, unwrap_or}
use keryx_api_shim.Address.{prefix_for_network}
use keryx_api_shim.Store.Types.{AcceptedGroup, RawTx}
use keryx_api_shim.Store.Tables.{Deps, Tables, Store, open_store}
use keryx_api_shim.Store.Apply.{apply}
use keryx_api_shim.Store.Panics.{apply_panics}
use keryx_api_shim.Store.Faults.{WriteFaults, attempt, ok_flatten}
use keryx_api_shim.Store.Reads.{checkpoint, window_low_daa, chain_blocks}
use keryx_api_shim.Mempool.{Snapshot, build_snapshot}
use keryx_api_shim.Node.{NodeError}
use keryx_api_shim.Indexer.Status.{IndexerState, connecting, backfilling, live, IndexerStatus}
use keryx_api_shim.Indexer.Answers.{VirtualChain, Answers, resolve_daa, subscribe, store_prefix}
use keryx_api_shim.Indexer.Staging.{
  RpcBlock, RpcAccepted, RpcTransaction, Staging, new_staging, stage_block, staged_blocks,
  build_groups, raw_from_proto,
}
use keryx_api_shim.Indexer.Sync.{Ctx, sync_groups, unwind_removed}

abbrev pub daa_per_day : ℕ
daa_per_day = 864000

-- `staging.stage_block` for each block.
unfoldable pub stage_all : List RpcBlock → Staging → Staging
stage_all [] s = s
stage_all (b ∷ blocks) s = stage_all blocks (stage_block b s)

-- What the loop keeps. `poller` is the prefix with which the poller was started, and `alive` is
-- false once a panic ended the task.
pub record Indexer (d : Deps) : Type 0 where
  pub store : Option (Store d)
  pub staging : Staging
  pub ctx : Ctx
  pub status : IndexerStatus
  pub poller : Option Bytes
  pub alive : Bool

pub data Step : Type 0 where
  connected : ℕ → Answers → WriteFaults → Step
  block_added : RpcBlock → Step
  virtual_chain_changed : List Bytes → List RpcAccepted → Answers → WriteFaults → Step

-- `spawn`: the status and the bookkeeping at the start; `saturating_mul`.
unfoldable pub spawn : (d : Deps) → ℕ → Indexer d
spawn d window_days = record {
  store = none;
  staging = new_staging;
  ctx = record {
    window_daa = min (window_days * daa_per_day) (u64_mod - 1);
    last_expire_daa = 0;
    total_misses = 0;
  };
  status = record {
    state = connecting;
    window_days = window_days;
    checkpoint_daa = none;
    window_low_daa = none;
    total_txs = 0;
    chain_blocks = 0;
    resolve_misses = 0;
    staged_blocks = 0;
    generation = 0;
  };
  poller = none;
  alive = true;
}

-- `open_file` gives the tables that the data directory holds, for a network prefix. A start
-- without polling (`poll_ms` = 0) has no poller.
module _ (d : Deps) (open_file : Bytes → Result Bytes (Tables d)) (poll_ms : ℕ) where
  unfoldable pub set_state : IndexerState → Indexer d → Indexer d
  set_state state x = record x { status = record x.status { state = state } }

  -- `edit` at the end of `apply_groups`.
  unfoldable pub report : WriteFaults → ℕ → Tables d → Ctx → IndexerStatus → IndexerStatus
  report faults txs s ctx status = record status {
    checkpoint_daa =
        Option.map (λ c. c.daa_score) (ok_flatten (attempt faults.checkpoint (checkpoint d s)));
    window_low_daa = ok_flatten (attempt faults.window_low_daa (window_low_daa d s));
    total_txs = txs;
    chain_blocks = unwrap_or (attempt faults.chain_blocks (chain_blocks d s)) 0;
    resolve_misses = ctx.total_misses;
    staged_blocks = 0;
  }

  -- The `apply` of a batch panics, if the database does not fail it before.
  unfoldable pub batch_panics : WriteFaults → List AcceptedGroup → Store d → Bool
  batch_panics faults groups store =
      not (is_some faults.apply) && apply_panics d store.prefix groups store.tables

  unfoldable pub apply_groups :
      WriteFaults → List AcceptedGroup → ℕ → Store d → Indexer d → Indexer d
  apply_groups faults [] misses store x = record x { store = some store }
  apply_groups faults (g ∷ groups) misses store x =
      let synced = sync_groups d store.prefix faults (g ∷ groups) misses store.tables x.ctx in
      let stats = attempt faults.apply (apply d store.prefix (g ∷ groups) store.tables).1 in
      if batch_panics faults (g ∷ groups) store
      then record x { store = some store; alive = false }
      else record x {
        store = some (record store { tables = synced.0 });
        ctx = synced.1;
        status = elim stats [
          | err e ↦ x.status
          | ok stats ↦ report faults stats.total_txs synced.0 synced.1 x.status
        ];
      }

  -- `open_store` and what follows when it succeeds.
  unfoldable pub open_index : Answers → Indexer d → Option (Store d) × Indexer d
  open_index node x = elim x.store [
    | some store ↦ (some store, x)
    | none ↦
        let prefix = store_prefix node in
        elim (open_file prefix) [
          | err e ↦ (none, x)
          | ok tables ↦
              let store = open_store d tables prefix in
              (
                some store,
                record x {
                  store = some store;
                  poller = if poll_ms == 0 then none else some prefix;
                },
              )
        ]
  ]

  -- The hash that the backfill starts from.
  unfoldable pub backfill_start : WriteFaults → Answers → Store d → Result NodeError Bytes
  backfill_start faults node store =
      elim (ok_flatten (attempt faults.checkpoint (checkpoint d store.tables))) [
        | some cp ↦ ok cp.chain_block_hash
        | none ↦ node.sink
      ]

  -- The staging of the blocks from the lowest added one on.
  unfoldable pub stage_gap : Answers → List Bytes → Staging → Staging
  stage_gap node [] s = s
  stage_gap node (low ∷ hashes) s = elim (node.get_blocks low) [
    | err e ↦ s
    | ok blocks ↦ stage_all blocks s
  ]

  -- An error is logged by the caller, and the loop goes on.
  unfoldable pub backfill : WriteFaults → Answers → Store d → Indexer d → Indexer d
  backfill faults node store x = elim (backfill_start faults node store) [
    | err e ↦ x
    | ok start ↦
        let vc = node.get_virtual_chain start in
        if length start == 0 then x else elim vc [
          | err e ↦ x
          | ok vc ↦
              let staging = stage_gap node vc.added_chain_block_hashes x.staging in
              let built = build_groups (resolve_daa node) staging vc.accepted_transaction_ids in
              apply_groups faults built.0 built.1 store (record x { staging = staging })
        ]
  ]

  unfoldable pub on_connected : WriteFaults → ℕ → Answers → Indexer d → Indexer d
  on_connected faults generation node x =
      let started = record x {
        status = record x.status { state = connecting; generation = generation };
      } in
      let opened = open_index node started in
      elim opened.0 [
        | none ↦ opened.1
        | some store ↦ elim (subscribe node) [
          | err e ↦ opened.1
          | ok _ ↦
              let filled = backfill faults node store (set_state backfilling opened.1) in
              if filled.alive then set_state live filled else filled
        ]
      ]

  -- One round of the loop.
  unfoldable pub run_step : Step → Indexer d → Indexer d
  run_step (connected generation node faults) x = on_connected faults generation node x
  run_step (block_added block) x =
      let staging = stage_block block x.staging in
      record x {
        staging = staging;
        status = record x.status { staged_blocks = staged_blocks staging };
      }
  run_step (virtual_chain_changed removed accepted node faults) x = elim x.store [
    | none ↦ x
    | some store ↦
        let unwound = record store {
          tables = unwind_removed d store.prefix faults removed store.tables;
        } in
        let built = build_groups (resolve_daa node) x.staging accepted in
        apply_groups faults built.0 built.1 unwound x
  ]

  unfoldable pub run : List Step → Indexer d → Indexer d
  run [] x = x
  run (step ∷ steps) x = run steps (if x.alive then run_step step x else x)

  -- `filter_map` of the poller, over the transactions of the mempool's entries.
  unfoldable pub pooled : List (Option RpcTransaction) → List RawTx
  pooled [] = []
  pooled (t ∷ entries) = elim (t >>= raw_from_proto) [
    | none ↦ pooled entries
    | some raw ↦ raw ∷ pooled entries
  ]

  -- One round of the poller.
  unfoldable pub poll :
      Bytes
      → Option (Store d)
      → Result NodeError (List (Option RpcTransaction))
      → Snapshot
      → Snapshot
  poll prefix store entries overlay = elim store [
    | none ↦ overlay
    | some s ↦ elim entries [
      | err e ↦ overlay
      | ok list ↦ build_snapshot d prefix s.tables (pooled list)
    ]
  ]
