-- ===== src/Tests/Histories.antt =====
-- A history of a store: a new file, the two concrete blocks, and what the sweep makes of them.
use keryx_api_shim.Base.{
  ◌⊎◌, false, none, Bytes, ◌++◌, ◌+◌, ◌<◌, ◌≤◌, ◌≡◌, refl, true, some, [], ◌∷◌, ascii, arith,
  bytes_eq,
}
use keryx_api_shim.Base.Words.{u64_mod, add64}
use keryx_api_shim.Redb.Defs.{lookup}
use keryx_api_shim.Redb.Order.{lt_bytes}
use keryx_api_shim.Redb.Sorted.{sorted_engine, sorted_redb}
use keryx_api_shim.Store.Types.{AcceptedGroup, IndexedTx}
use keryx_api_shim.Store.Tables.{Tables, no_tables, open_store, meta_or_zero}
use keryx_api_shim.Store.Keys.{outpoint_key}
use keryx_api_shim.Store.Reads.{tx_by_id, spend_of}
use keryx_api_shim.Store.Linked.Reached.{FindsId, FindsSpend, lookups_reached}
use keryx_api_shim.Store.Linked.Recorded.{consumes}
use keryx_api_shim.Store.Faults.{WriteFaults}
use keryx_api_shim.Store.Apply.{
  apply_tx, apply_txs, record_block, apply_new_group, apply_group, apply_groups, start,
  save_counters, save_checkpoint, stats_daa, apply,
}
use keryx_api_shim.Store.Ledger.{build_indexed, compute_ledger, index_tx}
use keryx_api_shim.Store.Expire.{expire_below}
use keryx_api_shim.Store.Expire.Window.{kept}
use keryx_api_shim.Store.Order.Applied.{groups_rise, last_score, tx_count}
use keryx_api_shim.Store.Order.Reached.{History, created, applied, expire_below_reached}
use keryx_api_shim.Indexer.Sync.{Ctx, sync_groups}
use keryx_api_shim.Base.Results.{Result, ok, err}
use keryx_api_shim.Node.{timeout}
use keryx_api_shim.Indexer.Answers.{Answers}
use keryx_api_shim.Indexer.Run.{backfill_start}
use keryx_api_shim.Indexer.Run.Resume.{backfill_resumes}
use keryx_api_shim.Indexer.Sync.Retention.{sync_groups_keeps_reached}
use keryx_api_shim.Tests.Data.{sound, full, deps, prefix, coinbase, spend, block, next_block}

abbrev opened : Tables deps
opened = (open_store deps (no_tables deps) prefix).tables

blocks_rise : groups_rise 0 (block ∷ next_block ∷ []) ≡ true
unfolding groups_rise
blocks_rise = refl

blocks_fit :
    meta_or_zero deps opened (ascii "next_tx_num") + tx_count (block ∷ next_block ∷ []) < u64_mod
unfolding meta_or_zero open_store no_tables sorted_redb sorted_engine lookup bytes_eq tx_count
blocks_fit = omega arith

abbrev both_applied : Tables deps
both_applied = (apply deps prefix (block ∷ next_block ∷ []) opened).0

both_History : History deps prefix (last_score 0 (block ∷ next_block ∷ [])) both_applied
both_History = applied (block ∷ next_block ∷ []) blocks_rise blocks_fit created

expire_below_reached_example :
    deps.db.nums.get (expire_below deps 15 both_applied).0.ledger.tx 0
    ≡ kept 15 (deps.db.nums.get both_applied.ledger.tx 0)
expire_below_reached_example = expire_below_reached deps prefix 15 0 both_History

abbrev empty_block : AcceptedGroup
empty_block = record { chain_block_hash = ascii "b9"; daa_score = 1000; txs = [] }

-- The sweep fails.
abbrev sweeping : WriteFaults
sweeping = record sound { expire_below = some full }

abbrev ctx : Ctx
ctx = record { window_daa = 995; last_expire_daa = 0; total_misses = 0 }

abbrev one_applied : Tables deps
one_applied = (apply deps prefix (block ∷ []) opened).0

block_rises : groups_rise 0 (block ∷ []) ≡ true
unfolding groups_rise
block_rises = refl

block_fits : meta_or_zero deps opened (ascii "next_tx_num") + tx_count (block ∷ []) < u64_mod
unfolding meta_or_zero open_store no_tables sorted_redb sorted_engine lookup bytes_eq tx_count
block_fits = omega arith

one_History : History deps prefix (last_score 0 (block ∷ [])) one_applied
one_History = applied (block ∷ []) block_rises block_fits created

batch_rises : groups_rise (last_score 0 (block ∷ [])) (empty_block ∷ []) ≡ true
unfolding groups_rise last_score
batch_rises = refl

batch_fits :
    meta_or_zero deps one_applied (ascii "next_tx_num") + tx_count (empty_block ∷ []) < u64_mod
unfolding meta_or_zero open_store no_tables sorted_redb sorted_engine lookup bytes_eq tx_count apply
    apply_groups apply_group apply_new_group apply_txs apply_tx start save_counters save_checkpoint
    record_block add64 lt_bytes
batch_fits = omega arith

abbrev row : IndexedTx
row = build_indexed coinbase 0 block (compute_ledger deps opened.ledger prefix coinbase)

batch_holds :
    deps.db.nums.get (apply deps prefix (empty_block ∷ []) one_applied).0.ledger.tx 0 ≡ some row
unfolding meta_or_zero open_store no_tables sorted_redb sorted_engine lookup bytes_eq apply
    apply_groups apply_group apply_new_group apply_txs apply_tx start save_counters save_checkpoint
    record_block index_tx add64
batch_holds = refl

batch_recent :
    (apply deps prefix (empty_block ∷ []) one_applied).1.checkpoint_daa
    ≤ row.accepting_daa + ctx.window_daa
unfolding build_indexed apply apply_groups apply_group apply_new_group apply_txs apply_tx start
    save_counters save_checkpoint stats_daa record_block no_tables sorted_redb sorted_engine lookup
    open_store bytes_eq
batch_recent = omega arith

sync_groups_keeps_reached_example :
    deps.db.nums.get
      (sync_groups deps prefix sweeping (empty_block ∷ []) 0 one_applied ctx).0.ledger.tx
      0
    ≡ some row
sync_groups_keeps_reached_example =
    sync_groups_keeps_reached deps prefix sweeping empty_block [] 0 ctx 0 row refl one_History
      batch_rises batch_fits batch_holds batch_recent

block_new :
    deps.db.texts.get
      (apply_groups deps prefix [] (start deps prefix opened)).blocks.applied
      block.chain_block_hash
    ≡ none
unfolding apply_groups start open_store no_tables sorted_redb sorted_engine lookup
block_new = refl

abbrev node : Answers
node = record {
  network_name = err timeout;
  sink = err timeout;
  notify_block_added = err timeout;
  notify_virtual_chain_changed = err timeout;
  get_virtual_chain = λ h. err timeout;
  get_blocks = λ h. err timeout;
  get_block = λ h. err timeout;
}

abbrev open_file : Bytes → Result Bytes (Tables deps)
open_file p = ok opened

backfill_resumes_example :
    backfill_start deps open_file 1000 sound node (record {
      tables = (sync_groups deps prefix sweeping ([] ++ block ∷ []) 0 opened ctx).0;
      prefix = prefix;
    })
    ≡ ok block.chain_block_hash
backfill_resumes_example =
    backfill_resumes deps prefix open_file 1000 sweeping sound node [] block 0 opened ctx refl refl
      block_new

next_new :
    deps.db.texts.get
      (apply_groups deps prefix (block ∷ []) (start deps prefix opened)).blocks.applied
      next_block.chain_block_hash
    ≡ none
unfolding apply_groups apply_group apply_new_group apply_txs apply_tx record_block start open_store
    no_tables sorted_redb sorted_engine lookup lt_bytes bytes_eq
next_new = refl

lookups_reached_example :
    (let s' = (apply deps prefix ((block ∷ []) ++ next_block ∷ []) opened).0 in
      ((tx_by_id deps opened (ascii "bb") ≡ none) ⊎ FindsId deps prefix opened (ascii "bb"))
      × ((spend_of deps opened (ascii "aa") 0 ≡ none)
          ⊎ FindsSpend deps prefix opened (ascii "aa") 0)
      × FindsId deps prefix s' spend.tx_id
      × ((consumes spend (outpoint_key (ascii "aa") 0) ≡ false)
          ⊎ FindsSpend deps prefix s' (ascii "aa") 0))
lookups_reached_example =
    lookups_reached deps prefix (block ∷ []) [] next_block [] [] spend (ascii "bb") (ascii "aa") 0
      created blocks_rise blocks_fit next_new refl
