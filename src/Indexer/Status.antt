-- ===== src/Indexer/Status.antt =====
-- The status of the indexer, and its JSON (`src/indexer/mod.rs`).
use keryx_api_shim.Base.{ℕ, Option, Bytes, ascii}
use keryx_api_shim.Mempool.{Snapshot}

pub data IndexerState : Type 0 where
  connecting backfilling live : IndexerState

unfoldable pub as_str : IndexerState → Bytes
as_str connecting = ascii "connecting"
as_str backfilling = ascii "backfilling"
as_str live = ascii "live"

pub record IndexerStatus : Type 0 where
  pub state : IndexerState
  pub window_days : ℕ
  pub checkpoint_daa : Option ℕ
  pub window_low_daa : Option ℕ
  pub total_txs : ℕ
  pub chain_blocks : ℕ
  pub resolve_misses : ℕ
  pub staged_blocks : ℕ
  pub generation : ℕ

-- `IndexerHandle::json`
pub record StatusJson : Type 0 where
  pub state : Bytes
  pub window_days : ℕ
  pub checkpoint_daa : Option ℕ
  pub window_low_daa : Option ℕ
  pub total_txs : ℕ
  pub chain_blocks : ℕ
  pub resolve_misses : ℕ
  pub staged_blocks : ℕ
  pub mempool_pending : ℕ
  pub generation : ℕ

unfoldable pub json : IndexerStatus → Snapshot → StatusJson
json s mempool = record {
  state = as_str s.state;
  window_days = s.window_days;
  checkpoint_daa = s.checkpoint_daa;
  window_low_daa = s.window_low_daa;
  total_txs = s.total_txs;
  chain_blocks = s.chain_blocks;
  resolve_misses = s.resolve_misses;
  staged_blocks = s.staged_blocks;
  mempool_pending = mempool.count;
  generation = s.generation;
}
