-- ===== src/Store/Apply.antt =====
-- `Store::apply`.
pub mod Idempotent
pub mod Counters
use keryx_api_shim.Base.{
  ℕ, zero, ◌+◌, Bool, true, false, Option, none, some, List, [], ◌∷◌, ◌++◌, Bytes, if◌then◌else◌,
  is_some, ascii,
}
use keryx_api_shim.Base.Words.{add64}
use keryx_api_shim.Store.Types.{RawTx, AcceptedGroup, Checkpoint, ApplyStats}
use keryx_api_shim.Store.Keys.{chain_key}
use keryx_api_shim.Store.Tables.{Deps, LedgerTables, BlockTables, AiTables, Tables, meta_or_zero}
use keryx_api_shim.Store.Ledger.{index_tx}
use keryx_api_shim.Store.Ai.{AiState, index_ai}

-- The variables of one `apply` call.
pub record Run (d : Deps) : Type 0 where
  pub ledger : LedgerTables d
  pub blocks : BlockTables d
  pub ai : AiState d
  pub next_tx_num : ℕ
  pub total_txs : ℕ
  pub checkpoint : Option Checkpoint
  pub applied_blocks : ℕ
  pub applied_txs : ℕ

module _ (d : Deps) (prefix : Bytes) where
  open d.db use {texts}

  -- One round of `for raw in &group.txs`.
  unfoldable pub apply_tx : AcceptedGroup → RawTx → Run d → Run d
  apply_tx group raw r = record r {
    ledger = index_tx d prefix group raw r.next_tx_num r.ledger;
    ai = index_ai d raw group r.next_tx_num r.ai;
    next_tx_num = add64 r.next_tx_num 1;
    total_txs = add64 r.total_txs 1;
    applied_txs = add64 r.applied_txs 1;
  }

  -- The loop over a group's transactions: the run after it and `tx_nums`.
  unfoldable pub apply_txs : AcceptedGroup → List RawTx → Run d → Run d × List ℕ
  apply_txs group [] r = (r, [])
  apply_txs group (raw ∷ txs) r =
      let (r', tx_nums) = apply_txs group txs (apply_tx group raw r) in
      (r', r.next_tx_num ∷ tx_nums)

  unfoldable pub record_block : AcceptedGroup → List ℕ → BlockTables d → BlockTables d
  record_block group tx_nums b = record {
    accepted_by = texts.insert b.accepted_by group.chain_block_hash tx_nums;
    applied = texts.insert b.applied group.chain_block_hash group.daa_score;
    chain_by_daa =
        texts.insert b.chain_by_daa (chain_key group.daa_score group.chain_block_hash)
          group.chain_block_hash;
  }

  -- One round of `for group in groups` for a block that was not applied before.
  unfoldable pub apply_new_group : AcceptedGroup → Run d → Run d
  apply_new_group group r =
      let (r', tx_nums) = apply_txs group group.txs r in
      record r' {
        blocks = record_block group tx_nums r'.blocks;
        checkpoint =
            some
              (record { chain_block_hash = group.chain_block_hash; daa_score = group.daa_score });
        applied_blocks = add64 r'.applied_blocks 1;
      }

  unfoldable pub apply_group : AcceptedGroup → Run d → Run d
  apply_group group r =
      if is_some (texts.get r.blocks.applied group.chain_block_hash)
      then r
      else apply_new_group group r

  unfoldable pub apply_groups : List AcceptedGroup → Run d → Run d
  apply_groups [] r = r
  apply_groups (group ∷ groups) r = apply_groups groups (apply_group group r)

  unfoldable pub start : Tables d → Run d
  start s = record {
    ledger = s.ledger;
    blocks = s.blocks;
    ai = record {
      tables = s.ai;
      ai_req_seq = meta_or_zero d s (ascii "ai_req_seq");
      ai_chal_seq = meta_or_zero d s (ascii "ai_chal_seq");
    };
    next_tx_num = meta_or_zero d s (ascii "next_tx_num");
    total_txs = meta_or_zero d s (ascii "total_txs");
    checkpoint = none;
    applied_blocks = 0;
    applied_txs = 0;
  }

  -- The four counters, written back.
  unfoldable pub save_counters : Run d → Tables d → Tables d
  save_counters r s = record s {
    ledger = r.ledger;
    blocks = r.blocks;
    ai = r.ai.tables;
    meta =
        texts.insert
          (texts.insert
            (texts.insert (texts.insert s.meta (ascii "next_tx_num") r.next_tx_num)
              (ascii "total_txs") r.total_txs)
            (ascii "ai_req_seq") r.ai.ai_req_seq)
          (ascii "ai_chal_seq") r.ai.ai_chal_seq;
  }

  unfoldable pub save_checkpoint : Option Checkpoint → Tables d → Tables d
  save_checkpoint none s = s
  save_checkpoint (some cp) s = record s {
    meta_str = texts.insert s.meta_str (ascii "checkpoint_hash") cp.chain_block_hash;
    meta = texts.insert s.meta (ascii "checkpoint_daa") cp.daa_score;
  }

  unfoldable pub stats_daa : Option Checkpoint → ℕ
  stats_daa none = 0
  stats_daa (some cp) = cp.daa_score

  -- The committed tables and the statistics.
  unfoldable pub apply : List AcceptedGroup → Tables d → Tables d × ApplyStats
  apply groups s =
      let r = apply_groups groups (start s) in
      (
        save_checkpoint r.checkpoint (save_counters r s),
        record {
          applied_blocks = r.applied_blocks;
          applied_txs = r.applied_txs;
          total_txs = r.total_txs;
          checkpoint_daa = stats_daa r.checkpoint;
        },
      )
