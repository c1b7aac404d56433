-- ===== src/Indexer/Answers.antt =====
-- What the node answers to the indexer, and the functions of `src/indexer/mod.rs` that only ask it.
use keryx_api_shim.Base.{ℕ, Option, List, [], Bytes, or_default}
use keryx_api_shim.Base.Results.{Result, ok, err, unwrap_or}
use keryx_api_shim.Address.{prefix_for_network}
use keryx_api_shim.Node.{NodeError}
use keryx_api_shim.Indexer.Staging.{RpcBlock, RpcAccepted}

pub record VirtualChain : Type 0 where
  pub added_chain_block_hashes : List Bytes
  pub accepted_transaction_ids : List RpcAccepted

-- The node's answers: the network's name and the sink of `getBlockDagInfo`, the two subscriptions,
-- the virtual chain and the blocks from a hash, and the header's DAA score in a block, if it has a
-- header.
pub record Answers : Type 0 where
  pub network_name : Result NodeError Bytes
  pub sink : Result NodeError Bytes
  pub notify_block_added : Result NodeError (Unit {0})
  pub notify_virtual_chain_changed : Result NodeError (Unit {0})
  pub get_virtual_chain : Bytes → Result NodeError VirtualChain
  pub get_blocks : Bytes → Result NodeError (List RpcBlock)
  pub get_block : Bytes → Result NodeError (Option ℕ)

unfoldable pub resolve_daa : Answers → Bytes → ℕ
resolve_daa node hash = elim (node.get_block hash) [ err e ↦ 0 | ok daa ↦ or_default daa 0 ]

unfoldable pub subscribe : Answers → Result NodeError (Unit {0})
subscribe node = elim node.notify_block_added [
  | err e ↦ err e
  | ok _ ↦ node.notify_virtual_chain_changed
]

-- The prefix that `open_store` takes; without an answer the name is empty.
unfoldable pub store_prefix : Answers → Bytes
store_prefix node = prefix_for_network (unwrap_or node.network_name [])
