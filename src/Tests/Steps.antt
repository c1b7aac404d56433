-- ===== src/Tests/Steps.antt =====
-- Runs of the indexer's loop.
use keryx_api_shim.Base.{◌≡◌, refl, some, false}
use keryx_api_shim.Hex.{from_hex_panics, pairs_panic, byte_of_hex, hex_value}
use keryx_api_shim.Redb.Defs.{lookup}
use keryx_api_shim.Redb.Sorted.{sorted_engine, sorted_redb}
use keryx_api_shim.Store.Types.{RawTx, AcceptedGroup}
use keryx_api_shim.Store.Apply.{start}
use keryx_api_shim.Store.Panics.{
  outputs_panic, tx_panics, txs_panic, group_panics, groups_panic, apply_panics,
}
use keryx_api_shim.Store.Tables.{Store, no_tables}
use keryx_api_shim.Indexer.Run.{apply_groups, batch_panics}
use keryx_api_shim.Tests.Data.{prefix, coinbase, output, block}
use keryx_api_shim.Base.{[], ◌∷◌, Bytes, ascii}
use keryx_api_shim.Base.Results.{Result, ok, err}
use keryx_api_shim.Node.{timeout}
use keryx_api_shim.Store.Tables.{Tables}
use keryx_api_shim.Indexer.Answers.{Answers}
use keryx_api_shim.Indexer.Run.{connected, spawn, run}
use keryx_api_shim.Indexer.Run.States.{IsSettled, run_settled}
use keryx_api_shim.Tests.Data.{deps, sound, empty}

abbrev open_file : Bytes → Result Bytes (Tables deps)
open_file p = ok empty

-- A node that takes the subscriptions and then answers nothing.
abbrev answers : Answers
answers = record {
  network_name = ok (ascii "keryx-mainnet");
  sink = ok (ascii "s");
  notify_block_added = ok tt;
  notify_virtual_chain_changed = ok tt;
  get_virtual_chain = λ h. err timeout;
  get_blocks = λ h. err timeout;
  get_block = λ h. err timeout;
}

run_settled_example :
    IsSettled deps open_file 1000
      (run deps open_file 1000 (connected 1 answers sound ∷ []) (spawn deps 7))
run_settled_example = run_settled deps open_file 1000 7 (connected 1 answers sound ∷ [])

-- A coinbase whose script is the text "1é2".
abbrev accented : RawTx
accented = record coinbase {
  outputs = record output { script_public_key = 49 ∷ 195 ∷ 169 ∷ 50 ∷ [] } ∷ [];
}

abbrev accented_block : AcceptedGroup
accented_block = record block { txs = accented ∷ [] }

abbrev store : Store deps
store = record { tables = empty; prefix = prefix }

-- The batch ends the task, and leaves the tables as they were.
batch_ends_task :
    apply_groups deps open_file 1000 sound (accented_block ∷ []) 0 store (spawn deps 7)
    ≡ record (spawn deps 7) { store = some store; alive = false }
unfolding apply_groups batch_panics apply_panics groups_panic group_panics txs_panic tx_panics
    outputs_panic from_hex_panics pairs_panic byte_of_hex hex_value start no_tables sorted_redb
    sorted_engine lookup
batch_ends_task = refl
