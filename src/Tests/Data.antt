-- ===== src/Tests/Data.antt =====
-- Concrete data: a database, a transaction and a block.
use mathlib.Core.List.Perm
use keryx_api_shim.Base.{none, some, true, false, [], ◌∷◌, Bytes, ascii, replicate}
use keryx_api_shim.Redb.Sorted.{sorted_redb}
use keryx_api_shim.Store.Types.{RawIn, RawOut, RawTx, AcceptedGroup}
use keryx_api_shim.Store.Faults.{StoreError, db, WriteFaults, ReadFaults}
use keryx_api_shim.Store.Tables.{Deps, Tables, no_tables}

abbrev pub deps : Deps
deps = record {
  db = sorted_redb;
  blake2b = λ s. s;
  base58 = λ s. s;
  arrange = λ l. l;
  arrange_perm = λ l. Perm.refl l;
}

abbrev pub prefix : Bytes
prefix = ascii "keryx"

abbrev pub key32 : Bytes
key32 = replicate 32 7

abbrev pub p2pk_hex : Bytes
p2pk_hex = ascii "200707070707070707070707070707070707070707070707070707070707070707ac"

abbrev pub output : RawOut
output = record { amount = 500; script_version = 0; script_public_key = p2pk_hex }

abbrev pub coinbase : RawTx
coinbase = record {
  tx_id = ascii "aa";
  is_coinbase = true;
  version = 0;
  lock_time = 0;
  subnetwork_id = [];
  gas = 0;
  payload = [];
  inputs = [];
  outputs = output ∷ [];
}

abbrev pub input : RawIn
input = record {
  previous_tx_id = ascii "aa";
  previous_index = 0;
  signature_script = [];
  sequence = 0;
  sig_op_count = 1;
}

abbrev pub spend : RawTx
spend = record {
  tx_id = ascii "bb";
  is_coinbase = false;
  version = 0;
  lock_time = 0;
  subnetwork_id = [];
  gas = 0;
  payload = [];
  inputs = input ∷ [];
  outputs = [];
}

abbrev pub block : AcceptedGroup
block = record { chain_block_hash = ascii "b1"; daa_score = 10; txs = coinbase ∷ [] }

abbrev pub next_block : AcceptedGroup
next_block = record { chain_block_hash = ascii "b2"; daa_score = 20; txs = spend ∷ [] }

abbrev pub empty : Tables deps
empty = no_tables deps

-- A database that fails nothing.
abbrev pub sound : WriteFaults
sound = record {
  apply = none;
  unwind_chain_block = λ hash. none;
  expire_below = none;
  checkpoint = none;
  window_low_daa = none;
  chain_blocks = none;
}

-- A disk that is full: the writes fail.
abbrev pub full : StoreError
full = db (ascii "disk full")

abbrev pub failing : WriteFaults
failing = record sound { apply = some full; expire_below = some full }

abbrev pub sound_reads : ReadFaults
sound_reads = record {
  address_history = none;
  address_totals = none;
  window_low_daa = none;
  tx_by_id = none;
  spend_of = none;
  capabilities = none;
  inference_feed = none;
  inference_by_tx = none;
  challenges = none;
  total_txs = none;
}

abbrev pub failing_reads : ReadFaults
failing_reads = record sound_reads { address_totals = some full; tx_by_id = some full }
