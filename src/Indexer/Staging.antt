-- ===== src/Indexer/Staging.antt =====
-- The staging of blocks and transaction bodies, and the groups made from them: `Staging`,
-- `raw_from_proto` and `build_groups`. The node's messages have the fields that are read of them.
pub mod Bodies
use keryx_api_shim.Base.{
  ℕ, zero, ◌+◌, Bool, true, false, Option, none, some, List, [], ◌∷◌, map, Bytes, ◌==◌,
  if◌then◌else◌, length, or_default, ascii, ◌>>=◌,
}
use keryx_api_shim.Base.Ascii.{eq_ignore_ascii_case}
use keryx_api_shim.Base.Words.{add64}
use keryx_api_shim.Store.Types.{RawIn, RawOut, RawTx, AcceptedGroup}
use keryx_api_shim.Indexer.Bounded.{Bounded, new, insert, get, len}

abbrev pub stage_block_cap : ℕ
stage_block_cap = 20000

abbrev pub stage_tx_cap : ℕ
stage_tx_cap = 50000

abbrev pub coinbase_subnetwork : Bytes
coinbase_subnetwork = ascii "0100000000000000000000000000000000000000"

pub record RpcOutpoint : Type 0 where
  pub transaction_id : Bytes
  pub index : ℕ

pub record RpcScriptPublicKey : Type 0 where
  pub version : ℕ
  pub script_public_key : Bytes

pub record RpcInput : Type 0 where
  pub previous_outpoint : Option RpcOutpoint
  pub signature_script : Bytes
  pub sequence : ℕ
  pub sig_op_count : ℕ

pub record RpcOutput : Type 0 where
  pub amount : ℕ
  pub script_public_key : Option RpcScriptPublicKey

-- `verbose_id`: the id in the verbose data, if there is any. `mass` is only written.
pub record RpcTransaction : Type 0 where
  pub verbose_id : Option Bytes
  pub version : ℕ
  pub inputs : List RpcInput
  pub outputs : List RpcOutput
  pub lock_time : ℕ
  pub subnetwork_id : Bytes
  pub gas : ℕ
  pub payload : Bytes
  pub mass : ℕ

-- `verbose_hash`, `header_daa`: the fields read of the verbose data and of the header.
pub record RpcBlock : Type 0 where
  pub verbose_hash : Option Bytes
  pub header_daa : Option ℕ
  pub transactions : List RpcTransaction

pub record RpcAccepted : Type 0 where
  pub accepting_block_hash : Bytes
  pub accepted_transaction_ids : List Bytes

unfoldable pub raw_input : RpcInput → RawIn
raw_input i =
    let op = or_default i.previous_outpoint (record { transaction_id = []; index = 0 }) in
    record {
      previous_tx_id = op.transaction_id;
      previous_index = op.index;
      signature_script = i.signature_script;
      sequence = i.sequence;
      sig_op_count = i.sig_op_count;
    }

unfoldable pub raw_output : RpcOutput → RawOut
raw_output o =
    let spk = or_default o.script_public_key (record { version = 0; script_public_key = [] }) in
    record {
      amount = o.amount;
      script_version = spk.version;
      script_public_key = spk.script_public_key;
    }

unfoldable pub raw_with_id : Bytes → RpcTransaction → RawTx
raw_with_id tx_id tx = record {
  tx_id = tx_id;
  is_coinbase = eq_ignore_ascii_case tx.subnetwork_id coinbase_subnetwork;
  version = tx.version;
  lock_time = tx.lock_time;
  subnetwork_id = tx.subnetwork_id;
  gas = tx.gas;
  payload = tx.payload;
  inputs = map raw_input tx.inputs;
  outputs = map raw_output tx.outputs;
}

unfoldable pub raw_from_proto : RpcTransaction → Option RawTx
raw_from_proto tx = do
  tx_id ← tx.verbose_id
  if length tx_id == 0 then none else some (raw_with_id tx_id tx)

pub record Staging : Type 0 where
  pub block_daas : Bounded ℕ
  pub tx_bodies : Bounded RawTx

unfoldable pub new_staging : Staging
new_staging = record { block_daas = new stage_block_cap; tx_bodies = new stage_tx_cap }

unfoldable pub stage_daa : Option Bytes → Option ℕ → Bounded ℕ → Bounded ℕ
stage_daa none daa b = b
stage_daa (some hash) none b = b
stage_daa (some hash) (some daa) b = if length hash == 0 then b else insert hash daa b

unfoldable pub stage_txs : List RpcTransaction → Bounded RawTx → Bounded RawTx
stage_txs [] b = b
stage_txs (tx ∷ txs) b =
    stage_txs txs (elim (raw_from_proto tx) [ none ↦ b | some raw ↦ insert raw.tx_id raw b ])

unfoldable pub stage_block : RpcBlock → Staging → Staging
stage_block block s = record {
  block_daas = stage_daa block.verbose_hash block.header_daa s.block_daas;
  tx_bodies = stage_txs block.transactions s.tx_bodies;
}

unfoldable pub block_daa : Staging → Bytes → Option ℕ
block_daa s hash = get hash s.block_daas

unfoldable pub get_tx : Staging → Bytes → Option RawTx
get_tx s tx_id = get tx_id s.tx_bodies

unfoldable pub staged_blocks : Staging → ℕ
staged_blocks s = len s.block_daas

-- The loop over the accepted ids of one block: the bodies, and the misses counted on from
-- `misses`.
unfoldable pub accepted_txs : Staging → List Bytes → ℕ → List RawTx × ℕ
accepted_txs s [] misses = ([], misses)
accepted_txs s (id ∷ ids) misses = elim (get_tx s id) [
  | none ↦ accepted_txs s ids (add64 misses 1)
  | some raw ↦ let rest = accepted_txs s ids misses in (raw ∷ rest.0, rest.1)
]

-- `resolve_daa` asks the node.
module _ (resolve_daa : Bytes → ℕ) where
  unfoldable pub build_from : Staging → List RpcAccepted → ℕ → List AcceptedGroup × ℕ
  build_from s [] misses = ([], misses)
  build_from s (a ∷ accepted) misses =
      let daa : ℕ = elim (block_daa s a.accepting_block_hash) [
        | none ↦ resolve_daa a.accepting_block_hash
        | some daa ↦ daa
      ] in
      let txs = accepted_txs s a.accepted_transaction_ids misses in
      let rest = build_from s accepted txs.1 in
      (
        record { chain_block_hash = a.accepting_block_hash; daa_score = daa; txs = txs.0 } ∷ rest.0,
        rest.1,
      )

  unfoldable pub build_groups : Staging → List RpcAccepted → List AcceptedGroup × ℕ
  build_groups s accepted = build_from s accepted 0
