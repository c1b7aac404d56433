-- ===== src/Api/Transactions.antt =====
-- `TxJson` of `src/api/dto.rs`: the transaction of a broadcast, its checks, and the message that is
-- made of it.
pub mod Checks
pub mod Sequences
use keryx_api_shim.Base.{
  ℕ, suc, ◌+◌, ◌%◌, Bool, true, false, ◌&&◌, ◌||◌, not, Option, none, some, List, [], ◌∷◌, ◌++◌,
  map, Bytes, ◌==◌, if◌then◌else◌, length, all, ascii,
}
use keryx_api_shim.Base.Ascii.{is_ascii_hexdigit}
use keryx_api_shim.Base.Decimal.{decimal, parse_u64}
use keryx_api_shim.Base.Results.{Result, ok, err}
use keryx_api_shim.Utf8.Trim.{trim}
use keryx_api_shim.Store.Ledger.{is_negative}
use keryx_api_shim.Mempool.{RenderedIn}
use keryx_api_shim.Indexer.Staging.{
  RpcOutpoint, RpcScriptPublicKey, RpcInput, RpcOutput, RpcTransaction,
}

pub record TxInputJson : Type 0 where
  pub transaction_id : Bytes
  pub index : ℕ
  pub signature_script : Bytes
  pub sequence : ℕ
  pub sig_op_count : ℕ

pub record TxOutputJson : Type 0 where
  pub amount : ℕ
  pub script_version : ℕ
  pub script_public_key : Bytes

pub record TxJson : Type 0 where
  pub version : ℕ
  pub inputs : List TxInputJson
  pub outputs : List TxOutputJson
  pub lock_time : ℕ
  pub subnetwork_id : Bytes
  pub gas : ℕ
  pub payload : Bytes
  pub mass : ℕ

-- A JSON value, as the deserializer shows it to the visitor of `flex_u64`; an `i64` is its word in
-- two's complement, and `other` is any kind that the visitor has no method for.
pub data Lenient : Type 0 where
  u64 : ℕ → Lenient
  i64 : ℕ → Lenient
  str : Bytes → Lenient
  other : Bytes → Lenient

-- `flex_u64`; `debug` is the `{:?}` of a string.
unfoldable pub flex_u64 : (Bytes → Bytes) → Lenient → Result Bytes ℕ
flex_u64 debug (u64 v) = ok v
flex_u64 debug (i64 v) = if is_negative v then err (ascii "value must not be negative") else ok v
flex_u64 debug (str s) = elim (parse_u64 (trim s)) [
  | none ↦ err (ascii "invalid u64 string " ++ debug s)
  | some v ↦ ok v
]
flex_u64 debug (other message) = err message

unfoldable pub is_hex : Bytes → Bool
is_hex s = length s % 2 == 0 && all is_ascii_hexdigit s

unfoldable pub validate_inputs : ℕ → List TxInputJson → Result Bytes (Unit {0})
validate_inputs i [] = ok tt
validate_inputs i (input ∷ inputs) =
    let rest = validate_inputs (suc i) inputs in
    if not (length input.transaction_id == 64) || not (is_hex input.transaction_id)
    then err (ascii "input " ++ decimal 20 i ++ ascii ": transaction_id must be 64 hex chars")
    else if not (is_hex input.signature_script)
    then err (ascii "input " ++ decimal 20 i ++ ascii ": signature_script must be hex")
    else rest

unfoldable pub validate_outputs : ℕ → List TxOutputJson → Result Bytes (Unit {0})
validate_outputs i [] = ok tt
validate_outputs i (output ∷ outputs) =
    let rest = validate_outputs (suc i) outputs in
    if length output.script_public_key == 0 || not (is_hex output.script_public_key)
    then err (ascii "output " ++ decimal 20 i ++ ascii ": script_public_key must be non-empty hex")
    else rest

unfoldable pub validate : TxJson → Result Bytes (Unit {0})
validate tx =
    if length tx.inputs == 0
    then err (ascii "transaction has no inputs")
    else if not (length tx.subnetwork_id == 40) || not (is_hex tx.subnetwork_id)
    then err (ascii "subnetwork_id must be 40 hex chars")
    else if not (is_hex tx.payload)
    then err (ascii "payload must be hex")
    else elim (validate_inputs 0 tx.inputs) [ err e ↦ err e | ok _ ↦ validate_outputs 0 tx.outputs ]

unfoldable pub input_into_proto : TxInputJson → RpcInput
input_into_proto i = record {
  previous_outpoint = some (record { transaction_id = i.transaction_id; index = i.index });
  signature_script = i.signature_script;
  sequence = i.sequence;
  sig_op_count = i.sig_op_count;
}

unfoldable pub output_into_proto : TxOutputJson → RpcOutput
output_into_proto o = record {
  amount = o.amount;
  script_public_key =
      some (record { version = o.script_version; script_public_key = o.script_public_key });
}

unfoldable pub into_proto : TxJson → RpcTransaction
into_proto tx = record {
  verbose_id = none;
  version = tx.version;
  inputs = map input_into_proto tx.inputs;
  outputs = map output_into_proto tx.outputs;
  lock_time = tx.lock_time;
  subnetwork_id = tx.subnetwork_id;
  gas = tx.gas;
  payload = tx.payload;
  mass = tx.mass;
}
