-- ===== src/Store/Types.antt =====
-- The rows of the store (`src/indexer/store.rs`, plain data). Strings are their bytes.
use keryx_api_shim.Base.{ℕ, Bool, false, Option, none, List, Bytes}

pub record RawIn : Type 0 where
  pub previous_tx_id : Bytes
  pub previous_index : ℕ
  pub signature_script : Bytes
  pub sequence : ℕ
  pub sig_op_count : ℕ

pub record RawOut : Type 0 where
  pub amount : ℕ
  pub script_version : ℕ
  pub script_public_key : Bytes

pub record RawTx : Type 0 where
  pub tx_id : Bytes
  pub is_coinbase : Bool
  pub version : ℕ
  pub lock_time : ℕ
  pub subnetwork_id : Bytes
  pub gas : ℕ
  pub payload : Bytes
  pub inputs : List RawIn
  pub outputs : List RawOut

pub record AcceptedGroup : Type 0 where
  pub chain_block_hash : Bytes
  pub daa_score : ℕ
  pub txs : List RawTx

pub record StoredIn : Type 0 where
  pub previous_tx_id : Bytes
  pub previous_index : ℕ
  pub signature_script : Bytes
  pub sequence : ℕ
  pub sig_op_count : ℕ

pub record StoredOut : Type 0 where
  pub amount : ℕ
  pub script_version : ℕ
  pub script_public_key : Bytes

pub record LedgerEntry : Type 0 where
  pub address : Bytes
  pub credit : ℕ
  pub debit : ℕ

pub record IndexedTx : Type 0 where
  pub tx_num : ℕ
  pub tx_id : Bytes
  pub accepting_block_hash : Bytes
  pub accepting_daa : ℕ
  pub is_coinbase : Bool
  pub version : ℕ
  pub lock_time : ℕ
  pub subnetwork_id : Bytes
  pub gas : ℕ
  pub payload : Bytes
  pub inputs : List StoredIn
  pub outputs : List StoredOut
  pub ledger : List LedgerEntry

pub record HistRow : Type 0 where
  pub tx_id : Bytes
  pub amount_sompi : ℕ
  pub is_spend : Bool
  pub daa_score : ℕ
  pub block_hash : Bytes

pub record AiRequestRec : Type 0 where
  pub tx_id : Bytes
  pub model_id : Bytes
  pub max_tokens : ℕ
  pub inference_reward : ℕ
  pub priority_fee : ℕ
  pub prompt : Bytes
  pub daa_score : ℕ
  pub block_hash : Bytes
  pub request_hash : Bytes
  pub miner_pubkey : Option Bytes
  pub private : Bool
  pub recipient_count : Option ℕ

pub record AiRequestRecV1 : Type 0 where
  pub tx_id : Bytes
  pub model_id : Bytes
  pub max_tokens : ℕ
  pub inference_reward : ℕ
  pub priority_fee : ℕ
  pub prompt : Bytes
  pub daa_score : ℕ
  pub block_hash : Bytes
  pub request_hash : Bytes
  pub miner_pubkey : Option Bytes

pub record AiResponseRec : Type 0 where
  pub cid : Bytes
  pub result_block_hash : Bytes
  pub response_length : ℕ
  pub daa_score : ℕ
  pub tx_id : Option Bytes
  pub responder_pubkey : Option Bytes
  pub inline_body : Bool

pub record AiResponseRecV1 : Type 0 where
  pub cid : Bytes
  pub result_block_hash : Bytes
  pub response_length : ℕ
  pub daa_score : ℕ

pub record AiChallengeRec : Type 0 where
  pub tx_id : Bytes
  pub request_hash : Bytes
  pub daa_score : ℕ

pub record Capability : Type 0 where
  pub model_id : Bytes
  pub miner_pubkeys : List Bytes
  pub last_seen_daa : ℕ

pub record Checkpoint : Type 0 where
  pub chain_block_hash : Bytes
  pub daa_score : ℕ

pub record ApplyStats : Type 0 where
  pub applied_blocks : ℕ
  pub applied_txs : ℕ
  pub total_txs : ℕ
  pub checkpoint_daa : ℕ

-- A row of a table whose type gained trailing fields: written by this shim, or by shim 0.3.0.
pub data Compat (T L : Type 0) : Type 0 where
  current : T → Compat T L
  legacy : L → Compat T L

unfoldable pub upgrade_request : AiRequestRecV1 → AiRequestRec
upgrade_request v = record {
  tx_id = v.tx_id;
  model_id = v.model_id;
  max_tokens = v.max_tokens;
  inference_reward = v.inference_reward;
  priority_fee = v.priority_fee;
  prompt = v.prompt;
  daa_score = v.daa_score;
  block_hash = v.block_hash;
  request_hash = v.request_hash;
  miner_pubkey = v.miner_pubkey;
  private = false;
  recipient_count = none;
}

unfoldable pub upgrade_response : AiResponseRecV1 → AiResponseRec
upgrade_response v = record {
  cid = v.cid;
  result_block_hash = v.result_block_hash;
  response_length = v.response_length;
  daa_score = v.daa_score;
  tx_id = none;
  responder_pubkey = none;
  inline_body = false;
}

-- `dec_compat`: a row of the older layout is read through its conversion.
unfoldable pub dec_compat : {T L : Type 0} → (L → T) → Compat T L → T
dec_compat into (current t) = t
dec_compat into (legacy l) = into l

unfoldable pub dec_request : Compat AiRequestRec AiRequestRecV1 → AiRequestRec
dec_request row = dec_compat upgrade_request row

unfoldable pub dec_response : Compat AiResponseRec AiResponseRecV1 → AiResponseRec
dec_response row = dec_compat upgrade_response row
