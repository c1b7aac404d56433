-- ===== src/Api/Inference.antt =====
-- The inference endpoints that read the store (`src/api/handlers.rs`): `/capabilities`, `/infer`,
-- `/inference/{tx_id}` and `/challenges`. A JSON object is a record; its members that are constant
-- (`result_text`, `fraud_proven`) are left out.
pub mod Public
use keryx_api_shim.Base.{
  ℕ, Bool, true, false, not, Option, none, some, List, [], ◌∷◌, map, Bytes, if◌then◌else◌, length,
  take, or_default, is_some, ascii, ◌>>=◌,
}
use mathlib.Core.Option
use keryx_api_shim.Base.Results.{Result, ok, err, unwrap_or}
use keryx_api_shim.Hex.{to_hex}
use keryx_api_shim.Inference.Models.{model_key}
use keryx_api_shim.Inference.Response.{AiResponse}
use keryx_api_shim.Store.Types.{IndexedTx, AiRequestRec, AiResponseRec, AiChallengeRec, Capability}
use keryx_api_shim.Store.Tables.{Deps, Tables}
use keryx_api_shim.Store.Reads
use keryx_api_shim.Store.Reads.Caps
use keryx_api_shim.Store.Reads.{InferenceDetail, inference_feed, inference_by_tx}
use keryx_api_shim.Api.{ApiError, bad_request, not_found, query}
use keryx_api_shim.Store.Faults.{ReadFaults, attempt}
use keryx_api_shim.Api.Utxos.{clamp, filter_map}
use keryx_api_shim.Api.Chain.{IndexerHandle, is_txid, require_index}

pub record CapabilityRow : Type 0 where
  pub model : Bytes
  pub model_id_hex : Bytes
  pub miner_count : ℕ
  pub last_seen_daa : ℕ
  pub miner_pubkeys : List Bytes

pub record InferRow : Type 0 where
  pub tx_id : Bytes
  pub model : Bytes
  pub prompt : Bytes
  pub sealed : Bool
  pub sealed_recipients : Option ℕ
  pub max_tokens : ℕ
  pub inference_reward : ℕ
  pub priority_fee : ℕ
  pub daa_score : ℕ
  pub block_hash : Bytes
  pub payload_prefix : Bytes
  pub result : Option Bytes
  pub result_block_hash : Option Bytes
  pub result_daa_score : Option ℕ
  pub request_hash : Bytes
  pub result_tx_id : Option Bytes
  pub responder_pubkey : Option Bytes
  pub result_inline : Bool

pub record SealedResponse : Type 0 where
  pub responder_pubkey : Option Bytes
  pub body : Bytes
  pub response_length : ℕ
  pub tx_id : Bytes
  pub block_hash : Bytes
  pub daa_score : ℕ

pub data RequestStatus : Type 0 where
  completed pending : RequestStatus

pub record InferenceRow : Type 0 where
  pub tx_id : Bytes
  pub model : Bytes
  pub prompt : Bytes
  pub status : RequestStatus
  pub sealed : Bool
  pub sealed_recipients : Option ℕ
  pub sealed_responses : List SealedResponse
  pub result_cid : Option Bytes
  pub result_block_hash : Option Bytes
  pub result_daa_score : Option ℕ

pub record ChallengeRow : Type 0 where
  pub tx_id : Bytes
  pub request_hash_hex : Bytes

unfoldable pub model_name : Bytes → Bytes
model_name model_id = or_default (model_key model_id) model_id

unfoldable pub capability_row : Capability → CapabilityRow
capability_row c = record {
  model = model_name c.model_id;
  model_id_hex = c.model_id;
  miner_count = length c.miner_pubkeys;
  last_seen_daa = c.last_seen_daa;
  miner_pubkeys = c.miner_pubkeys;
}

-- The request hash is hex, so that its characters are its bytes.
unfoldable pub infer_row : AiRequestRec → Option AiResponseRec → InferRow
infer_row req resp = record {
  tx_id = req.tx_id;
  model = model_name req.model_id;
  prompt = req.prompt;
  sealed = req.private;
  sealed_recipients = req.recipient_count;
  max_tokens = req.max_tokens;
  inference_reward = req.inference_reward;
  priority_fee = req.priority_fee;
  daa_score = req.daa_score;
  block_hash = req.block_hash;
  payload_prefix = take 16 req.request_hash;
  result = Option.map (λ r. r.cid) resp;
  result_block_hash = Option.map (λ r. r.result_block_hash) resp;
  result_daa_score = Option.map (λ r. r.daa_score) resp;
  request_hash = req.request_hash;
  result_tx_id = resp >>= (λ r. r.tx_id);
  responder_pubkey = resp >>= (λ r. r.responder_pubkey);
  result_inline = elim resp [ none ↦ false | some r ↦ r.inline_body ];
}

-- An entry of `sealed_responses`, for a response with an inline body.
unfoldable pub sealed_response : IndexedTx × AiResponse → Option SealedResponse
sealed_response p = do
  body ← p.1.private_body
  some (record {
    responder_pubkey = p.1.responder_pubkey;
    body = to_hex body;
    response_length = p.1.response_length;
    tx_id = p.0.tx_id;
    block_hash = p.0.accepting_block_hash;
    daa_score = p.0.accepting_daa;
  })

unfoldable pub inference_row : InferenceDetail → InferenceRow
inference_row detail =
    let req = detail.request in
    let first = detail.first_response in
    record {
      tx_id = req.tx_id;
      model = model_name req.model_id;
      prompt = req.prompt;
      status = if is_some first then completed else pending;
      sealed = req.private;
      sealed_recipients = req.recipient_count;
      sealed_responses = filter_map sealed_response detail.responses;
      result_cid = Option.map (λ r. r.cid) first;
      result_block_hash = Option.map (λ r. r.result_block_hash) first;
      result_daa_score = Option.map (λ r. r.daa_score) first;
    }

unfoldable pub challenge_row : AiChallengeRec → ChallengeRow
challenge_row c = record { tx_id = c.tx_id; request_hash_hex = c.request_hash }

module _ (d : Deps) where
  unfoldable pub inference_store : Option (IndexerHandle d) → Option (Tables d)
  inference_store indexer = do h ← indexer; h.store

module _ (d : Deps) (faults : ReadFaults) where
  unfoldable pub capabilities : Option (IndexerHandle d) → List CapabilityRow
  capabilities indexer = elim (inference_store d indexer) [
    | none ↦ []
    | some store ↦
        map capability_row (unwrap_or (attempt faults.capabilities (Caps.capabilities d store)) [])
  ]

  unfoldable pub infer : Option (IndexerHandle d) → Option ℕ → Option ℕ → List InferRow
  infer indexer limit offset = elim (inference_store d indexer) [
    | none ↦ []
    | some store ↦
        let feed =
          inference_feed d store (clamp 1 200 (or_default limit 20)) (or_default offset 0) in
        map (λ p. infer_row p.0 p.1) (unwrap_or (attempt faults.inference_feed feed) [])
  ]

  unfoldable pub inference : Option (IndexerHandle d) → Bytes → Result ApiError InferenceRow
  inference indexer tx_id =
      if not (is_txid tx_id)
      then err (bad_request (ascii "transaction id must be 64 hex chars"))
      else elim (require_index d indexer) [
        | err e ↦ err e
        | ok store ↦ elim (query faults.inference_by_tx (inference_by_tx d store tx_id)) [
          | err e ↦ err e
          | ok none ↦
              err (not_found (ascii "inference request not found within the indexer window"))
          | ok (some detail) ↦ ok (inference_row detail)
        ]
      ]

  unfoldable pub challenges : Option (IndexerHandle d) → Option ℕ → List ChallengeRow
  challenges indexer limit = elim (inference_store d indexer) [
    | none ↦ []
    | some store ↦
        let list = Reads.challenges d store (clamp 1 500 (or_default limit 50)) in
        map challenge_row (unwrap_or (attempt faults.challenges list) [])
  ]
