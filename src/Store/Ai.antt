-- ===== src/Store/Ai.antt =====
-- The AI inference rows that `Store::apply` extracts from a transaction (`SUBNET_AI_REQUEST`,
-- `SUBNET_AI_RESPONSE`, `SUBNET_AI_CHALLENGE`, coinbase capability markers).
pub mod Joins
use keryx_api_shim.Base.{
  ℕ, zero, ◌+◌, Bool, true, false, ◌&&◌, not, Option, none, some, List, [], ◌∷◌, Bytes, ◌==◌,
  if◌then◌else◌, bytes_eq, get_elem?, is_some, or_default, or_else, ascii, ◌>>=◌,
}
use keryx_api_shim.Base.Words.{add64}
use keryx_api_shim.Hex.{from_hex}
use keryx_api_shim.Inference.Identity.{request_hash, request_identity}
use keryx_api_shim.Inference.Request.{AiRequest, decode_request}
use keryx_api_shim.Inference.Response.{AiResponse, decode_response}
use keryx_api_shim.Inference.Challenge.{AiChallenge, decode_challenge}
use keryx_api_shim.Inference.Markers.{parse_ai_caps, parse_escrow_pubkey}
use keryx_api_shim.Inference.Scripts.{is_inference_vault, p2pk_pubkey, csv_escrow_pubkey}
use keryx_api_shim.Store.Types.{
  RawOut, RawTx, AcceptedGroup, AiRequestRec, AiResponseRec, AiChallengeRec, Compat, current,
  legacy,
}
use keryx_api_shim.Store.Keys.{resp_list_key, caps_key}
use keryx_api_shim.Store.Tables.{Deps, TextTable, AiTables}

abbrev pub subnet_ai_request : Bytes
subnet_ai_request = ascii "0300000000000000000000000000000000000000"

abbrev pub subnet_ai_response : Bytes
subnet_ai_response = ascii "0400000000000000000000000000000000000000"

abbrev pub subnet_ai_challenge : Bytes
subnet_ai_challenge = ascii "0500000000000000000000000000000000000000"

-- `escrow.is_some_and(...)`: `outputs[1]` is the reward vault of a routed request.
unfoldable pub is_routed : Option RawOut → Bool
is_routed none = false
is_routed (some o) = o.script_version == 0 && is_inference_vault o.script_public_key

-- `escrow.filter(|_| !routed).and_then(...)`
unfoldable pub target_miner : Option RawOut → Bool → Option Bytes
target_miner none routed = none
target_miner (some o) routed = if routed then none else csv_escrow_pubkey o.script_public_key

-- The AI tables with the two sequence counters of the `apply` call.
pub record AiState (d : Deps) : Type 0 where
  pub tables : AiTables d
  pub ai_req_seq : ℕ
  pub ai_chal_seq : ℕ

unfoldable pub request_rec : RawTx → AcceptedGroup → AiRequest → Bytes → Option Bytes → AiRequestRec
request_rec raw group req rhash miner_pubkey = record {
  tx_id = raw.tx_id;
  model_id = req.model_id;
  max_tokens = req.max_tokens;
  inference_reward = req.inference_reward;
  priority_fee = req.priority_fee;
  prompt = req.prompt;
  daa_score = group.daa_score;
  block_hash = group.chain_block_hash;
  request_hash = rhash;
  miner_pubkey = miner_pubkey;
  private = req.private;
  recipient_count = req.recipient_count;
}

unfoldable pub response_rec : RawTx → AcceptedGroup → AiResponse → AiResponseRec
response_rec raw group resp = record {
  cid = resp.cid;
  result_block_hash = group.chain_block_hash;
  response_length = resp.response_length;
  daa_score = group.daa_score;
  tx_id = some raw.tx_id;
  responder_pubkey = resp.responder_pubkey;
  inline_body = is_some resp.private_body;
}

module _ (d : Deps) where
  open d.db use {nums, texts}

  -- The rows of a decoded request, unless its identity is indexed already.
  unfoldable pub insert_request :
      RawTx → AcceptedGroup → AiRequest → Bytes → Option Bytes → AiState d → AiState d
  insert_request raw group req rhash miner_pubkey s =
      let t = s.tables in
      let rec = request_rec raw group req rhash miner_pubkey in
      elim (texts.get t.ai_req_by_hash rhash) [
        | some _ ↦ s
        | none ↦ record s {
          tables = record t {
            ai_req = nums.insert t.ai_req s.ai_req_seq (current rec);
            ai_req_by_hash =
                texts.insert (texts.insert t.ai_req_by_hash rhash s.ai_req_seq) raw.tx_id
                  s.ai_req_seq;
          };
          ai_req_seq = add64 s.ai_req_seq 1;
        }
      ]

  unfoldable pub index_request : RawTx → AcceptedGroup → AiState d → AiState d
  index_request raw group s = elim (from_hex raw.payload) [
    | none ↦ s
    | some bytes ↦ elim (decode_request bytes) [
      | none ↦ s
      | some req ↦
          let escrow = get_elem? raw.outputs 1 in
          let routed = is_routed escrow in
          insert_request raw group req (request_identity d.blake2b raw.tx_id bytes routed)
            (target_miner escrow routed) s
    ]
  ]

  -- The rows of a decoded response: listed always, summarised if it is the first.
  unfoldable pub insert_response :
      RawTx → AcceptedGroup → ℕ → Bytes → AiResponse → AiState d → AiState d
  insert_response raw group tx_num resp_hash resp s =
      let t = s.tables in
      record s {
        tables = record t {
          ai_resp_list = texts.insert t.ai_resp_list (resp_list_key resp.request_hash tx_num) tt;
          ai_resp = elim (texts.get t.ai_resp resp.request_hash) [
            | some _ ↦ t.ai_resp
            | none ↦
                texts.insert t.ai_resp resp.request_hash (current (response_rec raw group resp))
          ];
          ai_resp_hash = texts.insert t.ai_resp_hash resp_hash resp.request_hash;
        };
      }

  unfoldable pub index_response : RawTx → AcceptedGroup → ℕ → AiState d → AiState d
  index_response raw group tx_num s = elim (from_hex raw.payload) [
    | none ↦ s
    | some bytes ↦ elim (decode_response d.base58 bytes) [
      | none ↦ s
      | some resp ↦ insert_response raw group tx_num (request_hash d.blake2b bytes) resp s
    ]
  ]

  unfoldable pub insert_challenge : RawTx → AcceptedGroup → AiChallenge → AiState d → AiState d
  insert_challenge raw group chal s =
      let t = s.tables in
      let found = texts.get t.ai_resp_hash chal.response_hash in
      let rec : AiChallengeRec = record {
        tx_id = raw.tx_id;
        request_hash = or_default (or_else chal.request_hash found) [];
        daa_score = group.daa_score;
      } in
      record s {
        tables = record t { ai_chal = nums.insert t.ai_chal s.ai_chal_seq rec };
        ai_chal_seq = add64 s.ai_chal_seq 1;
      }

  unfoldable pub index_challenge : RawTx → AcceptedGroup → AiState d → AiState d
  index_challenge raw group s = elim (from_hex raw.payload) [
    | none ↦ s
    | some bytes ↦ elim (decode_challenge bytes) [
      | none ↦ s
      | some chal ↦ insert_challenge raw group chal s
    ]
  ]

  unfoldable pub insert_caps : Bytes → ℕ → List Bytes → TextTable d ℕ → TextTable d ℕ
  insert_caps pk daa [] t = t
  insert_caps pk daa (model_id ∷ models) t =
      insert_caps pk daa models (texts.insert t (caps_key model_id pk) daa)

  -- The miner's key: the escrow marker, or the first output's P2PK script.
  unfoldable pub coinbase_pubkey : RawTx → Bytes → Option Bytes
  coinbase_pubkey raw bytes =
      or_else (parse_escrow_pubkey bytes)
        (do o ← get_elem? raw.outputs 0; p2pk_pubkey o.script_public_key)

  unfoldable pub index_caps : RawTx → AcceptedGroup → AiState d → AiState d
  index_caps raw group s = elim (from_hex raw.payload) [
    | none ↦ s
    | some bytes ↦ elim (parse_ai_caps bytes) [
      | [] ↦ s
      | model_id ∷ models ↦ elim (coinbase_pubkey raw bytes) [
        | none ↦ s
        | some pk ↦ record s {
          tables = record (s.tables) {
            ai_caps = insert_caps pk group.daa_score (model_id ∷ models) s.tables.ai_caps;
          };
        }
      ]
    ]
  ]

  -- The `match` on the subnetwork, then the coinbase markers.
  unfoldable pub index_ai : RawTx → AcceptedGroup → ℕ → AiState d → AiState d
  index_ai raw group tx_num s =
      let s' =
        if bytes_eq raw.subnetwork_id subnet_ai_request
        then index_request raw group s
        else if bytes_eq raw.subnetwork_id subnet_ai_response
        then index_response raw group tx_num s
        else if bytes_eq raw.subnetwork_id subnet_ai_challenge
        then index_challenge raw group s
        else s in
      if raw.is_coinbase then index_caps raw group s' else s'
