-- ===== src/Inference/Request.antt =====
-- AiRequest (subnetwork 03): `decode_request`.
pub mod Layout
use keryx_api_shim.Base.{ℕ, Bool, Option, none, some, [], Bytes, ltb, if◌then◌else◌, length, drop}
use keryx_api_shim.Base.Ascii.{slice}
use keryx_api_shim.Base.Words.{from_le_bytes}
use keryx_api_shim.Hex.{to_hex}
use keryx_api_shim.Utf8.{from_utf8_lossy}
use keryx_api_shim.Inference.Private.{is_private, private_recipient_count}

abbrev pub min_request_len : ℕ
min_request_len = 52

pub record AiRequest : Type 0 where
  pub model_id : Bytes
  pub max_tokens : ℕ
  pub inference_reward : ℕ
  pub priority_fee : ℕ
  pub prompt : Bytes
  pub private : Bool
  pub recipient_count : Option ℕ

unfoldable pub decode_request : Bytes → Option AiRequest
decode_request payload =
    let prompt = drop 52 payload in
    let private = is_private prompt in
    if ltb (length payload) min_request_len
    then none
    else some (record {
      model_id = to_hex (slice 0 32 payload);
      max_tokens = from_le_bytes (slice 32 36 payload);
      inference_reward = from_le_bytes (slice 36 44 payload);
      priority_fee = from_le_bytes (slice 44 52 payload);
      prompt = if private then [] else from_utf8_lossy prompt;
      private = private;
      recipient_count = if private then private_recipient_count prompt else none;
    })
