-- ===== src/Inference/Challenge.antt =====
-- AiChallenge (subnetwork 05): `decode_challenge`.
use keryx_api_shim.Base.{ℕ, ◌+◌, Option, none, some, Bytes, ltb, leb, if◌then◌else◌, length}
use keryx_api_shim.Base.Ascii.{slice}
use keryx_api_shim.Hex.{to_hex}

abbrev pub min_challenge_len : ℕ
min_challenge_len = 74

pub record AiChallenge : Type 0 where
  pub response_hash : Bytes
  pub request_hash : Option Bytes

unfoldable pub decode_challenge : Bytes → Option AiChallenge
decode_challenge payload =
    if ltb (length payload) min_challenge_len
    then none
    else some (record {
      response_hash = to_hex (slice 0 32 payload);
      request_hash =
          if leb (min_challenge_len + 32) (length payload)
          then some (to_hex (slice 74 106 payload))
          else none;
    })
