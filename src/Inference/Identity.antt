-- ===== src/Inference/Identity.antt =====
-- `request_hash` and `request_identity`. The BLAKE2b-512 digest comes from a crate.
use keryx_api_shim.Base.{Bool, Bytes, take, if◌then◌else◌}
use keryx_api_shim.Hex.{to_hex}

module _ (blake2b : Bytes → Bytes) where
  unfoldable pub request_hash : Bytes → Bytes
  request_hash payload = to_hex (take 32 (blake2b payload))

  unfoldable pub request_identity : Bytes → Bytes → Bool → Bytes
  request_identity tx_id payload routed = if routed then tx_id else request_hash payload
