-- ===== src/Store/Keys.antt =====
-- The composite keys of the store: byte strings with a separator that no address or id contains.
pub mod Bounds
use keryx_api_shim.Base.{ℕ, ◌-◌, List, [], ◌∷◌, ◌++◌, Bytes, length, drop, take, replicate}
use keryx_api_shim.Base.Words.{to_be_bytes, from_le_bytes}
use mathlib.Core.List.{reverse}

-- `u64::from_be_bytes`
unfoldable pub from_be_bytes : Bytes → ℕ
from_be_bytes s = from_le_bytes (reverse s)

unfoldable pub outpoint_key : Bytes → ℕ → Bytes
outpoint_key txid index = txid ++ (0xFF ∷ to_be_bytes 4 index)

unfoldable pub hist_key : Bytes → ℕ → Bytes
hist_key addr tx_num = addr ++ (0xFF ∷ to_be_bytes 8 tx_num)

unfoldable pub hist_bounds : Bytes → Bytes × Bytes
hist_bounds addr = (addr ++ (0xFF ∷ replicate 8 0), addr ++ (0xFF ∷ replicate 8 0xFF))

unfoldable pub chain_key : ℕ → Bytes → Bytes
chain_key daa hash = to_be_bytes 8 daa ++ hash

unfoldable pub resp_list_key : Bytes → ℕ → Bytes
resp_list_key request_hash tx_num = hist_key request_hash tx_num

unfoldable pub resp_list_bounds : Bytes → Bytes × Bytes
resp_list_bounds request_hash = hist_bounds request_hash

-- `key[key.len() - 8..]`
unfoldable pub resp_list_tx_num : Bytes → ℕ
resp_list_tx_num key = from_be_bytes (drop (length key - 8) key)

unfoldable pub caps_key : Bytes → Bytes → Bytes
caps_key model_id pubkey = model_id ++ (0xFF ∷ pubkey)
