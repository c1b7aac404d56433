-- ===== src/Inference/Scripts.antt =====
-- The scripts that name a miner or the reward vault: `is_inference_vault`, `p2pk_pubkey` and
-- `csv_escrow_pubkey`.
pub mod Forms
use keryx_api_shim.Base.{
  ℕ, ◌+◌, ◌-◌, Bool, ◌&&◌, ◌||◌, not, Option, none, some, List, [], ◌∷◌, Bytes, ltb, leb, ◌==◌,
  if◌then◌else◌, length, take, drop, get_or, ascii, then_some, ◌>>=◌,
}
use keryx_api_shim.Base.Ascii.{slice, eq_ignore_ascii_case}
use keryx_api_shim.Hex.{to_hex, from_hex}

abbrev pub inference_vault_script_hex : Bytes
inference_vault_script_hex = ascii "6a0761697661756c74"

unfoldable pub is_inference_vault : Bytes → Bool
is_inference_vault script_hex = eq_ignore_ascii_case script_hex inference_vault_script_hex

-- The slice pattern `[first, rest @ .., last]`: `rest`, where the ends match.
unfoldable pub between : ℕ → ℕ → Bytes → Option Bytes
between first last s =
    if leb 2 (length s) && get_or s 0 0 == first && get_or s (length s - 1) 0 == last
    then some (slice 1 (length s - 1) s)
    else none

unfoldable pub p2pk_pubkey : Bytes → Option Bytes
p2pk_pubkey script_hex = do
  bytes ← from_hex script_hex
  key ← between 0x20 0xac bytes
  if length key == 32 then some (to_hex key) else none

-- The checks of `csv_escrow_pubkey` on the script's bytes.
unfoldable pub csv_escrow_key : Bytes → Option Bytes
csv_escrow_key b =
    let seq_len = get_or b 0 0 in
    if ltb (length b) 37
    then none
    else if not (leb 1 seq_len && leb seq_len 8) || not (length b == seq_len + 36)
    then none
    else if not (get_or b (seq_len + 1) 0 == 0xb1)
        || not (get_or b (seq_len + 2) 0 == 0x20)
        || not (get_or b (length b - 1) 0 == 0xac)
    then none
    else some (to_hex (slice (seq_len + 3) (seq_len + 35) b))

unfoldable pub csv_escrow_pubkey : Bytes → Option Bytes
csv_escrow_pubkey script_hex = do b ← from_hex script_hex; csv_escrow_key b
