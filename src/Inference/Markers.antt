-- ===== src/Inference/Markers.antt =====
-- The coinbase markers: `parse_ai_caps`, `parse_escrow_pubkey`.
use keryx_api_shim.Base.{
  ◌+◌, Bool, ◌&&◌, Option, none, some, List, [], ◌∷◌, map, Bytes, ◌==◌, if◌then◌else◌, length, take,
  drop, min, all, ascii, then_some, ◌>>=◌,
}
use keryx_api_shim.Base.Ascii.{to_ascii_lowercase, is_ascii_hexdigit, find, position_or_end, split}
use keryx_api_shim.Utf8.{is_utf8}
use keryx_api_shim.Utf8.Trim.{trim}

abbrev caps_marker : Bytes
caps_marker = ascii "/ai:cap:"

abbrev escrow_marker : Bytes
escrow_marker = ascii "/escrow:"

-- 64 hex digits
unfoldable pub is_hex64 : Bytes → Bool
is_hex64 s = length s == 64 && all is_ascii_hexdigit s

unfoldable pub keep_hex64 : List Bytes → List Bytes
keep_hex64 [] = []
keep_hex64 (s ∷ l) = if is_hex64 s then s ∷ keep_hex64 l else keep_hex64 l

-- The part of `parse_ai_caps` after the marker was found.
unfoldable pub caps_list : Bytes → List Bytes
caps_list rest =
    let list = take (position_or_end b'/' rest) rest in
    if is_utf8 list
    then keep_hex64 (map (λ s. to_ascii_lowercase (trim s)) (split b',' list))
    else []

unfoldable pub parse_ai_caps : Bytes → List Bytes
parse_ai_caps payload = elim (find caps_marker payload) [
  | none ↦ []
  | some start ↦ caps_list (drop (start + 8) payload)
]

unfoldable pub parse_escrow_pubkey : Bytes → Option Bytes
parse_escrow_pubkey payload = do
  start ← find escrow_marker payload
  let rest = drop (start + 8) payload
  let end = min (length rest) 64
  let hex = to_ascii_lowercase (take end rest)
  if is_utf8 (take end rest) then then_some (is_hex64 hex) hex else none
