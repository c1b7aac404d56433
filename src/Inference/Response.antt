-- ===== src/Inference/Response.antt =====
-- AiResponse (subnetwork 04): `decode_response`. base58 comes from a crate.
pub mod Bodies
use mathlib.Core.Option
use keryx_api_shim.Base.{
  ℕ, ◌+◌, ◌-◌, ◌*◌, Bool, true, false, ◌&&◌, ◌||◌, Option, none, some, [], Bytes, ltb, leb, ◌==◌,
  if◌then◌else◌, length, drop, get_or, then_some, ◌>>=◌,
}
use keryx_api_shim.Base.Ascii.{slice}
use keryx_api_shim.Base.Words.{from_le_bytes}
use keryx_api_shim.Hex.{to_hex}

abbrev pub response_len : ℕ
response_len = 78

abbrev pub response_v2_len : ℕ
response_v2_len = response_len + 32 + 64

abbrev pub response_ext_private_body : ℕ
response_ext_private_body = 0x80

abbrev pub response_ext_trace : ℕ
response_ext_trace = 0x81

abbrev pub response_trace_len : ℕ
response_trace_len = 32 + 4 + 4 + 1

abbrev pub response_trace_tokens_len : ℕ
response_trace_tokens_len = response_trace_len + 32

abbrev pub response_ext_header_len : ℕ
response_ext_header_len = 1 + 4

abbrev pub max_response_private_body_len : ℕ
max_response_private_body_len = 48 * 1024

pub record AiResponse : Type 0 where
  pub request_hash : Bytes
  pub challenge_window_end : ℕ
  pub cid : Bytes
  pub response_length : ℕ
  pub responder_pubkey : Option Bytes
  pub private_body : Option Bytes

unfoldable pub is_trace_extension : Bytes → Bool
is_trace_extension ext =
    let n = length ext - response_ext_header_len in
    ltb response_ext_header_len (length ext)
    && get_or ext 0 0 == response_ext_trace
    && from_le_bytes (slice 1 5 ext) == n
    && (n == response_trace_len || n == response_trace_tokens_len)

-- `s.get(a..)`
unfoldable pub get_from : ℕ → Bytes → Option Bytes
get_from a s = if leb a (length s) then some (drop a s) else none

-- `s.get(a..b)`
unfoldable pub get_range : ℕ → ℕ → Bytes → Option Bytes
get_range a b s = if leb a b && leb b (length s) then some (slice a b s) else none

-- The closure of `and_then`: the body of an extension that accounts for every byte. The sum of a
-- `u32` and 5 fits a `usize`, so `checked_add` gives it.
unfoldable pub extension_body : Bytes → Option Bytes
extension_body ext = do
  let len = from_le_bytes (slice 1 5 ext)
  body ← get_range response_ext_header_len (response_ext_header_len + len) ext
  let rest = drop (response_ext_header_len + len) ext
  then_some (leb len max_response_private_body_len && (length rest == 0 || is_trace_extension rest))
      body

-- `filter`: an extension that has the private body's kind.
unfoldable pub has_body_kind : Bytes → Bool
has_body_kind ext =
    ltb response_ext_header_len (length ext) && get_or ext 0 0 == response_ext_private_body

unfoldable pub inline_body : Bytes → Option Bytes
inline_body payload = do
  ext ← get_from response_v2_len payload
  if has_body_kind ext then extension_body ext else none

module _ (base58 : Bytes → Bytes) where
  unfoldable pub decode_response : Bytes → Option AiResponse
  decode_response payload =
      if ltb (length payload) response_len
      then none
      else some (record {
        request_hash = to_hex (slice 0 32 payload);
        challenge_window_end = from_le_bytes (slice 32 40 payload);
        cid = base58 (slice 40 74 payload);
        response_length = from_le_bytes (slice 74 78 payload);
        responder_pubkey =
            then_some (leb response_v2_len (length payload)) (to_hex (slice 78 110 payload));
        private_body = inline_body payload;
      })
