-- ===== src/Inference/Private.antt =====
-- Private inference (H14): `is_private` and `private_recipient_count`.
pub mod Recipients
use keryx_api_shim.Base.{
  ℕ, zero, suc, ◌+◌, ◌-◌, ◌*◌, ◌/◌, Bool, true, false, not, ◌&&◌, ◌||◌, Option, none, some, List,
  [], ◌∷◌, map, Bytes, ltb, ◌==◌, if◌then◌else◌, length, take, drop, get_or, then_some,
}
use keryx_api_shim.Base.Ascii.{starts_with, slice}
use keryx_api_shim.Redb.Order.{lt_bytes}

abbrev pub private_magic : Bytes
private_magic = 0x00 ∷ b'K' ∷ b'X' ∷ b'P' ∷ []

abbrev pub private_version : ℕ
private_version = 1

abbrev pub max_private_recipients : ℕ
max_private_recipients = 128

abbrev pub private_request_header_len : ℕ
private_request_header_len = 4 + 1 + 33 + 12 + 1

abbrev pub private_recipient_entry_len : ℕ
private_recipient_entry_len = 32 + 48

abbrev pub private_tag_len : ℕ
private_tag_len = 16

unfoldable pub is_private : Bytes → Bool
is_private bytes = starts_with private_magic bytes

-- `n` chunks of `size` bytes.
unfoldable pub chunks : ℕ → ℕ → Bytes → List Bytes
chunks zero size s = []
chunks (suc n) size s = take size s ∷ chunks n size (drop size s)

-- `s.as_chunks::<size>().0`: the whole chunks.
unfoldable pub as_chunks : ℕ → Bytes → List Bytes
as_chunks size s = chunks (length s / size) size s

-- `keys.clone().zip(keys.skip(1)).all(|(a, b)| a < b)`
unfoldable pub ascending_keys : List Bytes → Bool
ascending_keys [] = true
ascending_keys (k ∷ []) = true
ascending_keys (j ∷ k ∷ ks) = lt_bytes j k && ascending_keys (k ∷ ks)

-- The recipients' keys of an envelope that names `n` of them.
unfoldable pub recipient_keys : ℕ → Bytes → List Bytes
recipient_keys n prompt =
    let entries_end = private_request_header_len + n * private_recipient_entry_len in
    map (take 32)
      (as_chunks private_recipient_entry_len (slice private_request_header_len entries_end prompt))

unfoldable pub private_recipient_count : Bytes → Option ℕ
private_recipient_count prompt =
    if not (is_private prompt)
      || ltb (length prompt) private_request_header_len
      || not (get_or prompt 4 0 == private_version)
    then none
    else (let n = get_or prompt (private_request_header_len - 1) 0 in
        if n == 0 || ltb max_private_recipients n
        then none
        else if ltb (length prompt)
            (private_request_header_len + n * private_recipient_entry_len + private_tag_len)
        then none
        else then_some (ascending_keys (recipient_keys n prompt)) n)
