-- ===== src/Tests/Codec.antt =====
-- Runs of the codecs on concrete payloads.
use keryx_api_shim.Inference.Scripts.{csv_escrow_pubkey}
use keryx_api_shim.Inference.Scripts.Forms.{csv_escrow_script, csv_escrow_pubkey-csv_escrow_script}
use keryx_api_shim.Inference.Response.Bodies.{Carries, inline_body-Carries}
use keryx_api_shim.Base.{◌≤◌, length, drop}
use keryx_api_shim.Base.{
  none, bytes_eq, ◌≡◌, refl, true, [], ◌∷◌, ◌++◌, some, Bytes, ascii, arith, if◌then◌else◌, inl,
  All, replicate,
}
use keryx_api_shim.Base.Words.{IsByte}
use keryx_api_shim.Address.Owner.{script_to_address_inj}
use keryx_api_shim.Address.{
  hex_to_bytes, script_form, single_push, encode_address, script_to_address,
}
use keryx_api_shim.Address.Forms.{script_to_address_standard}
use keryx_api_shim.Hex.{
  to_hex, from_hex, from_hex_panics, hex_pairs, byte_of_hex, hex_value, pairs_panic,
}
use keryx_api_shim.Inference.Private.{
  private_magic, as_chunks, chunks, ascending_keys, is_private, recipient_keys,
  private_recipient_count,
}
use keryx_api_shim.Base.Ascii.{eq_ignore_ascii_case, to_ascii_lowercase, to_lower, starts_with}
use keryx_api_shim.Redb.Order.{lt_bytes}
use keryx_api_shim.Inference.Request.{decode_request}
use keryx_api_shim.Inference.Request.Layout.{encode_request, decode_request-encode_request}
use keryx_api_shim.Inference.Response.{inline_body}
use keryx_api_shim.Inference.Response.Bodies.{encode_extension, inline_body-encode_extension}
use keryx_api_shim.Inference.Scripts.{is_inference_vault}
use keryx_api_shim.Utf8.{from_utf8_lossy, is_utf8, valid_loop, next_chunk}
use keryx_api_shim.Utf8.Lossy.{from_utf8_lossy_valid}
use keryx_api_shim.Tests.Data.{prefix, p2pk_hex, key32}

abbrev key33 : Bytes
key33 = replicate 33 2

key32-IsByte : All IsByte key32
key32-IsByte = grind arith

key33-IsByte : All IsByte key33
key33-IsByte = grind arith

abbrev two_bytes : Bytes
two_bytes = 0 ∷ 171 ∷ []

decodes : from_hex (ascii "00aB") ≡ some two_bytes
unfolding from_hex hex_pairs byte_of_hex hex_value
decodes = refl

-- The text "1é2": three characters in four bytes.
abbrev split_text : Bytes
split_text = 49 ∷ 195 ∷ 169 ∷ 50 ∷ []

split_text_panics : from_hex_panics split_text ≡ true
unfolding from_hex_panics pairs_panic byte_of_hex hex_value
split_text_panics = refl

-- The script of the key in capital hex digits.
abbrev capitals : Bytes
capitals = ascii "200707070707070707070707070707070707070707070707070707070707070707AC"

capitals_address : script_to_address capitals prefix ≡ some (encode_address 0 key32 prefix)
unfolding script_to_address hex_to_bytes hex_pairs byte_of_hex hex_value script_form single_push
capitals_address = refl

p2pk_address : script_to_address p2pk_hex prefix ≡ some (encode_address 0 key32 prefix)
unfolding script_to_address hex_to_bytes hex_pairs byte_of_hex hex_value script_form single_push
p2pk_address = refl

script_to_address_inj_example : hex_to_bytes capitals ≡ hex_to_bytes p2pk_hex
script_to_address_inj_example =
    script_to_address_inj capitals p2pk_hex prefix (encode_address 0 key32 prefix) capitals_address
      p2pk_address

script_to_address_standard_example :
    (script_to_address (to_hex (0x20 ∷ key32 ++ 0xac ∷ [])) (ascii "keryx")
      ≡ some (encode_address 0 key32 (ascii "keryx")))
    × (script_to_address (to_hex (0x21 ∷ key33 ++ 0xab ∷ [])) (ascii "keryx")
        ≡ some (encode_address 1 key33 (ascii "keryx")))
    × (script_to_address (to_hex (0xaa ∷ 0x20 ∷ key32 ++ 0x87 ∷ [])) (ascii "keryx")
        ≡ some (encode_address 8 key32 (ascii "keryx")))
script_to_address_standard_example =
    script_to_address_standard key32 key33 (ascii "keryx") refl refl key32-IsByte key33-IsByte

decode_request-encode_request_example :
    decode_request (encode_request key32 16 500 3 (ascii "hi"))
    ≡ some (record {
      model_id = to_hex key32;
      max_tokens = 16;
      inference_reward = 500;
      priority_fee = 3;
      prompt = if is_private (ascii "hi") then [] else from_utf8_lossy (ascii "hi");
      private = is_private (ascii "hi");
      recipient_count =
          if is_private (ascii "hi") then private_recipient_count (ascii "hi") else none;
    })
decode_request-encode_request_example =
    decode_request-encode_request key32 16 500 3 (ascii "hi") refl (omega arith) (omega arith)
      (omega arith)

abbrev head : Bytes
head = replicate 174 1

inline_body-encode_extension_example :
    inline_body (head ++ encode_extension (ascii "sealed") []) ≡ some (ascii "sealed")
inline_body-encode_extension_example =
    inline_body-encode_extension head (ascii "sealed") [] refl (omega arith) (omega arith)
      (inl refl)

carried : inline_body (head ++ encode_extension (ascii "sealed") []) ≡ some (ascii "sealed")
carried =
    inline_body-encode_extension head (ascii "sealed") [] refl (omega arith) (omega arith)
      (inl refl)

-- An envelope for the two responders whose keys are 32 bytes of 1 and 32 bytes of 2.
abbrev envelope : Bytes
envelope =
    private_magic
    ++ (1 ∷ (replicate 45 0 ++ (2 ∷ (replicate 80 1 ++ (replicate 80 2 ++ replicate 16 0)))))

envelope_counts : private_recipient_count envelope ≡ some 2
unfolding private_recipient_count is_private starts_with recipient_keys as_chunks chunks
    ascending_keys lt_bytes bytes_eq
envelope_counts = refl

-- The text "hé".
abbrev text : Bytes
text = 104 ∷ 195 ∷ 169 ∷ []

text-is_utf8 : is_utf8 text ≡ true
unfolding is_utf8 valid_loop next_chunk
text-is_utf8 = refl

from_utf8_lossy_valid_example : from_utf8_lossy text ≡ text
from_utf8_lossy_valid_example = from_utf8_lossy_valid text text-is_utf8

abbrev vault : Bytes
vault = ascii "6A0761697661756c74"

vault_named : is_inference_vault vault ≡ true
unfolding is_inference_vault eq_ignore_ascii_case to_ascii_lowercase to_lower bytes_eq
vault_named = refl

inline_body-Carries_example :
    (174 ≤ length (head ++ encode_extension (ascii "sealed") []))
    × Carries (drop 174 (head ++ encode_extension (ascii "sealed") [])) (ascii "sealed")
inline_body-Carries_example =
    inline_body-Carries (head ++ encode_extension (ascii "sealed") []) (ascii "sealed") carried

csv_escrow_pubkey-csv_escrow_script_example :
    csv_escrow_pubkey (to_hex (csv_escrow_script (0xa0 ∷ 0x8c ∷ 0 ∷ []) key32))
    ≡ some (to_hex key32)
csv_escrow_pubkey-csv_escrow_script_example =
    csv_escrow_pubkey-csv_escrow_script (0xa0 ∷ 0x8c ∷ 0 ∷ []) key32 (omega arith) (omega arith)
      refl (omega arith, (omega arith, (omega arith, tt))) key32-IsByte
