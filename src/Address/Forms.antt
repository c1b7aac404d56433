-- ===== src/Address/Forms.antt =====
-- The standard script forms, and the addresses they are attributed to.
use Prim.Native.Nat.{ℕ, zero, suc}
use keryx_api_shim.Base.{
  ◌≡◌, refl, some, [], ◌∷◌, ◌++◌, Bytes, length, length-append, take, get_or, All, All-append,
  arith,
}
use keryx_api_shim.Base.Slices.{take_part}
use keryx_api_shim.Base.Words.{IsByte}
use keryx_api_shim.Hex.{to_hex, from_hex}
use keryx_api_shim.Hex.RoundTrip.{from_hex-to_hex}
use keryx_api_shim.Address.{
  encode_address, single_push, hashed_push, script_form, hex_to_bytes, script_to_address,
}

get_or_last : (xs : Bytes) (x n : ℕ) → length xs ≡ n → get_or (xs ++ x ∷ []) n 0 ≡ x
get_or_last [] x zero h = refl
get_or_last [] x (suc n) h = absurd (omega arith)
get_or_last (y ∷ xs) x zero h = absurd (omega arith)
get_or_last (y ∷ xs) x (suc n) h = get_or_last xs x n (omega arith)

-- `rest`, between two opcodes or behind three.
slice_inner : (rest : Bytes) (last n : ℕ) → length rest ≡ n → take n (rest ++ last ∷ []) ≡ rest
slice_inner rest last n h = take_part rest (last ∷ []) n h

script_form_p2pk :
    (key : Bytes) → length key ≡ 32 → script_form (0x20 ∷ key ++ 0xac ∷ []) ≡ some (0, key)
unfolding script_form single_push
script_form_p2pk key h = ground (
  arith,
  length-append {0} key (0xac ∷ []),
  h,
  get_or_last key 0xac 32 h,
  slice_inner key 0xac 32 h,
)

script_form_ecdsa :
    (key : Bytes) → length key ≡ 33 → script_form (0x21 ∷ key ++ 0xab ∷ []) ≡ some (1, key)
unfolding script_form single_push
script_form_ecdsa key h = ground (
  arith,
  length-append {0} key (0xab ∷ []),
  h,
  get_or_last key 0xab 33 h,
  slice_inner key 0xab 33 h,
)

script_form_p2sh :
    (hash : Bytes)
    → length hash ≡ 32
    → script_form (0xaa ∷ 0x20 ∷ hash ++ 0x87 ∷ []) ≡ some (8, hash)
unfolding script_form single_push hashed_push
script_form_p2sh hash h = ground (
  arith,
  length-append {0} hash (0x87 ∷ []),
  h,
  get_or_last hash 0x87 32 h,
  slice_inner hash 0x87 32 h,
)

script_to_address-to_hex :
    (script : Bytes) (version : ℕ) (payload prefix : Bytes)
    → All IsByte script
    → script_form script ≡ some (version, payload)
    → script_to_address (to_hex script) prefix ≡ some (encode_address version payload prefix)
unfolding script_to_address
script_to_address-to_hex script version payload prefix b h =
    let bytes : hex_to_bytes (to_hex script) ≡ some script =
      unfold hex_to_bytes from_hex in from_hex-to_hex script b in
    rw (bytes, h) refl

-- The three standard scripts, of a 32-byte key, a 33-byte key and a 32-byte hash, in hex, are
-- attributed to the address that encodes their payload under version 0, 1 or 8.
pub script_to_address_standard :
    (key32 key33 prefix : Bytes)
    → length key32 ≡ 32
    → length key33 ≡ 33
    → All IsByte key32
    → All IsByte key33
    → (script_to_address (to_hex (0x20 ∷ key32 ++ 0xac ∷ [])) prefix
        ≡ some (encode_address 0 key32 prefix))
      × (script_to_address (to_hex (0x21 ∷ key33 ++ 0xab ∷ [])) prefix
          ≡ some (encode_address 1 key33 prefix))
      × (script_to_address (to_hex (0xaa ∷ 0x20 ∷ key32 ++ 0x87 ∷ [])) prefix
          ≡ some (encode_address 8 key32 prefix))
script_to_address_standard key32 key33 prefix h k b c = (
  script_to_address-to_hex _ 0 key32 prefix
      (omega arith, All-append IsByte key32 (0xac ∷ []) b (omega arith, tt))
      (script_form_p2pk key32 h),
  script_to_address-to_hex _ 1 key33 prefix
      (omega arith, All-append IsByte key33 (0xab ∷ []) c (omega arith, tt))
      (script_form_ecdsa key33 k),
  script_to_address-to_hex _ 8 key32 prefix
      (omega arith, (omega arith, All-append IsByte key32 (0x87 ∷ []) b (omega arith, tt)))
      (script_form_p2sh key32 h),
)
