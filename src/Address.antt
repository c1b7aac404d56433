-- ===== src/Address.antt =====
-- `src/indexer/address.rs`: the cashaddr-style codec that attributes scripts to addresses.
pub mod Words
pub mod Forms
pub mod Distinct
pub mod Owner
use keryx_api_shim.Base.{
  ℕ, zero, suc, ◌+◌, ◌-◌, ◌*◌, ◌/◌, ◌%◌, ◌^◌, Bool, true, false, ◌&&◌, ◌||◌, Option, none, some,
  List, [], ◌∷◌, ◌++◌, map, Bytes, ltb, leb, ◌==◌, if◌then◌else◌, length, take, get_or, replicate,
  ascii, is_some, ◌>>=◌,
}
use Prim.Native.Nat.{bit_xor}
use keryx_api_shim.Base.Ascii.{slice, to_ascii_lowercase, find}
use keryx_api_shim.Base.Words.{to_be_bytes}
use keryx_api_shim.Hex.{hex_pairs}

abbrev pub charset : Bytes
charset = ascii "qpzry9x8gf2tvdw0s3jn54khce6mua7l"

unfoldable pub prefix_for_network : Bytes → Bytes
prefix_for_network network_name =
    let n = to_ascii_lowercase network_name in
    if is_some (find (ascii "mainnet") n)
    then ascii "keryx"
    else if is_some (find (ascii "testnet") n)
    then ascii "keryxtest"
    else if is_some (find (ascii "devnet") n)
    then ascii "keryxdev"
    else ascii "keryxsim"

-- The inner `while bits >= 5`: the words that it pushes and the bits that are left. One unit of
-- fuel for each bit is more than the rounds taken.
unfoldable pub emit_words : ℕ → ℕ → ℕ → Bytes × ℕ
emit_words zero acc bits = ([], bits)
emit_words (suc fuel) acc bits =
    let bits' = bits - 5 in
    let rest = emit_words fuel acc bits' in
    if leb 5 bits then ((acc / 2 ^ bits' % 32) ∷ rest.0, rest.1) else ([], bits)

-- The outer loop. `acc` is a `u32`; the shift drops what leaves it, and the eight bits that it
-- clears take the byte, so that `|` adds.
unfoldable pub to_words_loop : ℕ → ℕ → Bytes → Bytes
to_words_loop acc bits [] = if ltb 0 bits then (acc * 2 ^ (5 - bits) % 32) ∷ [] else []
to_words_loop acc bits (b ∷ bytes) =
    let acc' = acc * 256 % 2 ^ 32 + b in
    let (words, bits') = emit_words (bits + 8) acc' (bits + 8) in
    words ++ to_words_loop acc' bits' bytes

unfoldable pub to_words : Bytes → Bytes
to_words bytes = to_words_loop 0 0 bytes

abbrev pub generators : List ℕ
generators = 0x98f2bc8e61 ∷ 0x79b76d99e2 ∷ 0xf33e5fb3c4 ∷ 0xae2eabe2a8 ∷ 0x1e4f43e470 ∷ []

-- `for (i, g) in GEN.iter().enumerate()`; `top` is shifted by one more at each round
unfoldable pub add_generators : ℕ → ℕ → List ℕ → ℕ
add_generators top c [] = c
add_generators top c (g ∷ gs) =
    add_generators (top / 2) (if top % 2 == 1 then bit_xor c g else c) gs

unfoldable pub polymod_loop : ℕ → Bytes → ℕ
polymod_loop c [] = c
polymod_loop c (v ∷ values) =
    polymod_loop (add_generators (c / 2 ^ 35) (bit_xor (c % 2 ^ 35 * 32) v) generators) values

unfoldable pub polymod : Bytes → ℕ
polymod values = bit_xor (polymod_loop 1 values) 1

unfoldable pub checksum_words : Bytes → Bytes → Bytes
checksum_words data_words prefix =
    let input = map (λ c. c % 32) prefix ++ (0 ∷ (data_words ++ replicate 8 0)) in
    take 8 (to_words (to_be_bytes 5 (polymod input)))

-- `CHARSET[w as usize]`, for w < 32
unfoldable pub char_of_word : ℕ → ℕ
char_of_word w = get_or charset w 0

unfoldable pub encode_address : ℕ → Bytes → Bytes → Bytes
encode_address version payload prefix =
    let words = to_words (version ∷ payload) in
    prefix ++ (b':' ∷ (map char_of_word words ++ map char_of_word (checksum_words words prefix)))

-- `[first, rest @ .., last] if rest.len() == n`
unfoldable pub single_push : ℕ → ℕ → ℕ → Bytes → Option Bytes
single_push first last n s =
    if length s == n + 2 && get_or s 0 0 == first && get_or s (n + 1) 0 == last
    then some (slice 1 (n + 1) s)
    else none

-- `[first, second, rest @ .., last] if rest.len() == n`
unfoldable pub hashed_push : ℕ → ℕ → ℕ → ℕ → Bytes → Option Bytes
hashed_push first second last n s =
    if length s == n + 3
      && get_or s 0 0 == first
      && get_or s 1 0 == second
      && get_or s (n + 2) 0 == last
    then some (slice 2 (n + 2) s)
    else none

-- The `match` on the script's bytes: the version byte and the payload.
unfoldable pub script_form : Bytes → Option (ℕ × Bytes)
script_form script = elim (single_push 0x20 0xac 32 script) [
  | some key ↦ some (0, key)
  | none ↦ elim (single_push 0x21 0xab 33 script) [
    | some key ↦ some (1, key)
    | none ↦ elim (hashed_push 0xaa 0x20 0x87 32 script) [
      | some hash ↦ some (8, hash)
      | none ↦ none
    ]
  ]
]

-- The result where the call returns. It slices as `from_hex` does, so it panics on the texts of
-- `from_hex_panics`; Store/Panics says when that ends an `apply`.
unfoldable pub hex_to_bytes : Bytes → Option Bytes
hex_to_bytes s = if length s % 2 == 0 then hex_pairs s else none

unfoldable pub script_to_address : Bytes → Bytes → Option Bytes
script_to_address script_hex prefix = do
  script ← hex_to_bytes script_hex
  (version, payload) ← script_form script
  some (encode_address version payload prefix)
