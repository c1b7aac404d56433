-- ===== src/Api/Addresses.antt =====
-- `validate_address` of `src/api/dto.rs`: the gate before an address goes to the node.
pub mod Encoded
use keryx_api_shim.Base.{
  ℕ, Bool, true, false, ◌&&◌, ◌||◌, not, Option, none, some, List, [], ◌∷◌, ◌++◌, Bytes, ◌==◌,
  if◌then◌else◌, length, all, ascii, bytes_eq,
}
use mathlib.Core.Option
use keryx_api_shim.Base.Results.{Result, ok, err}
use keryx_api_shim.Address.{charset}

abbrev pub address_prefixes : List Bytes
address_prefixes = ascii "keryx" ∷ ascii "keryxtest" ∷ ascii "keryxsim" ∷ ascii "keryxdev" ∷ []

-- `s.split_once(c)`
unfoldable pub split_once : ℕ → Bytes → Option (Bytes × Bytes)
split_once c [] = none
split_once c (b ∷ s) =
    let rest = Option.map (λ p. (b ∷ p.0, p.1)) (split_once c s) in
    if b == c then some ([], s) else rest

-- `ADDRESS_PREFIXES.contains(&prefix)`
unfoldable pub is_one_of : List Bytes → Bytes → Bool
is_one_of [] s = false
is_one_of (p ∷ l) s = bytes_eq p s || is_one_of l s

-- `BECH32_CHARSET.contains(c)`
unfoldable pub is_char_of : Bytes → ℕ → Bool
is_char_of [] c = false
is_char_of (b ∷ l) c = b == c || is_char_of l c

-- `debug` is the `{:?}` of a string.
unfoldable pub validate_address : (Bytes → Bytes) → Bytes → Result Bytes (Unit {0})
validate_address debug address = elim (split_once b':' address) [
  | none ↦ err (ascii "invalid address: expected <prefix>:<payload>")
  | some p ↦
      if not (is_one_of address_prefixes p.0)
      then err (ascii "invalid address prefix " ++ debug p.0)
      else if length p.1 == 0 || not (all (is_char_of charset) p.1)
      then err (ascii "invalid address payload")
      else ok tt
]
