-- ===== src/Hex.antt =====
-- The hex helpers of `src/indexer/inference.rs` (`to_hex`, `from_hex`), over byte strings.
pub mod RoundTrip
use mathlib.Core.Option
use keryx_api_shim.Base.{
  ℕ, ◌+◌, ◌-◌, ◌*◌, ◌/◌, ◌%◌, Bool, true, false, ◌&&◌, ◌||◌, Option, none, some, List, [], ◌∷◌,
  Bytes, ltb, leb, ◌==◌, if◌then◌else◌, length, is_some, ◌>>=◌,
}

-- `char::from_digit(d, 16)`, for d < 16
unfoldable pub hex_digit : ℕ → ℕ
hex_digit d = if ltb d 10 then b'0' + d else b'a' + (d - 10)

unfoldable pub to_hex : Bytes → Bytes
to_hex [] = []
to_hex (b ∷ bs) = hex_digit (b / 16) ∷ hex_digit (b % 16) ∷ to_hex bs

-- `char::to_digit(16)`
unfoldable pub hex_value : ℕ → Option ℕ
hex_value c =
    if leb b'0' c && leb c b'9'
    then some (c - b'0')
    else if leb b'a' c && leb c b'f'
    then some (c - b'a' + 10)
    else if leb b'A' c && leb c b'F'
    then some (c - b'A' + 10)
    else none

-- `u8::from_str_radix(s, 16).ok()` on a text of two bytes. A leading `+` is accepted.
unfoldable pub byte_of_hex : ℕ → ℕ → Option ℕ
byte_of_hex a b =
    if a == b'+' then hex_value b else do x ← hex_value a; y ← hex_value b; some (x * 16 + y)

-- The `map` and `collect` over the pairs `s[i..i + 2]`.
unfoldable pub hex_pairs : Bytes → Option Bytes
hex_pairs [] = some []
hex_pairs (a ∷ []) = none
hex_pairs (a ∷ b ∷ s) = do v ← byte_of_hex a b; Option.map (◌∷◌ v) (hex_pairs s)

-- The result where the call returns; see `from_hex_panics`, and Store/Panics for an `apply` that
-- panics.
unfoldable pub from_hex : Bytes → Option Bytes
from_hex s = if length s % 2 == 0 then hex_pairs s else none

-- Whether the text goes on inside a character: a slice that ends here panics.
abbrev inside_char : Bytes → Bool
inside_char [] = false
inside_char (c ∷ s) = leb 128 c && ltb c 192

-- Whether a slice `s[i..i + 2]` panics before a pair that is no hex ends the loop.
unfoldable pub pairs_panic : Bytes → Bool
pairs_panic [] = false
pairs_panic (a ∷ []) = false
pairs_panic (a ∷ b ∷ s) = inside_char s || (is_some (byte_of_hex a b) && pairs_panic s)

-- Whether `from_hex` panics on the UTF-8 text `s`.
unfoldable pub from_hex_panics : Bytes → Bool
from_hex_panics s = length s % 2 == 0 && pairs_panic s
