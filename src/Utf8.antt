-- ===== src/Utf8.antt =====
-- UTF-8 as Rust's standard library checks it: `String::from_utf8_lossy` and `str::from_utf8`, which
-- `src/indexer/inference.rs` applies to bytes from the chain, and `str::trim`.
pub mod Lossy
pub mod Trim
use keryx_api_shim.Base.{
  ℕ, zero, suc, Bool, true, false, ◌&&◌, ◌||◌, List, [], ◌∷◌, ◌++◌, Bytes, ltb, leb, ◌==◌,
  if◌then◌else◌, length, take, drop,
}

abbrev within : ℕ → ℕ → ℕ → Bool
within lo hi c = leb lo c && leb c hi

-- How the next bytes read: a whole character of so many bytes, or an invalid prefix of so many.
pub data Chunk : Type 0 where
  valid invalid : ℕ → Chunk

-- A two-byte character.
unfoldable pub two_bytes : Bytes → Chunk
two_bytes [] = invalid 1
two_bytes (b ∷ s) = if within 128 191 b then valid 2 else invalid 1

-- The third byte, where the first two fit.
unfoldable pub third_byte : Bytes → Chunk
third_byte [] = invalid 2
third_byte (c ∷ s) = if within 128 191 c then valid 3 else invalid 2

-- A three-byte character, with the range of its second byte.
unfoldable pub three_bytes : ℕ → ℕ → Bytes → Chunk
unfolding third_byte
three_bytes lo hi [] = invalid 1
three_bytes lo hi (b ∷ s) = if within lo hi b then third_byte s else invalid 1

unfoldable pub fourth_byte : Bytes → Chunk
fourth_byte [] = invalid 3
fourth_byte (d ∷ s) = if within 128 191 d then valid 4 else invalid 3

unfoldable pub third_of_four : Bytes → Chunk
unfolding fourth_byte
third_of_four [] = invalid 2
third_of_four (c ∷ s) = if within 128 191 c then fourth_byte s else invalid 2

unfoldable pub four_bytes : ℕ → ℕ → Bytes → Chunk
unfolding third_of_four
four_bytes lo hi [] = invalid 1
four_bytes lo hi (b ∷ s) = if within lo hi b then third_of_four s else invalid 1

-- The chunk that begins with the byte `a`, followed by `s`.
unfoldable pub next_chunk : ℕ → Bytes → Chunk
unfolding two_bytes three_bytes four_bytes
next_chunk a s =
    if ltb a 128
    then valid 1
    else if within 194 223 a
    then two_bytes s
    else if a == 224
    then three_bytes 160 191 s
    else if a == 237
    then three_bytes 128 159 s
    else if within 225 239 a
    then three_bytes 128 191 s
    else if a == 240
    then four_bytes 144 191 s
    else if within 241 243 a
    then four_bytes 128 191 s
    else if a == 244
    then four_bytes 128 143 s
    else invalid 1

-- U+FFFD in UTF-8.
abbrev pub replacement : Bytes
replacement = 239 ∷ 191 ∷ 189 ∷ []

-- One round for each byte at most.
unfoldable pub lossy_loop : ℕ → Bytes → Bytes
lossy_loop zero s = []
lossy_loop (suc f) [] = []
lossy_loop (suc f) (a ∷ s) = elim (next_chunk a s) [
  | valid n ↦ take n (a ∷ s) ++ lossy_loop f (drop n (a ∷ s))
  | invalid n ↦ replacement ++ lossy_loop f (drop n (a ∷ s))
]

-- `String::from_utf8_lossy`
unfoldable pub from_utf8_lossy : Bytes → Bytes
from_utf8_lossy s = lossy_loop (length s) s

unfoldable pub valid_loop : ℕ → Bytes → Bool
valid_loop zero s = true
valid_loop (suc f) [] = true
valid_loop (suc f) (a ∷ s) = elim (next_chunk a s) [
  | valid n ↦ valid_loop f (drop n (a ∷ s))
  | invalid n ↦ false
]

-- `str::from_utf8(s).is_ok()`
unfoldable pub is_utf8 : Bytes → Bool
is_utf8 s = valid_loop (length s) s
