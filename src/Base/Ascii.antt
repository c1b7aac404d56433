-- ===== src/Base/Ascii.antt =====
-- The ASCII operations of Rust's `str` and `u8` on byte strings, and the slices `s[a..b]`.
use keryx_api_shim.Base.Tests.{Bytes, leb, ◌==◌, if◌then◌else◌, bytes_eq}
use keryx_api_shim.Base.Lists.{take, drop}
use Prim.Native.Nat.{ℕ, suc, ◌+◌, ◌-◌}
use mathlib.Core.Bool.{Bool, true, false, ◌&&◌, ◌||◌}
use mathlib.Core.List.{List, [], ◌∷◌, map}
use mathlib.Core.Option.{Option, none, some}
use mathlib.Core.Option

-- `s[a..b]`, for a ≤ b ≤ length s.
abbrev pub slice {ℓ} : {A : Type ℓ} → ℕ → ℕ → List A → List A
slice a b s = take (b - a) (drop a s)

-- `u8::to_ascii_lowercase`
unfoldable pub to_lower : ℕ → ℕ
to_lower c = if leb b'A' c && leb c b'Z' then c + 32 else c

-- `str::to_ascii_lowercase`
unfoldable pub to_ascii_lowercase : Bytes → Bytes
to_ascii_lowercase = map to_lower

-- `str::eq_ignore_ascii_case`
unfoldable pub eq_ignore_ascii_case : Bytes → Bytes → Bool
unfolding to_ascii_lowercase to_lower bytes_eq
eq_ignore_ascii_case s t = bytes_eq (to_ascii_lowercase s) (to_ascii_lowercase t)

-- `u8::is_ascii_digit`
unfoldable pub is_ascii_digit : ℕ → Bool
is_ascii_digit c = leb b'0' c && leb c b'9'

-- `u8::is_ascii_hexdigit`
unfoldable pub is_ascii_hexdigit : ℕ → Bool
unfolding is_ascii_digit
is_ascii_hexdigit c = is_ascii_digit c || (leb b'a' c && leb c b'f') || (leb b'A' c && leb c b'F')

-- `starts_with`
unfoldable pub starts_with : Bytes → Bytes → Bool
starts_with [] s = true
starts_with (p ∷ ps) [] = false
starts_with (p ∷ ps) (c ∷ s) = p == c && starts_with ps s

-- `haystack.windows(needle.len()).position(|w| w == needle)`, for a needle that is not empty
unfoldable pub find : Bytes → Bytes → Option ℕ
unfolding starts_with
find needle [] = none
find needle (c ∷ s) =
    let rest = Option.map suc (find needle s) in if starts_with needle (c ∷ s) then some 0 else rest

-- `s.iter().position(|&b| b == c).unwrap_or(s.len())`
unfoldable pub position_or_end : ℕ → Bytes → ℕ
position_or_end c [] = 0
position_or_end c (b ∷ s) = let rest = suc (position_or_end c s) in if b == c then 0 else rest

abbrev add_to_first : ℕ → List Bytes → List Bytes
add_to_first b [] = (b ∷ []) ∷ []
add_to_first b (w ∷ ws) = (b ∷ w) ∷ ws

-- `s.split(c)`
unfoldable pub split : ℕ → Bytes → List Bytes
split c [] = [] ∷ []
split c (b ∷ s) = let rest = split c s in if b == c then [] ∷ rest else add_to_first b rest
