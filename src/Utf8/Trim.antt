-- ===== src/Utf8/Trim.antt =====
-- `str::trim`: the White_Space characters of Unicode, in UTF-8, at both ends.
use keryx_api_shim.Base.{
  ℕ, zero, suc, Bool, ◌&&◌, ◌||◌, [], ◌∷◌, Bytes, leb, ◌==◌, if◌then◌else◌, length, drop, reverse,
}

abbrev within : ℕ → ℕ → ℕ → Bool
within lo hi c = leb lo c && leb c hi

-- U+0009..U+000D and U+0020
abbrev is_space1 : ℕ → Bool
is_space1 a = within 9 13 a || a == 32

-- U+0085 and U+00A0
abbrev is_space2 : ℕ → ℕ → Bool
is_space2 a b = a == 194 && (b == 133 || b == 160)

-- U+1680, U+2000..U+200A, U+2028, U+2029, U+202F, U+205F and U+3000
abbrev is_space3 : ℕ → ℕ → ℕ → Bool
is_space3 a b c =
    (a == 225 && b == 154 && c == 128)
    || (a == 226 && b == 128 && (within 128 138 c || c == 168 || c == 169 || c == 175))
    || (a == 226 && b == 129 && c == 159)
    || (a == 227 && b == 128 && c == 128)

-- The bytes of the white space at the front, one character.
unfoldable pub front_space : Bytes → ℕ
front_space [] = 0
front_space (a ∷ []) = if is_space1 a then 1 else 0
front_space (a ∷ b ∷ []) = if is_space1 a then 1 else if is_space2 a b then 2 else 0
front_space (a ∷ b ∷ c ∷ s) =
    if is_space1 a then 1 else if is_space2 a b then 2 else if is_space3 a b c then 3 else 0

-- The same for a reversed text.
unfoldable pub back_space : Bytes → ℕ
back_space [] = 0
back_space (a ∷ []) = if is_space1 a then 1 else 0
back_space (b ∷ a ∷ []) = if is_space1 b then 1 else if is_space2 a b then 2 else 0
back_space (c ∷ b ∷ a ∷ s) =
    if is_space1 c then 1 else if is_space2 b c then 2 else if is_space3 a b c then 3 else 0

-- One round for each byte at most.
unfoldable pub trim_front : (Bytes → ℕ) → ℕ → Bytes → Bytes
trim_front space zero s = s
trim_front space (suc f) s =
    let rest = trim_front space f (drop (space s) s) in if space s == 0 then s else rest

unfoldable pub trim : Bytes → Bytes
unfolding trim_front front_space back_space
trim s =
    let front = trim_front front_space (length s) s in
    reverse (trim_front back_space (length front) (reverse front))
