-- ===== src/Store/Keys/Bounds.antt =====
-- The order of the composite keys, and what the bounds of a range take in.
use mathlib.Core.List.{reverse-append, append_assoc}
use keryx_api_shim.Base.{
  ℕ, zero, suc, ◌-◌, ◌/◌, ◌%◌, ◌^◌, ◌<◌, ◌≡◌, refl, sym, ap, ◌∙◌, Bool, false, ◌&&◌, ◌||◌, not, [],
  ◌∷◌, ◌++◌, Bytes, ltb, ◌==◌, bytes_eq, length, length-append, drop, take, replicate, All,
  All-append, arith,
}
use keryx_api_shim.Base.Words.{to_be_bytes, length-to_be_bytes, from_le_bytes, IsByte, u64_mod}
use keryx_api_shim.Base.Slices.{take_part, drop_part}
use keryx_api_shim.Redb.Order.{lt_bytes}
use keryx_api_shim.Store.Keys.{
  from_be_bytes, outpoint_key, hist_key, hist_bounds, resp_list_key, resp_list_tx_num,
}

-- No byte of the string is the separator.
abbrev pub NoSeparator : Bytes → Type 0
NoSeparator s = All (λ b. b < 0xFF) s

-- Whether a key is within the bounds of a range, both included.
unfoldable pub in_bounds : Bytes × Bytes → Bytes → Bool
in_bounds (lo, hi) k = not (lt_bytes k lo || lt_bytes hi k)

not_below_zeros : (n : ℕ) (t : Bytes) → length t ≡ n → lt_bytes t (replicate n 0) ≡ false
unfolding lt_bytes
not_below_zeros zero [] h = refl
not_below_zeros zero (x ∷ t) h = absurd (omega arith)
not_below_zeros (suc n) [] h = absurd (omega arith)
not_below_zeros (suc n) (x ∷ t) h = ground (arith, not_below_zeros n t (omega arith))

not_above_ones :
    (n : ℕ) (t : Bytes) → length t ≡ n → All IsByte t → lt_bytes (replicate n 0xFF) t ≡ false
unfolding lt_bytes
not_above_ones zero [] h b = refl
not_above_ones zero (x ∷ t) h b = absurd (omega arith)
not_above_ones (suc n) [] h b = absurd (omega arith)
not_above_ones (suc n) (x ∷ t) h b =
    let x_byte = b.0 in ground (arith, not_above_ones n t (omega arith) b.1)

-- An address followed by the separator is within the bounds of itself only.
separated :
    (a b t lo hi : Bytes)
    → NoSeparator a
    → NoSeparator b
    → lt_bytes t lo ≡ false
    → lt_bytes hi t ≡ false
    → in_bounds (b ++ (0xFF ∷ lo), b ++ (0xFF ∷ hi)) (a ++ (0xFF ∷ t)) ≡ bytes_eq a b
unfolding lt_bytes in_bounds bytes_eq
separated [] [] t lo hi p q u v = ground arith
separated [] (y ∷ b) t lo hi p q u v = let y_small = q.0 in ground arith
separated (x ∷ a) [] t lo hi p q u v = let x_small = p.0 in ground arith
separated (x ∷ a) (y ∷ b) t lo hi p q u v = ground (arith, separated a b t lo hi p.1 q.1 u v)

to_be_bytes-IsByte : (n v : ℕ) → All IsByte (to_be_bytes n v)
unfolding to_be_bytes
to_be_bytes-IsByte zero v = tt
to_be_bytes-IsByte (suc n) v =
    All-append IsByte (to_be_bytes n (v / 256)) _ (to_be_bytes-IsByte n (v / 256)) (omega arith, tt)

-- The range of an address takes in the history keys of that address and of no other, when no
-- address contains the separator byte.
pub in_bounds-hist_key :
    (addr other : Bytes) (tx_num : ℕ)
    → NoSeparator addr
    → NoSeparator other
    → in_bounds (hist_bounds addr) (hist_key other tx_num) ≡ bytes_eq other addr
unfolding hist_bounds hist_key
in_bounds-hist_key addr other tx_num p q =
    separated other addr (to_be_bytes 8 tx_num) (replicate 8 0) (replicate 8 0xFF) q p
      (not_below_zeros 8 (to_be_bytes 8 tx_num) (length-to_be_bytes 8 tx_num))
      (not_above_ones 8 (to_be_bytes 8 tx_num) (length-to_be_bytes 8 tx_num)
        (to_be_bytes-IsByte 8 tx_num))

bytes_eq-append :
    (xs ys : Bytes) (x y : ℕ)
    → length xs ≡ length ys
    → bytes_eq (xs ++ x ∷ []) (ys ++ y ∷ []) ≡ (bytes_eq xs ys && x == y)
unfolding bytes_eq
bytes_eq-append [] [] x y h = ground arith
bytes_eq-append [] (b ∷ ys) x y h = absurd (omega arith)
bytes_eq-append (a ∷ xs) [] x y h = absurd (omega arith)
bytes_eq-append (a ∷ xs) (b ∷ ys) x y h = ground (arith, bytes_eq-append xs ys x y (omega arith))

lt_bytes-append :
    (xs ys : Bytes) (x y : ℕ)
    → length xs ≡ length ys
    → lt_bytes (xs ++ x ∷ []) (ys ++ y ∷ []) ≡ (lt_bytes xs ys || (bytes_eq xs ys && ltb x y))
unfolding lt_bytes bytes_eq
lt_bytes-append [] [] x y h = ground arith
lt_bytes-append [] (b ∷ ys) x y h = absurd (omega arith)
lt_bytes-append (a ∷ xs) [] x y h = absurd (omega arith)
lt_bytes-append (a ∷ xs) (b ∷ ys) x y h = ground (arith, lt_bytes-append xs ys x y (omega arith))

same_length : (n a b : ℕ) → length (to_be_bytes n a) ≡ length (to_be_bytes n b)
same_length n a b = length-to_be_bytes n a ∙ sym (length-to_be_bytes n b)

bytes_eq-to_be_bytes :
    (n a b : ℕ)
    → a < 256 ^ n
    → b < 256 ^ n
    → bytes_eq (to_be_bytes n a) (to_be_bytes n b) ≡ (a == b)
unfolding to_be_bytes bytes_eq
bytes_eq-to_be_bytes zero a b h k = ground arith
bytes_eq-to_be_bytes (suc n) a b h k = ground (
  arith,
  bytes_eq-append (to_be_bytes n (a / 256)) (to_be_bytes n (b / 256)) (a % 256) (b % 256)
      (same_length n (a / 256) (b / 256)),
  bytes_eq-to_be_bytes n (a / 256) (b / 256) (grind arith) (grind arith),
)

lt_bytes-to_be_bytes :
    (n a b : ℕ) → a < 256 ^ n → b < 256 ^ n → lt_bytes (to_be_bytes n a) (to_be_bytes n b) ≡ ltb a b
unfolding to_be_bytes lt_bytes
lt_bytes-to_be_bytes zero a b h k = ground arith
lt_bytes-to_be_bytes (suc n) a b h k = ground (
  arith,
  lt_bytes-append (to_be_bytes n (a / 256)) (to_be_bytes n (b / 256)) (a % 256) (b % 256)
      (same_length n (a / 256) (b / 256)),
  bytes_eq-to_be_bytes n (a / 256) (b / 256) (grind arith) (grind arith),
  lt_bytes-to_be_bytes n (a / 256) (b / 256) (grind arith) (grind arith),
)

lt_bytes_prefix : (p s t : Bytes) → lt_bytes (p ++ s) (p ++ t) ≡ lt_bytes s t
unfolding lt_bytes
lt_bytes_prefix [] s t = refl
lt_bytes_prefix (x ∷ p) s t = ground (arith, lt_bytes_prefix p s t)

-- The history keys of one address are in the order of their transaction numbers, which are 64-bit
-- numbers.
pub hist_key_order :
    (addr : Bytes) (m n : ℕ)
    → m < u64_mod
    → n < u64_mod
    → lt_bytes (hist_key addr m) (hist_key addr n) ≡ ltb m n
unfolding hist_key lt_bytes
hist_key_order addr m n h k =
    lt_bytes_prefix addr (0xFF ∷ to_be_bytes 8 m) (0xFF ∷ to_be_bytes 8 n)
    ∙ lt_bytes-to_be_bytes 8 m n h k

-- `from_be_bytes` reads back what `to_be_bytes` wrote.
pub from_be_bytes-to_be_bytes : (n v : ℕ) → v < 256 ^ n → from_be_bytes (to_be_bytes n v) ≡ v
unfolding from_be_bytes to_be_bytes from_le_bytes
from_be_bytes-to_be_bytes zero v h = omega arith
from_be_bytes-to_be_bytes (suc n) v h =
    ap from_le_bytes (reverse-append (to_be_bytes n (v / 256)) ((v % 256) ∷ []))
    ∙ omega (arith, from_be_bytes-to_be_bytes n (v / 256) (grind arith))

-- The 64-bit transaction number at the end of a key is the one it was made from.
pub resp_list_tx_num-resp_list_key :
    (request_hash : Bytes) (tx_num : ℕ)
    → tx_num < u64_mod
    → resp_list_tx_num (resp_list_key request_hash tx_num) ≡ tx_num
unfolding resp_list_tx_num resp_list_key hist_key
resp_list_tx_num-resp_list_key request_hash tx_num h =
    let tail = to_be_bytes 8 tx_num in
    let front = request_hash ++ 0xFF ∷ [] in
    let key = request_hash ++ 0xFF ∷ tail in
    let parts : front ++ tail ≡ key = append_assoc request_hash (0xFF ∷ []) tail in
    let front_length : length front ≡ length key - 8 = omega (
      arith,
      length-append {0} request_hash (0xFF ∷ []),
      length-append {0} request_hash (0xFF ∷ tail),
      length-to_be_bytes 8 tx_num,
    ) in
    ap from_be_bytes
      (ap (drop (length key - 8)) (sym parts) ∙ drop_part front tail (length key - 8) front_length)
    ∙ from_be_bytes-to_be_bytes 8 tx_num h

-- Two outpoints, with 32-bit indices, have the same key only if they are the same outpoint.
pub outpoint_key_injective :
    (txid other : Bytes) (i j : ℕ)
    → i < 2 ^ 32
    → j < 2 ^ 32
    → outpoint_key txid i ≡ outpoint_key other j
    → (txid ≡ other) × (i ≡ j)
unfolding outpoint_key
outpoint_key_injective txid other i j h k e =
    let s = to_be_bytes 4 i in
    let t = to_be_bytes 4 j in
    let same : length other ≡ length txid = omega (
      arith,
      ap (length {0}) e,
      length-append {0} txid (0xFF ∷ s),
      length-append {0} other (0xFF ∷ t),
      length-to_be_bytes 4 i,
      length-to_be_bytes 4 j,
    ) in
    let tails : drop 1 (0xFF ∷ s) ≡ drop 1 (0xFF ∷ t) = ap (drop 1) (
      sym (drop_part txid (0xFF ∷ s) (length txid) refl)
      ∙ ap (drop (length txid)) e
      ∙ drop_part other (0xFF ∷ t) (length txid) same) in
    (
      sym (take_part txid (0xFF ∷ s) (length txid) refl)
          ∙ ap (take (length txid)) e
          ∙ take_part other (0xFF ∷ t) (length txid) same,
      sym (from_be_bytes-to_be_bytes 4 i h)
          ∙ ap from_be_bytes tails
          ∙ from_be_bytes-to_be_bytes 4 j k,
    )
