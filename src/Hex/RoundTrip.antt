-- ===== src/Hex/RoundTrip.antt =====
-- Encoding and decoding of hex are inverse, and the decoder's exact domain.
use keryx_api_shim.Base.{
  ℕ, ◌*◌, ◌/◌, ◌%◌, ◌<◌, ◌≡◌, refl, ap, false, some, [], ◌∷◌, Bytes, ◌==◌, length, All, arith, inl,
  inr, subst, Option-cases,
}
use keryx_api_shim.Base.Words.{IsByte}
use keryx_api_shim.Hex.{
  hex_digit, to_hex, hex_value, byte_of_hex, hex_pairs, from_hex, from_hex_panics, pairs_panic,
}

abbrev pub IsAscii : ℕ → Type 0
IsAscii c = c < 128

hex_value-hex_digit : (d : ℕ) → d < 16 → hex_value (hex_digit d) ≡ some d
unfolding hex_value hex_digit
hex_value-hex_digit d h = ground arith

plus_not_digit : (d : ℕ) → (hex_digit d == b'+') ≡ false
unfolding hex_digit
plus_not_digit d = ground arith

byte_of_hex-digits :
    (b : ℕ) → b < 256 → byte_of_hex (hex_digit (b / 16)) (hex_digit (b % 16)) ≡ some b
unfolding byte_of_hex
byte_of_hex-digits b h =
    rw
      (
        plus_not_digit (b / 16),
        hex_value-hex_digit (b / 16) (omega arith),
        hex_value-hex_digit (b % 16) (omega arith),
      )
      (ap some (omega arith))

pub length-to_hex : (bs : Bytes) → length (to_hex bs) ≡ 2 * length bs
unfolding to_hex
length-to_hex [] = omega arith
length-to_hex (b ∷ bs) = omega (arith, length-to_hex bs)

hex_pairs-to_hex : (bs : Bytes) → All IsByte bs → hex_pairs (to_hex bs) ≡ some bs
unfolding hex_pairs to_hex
hex_pairs-to_hex [] h = refl
hex_pairs-to_hex (b ∷ bs) h = ground (arith, byte_of_hex-digits b h.0, hex_pairs-to_hex bs h.1)

-- Decoding the hex of a byte string gives the byte string back.
pub from_hex-to_hex : (bs : Bytes) → All IsByte bs → from_hex (to_hex bs) ≡ some bs
unfolding from_hex
from_hex-to_hex bs h =
    let even : length (to_hex bs) % 2 ≡ 0 = omega (arith, length-to_hex bs) in
    rw (even, hex_pairs-to_hex bs h)

hex_value-lt : (c v : ℕ) → hex_value c ≡ some v → v < 16
unfolding hex_value
hex_value-lt c v h = ground arith

byte_of_hex-lt : (a b v : ℕ) → byte_of_hex a b ≡ some v → v < 256
unfolding byte_of_hex
byte_of_hex-lt a b v h = elim (Option-cases (hex_value a)) [
  | inl p ↦ ground (arith, p, hex_value-lt b v)
  | inr (x, p) ↦ elim (Option-cases (hex_value b)) [
    | inl q ↦ ground (arith, p, q)
    | inr (y, q) ↦ ground (arith, p, q, hex_value-lt a x p, hex_value-lt b y q)
  ]
]

hex_pairs_sound :
    (s bs : Bytes) → hex_pairs s ≡ some bs → All IsByte bs × (length s ≡ 2 * length bs)
unfolding hex_pairs
hex_pairs_sound [] [] h = (tt, omega arith)
hex_pairs_sound [] (v ∷ bs) h = absurd (ground arith)
hex_pairs_sound (a ∷ []) bs h = absurd (ground arith)
hex_pairs_sound (a ∷ b ∷ s) bs h = elim (Option-cases (byte_of_hex a b)) [
  | inl p ↦ absurd (ground arith)
  | inr (v, p) ↦ elim (Option-cases (hex_pairs s)) [
    | inl q ↦ absurd (ground arith)
    | inr (vs, q) ↦
        let rest = hex_pairs_sound s vs q in
        let e : v ∷ vs ≡ bs = ground arith in
        subst (λ l. All IsByte l × (length (a ∷ b ∷ s) ≡ 2 * length l)) e
          ((byte_of_hex-lt a b v p, rest.0), omega (arith, rest.1))
  ]
]

-- What decodes is bytes, half as many as the text has.
pub from_hex_sound :
    (s bs : Bytes) → from_hex s ≡ some bs → All IsByte bs × (length s ≡ 2 * length bs)
unfolding from_hex
from_hex_sound s bs h = ground (arith, hex_pairs_sound s bs)

-- On ASCII text no slice ends inside a character.
pairs_panic_ascii : (s : Bytes) → All IsAscii s → pairs_panic s ≡ false
unfolding pairs_panic
pairs_panic_ascii [] h = refl
pairs_panic_ascii (a ∷ []) h = refl
pairs_panic_ascii (a ∷ b ∷ []) h = ground arith
pairs_panic_ascii (a ∷ b ∷ c ∷ s) h = ground (arith, pairs_panic_ascii (c ∷ s) h.1.1)

-- `from_hex` returns on every ASCII text.
pub from_hex_panics_ascii : (s : Bytes) → All IsAscii s → from_hex_panics s ≡ false
unfolding from_hex_panics
from_hex_panics_ascii s h = ground (arith, pairs_panic_ascii s h)
