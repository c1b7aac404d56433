-- ===== src/Address/Words.antt =====
-- `to_words` regroups the bits of a byte string: its words are the base-32 digits of the number
-- that the bytes are the base-256 digits of.
use Prim.Native.Nat.{ℕ, zero, suc, ◌+◌, ◌-◌, ◌*◌, ◌/◌, ◌%◌, ◌^◌, ◌<◌, ◌≤◌}
use keryx_api_shim.Base.{
  ◌≡◌, ap, ◌∙◌, [], ◌∷◌, Bytes, ltb, leb, if◌then◌else◌, length, length-append, All, All-append,
  Bool-cases, inl, inr, arith,
}
use keryx_api_shim.Base.Words.{IsByte}
use keryx_api_shim.Address.{emit_words, to_words_loop, to_words}

-- The number that `v` and then the digits make in a base.
unfoldable pub horner : ℕ → ℕ → Bytes → ℕ
horner base v [] = v
horner base v (x ∷ xs) = horner base (v * base + x) xs

-- The zero bits that fill up the last word, after `bits` bits and the bytes.
unfoldable pub pad : ℕ → Bytes → ℕ
pad bits [] = if ltb 0 bits then 5 - bits else 0
pad bits (b ∷ bytes) = pad ((bits + 8) % 5) bytes

abbrev pub IsWord : ℕ → Type 0
IsWord w = w < 32

to_words_loop_value :
    (v acc bits : ℕ) (bytes : Bytes)
    → bits < 5
    → All IsByte bytes
    → horner 32 v (to_words_loop acc bits bytes)
      ≡ horner 256 (v * 2 ^ bits + acc % 2 ^ bits) bytes * 2 ^ pad bits bytes
unfolding to_words_loop emit_words horner pad
to_words_loop_value v acc zero [] h k = omega arith
to_words_loop_value v acc (suc zero) [] h k = omega arith
to_words_loop_value v acc (suc (suc zero)) [] h k = omega arith
to_words_loop_value v acc (suc (suc (suc zero))) [] h k = omega arith
to_words_loop_value v acc (suc (suc (suc (suc zero)))) [] h k = omega arith
to_words_loop_value v acc zero (b ∷ bytes) h k =
    let a = acc * 256 % 2 ^ 32 + b in
    let b_byte = k.0 in
    to_words_loop_value (v * 32 + a / 8 % 32) a 3 bytes (omega arith) k.1
    ∙ ap (λ x. horner 256 x bytes * 2 ^ pad 3 bytes) (omega arith)
to_words_loop_value v acc (suc zero) (b ∷ bytes) h k =
    let a = acc * 256 % 2 ^ 32 + b in
    let b_byte = k.0 in
    to_words_loop_value (v * 32 + a / 16 % 32) a 4 bytes (omega arith) k.1
    ∙ ap (λ x. horner 256 x bytes * 2 ^ pad 4 bytes) (omega arith)
to_words_loop_value v acc (suc (suc zero)) (b ∷ bytes) h k =
    let a = acc * 256 % 2 ^ 32 + b in
    let b_byte = k.0 in
    to_words_loop_value ((v * 32 + a / 32 % 32) * 32 + a / 1 % 32) a 0 bytes (omega arith) k.1
    ∙ ap (λ x. horner 256 x bytes * 2 ^ pad 0 bytes) (omega arith)
to_words_loop_value v acc (suc (suc (suc zero))) (b ∷ bytes) h k =
    let a = acc * 256 % 2 ^ 32 + b in
    let b_byte = k.0 in
    to_words_loop_value ((v * 32 + a / 64 % 32) * 32 + a / 2 % 32) a 1 bytes (omega arith) k.1
    ∙ ap (λ x. horner 256 x bytes * 2 ^ pad 1 bytes) (omega arith)
to_words_loop_value v acc (suc (suc (suc (suc zero)))) (b ∷ bytes) h k =
    let a = acc * 256 % 2 ^ 32 + b in
    let b_byte = k.0 in
    to_words_loop_value ((v * 32 + a / 128 % 32) * 32 + a / 4 % 32) a 2 bytes (omega arith) k.1
    ∙ ap (λ x. horner 256 x bytes * 2 ^ pad 2 bytes) (omega arith)
to_words_loop_value v acc (suc (suc (suc (suc (suc bits))))) bytes h k = absurd (omega arith)

emit_words-IsWord : (fuel acc bits : ℕ) → All IsWord (emit_words fuel acc bits).0
unfolding emit_words
emit_words-IsWord zero acc bits = tt
emit_words-IsWord (suc fuel) acc bits = elim (Bool-cases (leb 5 bits)) [
  | inl e ↦ rw e (omega arith, emit_words-IsWord fuel acc (bits - 5))
  | inr e ↦ rw e tt
]

-- The rounds take five bits each, until fewer than five are left.
emit_words-length :
    (fuel acc bits : ℕ)
    → bits ≤ fuel
    → (5 * length (emit_words fuel acc bits).0 + bits % 5 ≡ bits)
      × ((emit_words fuel acc bits).1 ≡ bits % 5)
unfolding emit_words
emit_words-length zero acc bits h = (omega arith, omega arith)
emit_words-length (suc fuel) acc bits h = elim (Bool-cases (leb 5 bits)) [
  | inl e ↦
      let small : 5 ≤ bits = ground arith in
      let rest = emit_words-length fuel acc (bits - 5) (omega arith) in
      rw e (omega (arith, rest.0), omega (arith, rest.1))
  | inr e ↦ let small : bits < 5 = ground arith in rw e (omega arith, omega arith)
]

pub to_words_loop-IsWord :
    (acc bits : ℕ) (bytes : Bytes) → All IsWord (to_words_loop acc bits bytes)
unfolding to_words_loop
to_words_loop-IsWord acc bits [] = elim (Bool-cases (ltb 0 bits)) [
  | inl e ↦ rw e (omega arith, tt)
  | inr e ↦ rw e tt
]
to_words_loop-IsWord acc bits (b ∷ bytes) =
    let a = acc * 256 % 2 ^ 32 + b in
    let emitted = emit_words (bits + 8) a (bits + 8) in
    All-append IsWord emitted.0 (to_words_loop a emitted.1 bytes)
      (emit_words-IsWord (bits + 8) a (bits + 8)) (to_words_loop-IsWord a emitted.1 bytes)

pub to_words_loop-length :
    (acc bits : ℕ) (bytes : Bytes)
    → bits < 5
    → 5 * length (to_words_loop acc bits bytes) ≡ 8 * length bytes + bits + pad bits bytes
unfolding to_words_loop pad
to_words_loop-length acc bits [] h = ground arith
to_words_loop-length acc bits (b ∷ bytes) h =
    let a = acc * 256 % 2 ^ 32 + b in
    let emitted = emit_words (bits + 8) a (bits + 8) in
    let counts = emit_words-length (bits + 8) a (bits + 8) (omega arith) in
    let rest = to_words_loop-length a emitted.1 bytes (omega (arith, counts.1)) in
    let same : pad emitted.1 bytes ≡ pad ((bits + 8) % 5) bytes = ap (λ n. pad n bytes) counts.1 in
    omega (
      arith,
      length-append {0} emitted.0 (to_words_loop a emitted.1 bytes),
      counts.0,
      counts.1,
      rest,
      same,
    )

pub pad-lt : (bits : ℕ) (bytes : Bytes) → bits < 5 → pad bits bytes < 5
unfolding pad
pad-lt bits [] h = ground arith
pad-lt bits (b ∷ bytes) h = pad-lt ((bits + 8) % 5) bytes (omega arith)

-- The words of a byte string are base-32 digits, as many as hold its bits and the padding, and
-- they make the same number as the bytes, shifted by the padding, which is less than five bits.
pub to_words_digits :
    (bytes : Bytes)
    → All IsByte bytes
    → All IsWord (to_words bytes)
      × (5 * length (to_words bytes) ≡ 8 * length bytes + pad 0 bytes)
      × (horner 32 0 (to_words bytes) ≡ horner 256 0 bytes * 2 ^ pad 0 bytes)
      × (pad 0 bytes < 5)
unfolding to_words
to_words_digits bytes h = (
  to_words_loop-IsWord 0 0 bytes,
  omega (arith, to_words_loop-length 0 0 bytes (omega arith)),
  to_words_loop_value 0 0 0 bytes (omega arith) h,
  pad-lt 0 bytes (omega arith),
)
