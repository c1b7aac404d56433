-- ===== src/Address/Distinct.antt =====
-- What an address determines: the version and the payload, and the script that has the address.
use Prim.Native.Nat.{ℕ, zero, suc, ◌+◌, ◌*◌, ◌%◌, ◌^◌, ◌<◌}
use keryx_api_shim.Base.{
  ◌≡◌, refl, ap, sym, ◌∙◌, Bool, true, false, not, get_or, ◌&&◌, ◌||◌, [], ◌∷◌, ◌++◌, map, Bytes,
  ◌==◌, ==_iff, if◌then◌else◌, length, length-append, length-take, replicate, All, arith,
}
use keryx_api_shim.Base.Words.{IsByte, to_be_bytes, length-to_be_bytes}
use keryx_api_shim.Address.{
  charset, char_of_word, to_words, to_words_loop, checksum_words, polymod, encode_address,
}
use keryx_api_shim.Address.Words.{
  horner, pad, IsWord, to_words_digits, to_words_loop-length, pad-lt,
}

-- Digits of one length that make one number are the same digits.
horner_inj :
    (v w : ℕ) (xs ys : Bytes)
    → All IsByte xs
    → All IsByte ys
    → length xs ≡ length ys
    → horner 256 v xs ≡ horner 256 w ys
    → (v ≡ w) × (xs ≡ ys)
unfolding horner
horner_inj v w [] [] h k l e = (e, refl)
horner_inj v w [] (y ∷ ys) h k l e = absurd (omega arith)
horner_inj v w (x ∷ xs) [] h k l e = absurd (omega arith)
horner_inj v w (x ∷ xs) (y ∷ ys) h k l e =
    let x_byte = h.0 in
    let y_byte = k.0 in
    let rest = horner_inj (v * 256 + x) (w * 256 + y) xs ys h.1 k.1 (omega arith) e in
    let same : x ≡ y = omega (arith, rest.0) in
    (omega (arith, rest.0), ground (arith, same, rest.1))

unshift : (p a b : ℕ) → p < 5 → a * 2 ^ p ≡ b * 2 ^ p → a ≡ b
unshift zero a b h e = omega arith
unshift (suc zero) a b h e = omega arith
unshift (suc (suc zero)) a b h e = omega arith
unshift (suc (suc (suc zero))) a b h e = omega arith
unshift (suc (suc (suc (suc zero)))) a b h e = omega arith
unshift (suc (suc (suc (suc (suc p))))) a b h e = absurd (omega arith)

-- The words of two byte strings are the same only if the strings are.
pub to_words_inj : (a b : Bytes) → All IsByte a → All IsByte b → to_words a ≡ to_words b → a ≡ b
to_words_inj a b h k e =
    let p = to_words_digits a h in
    let q = to_words_digits b k in
    let count : length (to_words a) ≡ length (to_words b) = ap length e in
    let pads : pad 0 a ≡ pad 0 b = omega (arith, count, p.1, q.1, p.3, q.3) in
    let sizes : length a ≡ length b = omega (arith, count, p.1, q.1, pads) in
    let values : horner 256 0 a * 2 ^ pad 0 a ≡ horner 256 0 b * 2 ^ pad 0 a =
      sym p.2 ∙ ap (horner 32 0) e ∙ q.2 ∙ ap (λ n. horner 256 0 b * 2 ^ n) (sym pads) in
    (horner_inj 0 0 a b h k sizes
      (unshift (pad 0 a) (horner 256 0 a) (horner 256 0 b) p.3 values)).1

-- The position of a character in the charset.
unfoldable position : ℕ → Bytes → ℕ
position c [] = 0
position c (x ∷ xs) = let rest = position c xs in if x == c then 0 else suc rest

unfoldable occurs : ℕ → Bytes → Bool
occurs c [] = false
occurs c (x ∷ xs) = x == c || occurs c xs

unfoldable distinct : Bytes → Bool
distinct [] = true
distinct (x ∷ xs) = not (occurs x xs) && distinct xs

occurs-get_or : (xs : Bytes) (i : ℕ) → i < length xs → occurs (get_or xs i 0) xs ≡ true
unfolding occurs
occurs-get_or [] i h = absurd (omega arith)
occurs-get_or (x ∷ xs) zero h = ground arith
occurs-get_or (x ∷ xs) (suc i) h = ground (arith, occurs-get_or xs i)

-- Where the characters are distinct, each stands at one position.
position-get_or :
    (xs : Bytes) (i : ℕ) → distinct xs ≡ true → i < length xs → position (get_or xs i 0) xs ≡ i
unfolding position distinct
position-get_or [] i d h = absurd (omega arith)
position-get_or (x ∷ xs) zero d h = ground arith
position-get_or (x ∷ xs) (suc i) d h =
    ground (arith, ==_iff x (get_or xs i 0), occurs-get_or xs i, position-get_or xs i)

distinct-charset : distinct charset ≡ true
unfolding distinct occurs
distinct-charset = refl

position-char_of_word : (w : ℕ) → w < 32 → position (char_of_word w) charset ≡ w
unfolding char_of_word
position-char_of_word w h = position-get_or charset w distinct-charset h

char_of_word_inj : (v w : ℕ) → v < 32 → w < 32 → char_of_word v ≡ char_of_word w → v ≡ w
char_of_word_inj v w h k e =
    sym (position-char_of_word v h) ∙ ap (λ c. position c charset) e ∙ position-char_of_word w k

map-char_of_word_inj :
    (xs ys : Bytes)
    → All IsWord xs
    → All IsWord ys
    → map char_of_word xs ≡ map char_of_word ys
    → xs ≡ ys
map-char_of_word_inj [] [] h k e = refl
map-char_of_word_inj [] (y ∷ ys) h k e = absurd (ground arith)
map-char_of_word_inj (x ∷ xs) [] h k e = absurd (ground arith)
map-char_of_word_inj (x ∷ xs) (y ∷ ys) h k e =
    let x_word = h.0 in
    let y_word = k.0 in
    let same : x ≡ y = char_of_word_inj x y x_word y_word (ground arith) in
    ground (arith, same, map-char_of_word_inj xs ys h.1 k.1 (ground arith))

append_cancel : (p xs ys : Bytes) → p ++ xs ≡ p ++ ys → xs ≡ ys
append_cancel [] xs ys e = e
append_cancel (c ∷ p) xs ys e = append_cancel p xs ys (ground arith)

append_inj : (xs ys us vs : Bytes) → length xs ≡ length ys → xs ++ us ≡ ys ++ vs → xs ≡ ys
append_inj [] [] us vs l e = refl
append_inj [] (y ∷ ys) us vs l e = absurd (omega arith)
append_inj (x ∷ xs) [] us vs l e = absurd (omega arith)
append_inj (x ∷ xs) (y ∷ ys) us vs l e =
    let rest : xs ≡ ys = append_inj xs ys us vs (omega arith) (ground arith) in ground (arith, rest)

length-map : (f : ℕ → ℕ) (xs : Bytes) → length (map f xs) ≡ length xs
length-map f [] = refl
length-map f (x ∷ xs) = ap suc (length-map f xs)

length-checksum_words : (words prefix : Bytes) → length (checksum_words words prefix) ≡ 8
unfolding checksum_words to_words
length-checksum_words words prefix =
    let input = map (λ c. c % 32) prefix ++ (0 ∷ (words ++ replicate 8 0)) in
    let sum = to_be_bytes 5 (polymod input) in
    omega (
      arith,
      length-take {0} 8 (to_words_loop 0 0 sum),
      to_words_loop-length 0 0 sum,
      length-to_be_bytes 5 (polymod input),
      pad-lt 0 sum,
    )

-- With one prefix, two addresses are the same only if they encode the same version and payload.
pub encode_address_inj :
    (v w : ℕ) (p q prefix : Bytes)
    → All IsByte (v ∷ p)
    → All IsByte (w ∷ q)
    → encode_address v p prefix ≡ encode_address w q prefix
    → v ∷ p ≡ w ∷ q
unfolding encode_address
encode_address_inj v w p q prefix h k e =
    let xs = to_words (v ∷ p) in
    let ys = to_words (w ∷ q) in
    let us = map char_of_word (checksum_words xs prefix) in
    let vs = map char_of_word (checksum_words ys prefix) in
    let body : b':' ∷ (map char_of_word xs ++ us) ≡ b':' ∷ (map char_of_word ys ++ vs) =
      append_cancel prefix _ _ e in
    let joined : map char_of_word xs ++ us ≡ map char_of_word ys ++ vs = ground (arith, body) in
    let sizes : length (map char_of_word xs) ≡ length (map char_of_word ys) = omega (
      arith,
      ap length joined,
      length-append {0} (map char_of_word xs) us,
      length-append {0} (map char_of_word ys) vs,
      length-map char_of_word (checksum_words xs prefix),
      length-map char_of_word (checksum_words ys prefix),
      length-checksum_words xs prefix,
      length-checksum_words ys prefix,
    ) in
    let words : map char_of_word xs ≡ map char_of_word ys =
      append_inj (map char_of_word xs) (map char_of_word ys) us vs sizes joined in
    to_words_inj (v ∷ p) (w ∷ q) h k
      (map-char_of_word_inj xs ys (to_words_digits (v ∷ p) h).0 (to_words_digits (w ∷ q) k).0 words)
