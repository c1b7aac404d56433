-- ===== src/Api/Addresses/Encoded.antt =====
-- The addresses that the indexer makes, at the gate.
use keryx_api_shim.Base.{
  ℕ, zero, suc, ◌<◌, ◌≡◌, refl, Bool, true, false, some, [], ◌∷◌, ◌++◌, map, Bytes, ◌==◌,
  if◌then◌else◌, length, all, All, ascii, arith, get_or, bytes_eq, is_some, All-take,
}
use keryx_api_shim.Base.Ascii.{find, to_ascii_lowercase}
use keryx_api_shim.Base.Results.{ok}
use keryx_api_shim.Address.{
  charset, prefix_for_network, to_words, checksum_words, char_of_word, encode_address,
  to_words_loop, emit_words,
}
use keryx_api_shim.Address.Words.{IsWord, to_words_loop-IsWord}
use keryx_api_shim.Api.Addresses.{
  address_prefixes, split_once, is_one_of, is_char_of, validate_address,
}

is_char_of-get_or : (l : Bytes) (w : ℕ) → w < length l → is_char_of l (get_or l w 0) ≡ true
unfolding is_char_of
is_char_of-get_or [] w h = absurd (omega arith)
is_char_of-get_or (b ∷ l) zero h = ground arith
is_char_of-get_or (b ∷ l) (suc w) h =
    let rest = is_char_of-get_or l w (omega arith) in rw rest (ground arith)

-- Each word has a character of the alphabet.
words_in_charset : (w : ℕ) → w < 32 → is_char_of charset (char_of_word w) ≡ true
unfolding char_of_word
words_in_charset w h = is_char_of-get_or charset w h

all_words : (ws : Bytes) → All IsWord ws → all (is_char_of charset) (map char_of_word ws) ≡ true
all_words [] h = refl
all_words (w ∷ ws) h = ground (arith, words_in_charset w h.0, all_words ws h.1)

all-append :
    (p : ℕ → Bool) (xs ys : Bytes) → all p xs ≡ true → all p ys ≡ true → all p (xs ++ ys) ≡ true
all-append p [] ys h k = k
all-append p (x ∷ xs) ys h k = ground (arith, all-append p xs ys)

-- A prefix of the gate's, that the first `:` ends.
record IsPrefix (p : Bytes) : Type 0 where
  listed : is_one_of address_prefixes p ≡ true
  splits : (rest : Bytes) → split_once b':' (p ++ b':' ∷ rest) ≡ some (p, rest)

if-IsPrefix : (b : Bool) (p q : Bytes) → IsPrefix p → IsPrefix q → IsPrefix (if b then p else q)
if-IsPrefix true p q h k = h
if-IsPrefix false p q h k = k

prefix_for_network-IsPrefix : (n : Bytes) → IsPrefix (prefix_for_network n)
unfolding prefix_for_network is_one_of split_once bytes_eq
prefix_for_network-IsPrefix n =
    let m = to_ascii_lowercase n in
    if-IsPrefix (is_some (find (ascii "mainnet") m)) (ascii "keryx") _
      (record { listed = refl; splits = λ rest. refl })
      (if-IsPrefix (is_some (find (ascii "testnet") m)) (ascii "keryxtest") _
        (record { listed = refl; splits = λ rest. refl })
        (if-IsPrefix (is_some (find (ascii "devnet") m)) (ascii "keryxdev") (ascii "keryxsim")
          (record { listed = refl; splits = λ rest. refl })
          (record { listed = refl; splits = λ rest. refl })))

to_words_first : (b : ℕ) (bytes : Bytes) → (w : ℕ) × (ws : Bytes) × (to_words (b ∷ bytes) ≡ w ∷ ws)
unfolding to_words to_words_loop emit_words
to_words_first b bytes = (_, _, refl)

-- The characters behind the prefix.
abbrev chars : ℕ → Bytes → Bytes → Bytes
chars version payload prefix =
    let words = to_words (version ∷ payload) in
    map char_of_word words ++ map char_of_word (checksum_words words prefix)

chars_not_empty :
    (version : ℕ) (payload prefix : Bytes) → (length (chars version payload prefix) == 0) ≡ false
chars_not_empty version payload prefix =
    let (w, ws, e) = to_words_first version payload in rw e (ground arith)

chars_in_charset :
    (version : ℕ) (payload prefix : Bytes)
    → all (is_char_of charset) (chars version payload prefix) ≡ true
unfolding to_words checksum_words
chars_in_charset version payload prefix =
    all-append (is_char_of charset) _ _
      (all_words (to_words (version ∷ payload)) (to_words_loop-IsWord 0 0 (version ∷ payload)))
      (all_words _ (All-take IsWord 8 _ (to_words_loop-IsWord 0 0 _)))

-- Every address that the indexer encodes, for any network, version and payload, passes the check
-- of the API.
pub validate_address-encode_address :
    (debug : Bytes → Bytes) (version : ℕ) (payload network : Bytes)
    → validate_address debug (encode_address version payload (prefix_for_network network)) ≡ ok tt
unfolding validate_address encode_address
validate_address-encode_address debug version payload network =
    let p = prefix_for_network-IsPrefix network in
    let prefix = prefix_for_network network in
    rw (p.splits (chars version payload prefix), validate_address)
      (ground (
        arith,
        p.listed,
        chars_not_empty version payload prefix,
        chars_in_charset version payload prefix,
      ))
