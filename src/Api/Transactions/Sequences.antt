-- ===== src/Api/Transactions/Sequences.antt =====
-- An input that is read back from the JSON of its transaction.
use mathlib.Core.List.{reverse-append, reverse-reverse}
use keryx_api_shim.Base.{
  ℕ, zero, suc, ◌+◌, ◌<◌, ◌≡◌, refl, ap, ◌∙◌, some, [], ◌∷◌, Bytes, length, reverse, arith,
}
use keryx_api_shim.Base.Decimal.{
  decimal, parse_u64, parse_u64-decimal, StartsDigit, digit, decimal_starts, EndsDigit, last_digit,
  decimal_ends,
}
use keryx_api_shim.Base.Results.{Result, ok, err}
use keryx_api_shim.Base.Words.{u64_mod}
use keryx_api_shim.Utf8.Trim.{trim, trim_front, front_space, back_space}
use keryx_api_shim.Mempool.{RenderedIn, render_input}
use keryx_api_shim.Indexer.Staging.{raw_input}
use keryx_api_shim.Api.Transactions.{TxInputJson, str, flex_u64, input_into_proto}

-- `Deserialize` of `TxInputJson`, on an input as the shim renders it.
unfoldable pub reread_input : (Bytes → Bytes) → RenderedIn → Result Bytes TxInputJson
reread_input debug i = elim (flex_u64 debug (str i.sequence)) [
  | err e ↦ err e
  | ok sequence ↦ ok (record {
    transaction_id = i.transaction_id;
    index = i.index;
    signature_script = i.signature_script;
    sequence = sequence;
    sig_op_count = i.sig_op_count;
  })
]

front_space_digit : (d : ℕ) (s : Bytes) → d < 10 → front_space ((48 + d) ∷ s) ≡ 0
unfolding front_space
front_space_digit d [] h = ground arith
front_space_digit d (b ∷ []) h = ground arith
front_space_digit d (b ∷ c ∷ s) h = ground arith

back_space_digit : (d : ℕ) (s : Bytes) → d < 10 → back_space ((48 + d) ∷ s) ≡ 0
unfolding back_space
back_space_digit d [] h = ground arith
back_space_digit d (b ∷ []) h = ground arith
back_space_digit d (b ∷ c ∷ s) h = ground arith

trim_front_stop : (space : Bytes → ℕ) (f : ℕ) (s : Bytes) → space s ≡ 0 → trim_front space f s ≡ s
unfolding trim_front
trim_front_stop space zero s h = refl
trim_front_stop space (suc f) s h = ground arith

front_space_starts : (s : Bytes) → StartsDigit s → front_space s ≡ 0
front_space_starts s (digit d rest h e) = rw e (front_space_digit d rest h)

back_space_ends : (s : Bytes) → EndsDigit s → back_space (reverse s) ≡ 0
back_space_ends s (last_digit d rest h e) =
    rw (e, reverse-append rest ((48 + d) ∷ [])) (back_space_digit d (reverse rest) h)

-- There is no white space to trim around digits.
pub trim_digits : (s : Bytes) → StartsDigit s → EndsDigit s → trim s ≡ s
unfolding trim
trim_digits s starts ends =
    let front = trim_front_stop front_space (length s) s (front_space_starts s starts) in
    rw front (
      ap reverse (trim_front_stop back_space (length s) (reverse s) (back_space_ends s ends))
      ∙ reverse-reverse s)

trim-decimal : (n : ℕ) → trim (decimal 20 n) ≡ decimal 20 n
trim-decimal n = trim_digits (decimal 20 n) (decimal_starts 19 n) (decimal_ends 19 n)

flex_u64-decimal :
    (debug : Bytes → Bytes) (n : ℕ) → n < u64_mod → flex_u64 debug (str (decimal 20 n)) ≡ ok n
unfolding flex_u64
flex_u64-decimal debug n h =
    let parsed : parse_u64 (trim (decimal 20 n)) ≡ some n =
      ap parse_u64 (trim-decimal n) ∙ parse_u64-decimal n h in
    rw (parsed, flex_u64) refl

-- An input of a broadcast transaction, with a 64-bit sequence, that is passed to the node, comes
-- back from its mempool and is rendered as JSON, is read again as the input that it was.
pub reread_input-render_input :
    (debug : Bytes → Bytes) (i : TxInputJson)
    → i.sequence < u64_mod
    → reread_input debug (render_input (raw_input (input_into_proto i))) ≡ ok i
unfolding reread_input render_input raw_input input_into_proto
reread_input-render_input debug i h = rw (flex_u64-decimal debug i.sequence h, reread_input) refl
